-- ===== src/Lists.antt =====
-- rockredis/t_list.go: lists, as elements under consecutive sequence numbers and a meta value with
-- the first and the last of them. An operation takes the handle and gives its result and the handle
-- afterwards; sequence numbers, indexes and sizes are int64 patterns. Time is an argument also where
-- the source reads the clock. The metrics and the statistics of large keys are left out.
pub mod Model
pub mod Places
pub mod Read
pub mod Effect
pub mod Fix
pub mod Write
pub mod Trim
mod Examples
use zan_redis_db.Prelude.{
  ℕ, ◌+◌, ◌-◌, ◌*◌, ◌%◌, ◌^◌, Bool, true, false, not, ◌&&◌, ◌||◌, Option, none, some, List, [], ◌∷◌,
  ◌++◌, map, length, drop, take, ltb, leb, ◌==◌, if◌then◌else◌,
}
use zan_redis_db.Result.{
  Result, ok, err, list_meta, list_seq, list_index, too_much_batch_size, ◌>>=◌,
}
use zan_redis_db.Bytes.{Bytes, lt_int64, add_int64, neg_int64, put_uint64, uint64}
use zan_redis_db.Key.{list_type, l_encode_meta_key, check_key_size}
use zan_redis_db.Key.Elements.{l_encode_list_key, l_decode_list_key}
use zan_redis_db.Expire.{HeaderMetaValue, encode_with_data}
use zan_redis_db.Engine.{
  Engine, RockDb, WriteOp, put, delete, add_ops, clear_batch, commit_batch_write, or_return,
}
use zan_redis_db.Collection.{
  CollVerKeyInfo, meta_data, is_not_exist_or_expired, get_coll_version_key, incr_table_key_count,
}

-- listHeadSeq and listTailSeq as the ends they stand for.
pub data ListEnd : Type 0 where
  head_end tail_end : ListEnd

-- The one of two that belongs to an end.
abbrev pub at_end {ℓ} : {A : Type ℓ} → ListEnd → A → A → A
at_end head_end x y = x
at_end tail_end x y = y

abbrev pub list_min_seq : ℕ
list_min_seq = 1000

abbrev pub list_max_seq : ℕ
list_max_seq = 2 ^ 62 - 1000

abbrev pub list_initial_seq : ℕ
list_initial_seq = 2 ^ 61

abbrev pub max_batch_num : ℕ
max_batch_num = 5000

abbrev pub range_delete_num : ℕ
range_delete_num = 5000

abbrev pub sub_int64 : ℕ → ℕ → ℕ
sub_int64 a b = add_int64 a (neg_int64 b)

pub record ListMeta : Type 0 where
  pub head_seq : ℕ
  pub tail_seq : ℕ
  pub size : ℕ
  pub meta_ts : ℕ

stored_meta : Bytes → Result ListMeta
stored_meta v =
    let head = uint64 v in
    let tail = uint64 (drop 8 v) in
    if ltb (length v) 16
    then err list_meta
    else ok (record {
      head_seq = head;
      tail_seq = tail;
      size = add_int64 (sub_int64 tail head) 1;
      meta_ts = (if ltb (length v) 24 then 0 else uint64 (drop 16 v));
    })

unfoldable pub parse_list_meta : Option Bytes → Result ListMeta
unfolding stored_meta
parse_list_meta (some (b ∷ v)) = stored_meta (b ∷ v)
parse_list_meta _ =
    ok (record { head_seq = list_initial_seq; tail_seq = list_initial_seq; size = 0; meta_ts = 0 })

abbrev pub meta_bytes : ℕ → ℕ → ℕ → Bytes
meta_bytes head tail ts = put_uint64 head ++ (put_uint64 tail ++ put_uint64 ts)

unfoldable pub encode_list_meta : HeaderMetaValue → ℕ → ℕ → ℕ → Result Bytes
encode_list_meta h head tail ts =
    encode_with_data (record h { user_data = some (meta_bytes head tail ts) })

-- The size, and the call on the batch.
unfoldable pub l_set_meta : Bytes → HeaderMetaValue → ℕ → ℕ → ℕ → Result (ℕ × List WriteOp)
l_set_meta key h head tail ts =
    let size = add_int64 (sub_int64 tail head) 1 in
    if lt_int64 size 0
    then err list_seq
    else if size == 0
    then ok (size, delete (l_encode_meta_key key) ∷ [])
    else do buf ← encode_list_meta h head tail ts; ok (size, put (l_encode_meta_key key) buf ∷ [])

unfoldable pub l_header_and_meta :
    {E : Engine} → RockDb E → ℕ → Bytes → Result (CollVerKeyInfo × ListMeta)
l_header_and_meta db ts key = do
  info ← get_coll_version_key db ts list_type key
  m ← parse_list_meta (meta_data info)
  ok (info, m)

-- `index` from the front, or from the back where it is negative; no number where it is outside.
unfoldable pub index_seq : ListMeta → ℕ → Option ℕ
index_seq m index =
    let seq =
      if not (lt_int64 index 0)
      then add_int64 m.head_seq index
      else add_int64 (add_int64 m.tail_seq index) 1 in
    if lt_int64 seq m.head_seq || lt_int64 m.tail_seq seq then none else some seq

found_at : {E : Engine} → RockDb E → CollVerKeyInfo → Option ℕ → Option Bytes
found_at db info none = none
found_at {E = E} db info (some seq) = E.get db.eng (l_encode_list_key info.table info.ver_key seq)

unfoldable pub l_index : {E : Engine} → RockDb E → ℕ → Bytes → ℕ → Result (Option Bytes)
unfolding found_at
l_index db ts key index = do
  (info, m) ← l_header_and_meta db ts key
  ok (if is_not_exist_or_expired info then none else found_at db info (index_seq m index))

unfoldable pub l_ver : {E : Engine} → RockDb E → Bytes → Result ℕ
l_ver db key = do
  info ← get_coll_version_key db 0 list_type key
  m ← parse_list_meta (meta_data info)
  ok m.meta_ts

unfoldable pub l_len : {E : Engine} → RockDb E → ℕ → Bytes → Result ℕ
l_len db ts key = do
  info ← get_coll_version_key db ts list_type key
  (if is_not_exist_or_expired info
      then ok 0
      else (parse_list_meta (meta_data info) >>= λ m. ok m.size))

-- The range of LRange, made to lie in the list; none where it is empty.
unfoldable pub clamp_range : ℕ → ℕ → ℕ → Option (ℕ × ℕ)
clamp_range llen start stop =
    let start' = if lt_int64 start 0 then add_int64 llen start else start in
    let stop' = if lt_int64 stop 0 then add_int64 llen stop else stop in
    let from = if lt_int64 start' 0 then 0 else start' in
    let to = if lt_int64 stop' llen then stop' else sub_int64 llen 1 in
    if lt_int64 stop' from || not (lt_int64 from llen) then none else some (from, to)

range_values :
    {E : Engine} → RockDb E → CollVerKeyInfo → ListMeta → Option (ℕ × ℕ) → Result (List Bytes)
range_values db info m none = ok []
range_values {E = E} db info m (some (start, stop)) =
    let limit = add_int64 (sub_int64 stop start) 1 in
    let first = l_encode_list_key info.table info.ver_key (add_int64 m.head_seq start) in
    let last = l_encode_list_key info.table info.ver_key m.tail_seq in
    if lt_int64 max_batch_num limit
    then err too_much_batch_size
    else ok (map (λ e. e.1) (take limit (E.iterate db.eng first last)))

unfoldable pub l_range : {E : Engine} → RockDb E → ℕ → Bytes → ℕ → ℕ → Result (List Bytes)
unfolding range_values
l_range db ts key start stop = do
  _ ← check_key_size key
  (info, m) ← l_header_and_meta db ts key
  (if is_not_exist_or_expired info
      then ok []
      else range_values db info m (clamp_range m.size start stop))
