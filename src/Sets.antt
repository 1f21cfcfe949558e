-- ===== src/Sets.antt =====
-- rockredis/t_set.go: sets. A set is a meta with its size and the time of its change, and one key
-- for each member, with an empty value. Here are the reads and the size; Sets.Write has the writes.
-- `time.Now()` is an argument.
pub mod Write
pub mod Model
pub mod Effect
pub mod Written
pub mod Add
pub mod Create
pub mod Remove
pub mod Clear
mod Examples
use zan_redis_db.Prelude.{
  ℕ, ◌-◌, Bool, true, false, not, ◌||◌, Option, none, some, List, [], ◌∷◌, ◌++◌, length, drop, ltb,
  ◌==◌, if◌then◌else◌,
}
use zan_redis_db.Result.{
  Result, ok, err, int_number, too_much_batch_size, invalid_args, sub_key_size, ◌>>=◌,
}
use zan_redis_db.Bytes.{Bytes, lt_int64, add_int64, eq_bytes, put_uint64, uint64}
use zan_redis_db.Key.{set_type, s_encode_size_key, check_key_size, max_sub_key_len}
use zan_redis_db.Key.Elements.{
  s_encode_set_key, s_decode_set_key, s_encode_start_key, s_encode_stop_key,
}
use zan_redis_db.Expire.{HeaderMetaValue, bytes_of, encode_with_data}
use zan_redis_db.Engine.{Engine, RockDb, WriteOp, put, delete}
use zan_redis_db.Collection.{
  CollVerKeyInfo, meta_data, is_not_exist_or_expired, coll_header_meta, get_coll_version_key,
}
use zan_redis_db.Lists.{max_batch_num}

-- The size in a meta, which is 0 where there is none.
unfoldable pub size_of : Option Bytes → Result ℕ
size_of (some (b ∷ v)) = if ltb (length (b ∷ v)) 8 then err int_number else ok (uint64 (b ∷ v))
size_of _ = ok 0

unfoldable pub s_incr_size : ℕ → Bytes → HeaderMetaValue → ℕ → Result (ℕ × List WriteOp)
s_incr_size ts key h delta = do
  size ← size_of h.user_data
  let n = add_int64 size delta
  (if not (lt_int64 0 n)
      then ok (0, delete (s_encode_size_key key) ∷ [])
      else (encode_with_data (record h { user_data = some (put_uint64 n ++ put_uint64 ts) })
          >>= λ nv. ok (n, put (s_encode_size_key key) nv ∷ [])))

-- checkSubKey of rockredis/const.go.
unfoldable pub check_sub_key : Bytes → Result (Unit {0})
check_sub_key key = if ltb max_sub_key_len (length key) then err sub_key_size else ok tt

abbrev pub is_there : Option Bytes → Bool
is_there none = false
is_there (some v) = true

-- The members that an iterator over their keys gives, up to a number that is positive.
members_of : ℕ → List (Bytes × Bytes) → Result (List Bytes)
members_of num [] = ok []
members_of num ((k, v) ∷ pairs) = do
  (table, rk, m) ← s_decode_set_key k
  let rest = members_of (num - 1) pairs
  (if ltb 1 num then (rest >>= λ ms. ok (m ∷ ms)) else ok (m ∷ []))

-- A range that is open on the right.
before_stop : Bytes → List (Bytes × Bytes) → List (Bytes × Bytes)
before_stop stop [] = []
before_stop stop ((k, v) ∷ pairs) =
    let rest = before_stop stop pairs in if eq_bytes k stop then rest else (k, v) ∷ rest

module _ {E : Engine} where
  -- Whether a member's key is stored.
  unfoldable pub has_member : RockDb E → CollVerKeyInfo → Bytes → Bool
  has_member db info m = is_there (E.get db.eng (s_encode_set_key info.table info.ver_key m))

  unfoldable pub s_get_size : RockDb E → ℕ → Bytes → Result ℕ
  s_get_size db now key = do
    _ ← check_key_size key
    (h, is_expired) ← coll_header_meta db now set_type key
    (if is_expired then ok 0 else size_of h.user_data)

  unfoldable pub s_get_ver : RockDb E → ℕ → Bytes → Result ℕ
  s_get_ver db now key = do
    _ ← check_key_size key
    (h, is_expired) ← coll_header_meta db now set_type key
    (elim (h.user_data) [
      | none ↦ ok 0
      | some [] ↦ ok 0
      | some (b ∷ v) ↦
          if ltb (length (b ∷ v)) 16 then err int_number else ok (uint64 (drop 8 (b ∷ v)))
    ])

  unfoldable pub s_card : RockDb E → ℕ → Bytes → Result ℕ
  unfolding s_get_size
  s_card db now key = s_get_size db now key

  unfoldable pub s_is_member : RockDb E → ℕ → Bytes → Bytes → Result ℕ
  unfolding has_member check_sub_key
  s_is_member db now key member = do
    info ← get_coll_version_key db now set_type key
    (if is_not_exist_or_expired info
        then ok 0
        else (check_sub_key member >>= λ _. ok (if has_member db info member then 1 else 0)))

  members_found : RockDb E → ℕ → CollVerKeyInfo → Result (List Bytes)
  unfolding members_of before_stop
  members_found db num info =
      let start = s_encode_start_key info.table info.ver_key in
      let stop = s_encode_stop_key info.table info.ver_key in
      if ltb (length (bytes_of (meta_data info))) 8
      then err int_number
      else if uint64 (bytes_of (meta_data info)) == 0
      then ok []
      else members_of num (before_stop stop (E.iterate db.eng start stop))

  unfoldable pub s_members_n : RockDb E → ℕ → Bytes → ℕ → Result (List Bytes)
  unfolding members_found
  s_members_n db now key num =
      if lt_int64 max_batch_num num
      then err too_much_batch_size
      else if not (lt_int64 0 num)
      then err invalid_args
      else (get_coll_version_key db now set_type key >>= λ info.
          if is_not_exist_or_expired info then ok [] else members_found db num info)

  pub s_members : RockDb E → ℕ → Bytes → Result (List Bytes)
  unfolding s_get_size
  s_members db now key = do
    num ← s_get_size db now key
    (if num == 0 then ok [] else s_members_n db now key num)
