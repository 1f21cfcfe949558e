-- ===== src/Kv/Write.antt =====
-- The operations of rockredis/t_kv.go that write. A command that is being batched leaves its calls in
-- the shared batch; an error leaves what was put there before it.
pub mod Store
pub mod Change
pub mod Range
pub mod Bits
use zan_redis_db.Prelude.{
  ℕ, ◌+◌, ◌-◌, ◌*◌, ◌/◌, ◌%◌, ◌^◌, Bool, true, false, not, ◌&&◌, ◌||◌, Option, none, some, List, [],
  ◌∷◌, ◌++◌, length, take, drop, replicate, get_or, ltb, ◌==◌, if◌then◌else◌,
}
use zan_redis_db.Result.{
  Result, ok, err, too_much_batch_size, value_size, invalid_ttl, bit_overflow, bit_value,
  index_panic,
}
use zan_redis_db.Bytes.{Bytes, lt_int64, add_int64, neg_int64, eq_bytes}
use zan_redis_db.Key.{check_value_size, max_value_size}
use zan_redis_db.Expire.{bytes_of, second, raw_expire_at}
use zan_redis_db.Engine.{
  Engine, RockDb, WriteOp, put, delete, add_ops, commit_batch_write, maybe_commit_batch,
  write_batch, clear_batch, or_return,
}
use zan_redis_db.Collection.{incr_table_key_count}
use zan_redis_db.Lists.{max_batch_num}
use zan_redis_db.Kv.{
  VerKeyInfo, convert_redis_key_to_db_kv_key, encode_real_value, reset_with_new_kv_value, is_some,
  get_raw_db_kv_value, get_db_kv_real_value_and_header, prepare_kv_value_for_write,
}
use zan_redis_db.Kv.Number.{str_int64, format_int64}

-- The source drops the error of the encoder.
bytes_or_nil : Result Bytes → Bytes
bytes_or_nil (ok b) = b
bytes_or_nil (err e) = []

-- The number that incr begins with: that of the value, or zero.
old_number : Bool → Option Bytes → Result ℕ
old_number true real = ok 0
old_number false none = ok 0
old_number false (some v) = str_int64 v

-- `copy(v[offset:], value)`, which panics where the offset is not in the slice.
unfoldable pub copy_at : Bytes → ℕ → Bytes → Result Bytes
copy_at v offset value =
    if lt_int64 offset 0 || lt_int64 (length v) offset
    then err index_panic
    else ok (take offset v ++ (take (length v - offset) value ++ drop (offset + length value) v))

-- `append(v, make([]byte, extra)...)` where `extra` is positive.
unfoldable pub extended : Bytes → ℕ → Bytes
extended v len = if ltb (length v) len then v ++ replicate (len - length v) 0 else v

-- A bit of a value, counted from the top of each byte, and the value with that bit set to `bit`.
bit_place : ℕ → ℕ
bit_place offset = 2 ^ (7 - offset % 8)

unfoldable pub old_bit : Bytes → ℕ → ℕ
unfolding bit_place
old_bit v offset = get_or v (offset / 8) 0 / bit_place offset % 2

unfoldable pub with_bit : Bytes → ℕ → ℕ → Bytes
unfolding bit_place old_bit
with_bit v offset bit =
    let byte = get_or v (offset / 8) 0 in
    let cleared = byte - old_bit v offset * bit_place offset in
    take (offset / 8) v ++ ((cleared + bit * bit_place offset) ∷ drop (offset / 8 + 1) v)

abbrev pub max_bit_offset : ℕ
max_bit_offset = 2 * 8 * 1024 * 1024

-- The counts of MSet's map.
unfoldable pub count_table : Bytes → List (Bytes × ℕ) → List (Bytes × ℕ)
count_table table [] = (table, 1) ∷ []
count_table table ((t, n) ∷ cnt) =
    if eq_bytes t table then (t, n + 1) ∷ cnt else (t, n) ∷ count_table table cnt

deleted_number : Result ℕ → ℕ
deleted_number (ok n) = n
deleted_number (err e) = 0

module _ {E : Engine} where
  abbrev exists : RockDb E → Bytes → Bool
  exists db kk = is_some (E.get db.eng kk)

  -- Whether a key counts as new. An estimated counter does not look.
  unfoldable pub counts_as_new : RockDb E → Bytes → Bool
  unfolding is_some
  counts_as_new db kk = db.enable_table_counter && (db.estimate_table_counter || not (exists db kk))

  unfoldable pub count_new : RockDb E → Bytes → Bytes → List WriteOp
  unfolding counts_as_new
  count_new db table kk = if counts_as_new db kk then incr_table_key_count db table 1 else []

  -- The counter of a key that is not there and was not there before it expired.
  unfoldable pub count_created : RockDb E → VerKeyInfo → Option Bytes → List WriteOp
  unfolding is_some
  count_created db info real =
      if not (is_some real) && not info.expired then incr_table_key_count db info.table 1 else []

  -- KVSet and SetEx write the value in the same way.
  set_reset : RockDb E → ℕ → Bytes → Bytes → Bytes → ℕ → Result (Unit {0}) × RockDb E
  unfolding count_new
  set_reset db ts table kk value ttl =
      let db' = add_ops db (count_new db table kk) in
      or_return (reset_with_new_kv_value ts value ttl) db'
        (λ raw. (ok tt, maybe_commit_batch (add_ops db' (put kk raw ∷ []))))

  unfoldable pub kv_set : RockDb E → ℕ → Bytes → Bytes → Result (Unit {0}) × RockDb E
  unfolding set_reset
  kv_set db ts key value =
      or_return (convert_redis_key_to_db_kv_key key) db
        (λ p. or_return (check_value_size value) db (λ _. set_reset db ts (p.0) (p.1) value 0))

  unfoldable pub set_ex : RockDb E → ℕ → Bytes → ℕ → Bytes → Result (Unit {0}) × RockDb E
  unfolding set_reset
  set_ex db ts key duration value =
      if not (lt_int64 0 duration)
      then (err invalid_ttl, db)
      else or_return (convert_redis_key_to_db_kv_key key) db (λ p.
        or_return (check_value_size value) db (λ _. set_reset db ts (p.0) (p.1) value duration))

  incr_found : RockDb E → ℕ → ℕ → VerKeyInfo → Option Bytes → ℕ → Result ℕ × RockDb E
  unfolding is_some
  incr_found db ts delta info real n =
      or_return (encode_real_value ts info.old_header (format_int64 (add_int64 n delta))) db (λ buf.
        let counted = if is_some real then [] else incr_table_key_count db info.table 1 in
        (ok (add_int64 n delta), commit_batch_write (add_ops db (put info.ver_key buf ∷ counted))))

  -- Incr, IncrBy, Decr and DecrBy.
  unfoldable pub incr : RockDb E → ℕ → Bytes → ℕ → Result ℕ × RockDb E
  unfolding incr_found old_number
  incr db ts key delta = or_return (prepare_kv_value_for_write db ts key false) db (λ p.
      or_return (old_number (p.0).expired (p.1)) db (λ n. incr_found db ts delta (p.0) (p.1) n))

  -- What KVDel counts, and the number of keys that it says it has deleted.
  unfoldable pub del_count : RockDb E → Bytes → Bytes → ℕ × List WriteOp
  unfolding is_some
  del_count db table kk =
      if not db.enable_table_counter
      then (1, [])
      else if db.estimate_table_counter || exists db kk
      then (1, incr_table_key_count db table (neg_int64 1))
      else (0, [])

  unfoldable pub kv_del : RockDb E → Bytes → Result ℕ × RockDb E
  unfolding del_count
  kv_del db key = or_return (convert_redis_key_to_db_kv_key key) db (λ p. (
    ok ((del_count db (p.0) (p.1)).0),
    maybe_commit_batch (add_ops db ((del_count db (p.0) (p.1)).1 ++ (delete (p.1) ∷ []))),
  ))

  pub kv_del_with_batch : RockDb E → Bytes → List WriteOp → Result (Unit {0}) × List WriteOp
  unfolding del_count
  kv_del_with_batch db key wb =
      or_return (convert_redis_key_to_db_kv_key key) wb
        (λ p. (ok tt, wb ++ ((del_count db (p.0) (p.1)).1 ++ (delete (p.1) ∷ []))))

  -- An error of KVDel is not looked at.
  unfoldable pub del_each : RockDb E → List Bytes → ℕ × RockDb E
  unfolding deleted_number
  del_each db [] = (0, db)
  del_each db (key ∷ keys) =
      let rest = del_each ((kv_del db key).1) keys in
      (deleted_number ((kv_del db key).0) + rest.0, rest.1)

  unfoldable pub del_keys : RockDb E → List Bytes → Result ℕ × RockDb E
  del_keys db [] = (ok 0, db)
  del_keys db (key ∷ keys) =
      (ok ((del_each db (key ∷ keys)).0), maybe_commit_batch ((del_each db (key ∷ keys)).1))

  -- The loop of MSet: the counts, and the calls on the batch, which an error leaves there.
  unfoldable pub mset_ops :
      RockDb E
      → ℕ
      → List (Bytes × Bytes)
      → List (Bytes × ℕ)
      → Result (List (Bytes × ℕ)) × List WriteOp
  mset_ops db ts [] cnt = (ok cnt, [])
  mset_ops db ts ((key, value) ∷ args) cnt =
      let rest = λ (c : List (Bytes × ℕ)). mset_ops db ts args c in
      or_return (convert_redis_key_to_db_kv_key key) [] (λ p.
        or_return (check_value_size value) [] (λ _.
          or_return (reset_with_new_kv_value ts value 0) [] (λ raw.
            let cnt' = if counts_as_new db (p.1) then count_table (p.0) cnt else cnt in
            ((rest cnt').0, put (p.1) raw ∷ (rest cnt').1))))

  unfoldable pub table_counts : RockDb E → List (Bytes × ℕ) → List WriteOp
  table_counts db [] = []
  table_counts db ((table, n) ∷ cnt) = incr_table_key_count db table n ++ table_counts db cnt

  unfoldable pub mset : RockDb E → ℕ → List (Bytes × Bytes) → Result (Unit {0}) × RockDb E
  mset db ts [] = (ok tt, db)
  mset db ts (arg ∷ args) =
      let done = mset_ops db ts (arg ∷ args) [] in
      if ltb max_batch_num (length (arg ∷ args))
      then (err too_much_batch_size, db)
      else or_return (done.0) (add_ops db (done.1))
          (λ cnt. (ok tt, maybe_commit_batch (add_ops db (done.1 ++ table_counts db cnt))))

  pub kv_get_set : RockDb E → ℕ → Bytes → Bytes → Result (Option Bytes) × RockDb E
  unfolding count_created bytes_or_nil
  kv_get_set db ts key value = or_return (check_value_size value) db (λ _.
      or_return (get_db_kv_real_value_and_header db ts key) db (λ p. (
        ok (if (p.0).expired then none else p.1),
        maybe_commit_batch (
            add_ops db (
              count_created db (p.0) (p.1)
              ++ (put (p.0).ver_key (bytes_or_nil (reset_with_new_kv_value ts value 0)) ∷ []))),
      )))

  -- 0 where a live value is there already.
  unfoldable pub set_nx : RockDb E → ℕ → Bytes → Bytes → Result ℕ × RockDb E
  unfolding count_created bytes_or_nil is_some
  set_nx db ts key value = or_return (check_value_size value) db (λ _.
      or_return (prepare_kv_value_for_write db ts key false) db (λ p.
        if is_some (p.1) && not (p.0).expired then (ok 0, db) else (
          ok 1,
          maybe_commit_batch (
              add_ops db (
                count_created db (p.0) (p.1)
                ++ (put (p.0).ver_key (bytes_or_nil (reset_with_new_kv_value ts value 0)) ∷ []))),
        )))

  -- The end of SetRange, Append and BitSetOld: the value is written over the old one.
  unfoldable pub rewrite_value : RockDb E → ℕ → VerKeyInfo → Bytes → ℕ → Result ℕ × RockDb E
  rewrite_value db ts info value result =
      or_return (encode_real_value ts info.old_header value) db
        (λ buf. (ok result, commit_batch_write (add_ops db (put info.ver_key buf ∷ []))))

  unfoldable pub set_range : RockDb E → ℕ → Bytes → ℕ → Bytes → Result ℕ × RockDb E
  unfolding count_created
  set_range db ts key offset [] = (ok 0, db)
  set_range db ts key offset (b ∷ bs) =
      if lt_int64 max_value_size (add_int64 (length (b ∷ bs)) offset)
      then (err value_size, db)
      else or_return (prepare_kv_value_for_write db ts key false) db (λ p.
        let db' = add_ops db (count_created db (p.0) (p.1)) in
        let total = add_int64 (length (b ∷ bs)) offset in
        let long = if lt_int64 total 0 then bytes_of (p.1) else extended (bytes_of (p.1)) total in
        or_return (copy_at long offset (b ∷ bs)) db'
          (λ value. rewrite_value db' ts (p.0) value (length value)))

  unfoldable pub append : RockDb E → ℕ → Bytes → Bytes → Result ℕ × RockDb E
  unfolding count_created
  append db ts key [] = (ok 0, db)
  append db ts key (b ∷ bs) = or_return (prepare_kv_value_for_write db ts key false) db (λ p.
      let value = bytes_of (p.1) ++ (b ∷ bs) in
      if ltb max_value_size (length value)
      then (err value_size, db)
      else rewrite_value (add_ops db (count_created db (p.0) (p.1))) ts (p.0) value (length value))

  -- A value that would have to grow for a zero bit is left alone; the counter of its key is not.
  bit_set_value : RockDb E → ℕ → ℕ → ℕ → VerKeyInfo → Option Bytes → Result ℕ × RockDb E
  unfolding count_created
  bit_set_value db ts offset bit info real =
      let old = if info.expired then [] else bytes_of real in
      let db' = add_ops db (count_created db info real) in
      let value = extended old (offset / 8 + 1) in
      if ltb (length old) (offset / 8 + 1) && bit == 0
      then (ok 0, db')
      else rewrite_value db' ts info (with_bit value offset bit) (old_bit value offset)

  unfoldable pub bit_set_old : RockDb E → ℕ → Bytes → ℕ → ℕ → Result ℕ × RockDb E
  unfolding bit_set_value
  bit_set_old db ts key offset bit =
      if lt_int64 max_bit_offset offset || lt_int64 offset 0
      then (err bit_overflow, db)
      else if ltb 1 bit
      then (err bit_value, db)
      else or_return (prepare_kv_value_for_write db ts key false) db
          (λ p. bit_set_value db ts offset bit (p.0) (p.1))

  -- ExpireAt of the policy for a key-value pair: the batch is written, and cleared on every branch.
  unfoldable pub kv_expire_at : RockDb E → Bytes → Bytes → ℕ → Result ℕ × RockDb E
  kv_expire_at db kk raw when =
      or_return (raw_expire_at raw when) (clear_batch db)
        (λ raw'. (ok 1, write_batch (add_ops db (put kk raw' ∷ []))))

  expire_found : RockDb E → ℕ → Bytes × Bytes × Option Bytes × Bool → Result ℕ × RockDb E
  expire_found db when (table, kk, some raw, false) = kv_expire_at db kk raw when
  expire_found db when (table, kk, some raw, true) = (ok 0, db)
  expire_found db when (table, kk, none, is_expired) = (ok 0, db)

  -- `ts` is not negative.
  unfoldable pub kv_expire : RockDb E → ℕ → Bytes → ℕ → Result ℕ × RockDb E
  unfolding expire_found
  kv_expire db ts key duration =
      or_return (get_raw_db_kv_value db ts key) db
        (expire_found db (add_int64 (ts / second) duration))

  unfoldable pub kv_persist : RockDb E → ℕ → Bytes → Result ℕ × RockDb E
  unfolding expire_found
  kv_persist db ts key = or_return (get_raw_db_kv_value db ts key) db (expire_found db 0)
