-- ===== src/Lists/Trim.antt =====
-- The operations of rockredis/t_list.go that cut a list, set an element, or delete whole lists.
pub mod Counter
pub mod Set
pub mod Cut
pub mod Kept
use zan_redis_db.Prelude.{
  ℕ, zero, suc, ◌+◌, ◌-◌, not, ◌&&◌, ◌||◌, Option, none, some, List, [], ◌∷◌, ◌++◌, length, ltb,
  ◌==◌, if◌then◌else◌,
}
use zan_redis_db.Result.{Result, ok, err, list_index, too_much_batch_size}
use zan_redis_db.Bytes.{Bytes, lt_int64, add_int64, neg_int64}
use zan_redis_db.Key.{l_encode_meta_key, check_key_size}
use zan_redis_db.Key.Elements.{l_encode_list_key}
use zan_redis_db.Engine.{
  Engine, RockDb, WriteOp, put, delete, delete_range, add_ops, clear_batch, commit_batch_write,
  write_batch, or_return,
}
use zan_redis_db.Collection.{CollVerKeyInfo, is_not_exist_or_expired, incr_table_key_count}
use zan_redis_db.Lists.{
  ListEnd, at_end, ListMeta, max_batch_num, range_delete_num, sub_int64, l_set_meta,
  l_header_and_meta, index_seq,
}
use zan_redis_db.Lists.Fix.{fix_list_key}

-- `count` deletions from `seq` on.
unfoldable pub delete_items : CollVerKeyInfo → ℕ → ℕ → List WriteOp
delete_items info zero seq = []
delete_items info (suc count) seq =
    delete (l_encode_list_key info.table info.ver_key seq)
    ∷ delete_items info count (add_int64 seq 1)

-- What ltrim2 deletes in front of `start` and behind `stop`.
pub front_ops : CollVerKeyInfo → ℕ → ℕ → List WriteOp
front_ops info head start =
    if lt_int64 range_delete_num start
    then delete_range (l_encode_list_key info.table info.ver_key head)
        (l_encode_list_key info.table info.ver_key (add_int64 head start))
      ∷ []
    else delete_items info start head

pub back_ops : CollVerKeyInfo → ℕ → ℕ → ℕ → List WriteOp
back_ops info head llen stop =
    if lt_int64 range_delete_num (sub_int64 llen stop)
    then delete_range
        (l_encode_list_key info.table info.ver_key (add_int64 head (add_int64 stop 1)))
        (l_encode_list_key info.table info.ver_key (add_int64 head llen))
      ∷ []
    else delete_items info (llen - (stop + 1)) (add_int64 head (add_int64 stop 1))

-- The first and the last number that ltrim deletes.
trim_ends : ListEnd → ℕ → ListMeta → ℕ × ℕ
trim_ends where_seq trim_size m =
    let last = sub_int64 (add_int64 m.head_seq trim_size) 1 in
    let first = add_int64 (sub_int64 m.tail_seq trim_size) 1 in
    at_end where_seq (m.head_seq, (if lt_int64 m.tail_seq last then m.tail_seq else last))
      ((if lt_int64 m.head_seq first then first else m.head_seq), m.tail_seq)

-- What ltrim deletes.
end_ops : CollVerKeyInfo → ℕ → ℕ → List WriteOp
end_ops info first last =
    let last_key = l_encode_list_key info.table info.ver_key last in
    if lt_int64 range_delete_num (sub_int64 last first)
    then delete_range (l_encode_list_key info.table info.ver_key first) last_key
      ∷ (delete last_key ∷ [])
    else delete_items info (if lt_int64 last first then 0 else sub_int64 last first + 1) first

-- LSet drops an error of the meta, which then is not in the batch.
ops_of : Result (ℕ × List WriteOp) → List WriteOp
ops_of (err e) = []
ops_of (ok (size, ops)) = ops

module _ {E : Engine} where
  -- The calls of lDelete on the batch, and the number of elements. An error is a zero. The policy is
  -- WaitCompact, where the elements are left to the compaction.
  delete_found : RockDb E → Bytes → Result (CollVerKeyInfo × ListMeta) → ℕ × List WriteOp
  delete_found db key (err e) = (0, [])
  delete_found db key (ok (info, m)) =
      if is_not_exist_or_expired info || m.size == 0 then (0, []) else (
        m.size,
        delete (l_encode_meta_key key)
            ∷ (if lt_int64 0 m.size then incr_table_key_count db info.table (neg_int64 1) else []),
      )

  unfoldable pub l_delete : RockDb E → ℕ → Bytes → ℕ × List WriteOp
  unfolding delete_found
  l_delete db ts key = delete_found db key (l_header_and_meta db ts key)

  -- The end of ltrim2: the list is counted down where it is empty now, and all is written.
  trim_written : RockDb E → CollVerKeyInfo → ℕ → ℕ → Result (Unit {0}) × RockDb E
  trim_written db info llen new_len =
      let counted =
        if lt_int64 0 llen && new_len == 0
        then incr_table_key_count db info.table (neg_int64 1)
        else [] in
      (ok tt, write_batch (add_ops db counted))

  kept_end :
      RockDb E
      → ℕ
      → Bytes
      → CollVerKeyInfo
      → ℕ
      → Result (ℕ × List WriteOp)
      → Result (Unit {0}) × RockDb E
  unfolding trim_written
  kept_end db ts key info llen (err e) = (err e, clear_batch (fix_list_key db ts key))
  kept_end db ts key info llen (ok (new_len, ops)) = trim_written (add_ops db ops) info llen new_len

  -- `stop` is below the length here, and `start` not above `stop`, both not negative.
  trim_kept :
      RockDb E → ℕ → Bytes → CollVerKeyInfo → ListMeta → ℕ → ℕ → Result (Unit {0}) × RockDb E
  unfolding front_ops back_ops kept_end
  trim_kept db ts key info m start stop =
      let head = m.head_seq in
      let front = if lt_int64 0 start then front_ops info head start else [] in
      let back =
        if lt_int64 stop (sub_int64 m.size 1) then back_ops info head m.size stop else [] in
      kept_end (add_ops db (front ++ back)) ts key info m.size
        (l_set_meta key info.old_header (add_int64 head start) (add_int64 head stop) ts)

  trim_found :
      RockDb E → ℕ → Bytes → ℕ → ℕ → CollVerKeyInfo → ListMeta → Result (Unit {0}) × RockDb E
  unfolding trim_written trim_kept
  trim_found db ts key start stop info m =
      let from = if lt_int64 start 0 then add_int64 m.size start else start in
      let to = if lt_int64 stop 0 then add_int64 m.size stop else stop in
      if not (lt_int64 from m.size) || lt_int64 to from
      then trim_written (add_ops db ((l_delete db ts key).1)) info m.size 0
      else trim_kept db ts key info m (if lt_int64 from 0 then 0 else from)
          (if lt_int64 to m.size then to else sub_int64 m.size 1)

  unfoldable pub ltrim2 : RockDb E → ℕ → Bytes → ℕ → ℕ → Result (Unit {0}) × RockDb E
  unfolding trim_found
  ltrim2 db ts key start stop = or_return (check_key_size key) db (λ _.
      or_return (l_header_and_meta db ts key) db (λ p.
        if is_not_exist_or_expired (p.0)
        then (ok tt, db)
        else trim_found db ts key start stop (p.0) (p.1)))

  trim_end :
      RockDb E → ℕ → Bytes → ListEnd → CollVerKeyInfo → ListMeta → ℕ → ℕ → Result ℕ × RockDb E
  unfolding end_ops
  trim_end db ts key where_seq info m first last =
      let head = at_end where_seq (add_int64 last 1) m.head_seq in
      let tail = at_end where_seq m.tail_seq (sub_int64 first 1) in
      let db' = add_ops db (end_ops info first last) in
      elim (l_set_meta key info.old_header head tail ts) [
        | err e ↦ (err e, clear_batch (fix_list_key db' ts key))
        | ok (new_len, ops) ↦
            let counted =
              if new_len == 0 then incr_table_key_count db info.table (neg_int64 1) else [] in
            (ok (add_int64 (sub_int64 last first) 1), write_batch (add_ops db' (ops ++ counted)))
      ]

  -- LTrimFront and LTrimBack.
  unfoldable pub ltrim : RockDb E → ℕ → Bytes → ℕ → ListEnd → Result ℕ × RockDb E
  unfolding trim_end trim_ends
  ltrim db ts key trim_size where_seq = or_return (check_key_size key) db (λ _.
      if trim_size == 0
      then (ok 0, db)
      else or_return (l_header_and_meta db ts key) db (λ p.
        if is_not_exist_or_expired (p.0) || (p.1).size == 0
        then (ok 0, db)
        else trim_end db ts key where_seq (p.0) (p.1) ((trim_ends where_seq trim_size (p.1)).0)
            ((trim_ends where_seq trim_size (p.1)).1)))

  set_at :
      RockDb E
      → ℕ
      → Bytes
      → Bytes
      → CollVerKeyInfo
      → ListMeta
      → Option ℕ
      → Result (Unit {0}) × RockDb E
  unfolding ops_of
  set_at db ts key value info m none = (err list_index, db)
  set_at db ts key value info m (some seq) = (
    ok tt,
    commit_batch_write (
        add_ops db (
          ops_of (l_set_meta key info.old_header m.head_seq m.tail_seq ts)
          ++ (put (l_encode_list_key info.table info.ver_key seq) value ∷ []))),
  )

  unfoldable pub l_set : RockDb E → ℕ → Bytes → ℕ → Bytes → Result (Unit {0}) × RockDb E
  unfolding set_at
  l_set db ts key index value = or_return (check_key_size key) db (λ _.
      or_return (l_header_and_meta db ts key) db (λ p.
        if is_not_exist_or_expired (p.0) || (p.1).size == 0
        then (err list_index, db)
        else set_at db ts key value (p.0) (p.1) (index_seq (p.1) index)))

  -- 1 where something was deleted.
  unfoldable pub l_clear : RockDb E → ℕ → Bytes → Result ℕ × RockDb E
  l_clear db ts key = or_return (check_key_size key) db (λ _. (
    ok (if lt_int64 0 ((l_delete db ts key).0) then 1 else 0),
    commit_batch_write (add_ops db ((l_delete db ts key).1)),
  ))

  -- A key that is refused ends the loop; what the keys before it put in the batch stays there.
  mclear_ops : RockDb E → List Bytes → Result (Unit {0}) × List WriteOp
  mclear_ops db [] = (ok tt, [])
  mclear_ops db (key ∷ keys) =
      let rest = mclear_ops db keys in
      or_return (check_key_size key) [] (λ _. (rest.0, (l_delete db 0 key).1 ++ rest.1))

  unfoldable pub l_mclear : RockDb E → List Bytes → Result ℕ × RockDb E
  unfolding mclear_ops
  l_mclear db keys =
      if ltb max_batch_num (length keys)
      then (err too_much_batch_size, db)
      else elim ((mclear_ops db keys).0) [
        | err e ↦ (err e, add_ops db ((mclear_ops db keys).1))
        | ok u ↦ (ok (length keys), commit_batch_write (add_ops db ((mclear_ops db keys).1)))
      ]
