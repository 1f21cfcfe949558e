-- ===== src/Sets/Write.antt =====
-- The operations of rockredis/t_set.go that write. SADD and SREM clear the shared batch on every
-- branch behind the first check.
use zan_redis_db.Prelude.{suc, ℕ, not, ◌&&◌, List, [], ◌∷◌, ◌++◌, length, ltb, ◌==◌, if◌then◌else◌}
use zan_redis_db.Result.{Result, ok, err, too_much_batch_size, ◌>>=◌}
use zan_redis_db.Bytes.{Bytes, lt_int64, neg_int64}
use zan_redis_db.Key.{set_type, s_encode_size_key, check_key_size, check_coll_kf_size}
use zan_redis_db.Key.Elements.{s_encode_set_key}
use zan_redis_db.Engine.{
  Engine, RockDb, WriteOp, put, delete, add_ops, clear_batch, commit_batch_write, write_batch,
  or_return,
}
use zan_redis_db.Collection.{
  CollVerKeyInfo, is_not_exist_or_expired, get_coll_version_key, prepare_coll_key_for_write,
  incr_table_key_count,
}
use zan_redis_db.Lists.{max_batch_num}
use zan_redis_db.Sets.{s_incr_size, has_member, s_get_size, s_members_n}

module _ {E : Engine} where
  -- The loop of SAdd: the members that are not stored yet, counted. The batch is not looked at, so
  -- a member that is given twice counts twice.
  unfoldable pub add_members :
      RockDb E → CollVerKeyInfo → Bytes → List Bytes → Result (ℕ × List WriteOp)
  add_members db info key [] = ok (0, [])
  add_members db info key (m ∷ ms) = do
    _ ← check_coll_kf_size key m
    (num, ops) ← add_members db info key ms
    (if has_member db info m
        then ok (num, ops)
        else ok (suc num, put (s_encode_set_key info.table info.ver_key m) [] ∷ ops))

  -- The loop of SRem.
  unfoldable pub rem_members :
      RockDb E → CollVerKeyInfo → Bytes → List Bytes → Result (ℕ × List WriteOp)
  rem_members db info key [] = ok (0, [])
  rem_members db info key (m ∷ ms) = do
    _ ← check_coll_kf_size key m
    (num, ops) ← rem_members db info key ms
    (if not (has_member db info m)
        then ok (num, ops)
        else ok (suc num, delete (s_encode_set_key info.table info.ver_key m) ∷ ops))

  -- The ends of SAdd and SRem: the size, the counter, and the write.
  unfoldable pub add_end :
      RockDb E → ℕ → Bytes → CollVerKeyInfo → ℕ × List WriteOp → Result ℕ × RockDb E
  add_end db ts key info (num, ops) =
      or_return (s_incr_size ts key info.old_header num) (clear_batch db) (λ p.
        let counted =
          if lt_int64 0 (p.0) && p.0 == num && not info.expired
          then incr_table_key_count db info.table 1
          else [] in
        (ok num, write_batch (add_ops db (ops ++ (p.1 ++ counted)))))

  unfoldable pub rem_end :
      RockDb E → ℕ → Bytes → CollVerKeyInfo → ℕ × List WriteOp → Result ℕ × RockDb E
  rem_end db ts key info (num, ops) =
      or_return (s_incr_size ts key info.old_header (neg_int64 num)) (clear_batch db) (λ p.
        let counted =
          if lt_int64 0 num && p.0 == 0
          then incr_table_key_count db info.table (neg_int64 1)
          else [] in
        (ok num, write_batch (add_ops db (ops ++ (p.1 ++ counted)))))

  unfoldable pub s_add : RockDb E → ℕ → Bytes → List Bytes → Result ℕ × RockDb E
  unfolding add_members add_end
  s_add db ts key args =
      if ltb max_batch_num (length args)
      then (err too_much_batch_size, db)
      else or_return (prepare_coll_key_for_write db ts set_type key []) (clear_batch db) (λ info.
        or_return (add_members db info key args) (clear_batch db) (add_end db ts key info))

  -- An expired set is not told from one that lives.
  unfoldable pub s_rem : RockDb E → ℕ → Bytes → List Bytes → Result ℕ × RockDb E
  unfolding rem_members rem_end
  s_rem db ts key [] = (ok 0, db)
  s_rem db ts key (m ∷ ms) =
      or_return (get_coll_version_key db ts set_type key) (clear_batch db) (λ info.
        or_return (rem_members db info key (m ∷ ms)) (clear_batch db) (rem_end db ts key info))

  pub s_pop : RockDb E → ℕ → Bytes → ℕ → Result (List Bytes) × RockDb E
  unfolding s_rem
  s_pop db ts key count =
      or_return (s_members_n db ts key count) db
        (λ vals. let done = s_rem db ts key vals in ((done.0 >>= λ n. ok vals), done.1))

  -- The calls of sDelete on the batch, and the number of members. An error is a zero. The policy is
  -- WaitCompact, where the members are left to the compaction.
  unfoldable pub delete_sized : RockDb E → Bytes → CollVerKeyInfo → Result ℕ → ℕ × List WriteOp
  delete_sized db key info (err e) = (0, [])
  delete_sized db key info (ok num) = if num == 0 then (0, []) else (
    num,
    (if lt_int64 0 num then incr_table_key_count db info.table (neg_int64 1) else [])
        ++ (delete (s_encode_size_key key) ∷ []),
  )

  unfoldable pub delete_found : RockDb E → ℕ → Bytes → Result CollVerKeyInfo → ℕ × List WriteOp
  unfolding delete_sized
  delete_found db ts key (err e) = (0, [])
  delete_found db ts key (ok info) =
      if is_not_exist_or_expired info
      then (0, [])
      else delete_sized db key info (s_get_size db ts key)

  unfoldable pub s_delete : RockDb E → ℕ → Bytes → ℕ × List WriteOp
  unfolding delete_found
  s_delete db ts key = delete_found db ts key (get_coll_version_key db ts set_type key)

  unfoldable pub s_clear : RockDb E → ℕ → Bytes → Result ℕ × RockDb E
  s_clear db ts key = or_return (check_key_size key) db (λ _. (
    ok (if lt_int64 0 ((s_delete db ts key).0) then 1 else 0),
    commit_batch_write (add_ops db ((s_delete db ts key).1)),
  ))

  -- The calls of the loop that SMclear and sMclearWithBatch share. A key that is refused ends it; what the
  -- keys before it put in the batch stays there.
  mclear_ops : RockDb E → List Bytes → Result (Unit {0}) × List WriteOp
  mclear_ops db [] = (ok tt, [])
  mclear_ops db (key ∷ keys) =
      let rest = mclear_ops db keys in
      or_return (check_key_size key) [] (λ _. (rest.0, (s_delete db 0 key).1 ++ rest.1))

  -- SMclear has a batch of its own.
  pub s_mclear : RockDb E → List Bytes → Result ℕ × RockDb E
  unfolding mclear_ops
  s_mclear db keys =
      if ltb max_batch_num (length keys)
      then (err too_much_batch_size, db)
      else or_return ((mclear_ops db keys).0) db
          (λ _. (ok (length keys), record db { eng = E.write db.eng ((mclear_ops db keys).1) }))

  pub s_mclear_with_batch : RockDb E → List WriteOp → List Bytes → Result (Unit {0}) × List WriteOp
  unfolding mclear_ops
  s_mclear_with_batch db wb keys =
      if ltb max_batch_num (length keys)
      then (err too_much_batch_size, wb)
      else ((mclear_ops db keys).0, wb ++ (mclear_ops db keys).1)
