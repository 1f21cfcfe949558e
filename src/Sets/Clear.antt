-- ===== src/Sets/Clear.antt =====
-- SCLEAR of a set.
use zan_redis_db.Prelude.{ℕ, List, [], ◌∷◌, ◌++◌}
use zan_redis_db.Bytes.{Bytes, neg_int64}
use zan_redis_db.Key.{s_encode_size_key}
use zan_redis_db.Expire.{HeaderMetaValue}
use zan_redis_db.Engine.{Engine, RockDb, WriteOp, delete, add_ops, commit_batch_write}
use zan_redis_db.Collection.{incr_table_key_count}
use zan_redis_db.Lists.Model.{IsKey}
use zan_redis_db.Sets.Model.{IsMemberSet}

module _ {E : Engine} (db : RockDb E) (ts : ℕ) (key table rk : Bytes) (k : IsKey key table rk)
    (h : HeaderMetaValue) (xs : List Bytes) (s : IsMemberSet db ts key table rk h xs) where
  abbrev delete_ops : List WriteOp
  delete_ops = incr_table_key_count db table (neg_int64 1) ++ (delete (s_encode_size_key key) ∷ [])

  abbrev after_clear : RockDb E
  after_clear = commit_batch_write (add_ops db delete_ops)
