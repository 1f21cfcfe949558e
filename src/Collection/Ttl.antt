-- ===== src/Collection/Ttl.antt =====
-- The rest of rockredis/t_collections.go: whether a key of a collection exists, and its expiry.
use zan_redis_db.Prelude.{ℕ, ◌/◌, Bool, true, false, ◌||◌, none, some, if◌then◌else◌}
use zan_redis_db.Result.{Result, ok, ◌>>=◌}
use zan_redis_db.Bytes.{Bytes, add_int64}
use zan_redis_db.Expire.{HeaderMetaValue, second, encode_with_data}
use zan_redis_db.Engine.{Engine, RockDb, or_return}
use zan_redis_db.Collection.{coll_header_meta, encode_meta_key}
use zan_redis_db.Kv.Write.{kv_expire_at}

module _ {E : Engine} where
  pub coll_key_exists : RockDb E → ℕ → ℕ → Bytes → Result ℕ
  coll_key_exists db now dt key = do
    (h, is_expired) ← coll_header_meta db now dt key
    ok (if is_expired then 0 else elim (h.user_data) [ none ↦ 0 | some v ↦ 1 ])

  -- The header is written again, with another expiry.
  expire_header : RockDb E → ℕ → Bytes → ℕ → HeaderMetaValue → Result ℕ × RockDb E
  expire_header db dt key when h =
      or_return (encode_with_data h) db (λ raw.
        or_return (encode_meta_key dt key) db (λ size_key. kv_expire_at db size_key raw when))

  -- What collExpire and collPersist share: a key that is expired or not there is left alone.
  expire_live : RockDb E → ℕ → Bytes → ℕ → HeaderMetaValue × Bool → Result ℕ × RockDb E
  unfolding expire_header
  expire_live db dt key when (h, is_expired) =
      let gone = is_expired || elim (h.user_data) [ none ↦ true | some v ↦ false ] in
      if gone then (ok 0, db) else expire_header db dt key when h

  -- `ts` is not negative.
  pub coll_expire : RockDb E → ℕ → ℕ → Bytes → ℕ → Result ℕ × RockDb E
  unfolding expire_live
  coll_expire db ts dt key duration =
      or_return (coll_header_meta db ts dt key) db
        (expire_live db dt key (add_int64 duration (ts / second)))

  pub coll_persist : RockDb E → ℕ → ℕ → Bytes → Result ℕ × RockDb E
  unfolding expire_live
  coll_persist db ts dt key = or_return (coll_header_meta db ts dt key) db (expire_live db dt key 0)
