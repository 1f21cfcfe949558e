-- ===== src/Kv/Write/Store.antt =====
-- SET, SETEX, SETNX and DEL against a map from keys to values.
use zan_redis_db.Prelude.{
  ℕ, ◌/◌, ◌<◌, ◌≡◌, refl, ap, ◌∙◌, arith, Bool, true, false, ◌||◌, Option, none, some, List, [],
  ◌∷◌, ◌++◌, ltb, ◌==◌, if◌then◌else◌,
}
use zan_redis_db.Result.{Result, ok}
use zan_redis_db.Bytes.{Bytes, IsWord64, lt_int64, add_int64, eq_bytes}
use zan_redis_db.Key.{check_value_size, encode_kv_key}
use zan_redis_db.Expire.{second, max_expire, header_is_expired}
use zan_redis_db.Engine.{Engine, RockDb, WriteOp, put, add_ops, maybe_commit_batch, or_return}
use zan_redis_db.Engine.Batch.{add_ops-add_ops}
use zan_redis_db.Collection.{incr_table_key_count}
use zan_redis_db.Kv.{convert_redis_key_to_db_kv_key, kv_get}
use zan_redis_db.Kv.Model.{
  convert-kv_key, kv_raw, kv_header, kv_header-IsHeader, expiry_of, expiry_of-zero,
  expiry_of-positive, reset_with_new_kv_value-ok, read_raw, read_raw-kv_raw,
}
use zan_redis_db.Kv.Effect.{
  SetsOnly, counts-SetsNothing, if-SetsNothing, put-SetsOnly, before-SetsOnly, Applied,
  maybe-Applied, kv_get-Applied,
}
use zan_redis_db.Kv.Write.{count_new, counts_as_new, set_reset, kv_set, set_ex}

module _ {E : Engine} (db : RockDb E) where
  -- The calls of SET and SETEX, whether they are batched or not.
  abbrev pub set_ops : ℕ → Bytes → Bytes → Bytes → ℕ → List WriteOp
  set_ops ts table key value ttl =
      count_new db table (encode_kv_key key)
      ++ (put (encode_kv_key key) (kv_raw (kv_header (expiry_of ts ttl)) value ts) ∷ [])

  pub set_ops-SetsOnly :
      (ts : ℕ) (table key value : Bytes) (ttl : ℕ)
      → SetsOnly E.merged
          (set_ops ts table key value ttl)
          key
          (some (kv_raw (kv_header (expiry_of ts ttl)) value ts))
  unfolding count_new
  set_ops-SetsOnly ts table key value ttl =
      before-SetsOnly E.merged (count_new db table (encode_kv_key key))
        (put (encode_kv_key key) (kv_raw (kv_header (expiry_of ts ttl)) value ts) ∷ []) key
        (some (kv_raw (kv_header (expiry_of ts ttl)) value ts))
        (if-SetsNothing E.merged (counts_as_new db (encode_kv_key key))
          (incr_table_key_count db table 1) (counts-SetsNothing E.merged db table 1))
        (put-SetsOnly E.merged key (kv_raw (kv_header (expiry_of ts ttl)) value ts))

  module _ (key table kk : Bytes) (named : convert_redis_key_to_db_kv_key key ≡ ok (table, kk))
      (value : Bytes) (fits : check_value_size value ≡ ok tt) where
    set_reset-ok :
        (ts ttl : ℕ)
        → expiry_of ts ttl < max_expire
        → set_reset db ts table kk value ttl
          ≡ (ok tt, maybe_commit_batch (add_ops db (set_ops ts table key value ttl)))
    unfolding set_reset or_return
    set_reset-ok ts ttl small =
        rw (convert-kv_key key table kk named, reset_with_new_kv_value-ok ts ttl value small)
          (ap (λ (d : RockDb E). (ok tt, maybe_commit_batch d)) (add_ops-add_ops db _ _))

    pub kv_set_eq :
        (ts : ℕ)
        → kv_set db ts key value
          ≡ (ok tt, maybe_commit_batch (add_ops db (set_ops ts table key value 0)))
    unfolding kv_set or_return
    kv_set_eq ts = rw (named, fits) (set_reset-ok ts 0 (omega (arith, expiry_of-zero ts)))

    pub set_ex_eq :
        (ts ttl : ℕ)
        → lt_int64 0 ttl ≡ true
        → expiry_of ts ttl < max_expire
        → set_ex db ts key ttl value
          ≡ (ok tt, maybe_commit_batch (add_ops db (set_ops ts table key value ttl)))
    unfolding set_ex or_return
    set_ex_eq ts ttl positive small = rw (positive, named, fits) (set_reset-ok ts ttl small)

-- The value that GET reads under a header without data.
read_raw-kv_header :
    (now when : ℕ) (v : Bytes) (ts : ℕ)
    → when < max_expire
    → read_raw now (some (kv_raw (kv_header when) v ts))
      ≡ ok (if when == 0 || (now == 0 || ltb (now / second) when) then some v else none)
unfolding header_is_expired
read_raw-kv_header now when v ts small =
    read_raw-kv_raw now (kv_header when) v ts (kv_header-IsHeader when small) ∙ ground arith

read_for_ever :
    (now : ℕ) (v : Bytes) (ts : ℕ)
    → read_raw now (some (kv_raw (kv_header (expiry_of ts 0)) v ts)) ≡ ok (some v)
read_for_ever now v ts = rw (expiry_of-zero ts) (read_raw-kv_header now 0 v ts (omega arith))

read_until :
    (now ttl : ℕ) (v : Bytes) (ts : ℕ)
    → IsWord64 ts
    → lt_int64 0 ttl ≡ true
    → add_int64 ttl (ts / second) < max_expire
    → read_raw now (some (kv_raw (kv_header (expiry_of ts ttl)) v ts))
      ≡ ok (if now == 0 || ltb (now / second) (add_int64 ttl (ts / second)) then some v else none)
read_until now ttl v ts w positive small =
    let when : ℕ = add_int64 ttl (ts / second) in
    let late : (when == 0) ≡ false = ground arith in
    rw (expiry_of-positive ts ttl positive) (
      read_raw-kv_header now when v ts small
      ∙ ap (λ (b : Bool). ok (if b || (now == 0 || ltb (now / second) when) then some v else none))
          late)

module _ {E : Engine} (db : RockDb E) (empty : db.wb ≡ []) (unbatched : db.is_batching ≡ false)
    (key table kk : Bytes) (named : convert_redis_key_to_db_kv_key key ≡ ok (table, kk)) where
  module _ (value : Bytes) (fits : check_value_size value ≡ ok tt) (ts : ℕ) where
    set_value-Applied :
        (ttl : ℕ)
        → Applied db
            (maybe_commit_batch (add_ops db (set_ops db ts table key value ttl)))
            (set_ops db ts table key value ttl)
    set_value-Applied ttl = maybe-Applied db (set_ops db ts table key value ttl) empty unbatched

    -- SET of a value of an allowed size to a key that is accepted, outside of a batch, succeeds; GET
    -- then gives the value for this key at every time, and for every other key what it gave before.
    pub kv_get-kv_set :
        ((kv_set db ts key value).0 ≡ ok tt)
        × ((now : ℕ) (other : Bytes)
            → kv_get ((kv_set db ts key value).1) now other
              ≡ (if eq_bytes key other then ok (some value) else kv_get db now other))
    kv_get-kv_set = rw (kv_set_eq db key table kk named value fits ts) (
      refl,
      λ now other.
          kv_get-Applied (set_value-Applied 0) key table kk
            (some (kv_raw (kv_header (expiry_of ts 0)) value ts)) named
            (set_ops-SetsOnly db ts table key value 0) now other
          ∙ ap
              (λ (r : Result (Option Bytes)). if eq_bytes key other then r else kv_get db now other)
              (read_for_ever now value ts),
    )

    -- SETEX of a value of an allowed size to a key that is accepted, outside of a batch, for a positive
    -- number of seconds that ends before the largest expiry, succeeds; GET then gives the value for
    -- this key until that second, and nothing from it on, and for every other key what it gave
    -- before. At the time 0 nothing is expired.
    pub kv_get-set_ex :
        (ttl : ℕ)
        → IsWord64 ts
        → lt_int64 0 ttl ≡ true
        → add_int64 ttl (ts / second) < max_expire
        → ((set_ex db ts key ttl value).0 ≡ ok tt)
          × ((now : ℕ) (other : Bytes)
              → kv_get ((set_ex db ts key ttl value).1) now other ≡ (
                  if eq_bytes key other
                  then ok (
                      if now == 0 || ltb (now / second) (add_int64 ttl (ts / second))
                      then some value
                      else none)
                  else kv_get db now other))
    kv_get-set_ex ttl w positive small =
        let when : ℕ = add_int64 ttl (ts / second) in
        let e : expiry_of ts ttl ≡ when = expiry_of-positive ts ttl positive in
        rw (set_ex_eq db key table kk named value fits ts ttl positive (omega (arith, e))) (
          refl,
          λ now other.
              kv_get-Applied (set_value-Applied ttl) key table kk
                (some (kv_raw (kv_header (expiry_of ts ttl)) value ts)) named
                (set_ops-SetsOnly db ts table key value ttl) now other
              ∙ ap
                  (λ (r : Result (Option Bytes)).
                    if eq_bytes key other then r else kv_get db now other)
                  (read_until now ttl value ts w positive small),
        )
