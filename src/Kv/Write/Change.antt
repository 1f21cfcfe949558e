-- ===== src/Kv/Write/Change.antt =====
-- INCR, APPEND and SETRANGE on a value that is stored: what they answer, and what GET reads after.
use zan_redis_db.Prelude.{
  ℕ, ◌≡◌, refl, ap, ◌∙◌, arith, true, false, Option, none, some, List, [], ◌∷◌, ◌++◌, if◌then◌else◌,
  inl, inr, Bool-cases,
}
use zan_redis_db.Result.{Result, ok, err, Error}
use zan_redis_db.Bytes.{Bytes, IsWord64, eq_bytes}
use zan_redis_db.Key.{encode_kv_key}
use zan_redis_db.Expire.{HeaderMetaValue, header_bytes, header_is_expired, renew_on_expired}
use zan_redis_db.Expire.Header.{IsHeader}
use zan_redis_db.Engine.{Engine, RockDb, WriteOp, put, add_ops, commit_batch_write, or_return}
use zan_redis_db.Engine.Batch.{add_ops-add_ops}
use zan_redis_db.Kv.{
  convert_redis_key_to_db_kv_key, kv_get, VerKeyInfo, encode_real_value, prepare_kv_value_for_write,
}
use zan_redis_db.Kv.Number.{str_int64}
use zan_redis_db.Kv.Model.{
  convert-kv_key, kv_raw, encode_real_value-ok, read_raw-kv_raw, prepare-kv_raw,
}
use zan_redis_db.Kv.Effect.{
  SetsNothing, put-SetsOnly, before-SetsOnly, nil-SetsNothing, commit-Applied, kv_get-Applied,
}
use zan_redis_db.Kv.Write.{incr, old_number, rewrite_value, count_created}

-- A value is stored under a key that is accepted.
pub record IsStored {E : Engine} (db : RockDb E) (key table kk : Bytes) (h : HeaderMetaValue)
    (v : Bytes) : Type 0 where
  pub named : convert_redis_key_to_db_kv_key key ≡ ok (table, kk)
  pub changed_at : ℕ
  pub stored : E.get db.eng kk ≡ some (kv_raw h v changed_at)
  pub header : IsHeader h

-- The header under which a value is written again: a new one if the value was expired.
abbrev pub kept_header : HeaderMetaValue → ℕ → HeaderMetaValue
kept_header h ts =
    if header_is_expired h ts then record h { expire_at = 0; value_version = ts } else h

kept-IsHeader :
    (h : HeaderMetaValue) (ts : ℕ) → IsWord64 ts → IsHeader h → IsHeader (kept_header h ts)
kept-IsHeader h ts w v = elim (Bool-cases (header_is_expired h ts)) [
  | inl e ↦
      rw e (record { version_one = v.version_one; expire_fits = omega arith; version_fits = w })
  | inr e ↦ rw e v
]

-- What GET reads after a value was written under a header, with calls before it that set nothing.
module _ {E : Engine} (db : RockDb E) (key table kk : Bytes)
    (named : convert_redis_key_to_db_kv_key key ≡ ok (table, kk)) (empty : db.wb ≡ [])
    (h : HeaderMetaValue) (valid : IsHeader h) where
  pub rewritten :
      (ops : List WriteOp) (value : Bytes) (ts now : ℕ) (other : Bytes)
      → SetsNothing E.merged ops
      → kv_get
          (commit_batch_write (add_ops db (ops ++ (put kk (kv_raw h value ts) ∷ []))))
          now
          other
        ≡ (if eq_bytes key other
            then ok (if header_is_expired h now then none else some value)
            else kv_get db now other)
  rewritten ops value ts now other nothing = rw (convert-kv_key key table kk named) (
      kv_get-Applied
        (commit-Applied db (ops ++ (put (encode_kv_key key) (kv_raw h value ts) ∷ [])) empty) key
        table kk (some (kv_raw h value ts)) named
        (before-SetsOnly E.merged ops (put (encode_kv_key key) (kv_raw h value ts) ∷ []) key
          (some (kv_raw h value ts)) nothing (put-SetsOnly E.merged key (kv_raw h value ts)))
        now other
      ∙ ap (λ (r : Result (Option Bytes)). if eq_bytes key other then r else kv_get db now other)
          (read_raw-kv_raw now h value ts valid))

module _ {E : Engine} (db : RockDb E) (ts : ℕ) (key table kk : Bytes) (h : HeaderMetaValue)
    (v : Bytes) (s : IsStored db key table kk h v) where
  abbrev pub found_header : HeaderMetaValue
  found_header =
      if header_is_expired h ts
      then renew_on_expired ts (record h { user_data = some v })
      else record h { user_data = some v }

  abbrev pub found_info : VerKeyInfo
  found_info = record {
    old_header = found_header;
    expired = header_is_expired h ts;
    table = table;
    ver_key = kk;
  }

  pub prepare_found : prepare_kv_value_for_write db ts key false ≡ ok (found_info, some v)
  prepare_found = prepare-kv_raw db ts key table kk h v s.changed_at s.named s.stored s.header

  -- A stored value is there, so it is not counted as a new one.
  count_none : count_created db found_info (some v) ≡ []
  unfolding count_created
  count_none = refl

  encode_found :
      (value : Bytes)
      → IsWord64 ts
      → encode_real_value ts found_header value ≡ ok (kv_raw (kept_header h ts) value ts)
  unfolding header_bytes renew_on_expired
  encode_found value w = elim (Bool-cases (header_is_expired h ts)) [
    | inl e ↦ rw e (
        encode_real_value-ok ts (record h { expire_at = 0; value_version = ts; user_data = none })
          value
          (record {
            version_one = s.header.version_one;
            expire_fits = omega arith;
            version_fits = w;
          }))
    | inr e ↦ rw e (
        encode_real_value-ok ts (record h { user_data = some v }) value
          (record {
            version_one = s.header.version_one;
            expire_fits = s.header.expire_fits;
            version_fits = s.header.version_fits;
          }))
  ]

  -- The value is written over the old one, under the header that is kept.
  abbrev pub over : Bytes → RockDb E
  over value =
      commit_batch_write (add_ops db ([] ++ (put kk (kv_raw (kept_header h ts) value ts) ∷ [])))

  pub rewrite_found :
      (value : Bytes) (result : ℕ)
      → IsWord64 ts
      → rewrite_value (add_ops db (count_created db found_info (some v))) ts found_info value result
        ≡ (ok result, over value)
  unfolding rewrite_value or_return count_created
  rewrite_found value result w =
      rw (encode_found value w)
        (ap (λ (d : RockDb E). (ok result, commit_batch_write d)) (add_ops-add_ops db [] _))

module _ {E : Engine} (db : RockDb E) (ts : ℕ) (key table kk : Bytes) (h : HeaderMetaValue)
    (v : Bytes) (s : IsStored db key table kk h v) (empty : db.wb ≡ []) (w : IsWord64 ts) where
  for_ever : (h' : HeaderMetaValue) (now : ℕ) → h'.expire_at ≡ 0 → header_is_expired h' now ≡ false
  unfolding header_is_expired
  for_ever h' now e = ground arith

  over-reads :
      (value : Bytes) (now : ℕ) (other : Bytes)
      → kv_get (over db ts key table kk h v s value) now other ≡ (
          if eq_bytes key other
          then ok (if header_is_expired (kept_header h ts) now then none else some value)
          else kv_get db now other)
  over-reads value now other =
      rewritten db key table kk s.named empty (kept_header h ts) (kept-IsHeader h ts w s.header) []
        value ts now other (nil-SetsNothing E.merged)

  pub over-live :
      header_is_expired h ts ≡ false
      → (value : Bytes) (now : ℕ) (other : Bytes)
      → kv_get (over db ts key table kk h v s value) now other ≡ (
          if eq_bytes key other
          then ok (if header_is_expired h now then none else some value)
          else kv_get db now other)
  over-live alive value now other = over-reads value now other ∙ rw alive refl

  pub over-dead :
      header_is_expired h ts ≡ true
      → (value : Bytes) (now : ℕ) (other : Bytes)
      → kv_get (over db ts key table kk h v s value) now other
        ≡ (if eq_bytes key other then ok (some value) else kv_get db now other)
  over-dead dead value now other =
      over-reads value now other
      ∙ rw (dead, for_ever (record h { expire_at = 0; value_version = ts }) now refl) refl

  -- INCRBY of a value that is no text of an int64 is an error and changes nothing.
  pub incr_no_number :
      header_is_expired h ts ≡ false
      → (delta : ℕ) (e : Error) → str_int64 v ≡ err e
      → incr db ts key delta ≡ (err e, db)
  unfolding incr or_return old_number
  incr_no_number alive delta e number =
      rw (prepare_found db ts key table kk h v s, alive, number) refl
