-- ===== src/Kv/Model.antt =====
-- How a stored value is read back, and what the encoders of t_kv.go write.
use mathlib.Core.Logic.{◌⊎◌}
use zan_redis_db.Prelude.{
  ℕ, ◌+◌, ◌-◌, ◌/◌, ◌<◌, ◌≡◌, refl, sym, ap, ◌∙◌, arith, true, false, Option, none, some, ◌++◌,
  length, if◌then◌else◌, inl, inr, le→ltb, length-append, append_assoc, take-append_at,
  drop-append_at, Bool-cases,
}
use zan_redis_db.Result.{Result, ok, err, Error, ◌>>=◌}
use zan_redis_db.Bytes.{Bytes, lt_int64, add_int64, put_uint64}
use zan_redis_db.Bytes.Words.{length-put_be}
use zan_redis_db.Key.{encode_kv_key}
use zan_redis_db.Expire.{
  HeaderMetaValue, header_bytes, second, max_expire, raw_expire_at, encode_with_data,
  new_header_meta_v1, header_is_expired, decode_raw_value, raw_is_expired, renew_on_expired,
  del_expire,
}
use zan_redis_db.Expire.Header.{
  IsHeader, length-header_bytes, decode-header_bytes, encode-header_bytes, set_expire,
}
use zan_redis_db.Engine.{Engine, RockDb}
use zan_redis_db.Kv.{
  convert_redis_key_to_db_kv_key, strip_ts, decode_db_raw_value, encode_real_value,
  reset_with_new_kv_value, get_raw_db_kv_value, get_db_kv_real_value_and_header,
  prepare_kv_value_for_write, kv_get,
}

-- To split on a result and keep the equation.
pub Result-cases :
    {A : Type 0} (r : Result A) → ((a : A) × (r ≡ ok a)) ⊎ ((e : Error) × (r ≡ err e))
Result-cases (ok a) = inl (a, refl)
Result-cases (err e) = inr (e, refl)

-- The engine's key of a key that is accepted.
pub convert-kv_key :
    (key table kk : Bytes)
    → convert_redis_key_to_db_kv_key key ≡ ok (table, kk)
    → kk ≡ encode_kv_key key
unfolding convert_redis_key_to_db_kv_key
convert-kv_key key table kk h = ground arith

-- What is stored for a value, under a header.
abbrev pub kv_raw : HeaderMetaValue → Bytes → ℕ → Bytes
kv_raw h v ts = (header_bytes h ++ v) ++ put_uint64 ts

-- The header of a value that expires at a time in seconds, or never where that is 0.
abbrev pub kv_header : ℕ → HeaderMetaValue
kv_header when = record { ver = 1; expire_at = when; value_version = 0; user_data = none }

pub kv_header-IsHeader : (when : ℕ) → when < max_expire → IsHeader (kv_header when)
kv_header-IsHeader when h = record {
  version_one = refl;
  expire_fits = omega arith;
  version_fits = omega arith;
}

strip_ts-append : (buf : Bytes) (ts : ℕ) → strip_ts (buf ++ put_uint64 ts) ≡ buf
unfolding strip_ts
strip_ts-append buf ts =
    let n : length (buf ++ put_uint64 ts) ≡ length buf + 8 =
      omega (arith, length-append buf (put_uint64 ts), length-put_be 8 ts) in
    let m : length buf ≡ length (buf ++ put_uint64 ts) - 8 = omega arith in
    rw (le→ltb (length (buf ++ put_uint64 ts)) 8 (omega arith))
      (take-append_at (length (buf ++ put_uint64 ts) - 8) buf (put_uint64 ts) m)

pub decode-kv_raw :
    (h : HeaderMetaValue) (v : Bytes) (ts : ℕ)
    → IsHeader h
    → decode_db_raw_value (some (kv_raw h v ts)) ≡ ok (some v, record h { user_data = some v })
unfolding decode_db_raw_value decode_raw_value
decode-kv_raw h v ts valid =
    rw (strip_ts-append (header_bytes h ++ v) ts, decode-header_bytes h v valid) refl

pub expired-kv_raw :
    (h : HeaderMetaValue) (v : Bytes) (ts now : ℕ)
    → IsHeader h
    → raw_is_expired now (some (kv_raw h v ts)) ≡ ok (header_is_expired h now)
unfolding raw_is_expired header_is_expired
expired-kv_raw h v ts now valid =
    rw
      (
        append_assoc (header_bytes h) v (put_uint64 ts),
        decode-header_bytes h (v ++ put_uint64 ts) valid,
      )
      refl

pub encode_real_value-ok :
    (ts : ℕ) (h : HeaderMetaValue) (v : Bytes)
    → IsHeader h
    → encode_real_value ts h v ≡ ok (kv_raw h v ts)
unfolding encode_real_value header_bytes
encode_real_value-ok ts h v valid =
    let h' : HeaderMetaValue = record h { user_data = some v } in
    let valid' : IsHeader h' = record {
      version_one = valid.version_one;
      expire_fits = valid.expire_fits;
      version_fits = valid.version_fits;
    } in
    rw (encode-header_bytes h' valid') refl

-- When a value that is written with a time to live expires.
unfoldable pub expiry_of : ℕ → ℕ → ℕ
expiry_of ts ttl = if lt_int64 0 ttl then add_int64 ttl (ts / second) else 0

pub expiry_of-zero : (ts : ℕ) → expiry_of ts 0 ≡ 0
unfolding expiry_of
expiry_of-zero ts = refl

pub expiry_of-positive :
    (ts ttl : ℕ) → lt_int64 0 ttl ≡ true → expiry_of ts ttl ≡ add_int64 ttl (ts / second)
unfolding expiry_of
expiry_of-positive ts ttl h = rw h refl

fresh_bytes :
    (v : Bytes)
    → encode_with_data (record new_header_meta_v1 { user_data = some v })
      ≡ ok (header_bytes (kv_header 0) ++ v)
unfolding new_header_meta_v1 header_bytes
fresh_bytes v =
    encode-header_bytes (record (kv_header 0) { user_data = some v })
      (record { version_one = refl; expire_fits = omega arith; version_fits = omega arith })

set_fresh_expire :
    (v : Bytes) (when : ℕ)
    → when < max_expire
    → raw_expire_at (header_bytes (kv_header 0) ++ v) when ≡ ok (header_bytes (kv_header when) ++ v)
unfolding header_bytes
set_fresh_expire v when small =
    set_expire (header_bytes (kv_header 0) ++ v) when (record (kv_header 0) { user_data = some v })
      small refl (decode-header_bytes (kv_header 0) v (kv_header-IsHeader 0 (omega arith)))
    ∙ ap (λ (d : Bytes). ok (header_bytes (kv_header when) ++ d))
        (drop-append_at 13 (header_bytes (kv_header 0)) v (length-header_bytes (kv_header 0)))

del_fresh_expire :
    (v : Bytes)
    → del_expire (header_bytes (kv_header 0) ++ v) true ≡ ok (header_bytes (kv_header 0) ++ v)
unfolding del_expire
del_fresh_expire v = set_fresh_expire v 0 (omega arith)

pub reset_with_new_kv_value-ok :
    (ts ttl : ℕ) (v : Bytes)
    → expiry_of ts ttl < max_expire
    → reset_with_new_kv_value ts v ttl ≡ ok (kv_raw (kv_header (expiry_of ts ttl)) v ts)
unfolding reset_with_new_kv_value new_header_meta_v1 expiry_of
reset_with_new_kv_value-ok ts ttl v small = rw (fresh_bytes v) (elim (Bool-cases (lt_int64 0 ttl)) [
  | inl h ↦
      let e : expiry_of ts ttl ≡ add_int64 ttl (ts / second) = expiry_of-positive ts ttl h in
      rw (h, set_fresh_expire v (add_int64 ttl (ts / second)) (omega (arith, e))) refl
  | inr h ↦ rw (h, del_fresh_expire v) refl
])

-- What GET makes of a raw value.
unfoldable pub read_raw : ℕ → Option Bytes → Result (Option Bytes)
read_raw now raw = do
  is_expired ← raw_is_expired now raw
  (real, h) ← decode_db_raw_value raw
  ok (if is_expired then none else real)

pub read_raw-kv_raw :
    (now : ℕ) (h : HeaderMetaValue) (v : Bytes) (ts : ℕ)
    → IsHeader h
    → read_raw now (some (kv_raw h v ts)) ≡ ok (if header_is_expired h now then none else some v)
unfolding read_raw
read_raw-kv_raw now h v ts valid =
    rw (expired-kv_raw h v ts now valid, decode-kv_raw h v ts valid) refl

module _ {E : Engine} where
  pub kv_get-named :
      (db : RockDb E) (now : ℕ) (key table kk : Bytes)
      → convert_redis_key_to_db_kv_key key ≡ ok (table, kk)
      → kv_get db now key ≡ read_raw now (E.get db.eng kk)
  unfolding kv_get get_db_kv_real_value_and_header get_raw_db_kv_value read_raw
  kv_get-named db now key table kk h = rw h (ground arith)

  pub kv_get-refused :
      (db : RockDb E) (now : ℕ) (key : Bytes) (e : Error)
      → convert_redis_key_to_db_kv_key key ≡ err e
      → kv_get db now key ≡ err e
  unfolding kv_get get_db_kv_real_value_and_header get_raw_db_kv_value
  kv_get-refused db now key e h = rw h refl

  -- GET looks at nothing but the value of the engine's key.
  pub kv_get-same :
      (db db' : RockDb E) (now : ℕ) (key : Bytes)
      → E.get db.eng (encode_kv_key key) ≡ E.get db'.eng (encode_kv_key key)
      → kv_get db now key ≡ kv_get db' now key
  kv_get-same db db' now key same = elim (Result-cases (convert_redis_key_to_db_kv_key key)) [
    | inl ((table, kk), h) ↦
        let e : kk ≡ encode_kv_key key = convert-kv_key key table kk h in
        kv_get-named db now key table kk h
        ∙ ap (λ (k : Bytes). read_raw now (E.get db.eng k)) e
        ∙ ap (read_raw now) same
        ∙ sym (ap (λ (k : Bytes). read_raw now (E.get db'.eng k)) e)
        ∙ sym (kv_get-named db' now key table kk h)
    | inr (e, h) ↦ kv_get-refused db now key e h ∙ sym (kv_get-refused db' now key e h)
  ]

  -- What the writing operations find where a value is stored.
  pub prepare-kv_raw :
      (db : RockDb E) (ts : ℕ) (key table kk : Bytes) (h : HeaderMetaValue) (v : Bytes) (mts : ℕ)
      → convert_redis_key_to_db_kv_key key ≡ ok (table, kk)
      → E.get db.eng kk ≡ some (kv_raw h v mts)
      → IsHeader h
      → prepare_kv_value_for_write db ts key false
        ≡ ok (
          record {
            old_header =
                if header_is_expired h ts
                then renew_on_expired ts (record h { user_data = some v })
                else record h { user_data = some v };
            expired = header_is_expired h ts;
            table = table;
            ver_key = kk;
          },
          some v,
        )
  unfolding prepare_kv_value_for_write get_raw_db_kv_value
  prepare-kv_raw db ts key table kk h v mts named stored valid =
      rw (named, stored, expired-kv_raw h v mts ts valid, decode-kv_raw h v mts valid)
        (elim (Bool-cases (header_is_expired h ts)) [ inl e ↦ rw e refl | inr e ↦ rw e refl ])

  pub prepare-missing :
      (db : RockDb E) (ts : ℕ) (key table kk : Bytes)
      → convert_redis_key_to_db_kv_key key ≡ ok (table, kk)
      → E.get db.eng kk ≡ none
      → prepare_kv_value_for_write db ts key false
        ≡ ok (
          record { old_header = kv_header 0; expired = false; table = table; ver_key = kk },
          none,
        )
  unfolding prepare_kv_value_for_write get_raw_db_kv_value raw_is_expired decode_db_raw_value
      decode_raw_value new_header_meta_v1
  prepare-missing db ts key table kk named missing = rw (named, missing) refl
