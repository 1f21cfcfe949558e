-- ===== src/Expire/Header.antt =====
-- Headers are read back, and a change of the expiry time keeps the rest of a value.
use zan_redis_db.Prelude.{
  ℕ, suc, ◌+◌, ◌/◌, ◌%◌, ◌^◌, ◌<◌, ◌≡◌, sym, ap, ◌∙◌, arith, false, ◌||◌, Option, some, [], ◌∷◌,
  ◌++◌, length, drop, length-append, append_assoc, drop-append_at, le→ltb, leb, ◌==◌, if◌then◌else◌,
  lt→leb,
}
use zan_redis_db.Result.{ok, ◌>>=◌}
use zan_redis_db.Bytes.{Bytes, IsWord64, put_be, put_uint32, put_uint64}
use zan_redis_db.Bytes.Words.{length-put_be, get_be-put_be}
use zan_redis_db.Expire.{
  HeaderMetaValue, value_header_v1, second, bytes_of, header_bytes, encode_to, encode_with_data,
  decode_header, header_is_expired, raw_expire_at, raw_is_expired, max_expire,
}

-- A header as the store writes it.
pub record IsHeader (h : HeaderMetaValue) : Type 0 where
  pub version_one : h.ver ≡ value_header_v1
  pub expire_fits : h.expire_at < 2 ^ 32
  pub version_fits : IsWord64 h.value_version

pub length-header_bytes : (h : HeaderMetaValue) → length (header_bytes h) ≡ 13
unfolding header_bytes
length-header_bytes h = omega (
  arith,
  length-append (put_be 4 h.expire_at) (put_be 8 h.value_version),
  length-put_be 4 h.expire_at,
  length-put_be 8 h.value_version,
)

module _ (h : HeaderMetaValue) (rest : Bytes) (v : IsHeader h) where
  pub decode-header_bytes :
      decode_header (header_bytes h ++ rest) ≡ ok (record h { user_data = some rest })
  unfolding decode_header header_bytes
  decode-header_bytes =
      let e : Bytes = put_uint32 h.expire_at in
      let w : Bytes = put_uint64 h.value_version in
      rw
        (
          le→ltb (suc (length (e ++ w ++ rest))) 13 (
              omega (
                arith,
                length-append (e ++ w) rest,
                length-append e w,
                length-put_be 4 h.expire_at,
                length-put_be 8 h.value_version,
              )),
          v.version_one,
          append_assoc e w rest,
          get_be-put_be 4 h.expire_at (w ++ rest) v.expire_fits,
          drop-append_at 4 e (w ++ rest) (length-put_be 4 h.expire_at),
          get_be-put_be 8 h.value_version rest v.version_fits,
        )
        (rw (
          ← append_assoc e w rest,
          drop-append_at 12 (e ++ w) rest (
              omega (
                arith,
                length-append e w,
                length-put_be 4 h.expire_at,
                length-put_be 8 h.value_version,
              )),
        ))

pub encode-header_bytes :
    (h : HeaderMetaValue)
    → IsHeader h
    → encode_with_data h ≡ ok (header_bytes h ++ bytes_of h.user_data)
unfolding encode_with_data
encode-header_bytes h v = rw v.version_one

-- A version 1 header whose fields fit their widths is read back as it was written, with its data;
-- nil data comes back as empty data.
pub decode-encode_with_data :
    (h : HeaderMetaValue)
    → IsHeader h
    → (encode_with_data h >>= decode_header)
      ≡ ok (record h { user_data = some (bytes_of h.user_data) })
decode-encode_with_data h v =
    rw (encode-header_bytes h v) (decode-header_bytes h (bytes_of h.user_data) v)

-- What a raw value that decodes looks like.
raw_shape :
    (raw : Bytes) (h : HeaderMetaValue)
    → decode_header raw ≡ ok h
    → (h.ver ≡ value_header_v1) × (h.user_data ≡ some (drop 13 raw))
unfolding decode_header
raw_shape [] h e = cc
raw_shape (v ∷ b) h e = ground arith

expire-IsHeader :
    (h : HeaderMetaValue) (when : ℕ)
    → when < max_expire
    → IsHeader h
    → IsHeader (record h { expire_at = when })
expire-IsHeader h when small v = record {
  version_one = v.version_one;
  expire_fits = omega arith;
  version_fits = v.version_fits;
}

pub set_expire :
    (raw : Bytes) (when : ℕ) (h : HeaderMetaValue)
    → when < max_expire
    → h.ver ≡ value_header_v1
    → decode_header raw ≡ ok h
    → raw_expire_at raw when ≡ ok (header_bytes (record h { expire_at = when }) ++ drop 13 raw)
unfolding raw_expire_at encode_to
set_expire raw when h small one e =
    let passes : leb ((max_expire + 2 ^ 63) % 2 ^ 64) ((when + 2 ^ 63) % 2 ^ 64) ≡ false =
      lt→leb ((max_expire + 2 ^ 63) % 2 ^ 64) ((when + 2 ^ 63) % 2 ^ 64) (omega arith) in
    let whole : when % 2 ^ 32 ≡ when = omega arith in rw (passes, e, whole, one)

-- ExpireAt of a time below the limit succeeds on every value with a version 1 header whose fields
-- fit, and keeps the version and the data of the value.
pub decode-raw_expire_at :
    (raw : Bytes) (when : ℕ) (h : HeaderMetaValue)
    → when < max_expire
    → IsHeader h
    → decode_header raw ≡ ok h
    → (raw_expire_at raw when >>= decode_header) ≡ ok (record h { expire_at = when })
decode-raw_expire_at raw when h small v e =
    let h' : HeaderMetaValue = record h { expire_at = when } in
    let v' : IsHeader h' = expire-IsHeader h when small v in
    rw (set_expire raw when h small v.version_one e) (
      decode-header_bytes h' (drop 13 raw) v'
      ∙ ap (λ (d : Option Bytes). ok (record h { expire_at = when; user_data = d }))
          (sym (raw_shape raw h e).1))

-- A value with a version 1 header whose expiry was set to a time below the limit is expired from
-- that second on, and not before; a value whose expiry was removed, by the time 0, never is. At the
-- time 0 nothing is expired.
pub raw_is_expired-raw_expire_at :
    (raw : Bytes) (when ts : ℕ) (h : HeaderMetaValue)
    → when < max_expire
    → IsHeader h
    → decode_header raw ≡ ok h
    → (do raw' ← raw_expire_at raw when; raw_is_expired ts (some raw'))
      ≡ ok (if when == 0 || ts == 0 then false else leb when (ts / second))
unfolding raw_is_expired header_is_expired
raw_is_expired-raw_expire_at raw when ts h small v e =
    let h' : HeaderMetaValue = record h { expire_at = when } in
    let v' : IsHeader h' = expire-IsHeader h when small v in
    rw (set_expire raw when h small v.version_one e)
      (rw (decode-header_bytes h' (drop 13 raw) v', v.version_one) (ground arith))
