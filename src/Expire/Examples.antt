-- ===== src/Expire/Examples.antt =====
-- The theorems about headers and version keys at concrete inputs.
use zan_redis_db.Prelude.{◌≡◌, refl, arith, some, [], ◌∷◌}
use zan_redis_db.Result.{ok}
use zan_redis_db.Bytes.{Bytes, get_be}
use zan_redis_db.Key.Elements.{h_encode_start_key, h_encode_stop_key, h_encode_hash_key}
use zan_redis_db.Key.Scan.{InRange, hash_scan_exact}
use zan_redis_db.Key.RoundTrip.{FitsUint16}
use zan_redis_db.Expire.{HeaderMetaValue, decode_header, encode_ver_key}
use zan_redis_db.Expire.Header.{IsHeader}
use zan_redis_db.Expire.Version.{encode_ver_key-FitsUint16, hash_scan_version}

abbrev header_7 : HeaderMetaValue
header_7 = record { ver = 1; expire_at = 1700000000; value_version = 7; user_data = some (5 ∷ []) }

abbrev raw_7 : Bytes
raw_7 = 1 ∷ 101 ∷ 83 ∷ 241 ∷ 0 ∷ 0 ∷ 0 ∷ 0 ∷ 0 ∷ 0 ∷ 0 ∷ 0 ∷ 7 ∷ 5 ∷ []

header_7-IsHeader : IsHeader header_7
header_7-IsHeader = record {
  version_one = refl;
  expire_fits = omega arith;
  version_fits = omega arith;
}

raw_7_lem : decode_header raw_7 ≡ ok header_7
unfolding decode_header get_be
raw_7_lem = refl

abbrev k_name : Bytes
k_name = b'k' ∷ []

fits : FitsUint16 (encode_ver_key header_7 k_name)
fits = encode_ver_key-FitsUint16 header_7 k_name (omega arith) (omega arith)

-- What is stored lies in the range.
stored_inside :
    InRange
      (h_encode_start_key k_name (encode_ver_key header_7 k_name))
      (h_encode_stop_key k_name (encode_ver_key header_7 k_name))
      (h_encode_hash_key k_name (encode_ver_key header_7 k_name) k_name)
stored_inside =
    (hash_scan_exact k_name (encode_ver_key header_7 k_name) k_name (encode_ver_key header_7 k_name)
        k_name (omega arith) fits (omega arith) fits).1
      (refl, refl)

hash_scan_version_example : (k_name ≡ k_name) × (k_name ≡ k_name) × (header_7.value_version ≡ 7)
hash_scan_version_example =
    hash_scan_version header_7 header_7 k_name k_name k_name k_name k_name (omega arith)
      (omega arith) (omega arith) (omega arith) (omega arith) (omega arith) stored_inside
