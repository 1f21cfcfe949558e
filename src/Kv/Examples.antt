-- ===== src/Kv/Examples.antt =====
-- The theorems about key-value pairs on a store that is empty, and on one that holds a value.
use zan_redis_db.Prelude.{
  ℕ, ◌-◌, ◌^◌, ◌≡◌, refl, ap, ◌∙◌, arith, Bool, true, false, ◌||◌, none, some, [], ◌∷◌, ltb, ◌==◌,
  length, if◌then◌else◌, get_elem?, ◌/◌,
}
use zan_redis_db.Result.{ok, err, index_panic}
use zan_redis_db.Bytes.{Bytes, eq_bytes, add_int64}
use zan_redis_db.Key.{
  extract_table_from_redis_key, check_key_size, check_value_size, encode_kv_key,
  encode_table_meta_key,
}
use zan_redis_db.Expire.{header_is_expired, second}
use zan_redis_db.Engine.{RockDb, merge}
use zan_redis_db.Engine.Table.{table_engine}
use zan_redis_db.Collection.{put_rocksdb_uint64}
use zan_redis_db.Kv.{convert_redis_key_to_db_kv_key, kv_get, get_range}
use zan_redis_db.Kv.Number.{str_int64, format_int64, str_int64-format_int64}
use zan_redis_db.Kv.Model.{
  kv_raw, kv_header, kv_header-IsHeader, kv_get-named, read_raw, read_raw-kv_raw,
}
use zan_redis_db.Kv.Range.{range_of, place, get_range_total}
use zan_redis_db.Kv.Write.{kv_set, set_ex, set_range, bit_set_old}
use zan_redis_db.Kv.Write.Store.{kv_get-kv_set, kv_get-set_ex}
use zan_redis_db.Kv.Write.Change.{IsStored}
use zan_redis_db.Kv.Write.Range.{byte_of_range, set_range_live, set_range_negative}
use zan_redis_db.Kv.Write.Bits.{bit_set_old-leaves_count}

abbrev t_name : Bytes
t_name = b't' ∷ []

abbrev a_key : Bytes
a_key = b't' ∷ b':' ∷ b'k' ∷ []

abbrev a_kk : Bytes
a_kk = 21 ∷ a_key

abbrev seven : Bytes
seven = b'7' ∷ []

abbrev empty_db : RockDb table_engine
empty_db = record {
  eng = record { held = λ k. none; written = [] };
  wb = [];
  is_batching = false;
  enable_table_counter = true;
  estimate_table_counter = false;
}

-- The text 7, which expires after 100 seconds.
abbrev seven_db : RockDb table_engine
seven_db = record empty_db {
  eng = record {
    held = λ k. if eq_bytes k a_kk then some (kv_raw (kv_header 100) seven 3) else none;
    written = a_kk ∷ [];
  };
}

named : convert_redis_key_to_db_kv_key a_key ≡ ok (t_name, a_kk)
unfolding convert_redis_key_to_db_kv_key extract_table_from_redis_key check_key_size encode_kv_key
named = refl

fits : check_value_size seven ≡ ok tt
unfolding check_value_size
fits = refl

seven_db-IsStored : IsStored seven_db a_key t_name a_kk (kv_header 100) seven
unfolding eq_bytes
seven_db-IsStored = record {
  named = named;
  changed_at = 3;
  stored = refl;
  header = kv_header-IsHeader 100 (omega arith);
}

alive : header_is_expired (kv_header 100) 50 ≡ false
unfolding header_is_expired
alive = refl

str_int64-format_int64_example : str_int64 (format_int64 (2 ^ 64 - 42)) ≡ ok (2 ^ 64 - 42)
str_int64-format_int64_example = str_int64-format_int64 (2 ^ 64 - 42) (omega arith)

kv_get-kv_set_example :
    ((kv_set empty_db 5 a_key seven).0 ≡ ok tt)
    × ((now : ℕ) (other : Bytes)
        → kv_get ((kv_set empty_db 5 a_key seven).1) now other
          ≡ (if eq_bytes a_key other then ok (some seven) else kv_get empty_db now other))
kv_get-kv_set_example = kv_get-kv_set empty_db refl refl a_key t_name a_kk named seven fits 5

kv_get-set_ex_example :
    ((set_ex empty_db 5 a_key 60 seven).0 ≡ ok tt)
    × ((now : ℕ) (other : Bytes)
        → kv_get ((set_ex empty_db 5 a_key 60 seven).1) now other ≡ (
            if eq_bytes a_key other
            then ok (
                if now == 0 || ltb (now / second) (add_int64 60 (5 / second))
                then some seven
                else none)
            else kv_get empty_db now other))
kv_get-set_ex_example =
    kv_get-set_ex empty_db refl refl a_key t_name a_kk named seven fits 5 60 (omega arith) refl
      (omega arith)

set_range_live_example :
    (new : Bytes) × ((i : ℕ) → get_elem? new i ≡ byte_of_range seven 3 (b'x' ∷ []) i)
    × ((set_range seven_db 50 a_key 3 (b'x' ∷ [])).0 ≡ ok (length new))
    × ((now : ℕ) (other : Bytes)
        → kv_get ((set_range seven_db 50 a_key 3 (b'x' ∷ [])).1) now other ≡ (
            if eq_bytes a_key other
            then ok (if header_is_expired (kv_header 100) now then none else some new)
            else kv_get seven_db now other))
set_range_live_example =
    set_range_live seven_db 50 a_key t_name a_kk (kv_header 100) seven seven_db-IsStored
      (omega arith) refl alive 3 b'x' [] (omega arith) (omega arith)

set_range_negative_example :
    (set_range seven_db 50 a_key (2 ^ 64 - 1) (b'x' ∷ [])).0 ≡ err index_panic
set_range_negative_example =
    set_range_negative seven_db 50 a_key t_name a_kk (kv_header 100) seven seven_db-IsStored
      (omega arith) (2 ^ 64 - 1) b'x' [] (omega arith) refl (omega arith)

seven_found : kv_get seven_db 50 a_key ≡ ok (some seven)
unfolding seven_db-IsStored
seven_found =
    kv_get-named seven_db 50 a_key t_name a_kk named
    ∙ ap (read_raw 50) seven_db-IsStored.stored
    ∙ read_raw-kv_raw 50 (kv_header 100) seven 3 seven_db-IsStored.header
    ∙ ap (λ (b : Bool). ok (if b then none else some seven)) alive

get_range_total_example :
    get_range seven_db 50 a_key (2 ^ 64 - 5) 3
    ≡ ok (range_of seven (place (length seven) (2 ^ 64 - 5)) (place (length seven) 3))
get_range_total_example =
    get_range_total seven_db 50 a_key (some seven) (2 ^ 64 - 5) 3 seven_found (omega arith)
      (omega arith) (omega arith)

bit_set_old-leaves_count_example :
    ((bit_set_old empty_db 5 a_key 9 0).0 ≡ ok 0)
    × ((bit_set_old empty_db 5 a_key 9 0).1.eng ≡ empty_db.eng)
    × ((bit_set_old empty_db 5 a_key 9 0).1.wb
        ≡ merge (encode_table_meta_key t_name) (put_rocksdb_uint64 1) ∷ [])
bit_set_old-leaves_count_example =
    bit_set_old-leaves_count empty_db 5 a_key t_name a_kk 9 named refl (omega arith) refl
