-- ===== src/Sets/Model.antt =====
-- What it is for a key to hold a set, how the operations find it, and what the reads answer.
use zan_redis_db.Prelude.{
  ℕ, ◌^◌, ◌≤◌, ◌<◌, ◌≡◌, refl, ap, ◌∙◌, arith, Bool, false, some, List, [], ◌∷◌, ◌++◌, length,
  if◌then◌else◌, le→ltb, length-append,
}
use zan_redis_db.Result.{ok}
use zan_redis_db.Bytes.{Bytes, IsWord64, contains, put_uint64, uint64}
use zan_redis_db.Bytes.Words.{length-put_be, get_be-put_be}
use zan_redis_db.Key.{set_type, s_encode_size_key}
use zan_redis_db.Key.Elements.{s_encode_set_key}
use zan_redis_db.Expire.{
  HeaderMetaValue, header_bytes, header_is_expired, decode_raw_value, raw_is_expired,
  encode_ver_key, encode_to_version_key, is_versioned_type,
}
use zan_redis_db.Expire.Header.{IsHeader, decode-header_bytes}
use zan_redis_db.Engine.{Engine, RockDb}
use zan_redis_db.Collection.{
  CollVerKeyInfo, coll_header_meta, encode_meta_key, get_coll_version_key, is_not_exist_or_expired,
}
use zan_redis_db.Lists.Model.{IsKey}
use zan_redis_db.Sets.{
  size_of, is_there, has_member, s_get_size, s_card, s_is_member, check_sub_key,
}

-- The user data of a meta, and the meta.
abbrev pub size_bytes : ℕ → ℕ → Bytes
size_bytes n ts = put_uint64 n ++ put_uint64 ts

abbrev pub set_raw : HeaderMetaValue → ℕ → ℕ → Bytes
set_raw h n ts = header_bytes h ++ size_bytes n ts

-- The key holds a set that is not empty: its meta is stored and has not expired, and under the
-- version of its header exactly its members are. The size is the length of the list of members; it
-- is right where the list has no member twice.
pub record IsMemberSet {E : Engine} (db : RockDb E) (ts : ℕ) (key table rk : Bytes)
    (h : HeaderMetaValue) (xs : List Bytes) : Type 0 where
  pub set_ts : ℕ
  pub stored : E.get db.eng (s_encode_size_key key) ≡ some (set_raw h (length xs) set_ts)
  pub header : IsHeader h
  pub alive : header_is_expired h ts ≡ false
  pub nonempty : 1 ≤ length xs
  pub small : length xs < 2 ^ 62
  pub members :
      (m : Bytes)
      → is_there (E.get db.eng (s_encode_set_key table (encode_ver_key h rk) m)) ≡ contains xs m
  pub no_batch : db.wb ≡ []

length-size_bytes : (n ts : ℕ) → length (size_bytes n ts) ≡ 16
length-size_bytes n ts =
    omega
      (arith, length-append (put_uint64 n) (put_uint64 ts), length-put_be 8 n, length-put_be 8 ts)

size_stored : (v : Bytes) → 8 ≤ length v → size_of (some v) ≡ ok (uint64 v)
unfolding size_of
size_stored [] h = absurd (omega arith)
size_stored (b ∷ v) h = rw (le→ltb (length (b ∷ v)) 8 h) refl

pub size_of-size_bytes : (n ts : ℕ) → IsWord64 n → size_of (some (size_bytes n ts)) ≡ ok n
size_of-size_bytes n ts w =
    size_stored (size_bytes n ts) (omega (arith, length-size_bytes n ts))
    ∙ ap ok (get_be-put_be 8 n (put_uint64 ts) (omega (arith, w)))

abbrev pub info_of : Bytes → Bytes → HeaderMetaValue → ℕ → ℕ → CollVerKeyInfo
info_of table rk h n ts = record {
  old_header = record h { user_data = some (size_bytes n ts) };
  expired = false;
  table = table;
  ver_key = encode_ver_key h rk;
}

module _ {E : Engine} (db : RockDb E) (ts : ℕ) (key table rk : Bytes) (h : HeaderMetaValue)
    (xs : List Bytes) (k : IsKey key table rk) (s : IsMemberSet db ts key table rk h xs) where
  -- At any time.
  pub coll_header_meta_at :
      (now : ℕ)
      → coll_header_meta db now set_type key
        ≡ ok (
          record h { user_data = some (size_bytes (length xs) s.set_ts) },
          header_is_expired h now,
        )
  unfolding coll_header_meta encode_meta_key decode_raw_value raw_is_expired header_is_expired
  coll_header_meta_at now =
      rw (s.stored, decode-header_bytes h (size_bytes (length xs) s.set_ts) s.header) refl

  pub get_coll_version_key_at :
      (now : ℕ)
      → get_coll_version_key db now set_type key
        ≡ ok
            (record (info_of table rk h (length xs) s.set_ts) { expired = header_is_expired h now })
  unfolding get_coll_version_key encode_to_version_key is_versioned_type encode_ver_key
  get_coll_version_key_at now = rw (k.named, k.table_given, k.rk_fits, coll_header_meta_at now) refl

  pub coll_header_meta-IsMemberSet :
      coll_header_meta db ts set_type key
      ≡ ok (record h { user_data = some (size_bytes (length xs) s.set_ts) }, false)
  coll_header_meta-IsMemberSet =
      coll_header_meta_at ts
      ∙ ap (λ (b : Bool). ok (record h { user_data = some (size_bytes (length xs) s.set_ts) }, b))
          s.alive

  pub get_coll_version_key-IsMemberSet :
      get_coll_version_key db ts set_type key ≡ ok (info_of table rk h (length xs) s.set_ts)
  get_coll_version_key-IsMemberSet =
      get_coll_version_key_at ts
      ∙ ap (λ (b : Bool). ok (record (info_of table rk h (length xs) s.set_ts) { expired = b }))
          s.alive

  pub s_get_size-IsMemberSet : s_get_size db ts key ≡ ok (length xs)
  unfolding s_get_size
  s_get_size-IsMemberSet =
      rw (k.key_fits, coll_header_meta-IsMemberSet)
        (size_of-size_bytes (length xs) s.set_ts (omega (arith, s.small)))

  pub s_reads-IsMemberSet :
      (s_card db ts key ≡ ok (length xs))
      × ((m : Bytes)
          → check_sub_key m ≡ ok tt
          → s_is_member db ts key m ≡ ok (if contains xs m then 1 else 0))
  unfolding s_card s_is_member has_member is_not_exist_or_expired
  s_reads-IsMemberSet = (
    s_get_size-IsMemberSet,
    λ m fits.
        rw (get_coll_version_key-IsMemberSet, fits)
          (ap (λ (b : Bool). ok (if b then 1 else 0)) (s.members m)),
  )
