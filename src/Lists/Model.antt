-- ===== src/Lists/Model.antt =====
-- What it is for a key to hold a list of values, and how the operations find it.
use zan_redis_db.Prelude.{
  ℕ, ◌+◌, ◌-◌, ◌≤◌, ◌<◌, ◌≡◌, refl, sym, ap, ◌∙◌, arith, Bool, false, Option, none, some, List, [],
  ◌∷◌, ◌++◌, length, ltb, ◌==◌, if◌then◌else◌, get_elem?, get_elem?_past, le→ltb, length-append,
  drop-append_at, append_assoc,
}
use zan_redis_db.Result.{Result, ok, ◌>>=◌}
use zan_redis_db.Bytes.{Bytes, IsWord64, add_int64, put_uint64}
use zan_redis_db.Bytes.Words.{length-put_be, get_be-put_be, get_be-put_be_whole}
use zan_redis_db.Key.{list_type, l_encode_meta_key, check_key_size, extract_table_from_redis_key}
use zan_redis_db.Key.Elements.{l_encode_list_key}
use zan_redis_db.Expire.{
  HeaderMetaValue, decode_header, header_is_expired, encode_ver_key, encode_to_version_key,
  is_versioned_type, decode_raw_value, raw_is_expired,
}
use zan_redis_db.Expire.Header.{IsHeader, decode-encode_with_data}
use zan_redis_db.Engine.{Engine, RockDb}
use zan_redis_db.Collection.{
  CollVerKeyInfo, get_coll_version_key, coll_header_meta, encode_meta_key,
}
use zan_redis_db.Lists.{
  ListMeta, list_min_seq, list_max_seq, sub_int64, meta_bytes, parse_list_meta, stored_meta,
  encode_list_meta, l_header_and_meta,
}

-- A key of an allowed size: a table, and what stands behind it.
pub record IsKey (key table rk : Bytes) : Type 0 where
  pub named : extract_table_from_redis_key key ≡ ok (table, rk)
  pub table_given : (length table == 0) ≡ false
  pub key_fits : check_key_size key ≡ ok tt
  pub rk_fits : check_key_size rk ≡ ok tt

-- The value that stands under a sequence number, for a list that begins at `head`.
unfoldable pub element : List Bytes → ℕ → ℕ → Option Bytes
element xs head seq = if ltb seq head then none else get_elem? xs (seq - head)

pub element_before : (xs : List Bytes) (head seq : ℕ) → seq < head → element xs head seq ≡ none
unfolding element
element_before xs head seq h = ground arith

pub element_past :
    (xs : List Bytes) (head seq : ℕ) → head + length xs ≤ seq → element xs head seq ≡ none
unfolding element
element_past xs head seq h = rw (get_elem?_past xs (seq - head) (omega arith)) (ground arith)

pub element_at : (xs : List Bytes) (head i : ℕ) → element xs head (head + i) ≡ get_elem? xs i
unfolding element
element_at xs head i =
    let here : head + i - head ≡ i = omega arith in
    rw (le→ltb (head + i) head (omega arith), here) refl

abbrev pub last_of : List Bytes → ℕ → ℕ
last_of xs head = head + length xs - 1

-- The key holds a list that is not empty: its meta is stored and not expired, and under the version
-- of its header exactly its values are, in a row.
pub record IsList {E : Engine} (db : RockDb E) (ts : ℕ) (key table rk : Bytes) (h : HeaderMetaValue)
    (head : ℕ) (xs : List Bytes) : Type 0 where
  pub list_ts : ℕ
  pub raw : Bytes
  pub encoded : encode_list_meta h head (last_of xs head) list_ts ≡ ok raw
  pub stored : E.get db.eng (l_encode_meta_key key) ≡ some raw
  pub header : IsHeader h
  pub alive : header_is_expired h ts ≡ false
  pub ts_fits : IsWord64 list_ts
  pub nonempty : 1 ≤ length xs
  pub low : list_min_seq < head
  pub high : head + length xs ≤ list_max_seq
  pub elements :
      (seq : ℕ)
      → IsWord64 seq
      → E.get db.eng (l_encode_list_key table (encode_ver_key h rk) seq) ≡ element xs head seq
  pub no_batch : db.wb ≡ []

abbrev pub info_of : Bytes → Bytes → HeaderMetaValue → ℕ → ℕ → ℕ → CollVerKeyInfo
info_of table rk h head tail ts = record {
  old_header = record h { user_data = some (meta_bytes head tail ts) };
  expired = false;
  table = table;
  ver_key = encode_ver_key h rk;
}

abbrev pub meta_of : ℕ → ℕ → ℕ → ListMeta
meta_of head size ts = record {
  head_seq = head;
  tail_seq = head + size - 1;
  size = size;
  meta_ts = ts;
}

length-meta_bytes : (head tail ts : ℕ) → length (meta_bytes head tail ts) ≡ 24
length-meta_bytes head tail ts = omega (
  arith,
  length-append (put_uint64 head) (put_uint64 tail ++ put_uint64 ts),
  length-append (put_uint64 tail) (put_uint64 ts),
  length-put_be 8 head,
  length-put_be 8 tail,
  length-put_be 8 ts,
)

parse_stored : (v : Bytes) → 1 ≤ length v → parse_list_meta (some v) ≡ stored_meta v
unfolding parse_list_meta
parse_stored [] h = absurd (omega arith)
parse_stored (b ∷ v) h = refl

module _ (head size ts : ℕ) (some_left : 1 ≤ size) (high : head + size ≤ list_max_seq) where
  abbrev first : Bytes
  first = put_uint64 head

  abbrev second : Bytes
  second = put_uint64 (head + size - 1)

  stored_meta-meta_bytes :
      IsWord64 ts → stored_meta (first ++ (second ++ put_uint64 ts)) ≡ ok (meta_of head size ts)
  unfolding stored_meta
  stored_meta-meta_bytes w =
      let v : Bytes = meta_bytes head (head + size - 1) ts in
      let size_same : add_int64 (sub_int64 (head + size - 1) head) 1 ≡ size = omega arith in
      rw
        (
          le→ltb (length v) 16 (omega (arith, length-meta_bytes head (head + size - 1) ts)),
          le→ltb (length v) 24 (omega (arith, length-meta_bytes head (head + size - 1) ts)),
          get_be-put_be 8 head (second ++ put_uint64 ts) (omega arith),
          drop-append_at 8 first (second ++ put_uint64 ts) (length-put_be 8 head),
          get_be-put_be 8 (head + size - 1) (put_uint64 ts) (omega arith),
          size_same,
          ← append_assoc first second (put_uint64 ts),
          drop-append_at 16 (first ++ second) (put_uint64 ts) (
              omega (
                arith,
                length-append first second,
                length-put_be 8 head,
                length-put_be 8 (head + size - 1),
              )),
          get_be-put_be_whole 8 ts w,
        )
        refl

  pub parse-meta_bytes :
      IsWord64 ts
      → parse_list_meta (some (meta_bytes head (head + size - 1) ts)) ≡ ok (meta_of head size ts)
  parse-meta_bytes w =
      parse_stored (meta_bytes head (head + size - 1) ts)
        (omega (arith, length-meta_bytes head (head + size - 1) ts))
      ∙ stored_meta-meta_bytes w

module _ {E : Engine} (db : RockDb E) (ts : ℕ) (key table rk : Bytes) (h : HeaderMetaValue)
    (head : ℕ) (xs : List Bytes) (k : IsKey key table rk)
    (l : IsList db ts key table rk h head xs) where
  decode-raw :
      decode_header l.raw
      ≡ ok (record h { user_data = some (meta_bytes head (last_of xs head) l.list_ts) })
  unfolding encode_list_meta
  decode-raw =
      let h' : HeaderMetaValue = record h {
        user_data = some (meta_bytes head (last_of xs head) l.list_ts);
      } in
      let v : IsHeader h' = record {
        version_one = l.header.version_one;
        expire_fits = l.header.expire_fits;
        version_fits = l.header.version_fits;
      } in
      sym (ap (λ (r : Result Bytes). r >>= decode_header) l.encoded) ∙ decode-encode_with_data h' v

  -- The header of the key, as the operations find it.
  pub coll_header_meta-IsList :
      coll_header_meta db ts list_type key
      ≡ ok (record h { user_data = some (meta_bytes head (last_of xs head) l.list_ts) }, false)
  unfolding coll_header_meta encode_meta_key decode_raw_value raw_is_expired header_is_expired
  coll_header_meta-IsList =
      let h' : HeaderMetaValue = record h {
        user_data = some (meta_bytes head (last_of xs head) l.list_ts);
      } in
      rw (l.stored, decode-raw) (ap (λ (b : Bool). ok (h', b)) l.alive)

  pub get_coll_version_key-IsList :
      get_coll_version_key db ts list_type key
      ≡ ok (info_of table rk h head (last_of xs head) l.list_ts)
  unfolding get_coll_version_key encode_to_version_key is_versioned_type encode_ver_key
  get_coll_version_key-IsList = rw (k.named, k.table_given, k.rk_fits, coll_header_meta-IsList) refl

  pub l_header_and_meta-IsList :
      l_header_and_meta db ts key
      ≡ ok (info_of table rk h head (last_of xs head) l.list_ts, meta_of head (length xs) l.list_ts)
  unfolding l_header_and_meta
  l_header_and_meta-IsList =
      rw
        (
          get_coll_version_key-IsList,
          parse-meta_bytes head (length xs) l.list_ts l.nonempty l.high l.ts_fits,
        )
        refl
