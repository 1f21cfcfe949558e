-- ===== src/Key/Scan.antt =====
-- The ranges that scans of a collection run over.
use mathlib.Core.Path.{ap₂, subst}
use zan_redis_db.Prelude.{
  ℕ, suc, ◌+◌, ◌%◌, ◌^◌, ◌<◌, ◌≡◌, ◌≢◌, refl, sym, ap, ◌∙◌, arith, [], ◌∷◌, ◌++◌, length,
  append_assoc, compare, Ordering, ◌↔◌,
}
use zan_redis_db.Result.{Result, ok}
use zan_redis_db.Bytes.{Bytes, IsWord64, and_then, compare_bytes, put_uint16, put_uint64}
use zan_redis_db.Bytes.Order.{compare_bytes-append_left, compare_bytes-put_be}
use zan_redis_db.Key.{bump_last, encode_data_table_prefix, coll_start_sep, hash_type, list_type}
use zan_redis_db.Key.Elements.{
  h_encode_hash_key, h_decode_hash_key, h_encode_start_key, h_encode_stop_key, l_encode_list_key,
  coll_key,
}
use zan_redis_db.Key.RoundTrip.{FitsUint16, h_decode-h_encode_hash_key}

-- A key from `lo` on and below `hi`.
abbrev pub InRange : Bytes → Bytes → Bytes → Type 0
InRange lo hi k = (compare_bytes lo k ≢ Ordering.gt) × (compare_bytes k hi ≡ Ordering.lt)

not_below_nil : (k : Bytes) → compare_bytes k [] ≢ Ordering.lt
unfolding compare_bytes
not_below_nil [] e = cc
not_below_nil (x ∷ k) e = cc

-- Between a prefix and the prefix with its last byte bumped stand the strings with that prefix.
prefix_range :
    (p : Bytes) (c : ℕ) (k : Bytes)
    → InRange (p ++ c ∷ []) (p ++ suc c ∷ []) k
    → (f : Bytes) × (k ≡ p ++ c ∷ f)
unfolding compare_bytes
prefix_range [] c [] h = absurd (h.0 refl)
prefix_range [] c (x ∷ k) h =
    let here : x ≡ c = ground (arith, not_below_nil k) in (k, ap (λ (y : ℕ). y ∷ k) here)
prefix_range (y ∷ p) c [] h = absurd (h.0 refl)
prefix_range (y ∷ p) c (x ∷ k) h =
    let here : x ≡ y = ground arith in
    let (f, e) = prefix_range p c k (ground arith, ground arith) in
    (f, ap₂ (λ (z : ℕ) (t : Bytes). z ∷ t) here e)

in_prefix_range :
    (p : Bytes) (c : ℕ) (f : Bytes) → InRange (p ++ c ∷ []) (p ++ suc c ∷ []) (p ++ c ∷ f)
unfolding compare_bytes
in_prefix_range p c f =
    rw
      (
        compare_bytes-append_left p (c ∷ []) (c ∷ f),
        compare_bytes-append_left p (c ∷ f) (suc c ∷ []),
      )
      (below f, ground arith)
  where
    below : (f : Bytes) → and_then (compare c c) (compare_bytes [] f) ≢ Ordering.gt
    below [] = ground arith
    below (x ∷ f) = ground arith

bump_last-append : (p : Bytes) (c : ℕ) → c < 255 → bump_last (p ++ c ∷ []) ≡ p ++ suc c ∷ []
unfolding bump_last
bump_last-append [] c h = ap (λ (x : ℕ). x ∷ []) {x = (c + 1) % 256} {y = suc c} (omega arith)
bump_last-append (x ∷ []) c h = ap (λ (t : Bytes). x ∷ t) (bump_last-append [] c h)
bump_last-append (x ∷ y ∷ p) c h = ap (λ (t : Bytes). x ∷ t) (bump_last-append (y ∷ p) c h)

-- All that a collection's keys share: what stands before the separator.
coll_prefix : ℕ → Bytes → Bytes → Bytes
coll_prefix dt table key =
    encode_data_table_prefix dt table ++ (put_uint16 (length key % 2 ^ 16) ++ key)

coll_key-prefix :
    (dt : ℕ) (table key field : Bytes)
    → coll_key dt table key field ≡ coll_prefix dt table key ++ coll_start_sep ∷ field
unfolding coll_key coll_prefix
coll_key-prefix dt table key field =
    ap (λ (t : Bytes). encode_data_table_prefix dt table ++ t)
      (sym (append_assoc (put_uint16 (length key % 2 ^ 16)) key (coll_start_sep ∷ field)))
    ∙ sym (append_assoc (encode_data_table_prefix dt table) _ (coll_start_sep ∷ field))

hash_key-prefix :
    (table key field : Bytes)
    → h_encode_hash_key table key field ≡ coll_prefix hash_type table key ++ coll_start_sep ∷ field
unfolding h_encode_hash_key
hash_key-prefix = coll_key-prefix hash_type

same_names :
    {a b c a' b' c' : Bytes}
    → ◌≡◌ {A = Result (Bytes × Bytes × Bytes)} (ok (a, b, c)) (ok (a', b', c'))
    → (a ≡ a') × (b ≡ b')
same_names e = ground arith

module _ (table key : Bytes) where
  hash_range :
      (k : Bytes)
      → InRange (h_encode_start_key table key) (h_encode_stop_key table key) k
        ↔ InRange
            (coll_prefix hash_type table key ++ coll_start_sep ∷ [])
            (coll_prefix hash_type table key ++ suc coll_start_sep ∷ [])
            k
  unfolding h_encode_start_key h_encode_stop_key
  hash_range k = rw (coll_key-prefix hash_type table key []) (
      rw (bump_last-append (coll_prefix hash_type table key) coll_start_sep (omega arith))
        (λ h. h, λ h. h))

-- The range that a scan of a hash runs over holds the keys of its fields, and of no other hash's,
-- where the names fit their two-byte length fields.
pub hash_scan_exact :
    (table key table' key' field : Bytes)
    → FitsUint16 table
    → FitsUint16 key
    → FitsUint16 table'
    → FitsUint16 key'
    → InRange
        (h_encode_start_key table key)
        (h_encode_stop_key table key)
        (h_encode_hash_key table' key' field)
      ↔ ((table' ≡ table) × (key' ≡ key))
hash_scan_exact table key table' key' field ht hk ht' hk' = (inside, λ h. outside h.0 h.1)
  where
    k : Bytes
    k = h_encode_hash_key table' key' field

    inside :
        InRange (h_encode_start_key table key) (h_encode_stop_key table key) k
        → (table' ≡ table) × (key' ≡ key)
    inside h =
        let (f, e) = prefix_range _ _ k ((hash_range table key k).0 h) in
        same_names (
          sym (h_decode-h_encode_hash_key table' key' field ht' hk')
          ∙ ap h_decode_hash_key (e ∙ sym (hash_key-prefix table key f))
          ∙ h_decode-h_encode_hash_key table key f ht hk)

    outside :
        table' ≡ table
        → key' ≡ key
        → InRange (h_encode_start_key table key) (h_encode_stop_key table key) k
    outside et ek = (hash_range table key k).1 (
        subst (InRange _ _)
          (sym (
            ap₂ (λ (a b : Bytes). h_encode_hash_key a b field) et ek
            ∙ hash_key-prefix table key field))
          (in_prefix_range (coll_prefix hash_type table key) coll_start_sep field))

-- The elements of one list are stored in the order of their sequence numbers, as unsigned 64-bit
-- numbers.
pub l_encode_list_key_order :
    (table key : Bytes) (seq seq' : ℕ)
    → IsWord64 seq
    → IsWord64 seq'
    → compare_bytes (l_encode_list_key table key seq) (l_encode_list_key table key seq')
      ≡ compare seq seq'
unfolding l_encode_list_key
l_encode_list_key_order table key seq seq' h h' =
    compare_bytes-append_left (encode_data_table_prefix list_type table) _ _
    ∙ compare_bytes-append_left (put_uint16 (length key % 2 ^ 16)) _ _
    ∙ compare_bytes-append_left key (put_uint64 seq) (put_uint64 seq')
    ∙ compare_bytes-put_be 8 seq seq' h h'
