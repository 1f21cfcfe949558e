-- ===== src/Key/Kinds.antt =====
-- Keys of different kinds, elements of different places of a list, and different members of a set
-- have different keys.
use zan_redis_db.Prelude.{
  ℕ, [], ◌∷◌, ◌++◌, length, ◌%◌, ◌^◌, ◌≡◌, refl, sym, ap, ◌∙◌, arith, true, false, compare,
  Ordering, ◌==◌, inl, inr, Bool-cases, ltb,
}
use zan_redis_db.Bytes.{
  Bytes, put_uint16, IsWord64, compare_bytes, eq_bytes, eq_bytes_refl, eq_bytes_sound,
}
use zan_redis_db.Bytes.Order.{compare_bytes_refl}
use zan_redis_db.Key.{
  set_type, coll_start_sep, s_encode_size_key, l_encode_meta_key, encode_table_meta_key, with_meta,
  encode_data_table_prefix,
}
use zan_redis_db.Key.Elements.{coll_key, s_encode_set_key, l_encode_list_key}
use zan_redis_db.Engine.{before}
use zan_redis_db.Key.Scan.{l_encode_list_key_order}

pub meta_key-list_key :
    (key table k : Bytes) (seq : ℕ)
    → (eq_bytes (l_encode_meta_key key) (l_encode_list_key table k seq) ≡ false)
      × (eq_bytes (l_encode_list_key table k seq) (l_encode_meta_key key) ≡ false)
unfolding l_encode_meta_key l_encode_list_key with_meta encode_data_table_prefix eq_bytes
meta_key-list_key key table k seq = (refl, refl)

-- The counter of a table is neither a list's meta nor an element.
pub table_key-others :
    (name key table k : Bytes) (seq : ℕ)
    → (eq_bytes (encode_table_meta_key name) (l_encode_meta_key key) ≡ false)
      × (eq_bytes (encode_table_meta_key name) (l_encode_list_key table k seq) ≡ false)
unfolding encode_table_meta_key l_encode_meta_key l_encode_list_key with_meta
    encode_data_table_prefix eq_bytes
table_key-others name key table k seq = (refl, refl)

pub meta_key-table_key :
    (name key : Bytes) → eq_bytes (l_encode_meta_key key) (encode_table_meta_key name) ≡ false
unfolding encode_table_meta_key l_encode_meta_key with_meta eq_bytes
meta_key-table_key name key = refl

pub list_key-eq :
    (table k : Bytes) (s s' : ℕ)
    → IsWord64 s
    → IsWord64 s'
    → eq_bytes (l_encode_list_key table k s) (l_encode_list_key table k s') ≡ (s == s')
list_key-eq table k s s' w w' = elim (Bool-cases (eq_bytes (lk s) (lk s'))) [
  | inl h ↦
      let same : compare s s' ≡ Ordering.eq =
        sym (l_encode_list_key_order table k s s' w w')
        ∙ ap (λ (b : Bytes). compare_bytes b (lk s')) (eq_bytes_sound (lk s) (lk s') h)
        ∙ compare_bytes_refl (lk s') in
      ground (arith, h)
  | inr h ↦ elim (Bool-cases (s == s')) [
    | inl e ↦ absurd (differ (ground arith) h)
    | inr e ↦ h ∙ sym e
  ]
]
  where
    lk : ℕ → Bytes
    lk = l_encode_list_key table k

    differ : s ≡ s' → eq_bytes (lk s) (lk s') ≡ false → ⊥
    differ e h = ground (arith, ap lk e, eq_bytes_refl (lk s), h)

-- How a list's meta and its elements stand to an element in the order of the keys.
pub before-list_key :
    (table k : Bytes) (s s' : ℕ)
    → IsWord64 s
    → IsWord64 s'
    → before (l_encode_list_key table k s) (l_encode_list_key table k s') ≡ ltb s s'
before-list_key table k s s' w w' =
    ap (λ (o : Ordering). elim o [ Ordering.lt ↦ true | Ordering.eq ↦ false | Ordering.gt ↦ false ])
      (l_encode_list_key_order table k s s' w w')

pub before-meta_key :
    (key table k : Bytes) (seq : ℕ)
    → before (l_encode_meta_key key) (l_encode_list_key table k seq) ≡ false
unfolding l_encode_meta_key l_encode_list_key with_meta encode_data_table_prefix compare_bytes
before-meta_key key table k seq = refl

eq_bytes-prefix : (p a b : Bytes) → eq_bytes (p ++ a) (p ++ b) ≡ eq_bytes a b
unfolding eq_bytes
eq_bytes-prefix [] a b = refl
eq_bytes-prefix (x ∷ p) a b = ground (arith, eq_bytes-prefix p a b)

pub member_key-eq :
    (table k m m' : Bytes)
    → eq_bytes (s_encode_set_key table k m) (s_encode_set_key table k m') ≡ eq_bytes m m'
unfolding s_encode_set_key coll_key
member_key-eq table k m m' =
    eq_bytes-prefix (encode_data_table_prefix set_type table) _ _
    ∙ eq_bytes-prefix (put_uint16 (length k % 2 ^ 16)) _ _
    ∙ eq_bytes-prefix k _ _
    ∙ eq_bytes-prefix (coll_start_sep ∷ []) m m'

pub size_key-member_key :
    (key table k m : Bytes)
    → (eq_bytes (s_encode_size_key key) (s_encode_set_key table k m) ≡ false)
      × (eq_bytes (s_encode_set_key table k m) (s_encode_size_key key) ≡ false)
unfolding s_encode_size_key s_encode_set_key coll_key with_meta encode_data_table_prefix eq_bytes
size_key-member_key key table k m = (refl, refl)

pub table_key-set :
    (name key table k m : Bytes)
    → (eq_bytes (encode_table_meta_key name) (s_encode_size_key key) ≡ false)
      × (eq_bytes (encode_table_meta_key name) (s_encode_set_key table k m) ≡ false)
      × (eq_bytes (s_encode_size_key key) (encode_table_meta_key name) ≡ false)
unfolding encode_table_meta_key s_encode_size_key s_encode_set_key coll_key with_meta
    encode_data_table_prefix eq_bytes
table_key-set name key table k m = (refl, refl, refl)
