-- ===== src/Lists/Read.antt =====
-- The reading operations answer what the list says.
use zan_redis_db.Prelude.{
  ℕ, ◌+◌, ◌-◌, ◌^◌, ◌≤◌, ◌<◌, ◌≡◌, refl, sym, ap, ◌∙◌, arith, Option, none, some, List, length, ltb,
  leb, if◌then◌else◌, get_elem?, get_elem?_past, le→ltb, ltb→lt, Bool-cases, inl, inr,
}
use zan_redis_db.Result.{ok}
use zan_redis_db.Bytes.{Bytes, IsWord64}
use zan_redis_db.Expire.{HeaderMetaValue}
use zan_redis_db.Engine.{Engine, RockDb}
use zan_redis_db.Collection.{is_not_exist_or_expired}
use zan_redis_db.Lists.{list_min_seq, list_max_seq, l_len, l_index, index_seq, found_at}
use zan_redis_db.Lists.Model.{
  IsKey, IsList, element, last_of, info_of, meta_of, parse-meta_bytes, get_coll_version_key-IsList,
  l_header_and_meta-IsList,
}

-- The place that an index means: from the front, or from the back where it is negative.
unfoldable pub at_index : List Bytes → ℕ → Option Bytes
at_index xs index =
    if ltb index (2 ^ 63)
    then get_elem? xs index
    else if leb (2 ^ 64 - index) (length xs)
    then get_elem? xs (length xs - (2 ^ 64 - index))
    else none

module _ (head size ts : ℕ) (some_left : 1 ≤ size) (low : list_min_seq < head)
    (high : head + size ≤ list_max_seq) (index : ℕ) where
  pub index_seq_front :
      index < 2 ^ 63
      → index_seq (meta_of head size ts) index
        ≡ (if ltb index size then some (head + index) else none)
  unfolding index_seq
  index_seq_front w = ground arith

  pub index_seq_back :
      2 ^ 63 ≤ index
      → index < 2 ^ 64
      → index_seq (meta_of head size ts) index
        ≡ (if leb (2 ^ 64 - index) size then some (head + (size - (2 ^ 64 - index))) else none)
  unfolding index_seq
  index_seq_back above w = ground arith

module _ {E : Engine} (db : RockDb E) (ts : ℕ) (key table rk : Bytes) (h : HeaderMetaValue)
    (head : ℕ) (xs : List Bytes) (k : IsKey key table rk)
    (l : IsList db ts key table rk h head xs) where
  -- LLEN of a key of an allowed size that holds a live list gives the number of its values.
  pub l_len-IsList : l_len db ts key ≡ ok (length xs)
  unfolding l_len is_not_exist_or_expired
  l_len-IsList =
      rw
        (
          get_coll_version_key-IsList db ts key table rk h head xs k l,
          parse-meta_bytes head (length xs) l.list_ts l.nonempty l.high l.ts_fits,
        )
        refl

  found_place :
      (i : ℕ)
      → i < length xs
      → found_at db (info_of table rk h head (last_of xs head) l.list_ts) (some (head + i))
        ≡ get_elem? xs i
  unfolding found_at element
  found_place i w =
      let here : head + i - head ≡ i = omega arith in
      l.elements (head + i) (omega (arith, l.high))
      ∙ rw (le→ltb (head + i) head (omega arith), here) refl

  found_front :
      (index : ℕ)
      → index < 2 ^ 63
      → found_at db
          (info_of table rk h head (last_of xs head) l.list_ts)
          (if ltb index (length xs) then some (head + index) else none)
        ≡ get_elem? xs index
  unfolding found_at
  found_front index w = elim (Bool-cases (ltb index (length xs))) [
    | inl e ↦ rw e (found_place index (ltb→lt index (length xs) e))
    | inr e ↦ rw e (sym (get_elem?_past xs index (ground arith)))
  ]

  found_back :
      (j : ℕ)
      → 1 ≤ j
      → found_at db
          (info_of table rk h head (last_of xs head) l.list_ts)
          (if leb j (length xs) then some (head + (length xs - j)) else none)
        ≡ (if leb j (length xs) then get_elem? xs (length xs - j) else none)
  unfolding found_at
  found_back j w = elim (Bool-cases (leb j (length xs))) [
    | inl e ↦ rw e (found_place (length xs - j) (omega (arith, l.nonempty)))
    | inr e ↦ rw e refl
  ]

  found_at-IsList :
      (index : ℕ)
      → IsWord64 index
      → found_at db
          (info_of table rk h head (last_of xs head) l.list_ts)
          (index_seq (meta_of head (length xs) l.list_ts) index)
        ≡ at_index xs index
  unfolding at_index
  found_at-IsList index w = elim (Bool-cases (ltb index (2 ^ 63))) [
    | inl e ↦
        rw
          (
            e,
            index_seq_front head (length xs) l.list_ts l.nonempty l.low l.high index
                (ltb→lt index (2 ^ 63) e),
          )
          (found_front index (ltb→lt index (2 ^ 63) e))
    | inr e ↦
        rw
          (
            e,
            index_seq_back head (length xs) l.list_ts l.nonempty l.low l.high index (ground arith)
                w,
          )
          (found_back (2 ^ 64 - index) (omega arith))
  ]

  -- LINDEX of a key of an allowed size that holds a live list gives the value at the index, counted
  -- from the front, or from the back where the index is negative, and nothing where the index is
  -- outside of the list, for every int64 index.
  pub l_index-IsList :
      (index : ℕ) → IsWord64 index → l_index db ts key index ≡ ok (at_index xs index)
  unfolding l_index is_not_exist_or_expired
  l_index-IsList index w =
      rw (l_header_and_meta-IsList db ts key table rk h head xs k l)
        (ap ok (found_at-IsList index w))
