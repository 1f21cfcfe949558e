-- ===== src/Lists/Write/Puts.antt =====
-- The loop of lpush: which elements it puts, and where.
use zan_redis_db.Prelude.{
  ℕ, suc, ◌+◌, ◌-◌, ◌≤◌, ◌<◌, ◌≡◌, refl, ap, ◌∙◌, arith, Bool, true, Option, none, some, List, [],
  ◌∷◌, ◌++◌, length, ◌==◌, if◌then◌else◌, get_elem?, get_elem?-append_right, Bool-cases, inl, inr,
}
use zan_redis_db.Bytes.{Bytes, IsWord64, add_int64, neg_int64}
use zan_redis_db.Key.Elements.{l_encode_list_key}
use zan_redis_db.Key.Kinds.{list_key-eq}
use zan_redis_db.Engine.{Engine, RockDb, WriteOp, put, after, after_all}
use zan_redis_db.Collection.{CollVerKeyInfo}
use zan_redis_db.Lists.{list_max_seq}
use zan_redis_db.Lists.Write.{push_items, push_item}
use zan_redis_db.Lists.Places.{
  element-nil, element-rest, element-front, or_else, backwards, length-backwards,
}
use zan_redis_db.Lists.Model.{element, element_at}

-- What lpush puts.
abbrev pub puts : Bytes → Bytes → ℕ → ℕ → List Bytes → List WriteOp
puts table ver delta seq [] = []
puts table ver delta seq (v ∷ args) =
    put (l_encode_list_key table ver seq) v ∷ puts table ver delta (add_int64 seq delta) args

-- The first value of a list that is stored over what was there.
placed :
    (v : Bytes) (args : List Bytes) (seq s : ℕ) (old : Option Bytes)
    → or_else
        (if seq == s then none else element (v ∷ args) seq s)
        (if seq == s then some v else old)
      ≡ or_else (element (v ∷ args) seq s) old
placed v args seq s old = elim (Bool-cases (seq == s)) [
  | inr e ↦ rw e refl
  | inl e ↦
      let same : element (v ∷ args) seq s ≡ some v =
        ap (element (v ∷ args) seq) {x = s} {y = seq + 0} (ground arith)
        ∙ element_at (v ∷ args) seq 0 in
      rw (e, same) refl
]

-- The last value likewise.
placed_last :
    (v : Bytes) (xs : List Bytes) (head s : ℕ) (old : Option Bytes)
    → or_else (element xs head s) (if head + length xs == s then some v else old)
      ≡ or_else (element (xs ++ (v ∷ [])) head s) old
placed_last v xs head s old = elim (Bool-cases (head + length xs == s)) [
  | inr e ↦ rw (element-front v xs head s, e) refl
  | inl e ↦
      let same : element (xs ++ (v ∷ [])) head s ≡ some v =
        ap (element (xs ++ (v ∷ [])) head) {x = s} {y = head + length xs} (ground arith)
        ∙ element_at (xs ++ (v ∷ [])) head (length xs)
        ∙ get_elem?-append_right xs (v ∷ []) (length xs) (omega arith)
        ∙ ap (get_elem? (v ∷ [])) {x = length xs - length xs} {y = 0} (omega arith) in
      rw (element-front v xs head s, e, same) refl
]

module _ (m : Bytes → Option Bytes → Option Bytes) (table ver : Bytes) where
  after-put :
      (seq s : ℕ) (v : Bytes) (ops : List WriteOp) (old : Option Bytes)
      → IsWord64 seq
      → IsWord64 s
      → after_all m
          (put (l_encode_list_key table ver seq) v ∷ ops)
          (l_encode_list_key table ver s)
          old
        ≡ after_all m ops (l_encode_list_key table ver s) (if seq == s then some v else old)
  unfolding after_all after
  after-put seq s v ops old w w' =
      ap (λ (b : Bool). after_all m ops (l_encode_list_key table ver s) (if b then some v else old))
        (list_key-eq table ver seq s w w')

  pub puts-up :
      (args : List Bytes) (seq s : ℕ) (old : Option Bytes)
      → seq + length args ≤ list_max_seq
      → IsWord64 s
      → after_all m (puts table ver 1 seq args) (l_encode_list_key table ver s) old
        ≡ or_else (element args seq s) old
  unfolding after_all
  puts-up [] seq s old high w = rw (element-nil seq s) refl
  puts-up (v ∷ args) seq s old high w =
      let next : add_int64 seq 1 ≡ seq + 1 = omega arith in
      let old' : Option Bytes = if seq == s then some v else old in
      after-put seq s v (puts table ver 1 (add_int64 seq 1) args) old (omega arith) w
      ∙ ap (λ (q : ℕ). after_all m (puts table ver 1 q args) (l_encode_list_key table ver s) old')
          next
      ∙ puts-up args (seq + 1) s old' (omega arith) w
      ∙ ap (λ (o : Option Bytes). or_else o old') (element-rest v args seq s)
      ∙ placed v args seq s old

  pub puts-down :
      (args : List Bytes) (seq s : ℕ) (old : Option Bytes)
      → seq < list_max_seq
      → length args ≤ seq
      → IsWord64 s
      → after_all m (puts table ver (neg_int64 1) seq args) (l_encode_list_key table ver s) old
        ≡ or_else (element (backwards args) (seq + 1 - length args) s) old
  unfolding after_all backwards
  puts-down [] seq s old high low w = rw (element-nil (seq + 1 - 0) s) refl
  puts-down (v ∷ args) seq s old high low w =
      let next : add_int64 seq (neg_int64 1) ≡ seq - 1 = omega arith in
      let old' : Option Bytes = if seq == s then some v else old in
      let first : seq - 1 + 1 - length args ≡ seq - length args = omega arith in
      let first' : seq - length args ≡ seq + 1 - suc (length args) = omega arith in
      let end : seq ≡ seq - length args + length (backwards args) =
        omega (arith, length-backwards args) in
      after-put seq s v (puts table ver (neg_int64 1) (add_int64 seq (neg_int64 1)) args) old
        (omega arith) w
      ∙ ap
          (λ (q : ℕ).
            after_all m (puts table ver (neg_int64 1) q args) (l_encode_list_key table ver s) old')
          next
      ∙ puts-down args (seq - 1) s old' (omega arith) (omega arith) w
      ∙ ap (λ (q : ℕ). or_else (element (backwards args) q s) old') first
      ∙ ap
          (λ (q : ℕ).
            or_else (element (backwards args) (seq - length args) s)
              (if q == s then some v else old))
          end
      ∙ placed_last v (backwards args) (seq - length args) s old
      ∙ ap (λ (q : ℕ). or_else (element (backwards args ++ (v ∷ [])) q s) old) first'

module _ {E : Engine} (db : RockDb E) (info : CollVerKeyInfo) where
  -- The loop meets no element that is stored already where the places are free.
  pub push_items-up :
      (args : List Bytes) (seq : ℕ)
      → seq + length args ≤ list_max_seq
      → ((s : ℕ)
          → IsWord64 s
          → seq ≤ s
          → E.get db.eng (l_encode_list_key info.table info.ver_key s) ≡ none)
      → push_items db info 1 seq args ≡ (puts info.table info.ver_key 1 seq args, true)
  unfolding push_items push_item
  push_items-up [] seq high free = refl
  push_items-up (v ∷ args) seq high free =
      ap
        (λ (o : Option Bytes).
          push_item o (l_encode_list_key info.table info.ver_key seq) v
            (push_items db info 1 (add_int64 seq 1) args))
        (free seq (omega arith) (omega arith))
      ∙ ap (push_item none (l_encode_list_key info.table info.ver_key seq) v)
          (push_items-up args (add_int64 seq 1) (omega arith) (λ s w above. free s w (omega arith)))

  pub push_items-down :
      (args : List Bytes) (seq : ℕ)
      → seq < list_max_seq
      → length args ≤ seq
      → ((s : ℕ)
          → IsWord64 s
          → s ≤ seq
          → E.get db.eng (l_encode_list_key info.table info.ver_key s) ≡ none)
      → push_items db info (neg_int64 1) seq args
        ≡ (puts info.table info.ver_key (neg_int64 1) seq args, true)
  unfolding push_items push_item
  push_items-down [] seq high low free = refl
  push_items-down (v ∷ args) seq high low free =
      ap
        (λ (o : Option Bytes).
          push_item o (l_encode_list_key info.table info.ver_key seq) v
            (push_items db info (neg_int64 1) (add_int64 seq (neg_int64 1)) args))
        (free seq (omega arith) (omega arith))
      ∙ ap (push_item none (l_encode_list_key info.table info.ver_key seq) v) (
          push_items-down args (add_int64 seq (neg_int64 1)) (omega arith) (omega arith)
            (λ s w below. free s w (omega arith)))
