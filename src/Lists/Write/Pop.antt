-- ===== src/Lists/Write/Pop.antt =====
-- LPOP and RPOP take the first and the last value off the list.
use zan_redis_db.Prelude.{
  ℕ, suc, ◌+◌, ◌-◌, ◌≤◌, ◌<◌, ◌≡◌, refl, sym, ap, ◌∙◌, arith, false, Option, none, some, List, [],
  ◌∷◌, ◌++◌, length, ◌==◌, if◌then◌else◌, get_elem?, get_elem?-append_right, Bool-cases, inl, inr,
  length-append,
}
use zan_redis_db.Result.{ok}
use zan_redis_db.Bytes.{Bytes, IsWord64, add_int64, neg_int64, eq_bytes}
use zan_redis_db.Key.{l_encode_meta_key, encode_table_meta_key}
use zan_redis_db.Key.Elements.{l_encode_list_key}
use zan_redis_db.Key.Kinds.{table_key-others, list_key-eq}
use zan_redis_db.Expire.{HeaderMetaValue, encode_ver_key}
use zan_redis_db.Engine.{Engine, RockDb, delete, after, after_all, add_ops, write_batch, or_return}
use zan_redis_db.Engine.Batch.{get-two, after_all-append}
use zan_redis_db.Collection.Counter.{counter_elsewhere}
use zan_redis_db.Collection.{CollVerKeyInfo, is_not_exist_or_expired, incr_table_key_count}
use zan_redis_db.Lists.{
  ListEnd, head_end, tail_end, at_end, list_min_seq, list_max_seq, sub_int64, meta_bytes,
  l_set_meta,
}
use zan_redis_db.Lists.Write.{lpop, pop_found, pop_value, pop_end, counted_empty}
use zan_redis_db.Lists.Model.{
  IsKey, IsList, element, element_at, last_of, info_of, meta_of, l_header_and_meta-IsList,
}
use zan_redis_db.Lists.Places.{element-rest, element-front}
use zan_redis_db.Lists.Effect.{
  Holds, holds, meta_ops, l_set_meta-ok, l_set_meta-header, meta_ops-elements, meta_ops-meta,
  meta_left,
}

new_head :
    (where_seq : ListEnd) (head : ℕ)
    → head < list_max_seq
    → at_end where_seq (add_int64 head 1) head ≡ at_end where_seq (head + 1) head
new_head head_end head high = omega arith
new_head tail_end head high = refl

new_tail :
    (where_seq : ListEnd) (head size n : ℕ)
    → size ≡ suc n
    → list_min_seq < head
    → head + size ≤ list_max_seq
    → at_end where_seq (head + size - 1) (sub_int64 (head + size - 1) 1)
      ≡ at_end where_seq (head + 1) head + n - 1
new_tail head_end head size n e low high = omega arith
new_tail tail_end head size n e low high = omega arith

new_bounds :
    (where_seq : ListEnd) (head size n : ℕ)
    → size ≡ suc n
    → head + size ≤ list_max_seq
    → (head ≤ at_end where_seq (head + 1) head)
      × (at_end where_seq (head + 1) head + n ≤ list_max_seq)
new_bounds head_end head size n e high = (omega arith, omega arith)
new_bounds tail_end head size n e high = (omega arith, omega arith)

module _ {E : Engine} (db : RockDb E) (ts : ℕ) (key table rk : Bytes) (h : HeaderMetaValue)
    (head : ℕ) (xs : List Bytes) (k : IsKey key table rk) (l : IsList db ts key table rk h head xs)
    (w : IsWord64 ts) (where_seq : ListEnd) (x : Bytes) (ys : List Bytes)
    (one_less : length xs ≡ suc (length ys)) where
  abbrev seq : ℕ
  seq = at_end where_seq head (last_of xs head)

  abbrev head' : ℕ
  head' = at_end where_seq (head + 1) head

  abbrev ver : Bytes
  ver = encode_ver_key h rk

  abbrev info : CollVerKeyInfo
  info = info_of table rk h head (last_of xs head) l.list_ts

  abbrev popped : RockDb E
  popped = add_ops db (delete (l_encode_list_key table ver seq) ∷ [])

  abbrev final : RockDb E
  final =
      write_batch
        (add_ops popped (meta_ops key h head' (length ys) ts ++ counted_empty db info (length ys)))

  bounds : (head ≤ head') × (head' + length ys ≤ list_max_seq)
  bounds = new_bounds where_seq head (length xs) (length ys) one_less l.high

  new_meta :
      l_set_meta key info.old_header
        (at_end where_seq (add_int64 head 1) head)
        (at_end where_seq (head + length xs - 1) (sub_int64 (head + length xs - 1) 1))
        ts
      ≡ ok (length ys, meta_ops key h head' (length ys) ts)
  new_meta =
      rw
        (
          new_head where_seq head (omega (arith, l.high)),
          new_tail where_seq head (length xs) (length ys) one_less l.low l.high,
          l_set_meta-header key h (some (meta_bytes head (last_of xs head) l.list_ts)) head'
              (head' + length ys - 1) ts,
        )
        (l_set_meta-ok key h head' (length ys) ts l.header (omega (arith, l.low, bounds.0))
          (bounds.1))

  pop_value-some :
      pop_value db ts key where_seq info (meta_of head (length xs) l.list_ts) seq (some x)
      ≡ (ok (some x), final)
  unfolding pop_value pop_end add_ops incr_table_key_count
  pop_value-some = ap (pop_end popped ts key info x) new_meta

  seq_fits : IsWord64 seq
  seq_fits = fits where_seq
    where
      fits : (e : ListEnd) → IsWord64 (at_end e head (last_of xs head))
      fits head_end = omega (arith, l.high)
      fits tail_end = omega (arith, l.high)

  lpop_eq : element xs head seq ≡ some x → lpop db ts key where_seq ≡ (ok (some x), final)
  unfolding lpop pop_found is_not_exist_or_expired or_return
  lpop_eq here =
      let left : (length xs == 0) ≡ false = ground arith in
      rw
        (
          k.key_fits,
          l_header_and_meta-IsList db ts key table rk h head xs k l,
          left,
          l.elements seq seq_fits,
          here,
        )
        pop_value-some

  counted_elsewhere :
      (other : Bytes) (old : Option Bytes)
      → eq_bytes (encode_table_meta_key table) other ≡ false
      → after_all E.merged (counted_empty db info (length ys)) other old ≡ old
  unfolding counted_empty after_all
  counted_elsewhere other old e = elim (Bool-cases (length ys == 0)) [
    | inl z ↦ rw z (counter_elsewhere E.merged db table (neg_int64 1) other old e)
    | inr z ↦ rw z refl
  ]

  final-meta : E.get final.eng (l_encode_meta_key key) ≡ meta_left E.merged h head' (length ys) ts
  final-meta =
      get-two db (delete (l_encode_list_key table ver seq) ∷ [])
        (meta_ops key h head' (length ys) ts ++ counted_empty db info (length ys))
        (l_encode_meta_key key) l.no_batch
      ∙ after_all-append E.merged (meta_ops key h head' (length ys) ts)
          (counted_empty db info (length ys)) (l_encode_meta_key key) _
      ∙ counted_elsewhere (l_encode_meta_key key) _ ((table_key-others table key table ver 0).0)
      ∙ meta_ops-meta E.merged key h head' (length ys) ts _

  final-element :
      (s : ℕ)
      → IsWord64 s
      → E.get final.eng (l_encode_list_key table ver s)
        ≡ (if seq == s then none else element xs head s)
  unfolding after_all after
  final-element s ws =
      get-two db (delete (l_encode_list_key table ver seq) ∷ [])
        (meta_ops key h head' (length ys) ts ++ counted_empty db info (length ys))
        (l_encode_list_key table ver s) l.no_batch
      ∙ after_all-append E.merged (meta_ops key h head' (length ys) ts)
          (counted_empty db info (length ys)) (l_encode_list_key table ver s) _
      ∙ counted_elsewhere (l_encode_list_key table ver s) _
          ((table_key-others table key table ver s).1)
      ∙ meta_ops-elements E.merged key table ver h head' (length ys) ts s _
      ∙ rw (list_key-eq table ver seq s seq_fits ws, l.elements s ws) refl

  pop-Holds :
      element xs head seq ≡ some x
      → ((s : ℕ) → IsWord64 s → element ys head' s ≡ (if seq == s then none else element xs head s))
      → ((lpop db ts key where_seq).0 ≡ ok (some x))
        × Holds ((lpop db ts key where_seq).1) ts key table rk h head' ys
  unfolding write_batch
  pop-Holds here rest = rw (lpop_eq here) (
    refl,
    holds final ts key table rk h head' ys l.header l.alive w (omega (arith, l.low, bounds.0))
        (bounds.1) final-meta (λ s ws. final-element s ws ∙ sym (rest s ws)) refl,
  )

-- LPOP from a key of an allowed size that holds a live list gives its first value and leaves the
-- values behind it; a list of one value leaves no meta and no element.
pub lpop_head :
    {E : Engine} (db : RockDb E) (ts : ℕ) (key table rk : Bytes) (h : HeaderMetaValue) (head : ℕ)
    (x : Bytes) (xs : List Bytes)
    → IsKey key table rk
    → IsWord64 ts
    → IsList db ts key table rk h head (x ∷ xs)
    → ((lpop db ts key head_end).0 ≡ ok (some x))
      × Holds ((lpop db ts key head_end).1) ts key table rk h (head + 1) xs
lpop_head db ts key table rk h head x xs k w l =
    let here : element (x ∷ xs) head head ≡ some x =
      ap (element (x ∷ xs) head) {x = head} {y = head + 0} (omega arith)
      ∙ element_at (x ∷ xs) head 0 in
    pop-Holds db ts key table rk h head (x ∷ xs) k l w head_end x xs (omega arith) here
      (λ s ws. element-rest x xs head s)

-- RPOP from a key of an allowed size that holds a live list gives its last value and leaves the
-- values before it; a list of one value leaves no meta and no element.
pub lpop_tail :
    {E : Engine} (db : RockDb E) (ts : ℕ) (key table rk : Bytes) (h : HeaderMetaValue) (head : ℕ)
    (x : Bytes) (xs : List Bytes)
    → IsKey key table rk
    → IsWord64 ts
    → IsList db ts key table rk h head (xs ++ x ∷ [])
    → ((lpop db ts key tail_end).0 ≡ ok (some x))
      × Holds ((lpop db ts key tail_end).1) ts key table rk h head xs
lpop_tail db ts key table rk h head x xs k w l =
    let size : length (xs ++ x ∷ []) ≡ suc (length xs) = omega (arith, length-append xs (x ∷ [])) in
    let last : last_of (xs ++ x ∷ []) head ≡ head + length xs = omega (arith, size) in
    let here : element (xs ++ x ∷ []) head (last_of (xs ++ x ∷ []) head) ≡ some x =
      ap (element (xs ++ x ∷ []) head) last
      ∙ element_at (xs ++ x ∷ []) head (length xs)
      ∙ get_elem?-append_right xs (x ∷ []) (length xs) (omega arith)
      ∙ ap (get_elem? (x ∷ [])) {x = length xs - length xs} {y = 0} (omega arith) in
    pop-Holds db ts key table rk h head (xs ++ x ∷ []) k l w tail_end x xs size here
      (λ s ws. rw last (element-front x xs head s))
