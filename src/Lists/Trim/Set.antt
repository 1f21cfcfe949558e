-- ===== src/Lists/Trim/Set.antt =====
-- LSET replaces one value of a list.
use zan_redis_db.Prelude.{
  ℕ, ◌+◌, ◌-◌, ◌^◌, ◌<◌, ◌≡◌, refl, sym, ap, ◌∙◌, arith, false, Option, none, some, List, [], ◌∷◌,
  ◌++◌, length, ltb, leb, ◌==◌, if◌then◌else◌, ltb→lt, Bool-cases, inl, inr,
}
use zan_redis_db.Result.{Result, ok, err, list_index}
use zan_redis_db.Bytes.{Bytes, IsWord64}
use zan_redis_db.Key.{l_encode_meta_key}
use zan_redis_db.Key.Elements.{l_encode_list_key}
use zan_redis_db.Key.Kinds.{meta_key-list_key, list_key-eq}
use zan_redis_db.Expire.{HeaderMetaValue, encode_ver_key}
use zan_redis_db.Engine.{
  Engine, RockDb, WriteOp, put, after, after_all, add_ops, commit_batch_write, or_return,
}
use zan_redis_db.Engine.Batch.{after_all-append, get-commit_batch_write}
use zan_redis_db.Collection.{is_not_exist_or_expired}
use zan_redis_db.Lists.{index_seq, meta_bytes}
use zan_redis_db.Lists.Model.{IsKey, IsList, last_of, info_of, meta_of, l_header_and_meta-IsList}
use zan_redis_db.Lists.Places.{replace_at, length-replace_at, element-replace_at}
use zan_redis_db.Lists.Read.{index_seq_front, index_seq_back}
use zan_redis_db.Lists.Effect.{
  Holds, holds, meta_ops, meta_left, l_set_meta-ok, l_set_meta-header, meta_ops-elements,
  meta_ops-meta,
}
use zan_redis_db.Lists.Trim.{ops_of, set_at, l_set}

module _ {E : Engine} (db : RockDb E) (ts : ℕ) (key table rk : Bytes) (h : HeaderMetaValue)
    (head : ℕ) (xs : List Bytes) (k : IsKey key table rk) (w : IsWord64 ts)
    (l : IsList db ts key table rk h head xs) (value : Bytes) where
  abbrev ver : Bytes
  ver = encode_ver_key h rk

  abbrev final : ℕ → RockDb E
  final i = commit_batch_write (
      add_ops db (
        meta_ops key h head (length xs) ts
        ++ (put (l_encode_list_key table ver (head + i)) value ∷ [])))

  l_set_eq :
      (index : ℕ) (place : Option ℕ)
      → index_seq (meta_of head (length xs) l.list_ts) index ≡ place
      → l_set db ts key index value
        ≡ set_at db ts key value
            (info_of table rk h head (last_of xs head) l.list_ts)
            (meta_of head (length xs) l.list_ts)
            place
  unfolding l_set is_not_exist_or_expired or_return
  l_set_eq index place e =
      let some_left : (length xs == 0) ≡ false = ground (arith, l.nonempty) in
      rw (k.key_fits, l_header_and_meta-IsList db ts key table rk h head xs k l)
        (rw (some_left, e) refl)

  set_at-some :
      (i : ℕ)
      → set_at db ts key value
          (info_of table rk h head (last_of xs head) l.list_ts)
          (meta_of head (length xs) l.list_ts)
          (some (head + i))
        ≡ (ok tt, final i)
  unfolding set_at ops_of
  set_at-some i =
      ap
        (λ (r : Result (ℕ × List WriteOp)). (
          ok tt,
          commit_batch_write
              (add_ops db (ops_of r ++ (put (l_encode_list_key table ver (head + i)) value ∷ []))),
        ))
        (l_set_meta-header key h (some (meta_bytes head (last_of xs head) l.list_ts)) head
            (head + length xs - 1) ts
          ∙ l_set_meta-ok key h head (length xs) ts l.header (omega (arith, l.low)) l.high)

  final-Holds :
      (i : ℕ) → i < length xs → Holds (final i) ts key table rk h head (replace_at xs i value)
  unfolding after_all after commit_batch_write
  final-Holds i inside =
      holds (final i) ts key table rk h head (replace_at xs i value) l.header l.alive w l.low
        (omega (arith, length-replace_at xs i value, l.high))
        (get-commit_batch_write db _ (l_encode_meta_key key) l.no_batch
          ∙ after_all-append E.merged (meta_ops key h head (length xs) ts) _ (l_encode_meta_key key)
              _
          ∙ rw ((meta_key-list_key key table ver (head + i)).1) (
              meta_ops-meta E.merged key h head (length xs) ts _
              ∙ ap (λ (q : ℕ). meta_left E.merged h head q ts)
                  (sym (length-replace_at xs i value))))
        (λ s ws.
          get-commit_batch_write db _ (l_encode_list_key table ver s) l.no_batch
          ∙ after_all-append E.merged (meta_ops key h head (length xs) ts) _
              (l_encode_list_key table ver s) _
          ∙ rw (list_key-eq table ver (head + i) s (omega (arith, l.high)) ws) (
              ap (λ (o : Option Bytes). if head + i == s then some value else o)
                (meta_ops-elements E.merged key table ver h head (length xs) ts s _
                  ∙ l.elements s ws)
              ∙ sym (element-replace_at xs i value head s inside)))
        refl

-- The place that an index means in a list of a size, if there is one.
abbrev pub place_of : ℕ → ℕ → Option ℕ
place_of size index =
    if ltb index (2 ^ 63)
    then if ltb index size then some index else none
    else if leb (2 ^ 64 - index) size
    then some (size - (2 ^ 64 - index))
    else none

abbrev seq_of : ℕ → Option ℕ → Option ℕ
seq_of head none = none
seq_of head (some i) = some (head + i)

place_of_lt : (size index i : ℕ) → index < 2 ^ 64 → place_of size index ≡ some i → i < size
place_of_lt size index i w e = ground arith

module _ {E : Engine} (db : RockDb E) (ts : ℕ) (key table rk : Bytes) (h : HeaderMetaValue)
    (head : ℕ) (xs : List Bytes) (k : IsKey key table rk) (w : IsWord64 ts)
    (l : IsList db ts key table rk h head xs) (value : Bytes) (index : ℕ)
    (fits : IsWord64 index) where
  index_seq-place :
      index_seq (meta_of head (length xs) l.list_ts) index
      ≡ seq_of head (place_of (length xs) index)
  index_seq-place = elim (Bool-cases (ltb index (2 ^ 63))) [
    | inl e ↦
        index_seq_front head (length xs) l.list_ts l.nonempty l.low l.high index
          (ltb→lt index (2 ^ 63) e)
        ∙ rw e (ground arith)
    | inr e ↦
        index_seq_back head (length xs) l.list_ts l.nonempty l.low l.high index (ground arith) fits
        ∙ rw e (ground arith)
  ]

  -- LSET of an int64 index that means a place of a live list, under a key of an allowed size, puts
  -- the value at that place and keeps the others.
  pub l_set_inside :
      (i : ℕ)
      → place_of (length xs) index ≡ some i
      → ((l_set db ts key index value).0 ≡ ok tt)
        × Holds ((l_set db ts key index value).1) ts key table rk h head (replace_at xs i value)
  l_set_inside i e =
      let eq : l_set db ts key index value
          ≡ (ok tt, final db ts key table rk h head xs k w l value i) =
        l_set_eq db ts key table rk h head xs k w l value index (some (head + i))
          (index_seq-place ∙ ap (seq_of head) e)
        ∙ set_at-some db ts key table rk h head xs k w l value i in
      rw eq (
        refl,
        final-Holds db ts key table rk h head xs k w l value i
            (place_of_lt (length xs) index i fits e),
      )

  -- LSET of an int64 index outside of a live list, under a key of an allowed size, is an error and
  -- changes nothing.
  pub l_set_outside :
      place_of (length xs) index ≡ none → l_set db ts key index value ≡ (err list_index, db)
  unfolding set_at
  l_set_outside e =
      l_set_eq db ts key table rk h head xs k w l value index none
        (index_seq-place ∙ ap (seq_of head) e)
