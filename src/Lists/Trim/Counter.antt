-- ===== src/Lists/Trim/Counter.antt =====
-- How often the operations that delete a whole list count it down.
use zan_redis_db.Prelude.{
  ℕ, ◌^◌, ◌≤◌, ◌<◌, ◌≡◌, refl, ap, ◌∙◌, arith, Bool, true, false, Option, none, List, ◌∷◌, length,
  ◌==◌, if◌then◌else◌,
}
use zan_redis_db.Result.{ok}
use zan_redis_db.Bytes.{Bytes, lt_int64, neg_int64}
use zan_redis_db.Key.{l_encode_meta_key, encode_table_meta_key}
use zan_redis_db.Key.Kinds.{meta_key-table_key}
use zan_redis_db.Expire.{HeaderMetaValue}
use zan_redis_db.Engine.{Engine, RockDb, WriteOp, delete, after, after_all, add_ops, or_return}
use zan_redis_db.Engine.Batch.{get-two, get-commit_batch_write}
use zan_redis_db.Collection.Counter.{minus_one, count_down}
use zan_redis_db.Collection.{is_not_exist_or_expired, incr_table_key_count}
use zan_redis_db.Lists.Model.{IsKey, IsList, l_header_and_meta-IsList}
use zan_redis_db.Lists.Trim.{l_delete, delete_found, trim_found, trim_written, ltrim2, l_clear}

module _ {E : Engine} (db : RockDb E) (ts : ℕ) (key table rk : Bytes) (h : HeaderMetaValue)
    (head : ℕ) (xs : List Bytes) (k : IsKey key table rk) (l : IsList db ts key table rk h head xs)
    (counts : db.enable_table_counter ≡ true) where
  abbrev counter : Bytes
  counter = encode_table_meta_key table

  abbrev delete_ops : List WriteOp
  delete_ops = delete (l_encode_meta_key key) ∷ incr_table_key_count db table (neg_int64 1)

  l_delete-IsList : l_delete db ts key ≡ (length xs, delete_ops)
  unfolding l_delete delete_found is_not_exist_or_expired
  l_delete-IsList =
      let some_left : (length xs == 0) ≡ false = ground (arith, l.nonempty) in
      let positive : lt_int64 0 (length xs) ≡ true = ground (arith, l.nonempty, l.high) in
      ap (delete_found db key) (l_header_and_meta-IsList db ts key table rk h head xs k l)
      ∙ rw (some_left, positive) refl

  delete_ops-counter :
      (old : Option Bytes) → after_all E.merged delete_ops counter old ≡ E.merged minus_one old
  unfolding after_all after
  delete_ops-counter old =
      ap
        (λ (b : Bool).
          after_all E.merged (incr_table_key_count db table (neg_int64 1)) counter
            (if b then none else old))
        (meta_key-table_key table key)
      ∙ count_down db table old counts

  -- With table counters on, LCLEAR of a key of an allowed size that holds a live list counts its
  -- table down by one, and answers one.
  pub l_clear-counter :
      ((l_clear db ts key).0 ≡ ok 1)
      × (E.get ((l_clear db ts key).1.eng) counter ≡ E.merged minus_one (E.get db.eng counter))
  unfolding l_clear or_return
  l_clear-counter =
      let positive : lt_int64 0 (length xs) ≡ true = ground (arith, l.nonempty, l.high) in
      rw (k.key_fits, l_delete-IsList, positive)
        (
          refl,
          get-commit_batch_write db delete_ops counter l.no_batch
              ∙ delete_ops-counter (E.get db.eng counter),
        )

  -- With table counters on, an LTRIM of a key of an allowed size that holds a live list, whose
  -- start is not negative and not below the length, counts the table down twice for the one list.
  pub ltrim2_counts_twice :
      (start stop : ℕ)
      → length xs ≤ start
      → start < 2 ^ 63
      → E.get ((ltrim2 db ts key start stop).1.eng) counter
        ≡ E.merged minus_one (E.merged minus_one (E.get db.eng counter))
  unfolding ltrim2 add_ops or_return trim_found trim_written is_not_exist_or_expired
  ltrim2_counts_twice start stop behind small =
      let positive : lt_int64 0 (length xs) ≡ true = ground (arith, l.nonempty, l.high) in
      let not_negative : lt_int64 start 0 ≡ false = ground arith in
      let empty : lt_int64 start (length xs) ≡ false = ground (arith, l.high) in
      rw (k.key_fits, l_header_and_meta-IsList db ts key table rk h head xs k l)
        (rw (not_negative, empty, positive, l_delete-IsList)
          (get-two db delete_ops (incr_table_key_count (add_ops db delete_ops) table (neg_int64 1))
              counter l.no_batch
            ∙ count_down (add_ops db delete_ops) table _ still
            ∙ ap (E.merged minus_one) (delete_ops-counter (E.get db.eng counter))))
    where
      still : (add_ops db delete_ops).enable_table_counter ≡ true
      still = counts
