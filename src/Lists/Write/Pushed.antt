-- ===== src/Lists/Write/Pushed.antt =====
-- The parts of lpush that both ends share: what a push into a list that is found writes.
use zan_redis_db.Prelude.{
  ℕ, suc, ◌+◌, ◌-◌, ◌*◌, ◌%◌, ◌^◌, ◌≤◌, ◌<◌, ◌≡◌, refl, sym, ap, ◌∙◌, arith, Bool, true, false, not,
  ◌&&◌, ◌||◌, Option, List, [], ◌∷◌, length, ◌==◌, if◌then◌else◌, Bool-cases, inl, inr,
}
use zan_redis_db.Result.{Result, ok, err, list_seq}
use zan_redis_db.Bytes.{Bytes, IsWord64, lt_int64, add_int64, neg_int64, eq_bytes}
use zan_redis_db.Key.{l_encode_meta_key, encode_table_meta_key, check_key_size, check_coll_kf_size}
use zan_redis_db.Key.Elements.{l_encode_list_key}
use zan_redis_db.Key.Kinds.{table_key-others}
use zan_redis_db.Expire.{HeaderMetaValue, header_is_expired, encode_ver_key}
use zan_redis_db.Expire.Header.{IsHeader}
use zan_redis_db.Engine.{Engine, RockDb, WriteOp, after_all, add_ops, clear_batch, write_batch}
use zan_redis_db.Engine.Batch.{get-three}
use zan_redis_db.Collection.Counter.{counter_elsewhere}
use zan_redis_db.Collection.{CollVerKeyInfo, incr_table_key_count}
use zan_redis_db.Lists.{ListEnd, at_end, ListMeta, list_min_seq, list_max_seq, l_set_meta}
use zan_redis_db.Lists.Write.{
  push_items, push_end, push_done, push_looped, push_ranged, push_from, push_checked, push_found,
}
use zan_redis_db.Lists.Write.Puts.{puts}
use zan_redis_db.Lists.Model.{element}
use zan_redis_db.Lists.Effect.{
  Holds, holds, meta_ops, l_set_meta-header, meta_ops-elements, meta_ops-meta, meta_left,
}

pub check_coll_kf_size-nil :
    (rk : Bytes) → check_key_size rk ≡ ok tt → check_coll_kf_size rk [] ≡ ok tt
unfolding check_key_size check_coll_kf_size
check_coll_kf_size-nil rk e = ground arith

-- A push into a list that is found: where it begins, what it puts, and the meta that it leaves.
module _ {E : Engine} (db : RockDb E) (ts : ℕ) (key table rk : Bytes) (h : HeaderMetaValue)
    (user : Option Bytes) (was_expired : Bool) (where_seq : ListEnd) (m : ListMeta) (v : Bytes)
    (args : List Bytes) (seq check head' size' : ℕ) where
  abbrev count : ℕ
  count = suc (length args)

  abbrev ver : Bytes
  ver = encode_ver_key h rk

  abbrev info : CollVerKeyInfo
  info = record {
    old_header = record h { user_data = user };
    expired = was_expired;
    table = table;
    ver_key = ver;
  }

  abbrev delta : ℕ
  delta = at_end where_seq (neg_int64 1) 1

  abbrev all_puts : List WriteOp
  all_puts = puts table ver delta seq (v ∷ args)

  abbrev counted : List WriteOp
  counted = if m.size == 0 && not was_expired then incr_table_key_count db table 1 else []

  abbrev pub final : RockDb E
  final =
      write_batch (add_ops (add_ops (add_ops db all_puts) counted) (meta_ops key h head' size' ts))

  pub push_found_eq :
      (if lt_int64 0 m.size
          then add_int64 (at_end where_seq m.head_seq m.tail_seq) delta
          else at_end where_seq m.head_seq m.tail_seq)
        ≡ seq
      → (seq + (count - 1) * delta) % 2 ^ 64 ≡ check
      → list_min_seq < check
      → check < list_max_seq
      → push_items db info delta seq (v ∷ args) ≡ (all_puts, true)
      → l_set_meta key h (at_end where_seq check m.head_seq) (at_end where_seq m.tail_seq check) ts
        ≡ ok (size', meta_ops key h head' size' ts)
      → push_found db ts key where_seq (v ∷ args) info m ≡ (ok (add_int64 m.size count), final)
  unfolding push_found push_checked push_from push_ranged push_looped push_done push_end add_ops
      incr_table_key_count
  push_found_eq e_seq e_check low high items meta =
      ap (push_from db ts key where_seq (v ∷ args) delta info m) e_seq
      ∙ ap (push_ranged db ts key where_seq (v ∷ args) delta seq info m) e_check
      ∙ in_range (
          push_looped db ts key where_seq count check info m
            (push_items db info delta seq (v ∷ args)))
      ∙ ap (push_looped db ts key where_seq count check info m) items
      ∙ ap (push_end (add_ops (add_ops db all_puts) counted) ts key count m) (
          l_set_meta-header key h user (at_end where_seq check m.head_seq)
            (at_end where_seq m.tail_seq check) ts
          ∙ meta)
    where
      in_range :
          (r : Result ℕ × RockDb E)
          → (if not (lt_int64 list_min_seq check) || not (lt_int64 check list_max_seq)
              then (err list_seq, clear_batch db)
              else r)
            ≡ r
      in_range r = ground arith

  counted_elsewhere :
      (other : Bytes) (old : Option Bytes)
      → eq_bytes (encode_table_meta_key table) other ≡ false
      → after_all E.merged counted other old ≡ old
  unfolding after_all
  counted_elsewhere other old e = elim (Bool-cases (m.size == 0 && not was_expired)) [
    | inl z ↦ rw z (counter_elsewhere E.merged db table 1 other old e)
    | inr z ↦ rw z refl
  ]

  final-meta :
      db.wb ≡ [] → E.get final.eng (l_encode_meta_key key) ≡ meta_left E.merged h head' size' ts
  final-meta empty =
      get-three db all_puts counted (meta_ops key h head' size' ts) (l_encode_meta_key key) empty
      ∙ meta_ops-meta E.merged key h head' size' ts _

  final-element :
      (s : ℕ)
      → db.wb ≡ []
      → E.get final.eng (l_encode_list_key table ver s)
        ≡ after_all E.merged all_puts
            (l_encode_list_key table ver s)
            (E.get db.eng (l_encode_list_key table ver s))
  final-element s empty =
      get-three db all_puts counted (meta_ops key h head' size' ts) (l_encode_list_key table ver s)
        empty
      ∙ meta_ops-elements E.merged key table ver h head' size' ts s _
      ∙ counted_elsewhere (l_encode_list_key table ver s) _
          ((table_key-others table key table ver s).1)

  pub push-Holds :
      (n : ℕ) (ys : List Bytes) (r : Result ℕ × RockDb E)
      → length ys ≡ size'
      → r ≡ (ok n, final)
      → db.wb ≡ []
      → IsHeader h
      → header_is_expired h ts ≡ false
      → IsWord64 ts
      → list_min_seq < head'
      → head' + size' ≤ list_max_seq
      → ((s : ℕ)
          → IsWord64 s
          → after_all E.merged all_puts
              (l_encode_list_key table ver s)
              (E.get db.eng (l_encode_list_key table ver s))
            ≡ element ys head' s)
      → (r.0 ≡ ok n) × Holds r.1 ts key table rk h head' ys
  unfolding write_batch
  push-Holds n ys r same eq empty header alive w low high places = rw eq (
    refl,
    holds final ts key table rk h head' ys header alive w low (omega arith)
        (final-meta empty ∙ ap (λ (q : ℕ). meta_left E.merged h head' q ts) (sym same))
        (λ s ws. final-element s empty ∙ places s ws) refl,
  )
