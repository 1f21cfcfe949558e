-- ===== src/Lists/Write.antt =====
-- The operations of rockredis/t_list.go that write.
pub mod Pop
pub mod Puts
pub mod Pushed
pub mod Push
pub mod Create
use zan_redis_db.Prelude.{
  ℕ, ◌+◌, ◌-◌, ◌*◌, ◌%◌, ◌^◌, Bool, true, false, not, ◌&&◌, ◌||◌, Option, none, some, List, [], ◌∷◌,
  ◌++◌, length, ltb, ◌==◌, if◌then◌else◌,
}
use zan_redis_db.Result.{Result, ok, err, list_seq, too_much_batch_size, ◌>>=◌}
use zan_redis_db.Bytes.{Bytes, lt_int64, add_int64, neg_int64}
use zan_redis_db.Key.{list_type, l_encode_meta_key, check_key_size}
use zan_redis_db.Key.Elements.{l_encode_list_key, l_decode_list_key}
use zan_redis_db.Engine.{
  Engine, RockDb, WriteOp, put, delete, add_ops, clear_batch, write_batch, or_return,
}
use zan_redis_db.Collection.{
  CollVerKeyInfo, meta_data, is_not_exist_or_expired, prepare_coll_key_for_write,
  incr_table_key_count,
}
use zan_redis_db.Lists.{
  ListEnd, at_end, ListMeta, list_min_seq, list_max_seq, max_batch_num, sub_int64, parse_list_meta,
  l_set_meta, l_header_and_meta,
}
use zan_redis_db.Lists.Fix.{fix_list_key}

-- One round of the loop of lpush: the elements that are put, and whether all of them were. It
-- stops where an element is stored already.
push_item : Option Bytes → Bytes → Bytes → List WriteOp × Bool → List WriteOp × Bool
push_item (some old) ek v rest = ([], false)
push_item none ek v (ops, all) = (put ek v ∷ ops, all)

module _ {E : Engine} where
  -- The loop of lpush.
  unfoldable pub push_items : RockDb E → CollVerKeyInfo → ℕ → ℕ → List Bytes → List WriteOp × Bool
  unfolding push_item
  push_items db info delta seq [] = ([], true)
  push_items db info delta seq (v ∷ args) =
      push_item (E.get db.eng (l_encode_list_key info.table info.ver_key seq))
        (l_encode_list_key info.table info.ver_key seq) v
        (push_items db info delta (add_int64 seq delta) args)

  push_end : RockDb E → ℕ → Bytes → ℕ → ListMeta → Result (ℕ × List WriteOp) → Result ℕ × RockDb E
  push_end db ts key push_cnt m (err e) = (err e, clear_batch (fix_list_key db ts key))
  push_end db ts key push_cnt m (ok (size, ops)) =
      (ok (add_int64 m.size push_cnt), write_batch (add_ops db ops))

  -- The part of lpush behind the loop.
  push_done :
      RockDb E → ℕ → Bytes → ListEnd → ℕ → ℕ → CollVerKeyInfo → ListMeta → Result ℕ × RockDb E
  unfolding push_end
  push_done db ts key where_seq push_cnt seq info m =
      let counted =
        if m.size == 0 && not info.expired then incr_table_key_count db info.table 1 else [] in
      let head = at_end where_seq seq m.head_seq in
      let tail = at_end where_seq m.tail_seq seq in
      push_end (add_ops db counted) ts key push_cnt m (l_set_meta key info.old_header head tail ts)

  push_looped :
      RockDb E
      → ℕ
      → Bytes
      → ListEnd
      → ℕ
      → ℕ
      → CollVerKeyInfo
      → ListMeta
      → List WriteOp × Bool
      → Result ℕ × RockDb E
  unfolding push_done
  push_looped db ts key where_seq push_cnt check_seq info m (ops, false) =
      (err list_seq, clear_batch (fix_list_key (add_ops db ops) ts key))
  push_looped db ts key where_seq push_cnt check_seq info m (ops, true) =
      push_done (add_ops db ops) ts key where_seq push_cnt check_seq info m

  push_ranged :
      RockDb E
      → ℕ
      → Bytes
      → ListEnd
      → List Bytes
      → ℕ
      → ℕ
      → CollVerKeyInfo
      → ListMeta
      → ℕ
      → Result ℕ × RockDb E
  unfolding push_looped
  push_ranged db ts key where_seq args delta seq info m check_seq =
      if not (lt_int64 list_min_seq check_seq) || not (lt_int64 check_seq list_max_seq)
      then (err list_seq, clear_batch db)
      else push_looped db ts key where_seq (length args) check_seq info m
          (push_items db info delta seq args)

  push_from :
      RockDb E
      → ℕ
      → Bytes
      → ListEnd
      → List Bytes
      → ℕ
      → CollVerKeyInfo
      → ListMeta
      → ℕ
      → Result ℕ × RockDb E
  unfolding push_ranged
  push_from db ts key where_seq args delta info m seq =
      push_ranged db ts key where_seq args delta seq info m
        ((seq + (length args - 1) * delta) % 2 ^ 64)

  push_checked :
      RockDb E → ℕ → Bytes → ListEnd → List Bytes → CollVerKeyInfo → ListMeta → Result ℕ × RockDb E
  unfolding push_from
  push_checked db ts key where_seq args info m =
      let delta = at_end where_seq (neg_int64 1) 1 in
      let end = at_end where_seq m.head_seq m.tail_seq in
      push_from db ts key where_seq args delta info m
        (if lt_int64 0 m.size then add_int64 end delta else end)

  pub push_found :
      RockDb E → ℕ → Bytes → ListEnd → List Bytes → CollVerKeyInfo → ListMeta → Result ℕ × RockDb E
  unfolding push_checked
  push_found db ts key where_seq [] info m = (ok m.size, clear_batch db)
  push_found db ts key where_seq (v ∷ args) info m =
      push_checked db ts key where_seq (v ∷ args) info m

  unfoldable pub lpush : RockDb E → ℕ → Bytes → ListEnd → List Bytes → Result ℕ × RockDb E
  unfolding push_found
  lpush db ts key where_seq args = or_return (check_key_size key) db (λ _.
      or_return {A = CollVerKeyInfo × ListMeta}
        (do
          info ← prepare_coll_key_for_write db ts list_type key []
          m ← parse_list_meta (meta_data info)
          ok (info, m))
        (clear_batch db) (λ p. push_found db ts key where_seq args (p.0) (p.1)))

  -- LPush and RPush.
  unfoldable pub push_batch : RockDb E → ℕ → Bytes → ListEnd → List Bytes → Result ℕ × RockDb E
  push_batch db ts key where_seq args =
      if ltb max_batch_num (length args)
      then (err too_much_batch_size, db)
      else lpush db ts key where_seq args

  -- What the removing operations do to a list that has become empty: the counter goes down. The
  -- expiry needs no change, since it is in the meta.
  counted_empty : RockDb E → CollVerKeyInfo → ℕ → List WriteOp
  counted_empty db info new_num =
      if new_num == 0 then incr_table_key_count db info.table (neg_int64 1) else []

  pop_end :
      RockDb E
      → ℕ
      → Bytes
      → CollVerKeyInfo
      → Bytes
      → Result (ℕ × List WriteOp)
      → Result (Option Bytes) × RockDb E
  unfolding counted_empty
  pop_end db ts key info value (err e) = (err e, clear_batch (fix_list_key db ts key))
  pop_end db ts key info value (ok (new_num, ops)) =
      (ok (some value), write_batch (add_ops db (ops ++ counted_empty db info new_num)))

  pop_value :
      RockDb E
      → ℕ
      → Bytes
      → ListEnd
      → CollVerKeyInfo
      → ListMeta
      → ℕ
      → Option Bytes
      → Result (Option Bytes) × RockDb E
  unfolding pop_end
  pop_value db ts key where_seq info m seq none = (ok none, clear_batch (fix_list_key db ts key))
  pop_value db ts key where_seq info m seq (some value) =
      let head = at_end where_seq (add_int64 m.head_seq 1) m.head_seq in
      let tail = at_end where_seq m.tail_seq (sub_int64 m.tail_seq 1) in
      pop_end (add_ops db (delete (l_encode_list_key info.table info.ver_key seq) ∷ [])) ts key info
        value (l_set_meta key info.old_header head tail ts)

  pop_found :
      RockDb E → ℕ → Bytes → ListEnd → CollVerKeyInfo → ListMeta → Result (Option Bytes) × RockDb E
  unfolding pop_value
  pop_found db ts key where_seq info m =
      let seq = at_end where_seq m.head_seq m.tail_seq in
      if is_not_exist_or_expired info || m.size == 0
      then (ok none, db)
      else pop_value db ts key where_seq info m seq
          (E.get db.eng (l_encode_list_key info.table info.ver_key seq))

  unfoldable pub lpop : RockDb E → ℕ → Bytes → ListEnd → Result (Option Bytes) × RockDb E
  unfolding pop_found
  lpop db ts key where_seq = or_return (check_key_size key) db (λ _.
      or_return (l_header_and_meta db ts key) db (λ p. pop_found db ts key where_seq (p.0) (p.1)))
