-- ===== src/Lists/Fix.antt =====
-- fixListKey of rockredis/t_list.go: the meta of a list that disagrees with its elements is set
-- right, or removed where there are none.
use zan_redis_db.Prelude.{ℕ, ◌+◌, not, ◌&&◌, Option, none, some, List, [], ◌∷◌, ◌==◌, if◌then◌else◌}
use zan_redis_db.Result.{ok, err}
use zan_redis_db.Bytes.{Bytes, lt_int64, add_int64, neg_int64}
use zan_redis_db.Key.{l_encode_meta_key}
use zan_redis_db.Key.Elements.{l_encode_list_key, l_decode_list_key}
use zan_redis_db.Engine.{Engine, RockDb, delete, add_ops, clear_batch, write_batch}
use zan_redis_db.Collection.{CollVerKeyInfo, is_not_exist_or_expired, incr_table_key_count}
use zan_redis_db.Lists.{ListMeta, list_min_seq, list_max_seq, l_set_meta, l_header_and_meta}

-- What the loop of fixListKey keeps; `last_seq` is -1 before the first element.
pub record FixScan : Type 0 where
  pub fixed_head : ℕ
  pub fixed_tail : ℕ
  pub cnt : ℕ
  pub last_seq : ℕ

unfoldable pub fix_scan : List (Bytes × Bytes) → FixScan → Option FixScan
fix_scan [] s = some s
fix_scan ((k, v) ∷ entries) s = elim (l_decode_list_key k) [
  | err e ↦ none
  | ok (table, key, seq) ↦
      let head = if lt_int64 s.last_seq 0 then seq else s.fixed_head in
      let next =
        fix_scan entries
          (record { fixed_head = head; fixed_tail = seq; cnt = s.cnt + 1; last_seq = seq }) in
      if not (lt_int64 s.last_seq 0) && not (add_int64 s.last_seq 1 == seq) then none else next
]

module _ {E : Engine} where
  -- `db.eng.Write(db.wb)` of what is in the batch already and the corrected meta.
  fix_with : RockDb E → ℕ → Bytes → CollVerKeyInfo → ListMeta → FixScan → RockDb E
  fix_with db ts key info m s =
      let removed =
        delete (l_encode_meta_key key) ∷ incr_table_key_count db info.table (neg_int64 1) in
      if m.head_seq == s.fixed_head && m.tail_seq == s.fixed_tail
      then clear_batch db
      else if m.size == 0 && s.cnt == 0
      then clear_batch db
      else if s.cnt == 0
      then write_batch (add_ops db removed)
      else elim (l_set_meta key info.old_header s.fixed_head s.fixed_tail ts) [
        | err e ↦ clear_batch db
        | ok (size, ops) ↦ write_batch (add_ops db ops)
      ]

  fix_found : RockDb E → ℕ → Bytes → CollVerKeyInfo → ListMeta → RockDb E
  unfolding fix_with
  fix_found db ts key info m =
      let first = l_encode_list_key info.table info.ver_key list_min_seq in
      let last = l_encode_list_key info.table info.ver_key list_max_seq in
      let start : FixScan = record {
        fixed_head = 0;
        fixed_tail = 0;
        cnt = 0;
        last_seq = neg_int64 1;
      } in
      elim (fix_scan (E.iterate db.eng first last) start) [
        | none ↦ clear_batch db
        | some s ↦ fix_with db ts key info m s
      ]

  -- Where the list is not found the batch is left as it is.
  unfoldable pub fix_list_key : RockDb E → ℕ → Bytes → RockDb E
  unfolding fix_found
  fix_list_key db ts key = elim (l_header_and_meta db ts key) [
    | err e ↦ db
    | ok (info, m) ↦ if is_not_exist_or_expired info then db else fix_found db ts key info m
  ]
