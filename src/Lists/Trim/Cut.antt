-- ===== src/Lists/Trim/Cut.antt =====
-- What LTRIM deletes, and what it leaves of a list.
use zan_redis_db.Prelude.{
  ℕ, zero, suc, ◌+◌, ◌-◌, ◌≤◌, ◌<◌, ◌≡◌, refl, ap, ◌∙◌, arith, Bool, ◌&&◌, Option, none, List, [],
  ◌∷◌, ltb, leb, ◌==◌, if◌then◌else◌, Bool-cases, inl, inr,
}
use zan_redis_db.Bytes.{Bytes, IsWord64, lt_int64, add_int64}
use zan_redis_db.Key.{l_encode_meta_key}
use zan_redis_db.Key.Elements.{l_encode_list_key}
use zan_redis_db.Key.Kinds.{meta_key-list_key, list_key-eq, before-list_key, before-meta_key}
use zan_redis_db.Engine.{WriteOp, delete, delete_range, after, after_all}
use zan_redis_db.Collection.{CollVerKeyInfo}
use zan_redis_db.Lists.{list_max_seq, range_delete_num, sub_int64}
use zan_redis_db.Lists.Trim.{delete_items, front_ops, back_ops}

-- The sequence numbers from `a` up to `b` are deleted.
abbrev pub cut_out : ℕ → ℕ → ℕ → Option Bytes → Option Bytes
cut_out a b s old = if leb a s && ltb s b then none else old

module _ (m : Bytes → Option Bytes → Option Bytes) (info : CollVerKeyInfo) where
  abbrev lk : ℕ → Bytes
  lk = l_encode_list_key info.table info.ver_key

  after-delete :
      (seq s : ℕ) (ops : List WriteOp) (old : Option Bytes)
      → IsWord64 seq
      → IsWord64 s
      → after_all m (delete (lk seq) ∷ ops) (lk s) old
        ≡ after_all m ops (lk s) (if seq == s then none else old)
  unfolding after_all after
  after-delete seq s ops old w w' =
      ap (λ (b : Bool). after_all m ops (lk s) (if b then none else old))
        (list_key-eq info.table info.ver_key seq s w w')

  delete_items-element :
      (count seq s : ℕ) (old : Option Bytes)
      → seq + count ≤ list_max_seq
      → IsWord64 s
      → after_all m (delete_items info count seq) (lk s) old ≡ cut_out seq (seq + count) s old
  unfolding delete_items after_all
  delete_items-element zero seq s old high w = ground arith
  delete_items-element (suc count) seq s old high w =
      let next : add_int64 seq 1 ≡ seq + 1 = omega arith in
      after-delete seq s (delete_items info count (add_int64 seq 1)) old (omega arith) w
      ∙ ap
          (λ (q : ℕ).
            after_all m (delete_items info count q) (lk s) (if seq == s then none else old))
          next
      ∙ delete_items-element count (seq + 1) s (if seq == s then none else old) (omega arith) w
      ∙ ground arith

  delete_range-element :
      (a b s : ℕ) (old : Option Bytes)
      → IsWord64 a
      → IsWord64 b
      → IsWord64 s
      → after_all m (delete_range (lk a) (lk b) ∷ []) (lk s) old ≡ cut_out a b s old
  unfolding after_all after
  delete_range-element a b s old wa wb w =
      rw
        (
          before-list_key info.table info.ver_key s a w wa,
          before-list_key info.table info.ver_key s b w wb,
        )
        (ground arith)

  delete_items-meta :
      (key : Bytes) (count seq : ℕ) (old : Option Bytes)
      → after_all m (delete_items info count seq) (l_encode_meta_key key) old ≡ old
  unfolding delete_items after_all after
  delete_items-meta key zero seq old = refl
  delete_items-meta key (suc count) seq old =
      ap
        (λ (b : Bool).
          after_all m (delete_items info count (add_int64 seq 1)) (l_encode_meta_key key)
            (if b then none else old))
        ((meta_key-list_key key info.table info.ver_key seq).1)
      ∙ delete_items-meta key count (add_int64 seq 1) old

  delete_range-meta :
      (key : Bytes) (a b : ℕ) (old : Option Bytes)
      → after_all m (delete_range (lk a) (lk b) ∷ []) (l_encode_meta_key key) old ≡ old
  unfolding after_all after
  delete_range-meta key a b old = rw (before-meta_key key info.table info.ver_key b) (ground arith)

  pub front_ops-element :
      (head start s : ℕ) (old : Option Bytes)
      → head + start ≤ list_max_seq
      → IsWord64 s
      → after_all m (front_ops info head start) (lk s) old ≡ cut_out head (head + start) s old
  unfolding front_ops
  front_ops-element head start s old high w = elim (Bool-cases (lt_int64 range_delete_num start)) [
    | inr e ↦ rw e (delete_items-element start head s old high w)
    | inl e ↦
        let end : add_int64 head start ≡ head + start = omega arith in
        rw (e, end) (delete_range-element head (head + start) s old (omega arith) (omega arith) w)
  ]

  pub front_ops-meta :
      (key : Bytes) (head start : ℕ) (old : Option Bytes)
      → after_all m (front_ops info head start) (l_encode_meta_key key) old ≡ old
  unfolding front_ops
  front_ops-meta key head start old = elim (Bool-cases (lt_int64 range_delete_num start)) [
    | inr e ↦ rw e (delete_items-meta key start head old)
    | inl e ↦ rw e (delete_range-meta key head (add_int64 head start) old)
  ]

  pub back_ops-element :
      (head size stop s : ℕ) (old : Option Bytes)
      → stop < size
      → head + size ≤ list_max_seq
      → IsWord64 s
      → after_all m (back_ops info head size stop) (lk s) old
        ≡ cut_out (head + (stop + 1)) (head + size) s old
  unfolding back_ops
  back_ops-element head size stop s old inside high w =
      let from : add_int64 head (add_int64 stop 1) ≡ head + (stop + 1) = omega arith in
      let end : add_int64 head size ≡ head + size = omega arith in
      let same : head + (stop + 1) + (size - (stop + 1)) ≡ head + size = omega arith in
      elim (Bool-cases (lt_int64 range_delete_num (sub_int64 size stop))) [
        | inr e ↦
            rw (e, from)
              (delete_items-element (size - (stop + 1)) (head + (stop + 1)) s old (omega arith) w
                ∙ ap (λ (q : ℕ). cut_out (head + (stop + 1)) q s old) same)
        | inl e ↦
            rw (e, from, end)
              (delete_range-element (head + (stop + 1)) (head + size) s old (omega arith)
                (omega arith) w)
      ]

  pub back_ops-meta :
      (key : Bytes) (head size stop : ℕ) (old : Option Bytes)
      → after_all m (back_ops info head size stop) (l_encode_meta_key key) old ≡ old
  unfolding back_ops
  back_ops-meta key head size stop old =
      elim (Bool-cases (lt_int64 range_delete_num (sub_int64 size stop))) [
        | inr e ↦
            rw e (delete_items-meta key (size - (stop + 1)) (add_int64 head (add_int64 stop 1)) old)
        | inl e ↦
            rw e
              (delete_range-meta key (add_int64 head (add_int64 stop 1)) (add_int64 head size) old)
      ]
