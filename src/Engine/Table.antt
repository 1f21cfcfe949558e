-- ===== src/Engine/Table.antt =====
-- An engine that meets the interface: what each key holds, and the keys that were ever written, in
-- order. It adds little-endian numbers when it merges.
use zan_redis_db.Prelude.{
  ℕ, zero, suc, ◌+◌, ◌*◌, ◌%◌, ◌/◌, ◌^◌, refl, not, ◌&&◌, Ordering, Option, none, some, List, [],
  ◌∷◌, if◌then◌else◌,
}
use zan_redis_db.Bytes.{Bytes, compare_bytes}
use zan_redis_db.Engine.{Engine, WriteOp, put, delete, delete_range, merge, before, after_all}

pub record Table : Type 0 where
  pub held : Bytes → Option Bytes
  pub written : List Bytes

abbrev insert_key : Bytes → List Bytes → List Bytes
insert_key k [] = k ∷ []
insert_key k (x ∷ xs) = elim (compare_bytes k x) [
  | Ordering.lt ↦ k ∷ (x ∷ xs)
  | Ordering.eq ↦ x ∷ xs
  | Ordering.gt ↦ x ∷ insert_key k xs
]

abbrev written_by : List WriteOp → List Bytes → List Bytes
written_by [] ks = ks
written_by (put k v ∷ ops) ks = written_by ops (insert_key k ks)
written_by (merge k d ∷ ops) ks = written_by ops (insert_key k ks)
written_by (delete k ∷ ops) ks = written_by ops ks
written_by (delete_range a b ∷ ops) ks = written_by ops ks

abbrev get_le : Bytes → ℕ
get_le [] = 0
get_le (x ∷ xs) = x + 256 * get_le xs

abbrev put_le : ℕ → ℕ → Bytes
put_le zero v = []
put_le (suc n) v = (v % 256) ∷ put_le n (v / 256)

abbrev pub added : Bytes → Option Bytes → Option Bytes
added d none = some d
added d (some v) = some (put_le 8 ((get_le d + get_le v) % 2 ^ 64))

abbrev entry : Bytes → Option Bytes → List (Bytes × Bytes) → List (Bytes × Bytes)
entry k none rest = rest
entry k (some v) rest = (k, v) ∷ rest

abbrev entries : Table → Bytes → Bytes → List Bytes → List (Bytes × Bytes)
entries t a b [] = []
entries t a b (k ∷ ks) =
    let rest = entries t a b ks in
    if not (before k a) && not (before b k) then entry k (t.held k) rest else rest

abbrev pub table_engine : Engine
table_engine = record {
  Db = Table;
  get = λ t k. t.held k;
  iterate = λ t a b. entries t a b t.written;
  write = λ t ops. record {
    held = λ k. after_all added ops k (t.held k);
    written = written_by ops t.written;
  };
  merged = added;
  get-write = λ t ops k. refl;
}
