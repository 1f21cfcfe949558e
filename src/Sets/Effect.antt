-- ===== src/Sets/Effect.antt =====
-- What the calls of SADD and SREM on the batch do to the members, the meta and the counter.
use zan_redis_db.Prelude.{
  ℕ, zero, suc, ◌^◌, ◌<◌, ◌≡◌, refl, ap, ◌∙◌, arith, Bool, true, false, not, ◌&&◌, ◌||◌, Option,
  none, some, List, [], ◌∷◌, length, map, if◌then◌else◌, inl, inr, Bool-cases, All,
}
use zan_redis_db.Result.{ok}
use zan_redis_db.Bytes.{Bytes, eq_bytes, eq_bytes_refl, contains, lt_int64, add_int64}
use zan_redis_db.Bytes.Members.{select}
use zan_redis_db.Key.{s_encode_size_key, check_coll_kf_size}
use zan_redis_db.Key.Elements.{s_encode_set_key}
use zan_redis_db.Key.Kinds.{member_key-eq, size_key-member_key}
use zan_redis_db.Expire.{HeaderMetaValue, header_bytes}
use zan_redis_db.Expire.Header.{IsHeader, encode-header_bytes}
use zan_redis_db.Engine.{Engine, RockDb, WriteOp, put, delete, after, after_all}
use zan_redis_db.Collection.{CollVerKeyInfo}
use zan_redis_db.Sets.{size_of, is_there, has_member, s_incr_size}
use zan_redis_db.Sets.Write.{add_members, rem_members}
use zan_redis_db.Sets.Model.{size_bytes, set_raw}

abbrev pub Fit : Bytes → List Bytes → Type 0
Fit key args = All (λ m. check_coll_kf_size key m ≡ ok tt) args

abbrev pub puts : CollVerKeyInfo → List Bytes → List WriteOp
puts info ms = map (λ m. put (s_encode_set_key info.table info.ver_key m) []) ms

abbrev pub deletes : CollVerKeyInfo → List Bytes → List WriteOp
deletes info ms = map (λ m. delete (s_encode_set_key info.table info.ver_key m)) ms

abbrev pub size_ops : Bytes → HeaderMetaValue → ℕ → ℕ → List WriteOp
size_ops key h zero ts = delete (s_encode_size_key key) ∷ []
size_ops key h (suc n) ts = put (s_encode_size_key key) (set_raw h (suc n) ts) ∷ []

abbrev pub size_left : HeaderMetaValue → ℕ → ℕ → Option Bytes
size_left h zero ts = none
size_left h (suc n) ts = some (set_raw h (suc n) ts)

module _ {E : Engine} (db : RockDb E) (info : CollVerKeyInfo) (key : Bytes) (xs : List Bytes)
    (has : (m : Bytes) → has_member db info m ≡ contains xs m) where
  abbrev pub added : List Bytes → List Bytes
  added args = select (λ m. not (contains xs m)) args

  abbrev pub removed : List Bytes → List Bytes
  removed args = select (contains xs) args

  pub add_members-ok :
      (args : List Bytes)
      → Fit key args
      → add_members db info key args ≡ ok (length (added args), puts info (added args))
  unfolding add_members select
  add_members-ok [] f = refl
  add_members-ok (m ∷ ms) (f, fs) = elim (Bool-cases (contains xs m)) [
    | inl h ↦ rw (f, add_members-ok ms fs, has m, h) refl
    | inr h ↦ rw (f, add_members-ok ms fs, has m, h) refl
  ]

  pub rem_members-ok :
      (args : List Bytes)
      → Fit key args
      → rem_members db info key args ≡ ok (length (removed args), deletes info (removed args))
  unfolding rem_members select
  rem_members-ok [] f = refl
  rem_members-ok (m ∷ ms) (f, fs) = elim (Bool-cases (contains xs m)) [
    | inl h ↦ rw (f, rem_members-ok ms fs, has m, h) refl
    | inr h ↦ rw (f, rem_members-ok ms fs, has m, h) refl
  ]

there_or :
    (b c : Bool) (new : Bytes) (old : Option Bytes)
    → (c || is_there (if b then some new else old)) ≡ ((b || c) || is_there old)
there_or true true new old = refl
there_or true false new old = refl
there_or false c new old = refl

there_not :
    (b c : Bool) (old : Option Bytes)
    → (not c && is_there (if b then none else old)) ≡ (not (b || c) && is_there old)
there_not true true old = refl
there_not true false old = refl
there_not false c old = refl

module _ (m : Bytes → Option Bytes → Option Bytes) (info : CollVerKeyInfo) where
  abbrev mk : Bytes → Bytes
  mk x = s_encode_set_key info.table info.ver_key x

  pub puts-member :
      (new : List Bytes) (x : Bytes) (old : Option Bytes)
      → is_there (after_all m (puts info new) (mk x) old) ≡ (contains new x || is_there old)
  unfolding after_all after contains
  puts-member [] x old = refl
  puts-member (y ∷ new) x old =
      ap (λ (b : Bool). is_there (after_all m (puts info new) (mk x) (if b then some [] else old)))
        (member_key-eq info.table info.ver_key y x)
      ∙ puts-member new x (if eq_bytes y x then some [] else old)
      ∙ there_or (eq_bytes y x) (contains new x) [] old

  pub deletes-member :
      (gone : List Bytes) (x : Bytes) (old : Option Bytes)
      → is_there (after_all m (deletes info gone) (mk x) old)
        ≡ (not (contains gone x) && is_there old)
  unfolding after_all after contains
  deletes-member [] x old = refl
  deletes-member (y ∷ gone) x old =
      ap (λ (b : Bool). is_there (after_all m (deletes info gone) (mk x) (if b then none else old)))
        (member_key-eq info.table info.ver_key y x)
      ∙ deletes-member gone x (if eq_bytes y x then none else old)
      ∙ there_not (eq_bytes y x) (contains gone x) old

  pub puts-meta :
      (key : Bytes) (new : List Bytes) (old : Option Bytes)
      → after_all m (puts info new) (s_encode_size_key key) old ≡ old
  unfolding after_all after
  puts-meta key [] old = refl
  puts-meta key (y ∷ new) old =
      ap
        (λ (b : Bool).
          after_all m (puts info new) (s_encode_size_key key) (if b then some [] else old))
        ((size_key-member_key key info.table info.ver_key y).1)
      ∙ puts-meta key new old

  pub deletes-meta :
      (key : Bytes) (gone : List Bytes) (old : Option Bytes)
      → after_all m (deletes info gone) (s_encode_size_key key) old ≡ old
  unfolding after_all after
  deletes-meta key [] old = refl
  deletes-meta key (y ∷ gone) old =
      ap
        (λ (b : Bool).
          after_all m (deletes info gone) (s_encode_size_key key) (if b then none else old))
        ((size_key-member_key key info.table info.ver_key y).1)
      ∙ deletes-meta key gone old

  -- The call of sIncrSize for a size, which may be zero, and the meta that it leaves.
  pub size_ops-member :
      (key : Bytes) (h : HeaderMetaValue) (n ts : ℕ) (x : Bytes) (old : Option Bytes)
      → after_all m (size_ops key h n ts) (mk x) old ≡ old
  unfolding after_all after
  size_ops-member key h zero ts x old =
      rw ((size_key-member_key key info.table info.ver_key x).0) refl
  size_ops-member key h (suc n) ts x old =
      rw ((size_key-member_key key info.table info.ver_key x).0) refl

pub size_ops-meta :
    (m : Bytes → Option Bytes → Option Bytes) (key : Bytes) (h : HeaderMetaValue) (n ts : ℕ)
    (old : Option Bytes)
    → after_all m (size_ops key h n ts) (s_encode_size_key key) old ≡ size_left h n ts
unfolding after_all after
size_ops-meta m key h zero ts old = rw (eq_bytes_refl (s_encode_size_key key)) refl
size_ops-meta m key h (suc n) ts old = rw (eq_bytes_refl (s_encode_size_key key)) refl

pub s_incr_size-ok :
    (ts : ℕ) (key : Bytes) (h : HeaderMetaValue) (user : Option Bytes) (n delta n' : ℕ)
    → IsHeader h
    → size_of user ≡ ok n
    → add_int64 n delta ≡ n'
    → n' < 2 ^ 62
    → s_incr_size ts key (record h { user_data = user }) delta ≡ ok (n', size_ops key h n' ts)
unfolding s_incr_size header_bytes
s_incr_size-ok ts key h user n delta zero v size sum small = rw (size, sum) refl
s_incr_size-ok ts key h user n delta (suc n') v size sum small =
    let positive : lt_int64 0 (suc n') ≡ true = ground (arith, small) in
    let v' : IsHeader (record h { user_data = some (size_bytes (suc n') ts) }) = record {
      version_one = v.version_one;
      expire_fits = v.expire_fits;
      version_fits = v.version_fits;
    } in
    rw
      (
        size,
        sum,
        positive,
        encode-header_bytes (record h { user_data = some (size_bytes (suc n') ts) }) v',
      )
      refl
