-- ===== src/Lists/Write/Create.antt =====
-- A push to a key that holds nothing makes a list.
use zan_redis_db.Prelude.{
  ℕ, suc, ◌+◌, ◌-◌, ◌*◌, ◌%◌, ◌^◌, ◌≤◌, ◌≡◌, refl, ap, ◌∙◌, arith, false, none, List, ◌∷◌, length,
}
use zan_redis_db.Result.{ok}
use zan_redis_db.Bytes.{Bytes, IsWord64, add_int64}
use zan_redis_db.Key.{list_type}
use zan_redis_db.Key.Elements.{l_encode_list_key}
use zan_redis_db.Expire.{
  HeaderMetaValue, header_is_expired, new_header_meta_v1, renew_on_expired, decode_raw_value,
  raw_is_expired, encode_ver_key, encode_to_version_key, is_versioned_type,
}
use zan_redis_db.Expire.Header.{IsHeader}
use zan_redis_db.Engine.{Engine, RockDb, or_return}
use zan_redis_db.Collection.{
  CollVerKeyInfo, prepare_coll_key_for_write, coll_header_meta, encode_meta_key,
}
use zan_redis_db.Lists.{ListEnd, tail_end, ListMeta, list_initial_seq, parse_list_meta}
use zan_redis_db.Lists.Write.{push_found, lpush}
use zan_redis_db.Lists.Places.{or_else, or_else-none}
use zan_redis_db.Lists.Write.Pushed.{check_coll_kf_size-nil, push_found_eq, push-Holds, final}
use zan_redis_db.Lists.Write.Puts.{puts-up, push_items-up}
use zan_redis_db.Lists.Model.{IsKey, element}
use zan_redis_db.Lists.Effect.{Holds, IsGone, l_set_meta-ok}

-- The header of a list that is made at a time.
abbrev pub fresh_header : ℕ → HeaderMetaValue
fresh_header ts = record { ver = 1; expire_at = 0; value_version = ts; user_data = none }

fresh-IsHeader : (ts : ℕ) → IsWord64 ts → IsHeader (fresh_header ts)
fresh-IsHeader ts w = record { version_one = refl; expire_fits = omega arith; version_fits = w }

fresh-alive : (ts : ℕ) → header_is_expired (fresh_header ts) ts ≡ false
unfolding header_is_expired
fresh-alive ts = refl

abbrev fresh_meta : ListMeta
fresh_meta = record {
  head_seq = list_initial_seq;
  tail_seq = list_initial_seq;
  size = 0;
  meta_ts = 0;
}

module _ {E : Engine} (db : RockDb E) (ts : ℕ) (key table rk : Bytes) (k : IsKey key table rk)
    (w : IsWord64 ts) (g : IsGone db key table rk (fresh_header ts)) where
  abbrev fresh_info : CollVerKeyInfo
  fresh_info = record {
    old_header = fresh_header ts;
    expired = false;
    table = table;
    ver_key = encode_ver_key (fresh_header ts) rk;
  }

  coll_header_meta-IsGone : coll_header_meta db ts list_type key ≡ ok (new_header_meta_v1, false)
  unfolding coll_header_meta encode_meta_key decode_raw_value raw_is_expired
  coll_header_meta-IsGone = rw (g.no_meta) refl

  lpush-IsGone :
      (where_seq : ListEnd) (args : List Bytes)
      → lpush db ts key where_seq args ≡ push_found db ts key where_seq args fresh_info fresh_meta
  unfolding lpush or_return prepare_coll_key_for_write encode_to_version_key is_versioned_type
      renew_on_expired new_header_meta_v1 parse_list_meta
  lpush-IsGone where_seq args =
      rw (k.key_fits, k.named, check_coll_kf_size-nil rk k.rk_fits, coll_header_meta-IsGone) refl

  pub lpush_tail_new :
      (v : Bytes) (args : List Bytes)
      → length (v ∷ args) ≤ 2 ^ 60
      → ((lpush db ts key tail_end (v ∷ args)).0 ≡ ok (length (v ∷ args)))
        × Holds
            ((lpush db ts key tail_end (v ∷ args)).1)
            ts
            key
            table
            rk
            (fresh_header ts)
            list_initial_seq
            (v ∷ args)
  lpush_tail_new v args room =
      let n : ℕ = suc (length args) in
      let seq : ℕ = list_initial_seq in
      let check : ℕ = seq + n - 1 in
      let e_check : (seq + (n - 1) * 1) % 2 ^ 64 ≡ check = omega arith in
      let total : add_int64 0 n ≡ n = omega arith in
      push-Holds db ts key table rk (fresh_header ts) none false tail_end fresh_meta v args seq
        check seq n n (v ∷ args) (lpush db ts key tail_end (v ∷ args)) refl
        (lpush-IsGone tail_end (v ∷ args)
          ∙ push_found_eq db ts key table rk (fresh_header ts) none false tail_end fresh_meta v args
              seq check seq n refl e_check (omega arith) (omega arith)
              (push_items-up db fresh_info (v ∷ args) seq (omega arith)
                (λ s ws above. g.no_elements s ws))
              (l_set_meta-ok key (fresh_header ts) seq n ts (fresh-IsHeader ts w) (omega arith)
                (omega arith))
          ∙ ap
              (λ (q : ℕ). (
                ok q,
                final db ts key table rk (fresh_header ts) none false tail_end fresh_meta v args seq
                    check seq n,
              ))
              total)
        g.no_batch (fresh-IsHeader ts w) (fresh-alive ts) w (omega arith) (omega arith)
        (λ s ws.
          puts-up E.merged table (encode_ver_key (fresh_header ts) rk) (v ∷ args) seq s
            (E.get db.eng (l_encode_list_key table (encode_ver_key (fresh_header ts) rk) s))
            (omega arith) ws
          ∙ ap (or_else (element (v ∷ args) seq s)) (g.no_elements s ws)
          ∙ or_else-none (element (v ∷ args) seq s))
