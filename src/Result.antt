-- ===== src/Result.antt =====
-- The errors of rockredis (the `errors.New` values of its files) and Go's (value, error) pair.
pub data Error : Type 0 where
  insufficient_bytes invalid_marker invalid_padding invalid_flag empty_key unsupported_type : Error
  key_size sub_key_size value_size too_much_batch_size zset_member_size : Error
  table_name table_name_len table_meta_key table_data_prefix list_key list_meta_key list_seq : Error
  list_index list_meta kv_key hash_key set_key header_meta header_version exp_overflow : Error
  version_key int_number invalid_ttl int_syntax hll_invalid : Error
  hash_size_key set_size_key exp_meta_key exp_time_key not_supported another_batching unknown_data
        int_range bit_overflow bit_value invalid_args :
      Error
  invalid_command : Error
  -- A run-time panic: an index past the end of a slice.
  index_panic : Error
  -- No error of the program: a loop of the model has used up its fuel.
  out_of_fuel : Error

pub data Result {ℓ} (A : Type ℓ) : Type ℓ where
  ok : A → Result A
  err : Error → Result A

infixl 5 ◌>>=◌
abbrev pub ◌>>=◌ {ℓ κ} : {A : Type ℓ} {B : Type κ} → Result A → (A → Result B) → Result B
ok a >>= f = f a
err e >>= f = err e
