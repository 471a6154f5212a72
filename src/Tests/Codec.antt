-- ===== src/Tests/Codec.antt =====
-- The binary encoding of version 0 with values that are their own bytes.
use lightnode.Common.{ℕ, ◌*◌, ◌≤◌, refl, List, [], ◌∷◌, arith, length}
use lightnode.Common.Eq.{bytes_eq}
use lightnode.Common.Result.{ok}
use lightnode.Compat.V0.Codec.Blocks.{
  little_endian, zero_bytes, write_block, write_list, write_each,
}
use lightnode.Compat.V0.Codec.Args.{Values, Arg, Tx, marshal_arg, marshal_tx}
use lightnode.Compat.V0.Codec.RoundTrip.{IsStorable, IsEncodable}

abbrev simple_values : Values
simple_values = record {
  Value = List ℕ;
  nil = [];
  marshal_value = λ v. v;
  unmarshal_value = λ kind b. ok b;
}

abbrev sample_arg : Arg simple_values
sample_arg = record { name = 97 ∷ []; kind = 98 ∷ 51 ∷ []; value = 7 ∷ 8 ∷ [] }

abbrev sample_v0_tx : Tx simple_values
sample_v0_tx = record {
  hash = zero_bytes 32;
  to = 66 ∷ [];
  ins = sample_arg ∷ [];
  autogen = [];
  outs = [];
}

sample_arg-IsStorable : IsStorable simple_values sample_arg
sample_arg-IsStorable = record {
  name_size = omega arith;
  kind_size = omega arith;
  value_size = omega arith;
  value_back = refl;
}

sample_arg_size : length (marshal_arg simple_values sample_arg) ≤ 10 * 1024
unfolding marshal_arg write_block little_endian
sample_arg_size = omega arith

sample_v0_tx-IsEncodable : IsEncodable simple_values sample_v0_tx
sample_v0_tx-IsEncodable = record {
  hash_size = refl;
  to_size = omega arith;
  in_count = omega arith;
  in_fits = ((sample_arg-IsStorable, sample_arg_size), tt);
  autogen_count = omega arith;
  autogen_fits = tt;
  out_count = omega arith;
  out_fits = tt;
}

sample_v0_tx_size : length (marshal_tx simple_values sample_v0_tx) ≤ 10 * 1024
unfolding marshal_tx marshal_arg write_list write_each write_block little_endian
sample_v0_tx_size = omega arith
