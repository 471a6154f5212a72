-- ===== src/Tests/Upgrade.antt =====
-- A burn of version 1 with a public key, which is passed on without it.
use lightnode.Common.{ℕ, none, some, [], ◌∷◌}
use lightnode.Common.Eq.{bytes_eq}
use lightnode.Common.Result.{ok}
use lightnode.Darknode.{Darknode, LockInput, Tx}
use lightnode.Database.Rows.{zeros}
use lightnode.Compat.V0.Submit.{Compat}
use lightnode.Validator.Upgrade.{Params, upgrade_submit}
use lightnode.Tests.Samples.{Cells}
use lightnode.Tests.Database.{empty_database, sample_input}
use lightnode.Tests.Chain.{simple_darknode, fields}
use lightnode.Tests.Mapping.{compat, no_cells}

abbrev long_darknode : Darknode
long_darknode = record simple_darknode {
  new_tx = λ s t. ok (record { hash = zeros 32; version = "1"; selector = s; input = t });
}

abbrev keyed : LockInput
keyed = record sample_input { gpubkey = 7 ∷ [] }

abbrev burn_v1 : Tx
burn_v1 = record {
  hash = 8 ∷ [];
  version = "1";
  selector = "BTC/fromEthereum";
  input = fields keyed;
}

abbrev long_compat : Compat
long_compat = record compat { darknode = long_darknode }

-- Requests of version 1, as numbers: each is the burn.
abbrev simple_params : Params long_compat
simple_params = record {
  Json = ℕ;
  query_v1 = λ j. none;
  query_v0 = λ j. some (zeros 32);
  write_query = λ b. ok 3;
  submit_v1 = λ j. some burn_v1;
  submit_v0 = λ j. none;
  write_submit = λ t. ok 9;
}

abbrev after : Cells
after = (upgrade_submit long_compat simple_params (λ t. ok keyed) none 4 empty_database no_cells).1
