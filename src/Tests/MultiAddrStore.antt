-- ===== src/Tests/MultiAddrStore.antt =====
-- Three bootstrap addresses, of which two are asked for.
use lightnode.Common.{String, ◌≡◌, ◌≢◌, refl, subst, none, some, List, [], ◌∷◌, arith}
use lightnode.Common.Result.{Result, ok, err}
use lightnode.Common.Dict.{Dict, lookup, insert, delete, lookup-insert}
use lightnode.Common.Eq.{string_eq, ==_iff, ==_refl}
use lightnode.MultiAddrStore.{Table, MultiAddrStore}

abbrev found : String → Dict String String → Result String String
found k d = elim (lookup k d) [ none ↦ err "not found" | some v ↦ ok v ]

same_table :
    {s t : Dict String String} → ◌≡◌ {A = Result String (Dict String String)} (ok s) (ok t) → s ≡ t
same_table h = cc

pub found-insert :
    (k v : String) (s t : Dict String String)
    → ◌≡◌ {A = Result String (Dict String String)} (ok (insert k v s)) (ok t)
    → found k t ≡ ok v
found-insert k v s t h =
    subst (λ d. found k d ≡ ok v) (same_table h)
      (ground (arith, lookup-insert k k v s, ==_refl {T = String} k))

pub found-insert_other :
    (k j v : String) (s t : Dict String String)
    → ◌≡◌ {A = Result String (Dict String String)} (ok (insert k v s)) (ok t)
    → k ≢ j
    → found j t ≡ found j s
found-insert_other k j v s t h apart =
    subst (λ d. found j d ≡ found j s) (same_table h)
      (ground (arith, apart, lookup-insert k j v s, ==_iff {T = String} j k))

abbrev text_keys : Dict String String → List (Result String String)
text_keys [] = []
text_keys ((k, v) ∷ d) = ok k ∷ text_keys d

-- Addresses are their own texts, signed by themselves.
abbrev pub simple_table : Table
simple_table = record {
  State = Dict String String;
  Address = String;
  get_text = found;
  put = λ k v s. ok (insert k v s);
  erase = λ k s. ok (delete k s);
  keys = text_keys;
  signatory = λ a. ok a;
  text = λ a. a;
  parse = λ t. ok t;
  parse-text = λ a. refl;
  get-put_self = found-insert;
  get-put_other = found-insert_other;
}

abbrev three_nodes : MultiAddrStore simple_table
three_nodes = record { state = []; bootstrap_addrs = "a" ∷ "b" ∷ "c" ∷ [] }
