-- ===== src/Compat/V0/Codec/Equality.antt =====
-- compat/v0/tx.go: equality of arguments and transactions, over the equality of values, which panics
-- on the nil interface; a panic is the answer `none`.
use lightnode.Common.{
  ◌≡◌, ◌↔◌, refl, ap, Bool, true, false, Option, none, some, List, [], ◌∷◌, arith, if◌then◌else◌,
  length, inl, inr, Bool-cases,
}
use lightnode.Common.Eq.{bytes_eq, number_eq, ◌==◌, ==_iff}
use lightnode.Compat.V0.Codec.Args.{Values, Arg, Tx}

-- The conjunction of Go, which looks at its second part only where the first holds.
abbrev pub and_then : Option Bool → Option Bool → Option Bool
and_then none rest = none
and_then (some false) rest = some false
and_then (some true) rest = rest

-- The loops over two lists of one length; `Equal` is called on the elements of the second.
unfoldable pub equal_all : {A : Type 0} → (A → A → Option Bool) → List A → List A → Option Bool
equal_all equal_one [] other = some true
equal_all equal_one (a ∷ list) [] = none
equal_all equal_one (a ∷ list) (b ∷ other) =
    and_then (equal_one b a) (equal_all equal_one list other)

unfoldable pub equal_list : {A : Type 0} → (A → A → Option Bool) → List A → List A → Option Bool
unfolding equal_all
equal_list equal_one list other =
    if length list == length other then equal_all equal_one list other else some false

module _ (values : Values) (equal_value : values.Value → values.Value → Option Bool) where
  unfoldable pub equal_arg : Arg values → Arg values → Option Bool
  equal_arg arg other =
      and_then (some (arg.name == other.name))
        (and_then (some (arg.kind == other.kind)) (equal_value arg.value other.value))

  unfoldable pub equal_args : List (Arg values) → List (Arg values) → Option Bool
  unfolding equal_arg equal_list
  equal_args = equal_list equal_arg

  unfoldable pub equal_tx : Tx values → Tx values → Option Bool
  unfolding equal_args
  equal_tx tx other = and_then (some (tx.hash == other.hash)) (
      and_then (some (tx.to == other.to)) (
        and_then (equal_args tx.ins other.ins)
          (and_then (equal_args tx.autogen other.autogen) (equal_args tx.outs other.outs))))

  unfoldable pub equal_txs : List (Tx values) → List (Tx values) → Option Bool
  unfolding equal_tx equal_list
  equal_txs = equal_list equal_tx

-- A test that tells its arguments apart, and never panics.
abbrev Decides : {A : Type 0} → (A → A → Option Bool) → Type 0
Decides {A = A} equal_one = (a b : A) → (equal_one a b ≡ some true) ↔ (a ≡ b)

and_then_iff :
    {P Q : Type 0} {c d : Option Bool}
    → (c ≡ some true) ↔ P
    → (d ≡ some true) ↔ Q
    → (and_then c d ≡ some true) ↔ (P × Q)
and_then_iff {c = none} {d = _} h k =
    (λ e. absurd (ground (arith, e)), λ r. absurd (ground (arith, h.1 r.0)))
and_then_iff {c = some false} {d = _} h k =
    (λ e. absurd (ground (arith, e)), λ r. absurd (ground (arith, h.1 r.0)))
and_then_iff {c = some true} {d = _} h k = (λ e. (h.0 refl, k.0 e), λ r. k.1 r.1)

some_iff : {P : Type 0} {c : Bool} → (c ≡ true) ↔ P → (some c ≡ some true) ↔ P
some_iff {c = true} h = (λ e. h.0 refl, λ p. refl)
some_iff {c = false} h = (λ e. absurd (ground (arith, e)), λ p. absurd (ground (arith, h.1 p)))

-- Lists of one length are told apart by their elements.
equal_all_iff :
    {A : Type 0} (equal_one : A → A → Option Bool)
    → Decides equal_one
    → (list other : List A) → length list ≡ length other
    → (equal_all equal_one list other ≡ some true) ↔ (list ≡ other)
unfolding equal_all
equal_all_iff equal_one decides [] [] same = (λ e. refl, λ e. refl)
equal_all_iff equal_one decides [] (b ∷ other) same = absurd (ground (arith, same))
equal_all_iff equal_one decides (a ∷ list) [] same = absurd (ground (arith, same))
equal_all_iff equal_one decides (a ∷ list) (b ∷ other) same =
    let rest = equal_all_iff equal_one decides list other (ground (arith, same)) in
    let both = and_then_iff (decides b a) rest in
    (λ e. ground (arith, both.0 e), λ e. both.1 (ground (arith, e)))

equal_list_iff :
    {A : Type 0} (equal_one : A → A → Option Bool)
    → Decides equal_one
    → Decides (equal_list equal_one)
unfolding equal_list
equal_list_iff equal_one decides list other = elim (Bool-cases (length list == length other)) [
  | inl p ↦
      rw p (equal_all_iff equal_one decides list other ((==_iff (length list) (length other)).0 p))
  | inr p ↦ rw p (
    λ e. absurd (ground (arith, e)),
    λ e. absurd (ground (arith, p, (==_iff (length list) (length other)).1 (ap length e))),
  )
]

module _ (values : Values) (equal_value : values.Value → values.Value → Option Bool)
    (decides : Decides equal_value) where
  equal_arg_iff : Decides (equal_arg values equal_value)
  unfolding equal_arg
  equal_arg_iff a b =
      let parts =
        and_then_iff (some_iff (==_iff a.name b.name))
          (and_then_iff (some_iff (==_iff a.kind b.kind)) (decides a.value b.value)) in
      (
        λ e. let r = parts.0 e in cc (r.0, r.1.0, r.1.1),
        λ e. parts.1 (ap (λ x. x.name) e, (ap (λ x. x.kind) e, ap (λ x. x.value) e)),
      )

  equal_tx_iff : Decides (equal_tx values equal_value)
  unfolding equal_tx equal_args
  equal_tx_iff a b =
      let each = equal_list_iff (equal_arg values equal_value) equal_arg_iff in
      let parts = and_then_iff (some_iff (==_iff a.hash b.hash)) (
        and_then_iff (some_iff (==_iff a.to b.to)) (
          and_then_iff (each a.ins b.ins)
            (and_then_iff (each a.autogen b.autogen) (each a.outs b.outs)))) in
      (
        λ e. let r = parts.0 e in cc (r.0, r.1.0, r.1.1.0, r.1.1.1.0, r.1.1.1.1),
        λ e. parts.1 (
          ap (λ x. x.hash) e,
          (ap (λ x. x.to) e, (ap (λ x. x.ins) e, (ap (λ x. x.autogen) e, ap (λ x. x.outs) e))),
        ),
      )

  -- Where `Equal` tells values apart without a panic, it tells lists of transactions apart.
  pub equal_txs_iff :
      (txs other : List (Tx values))
      → (equal_txs values equal_value txs other ≡ some true) ↔ (txs ≡ other)
  unfolding equal_txs
  equal_txs_iff = equal_list_iff (equal_tx values equal_value) equal_tx_iff
