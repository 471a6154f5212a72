-- ===== src/Dispatcher/InterfaceMap.antt =====
-- dispatcher/iterator.go, `interfaceMap`: the responses seen so far, each with its number. The two
-- slices run in parallel; `data` is called `items` here.
pub mod Tally
pub mod Most
use lightnode.Common.{
  ℕ, zero, suc, ◌+◌, ◌-◌, ◌*◌, ◌/◌, Bool, Option, none, some, List, [], ◌∷◌, ◌++◌, ltb, get_elem?,
  if◌then◌else◌,
}
use lightnode.Common.Eq.{Eq, ◌==◌}

pub record InterfaceMap {ℓ} (A : Type ℓ) : Type ℓ where
  pub threshold : ℕ
  pub counter : List ℕ
  pub items : List A

-- `total` is a capacity. At 0, Go divides -1 by 3 towards zero, which is 0 as here.
unfoldable pub threshold_of : ℕ → ℕ
threshold_of total = (total - 1) / 3 * 2

unfoldable pub new_interface_map {ℓ} : {A : Type ℓ} → ℕ → InterfaceMap A
unfolding threshold_of
new_interface_map total = record { threshold = threshold_of total; counter = []; items = [] }

abbrev pub push_count : ℕ → Option (ℕ × List ℕ) → Option (ℕ × List ℕ)
push_count c none = none
push_count c (some (n, cs)) = some (n, c ∷ cs)

module _ {ℓ} {A : Type ℓ} ⦃e : Eq A⦄ where
  -- The loop of `store`: the number and the counters after the increment, if the key is there.
  unfoldable pub increment : A → List A → List ℕ → Option (ℕ × List ℕ)
  increment key [] cs = none
  increment key (d ∷ ds) [] = none
  increment key (d ∷ ds) (c ∷ cs) =
      if key == d then some (suc c, suc c ∷ cs) else push_count c (increment key ds cs)

  unfoldable pub store : InterfaceMap A → A → InterfaceMap A × Bool
  unfolding increment
  store m key = elim (increment key m.items m.counter) [
    | some (n, cs) ↦ (record m { counter = cs }, ltb m.threshold n)
    | none ↦
        (record m { items = m.items ++ key ∷ []; counter = m.counter ++ 1 ∷ [] }, ltb m.threshold 1)
  ]

-- The loop of `most`, from position `i` on: the index of the first largest counter.
unfoldable pub scan : List ℕ → ℕ → ℕ → ℕ → ℕ
scan [] i max index = index
scan (c ∷ cs) i max index = if ltb max c then scan cs (suc i) c i else scan cs (suc i) max index

-- `none` is nil. (An index out of range, where Go panics, is excluded in InterfaceMap/Most.antt.)
unfoldable pub most {ℓ} : {A : Type ℓ} → InterfaceMap A → Option A
unfolding scan
most m = elim m.items [ [] ↦ none | _ ↦ get_elem? m.items (scan m.counter 0 0 0) ]
