-- ===== src/Dispatcher/InterfaceMap/Most.antt =====
-- `most` answers a response that was stored at least as often as every other.
use mathlib.Core.List.{append_assoc, append-nil}
use lightnode.Common.{
  ℕ, zero, suc, ◌≤◌, ◌<◌, ◌≡◌, refl, Option, some, List, [], ◌∷◌, ◌++◌, arith, ltb, lt→ltb, length,
  length-append, get_elem?, All, ◌⊎◌, Bool-cases, inl, inr,
}
use lightnode.Common.Eq.{Eq, ==_iff, ==_refl}
use lightnode.Dispatcher.InterfaceMap.{InterfaceMap, scan, most}
use lightnode.Dispatcher.InterfaceMap.Tally.{count, tally, Counts}

module _ {ℓ} {A : Type ℓ} where
  get_elem?-append_left :
      (xs ys : List A) (i : ℕ) {a : A} → get_elem? xs i ≡ some a → get_elem? (xs ++ ys) i ≡ some a
  get_elem?-append_left [] ys i h = cc
  get_elem?-append_left (x ∷ xs) ys zero h = h
  get_elem?-append_left (x ∷ xs) ys (suc i) h = get_elem?-append_left xs ys i h

  get_elem?-append_length : (xs ys : List A) (a : A) → get_elem? (xs ++ a ∷ ys) (length xs) ≡ some a
  get_elem?-append_length [] ys a = refl
  get_elem?-append_length (x ∷ xs) ys a = get_elem?-append_length xs ys a

  get_elem?-some : (xs : List A) (i : ℕ) → i < length xs → (a : A) × (get_elem? xs i ≡ some a)
  get_elem?-some [] i h = elim h [ ]
  get_elem?-some (x ∷ xs) zero h = (x, refl)
  get_elem?-some (x ∷ xs) (suc i) h = get_elem?-some xs i (omega arith)

  get_elem?_lt : (xs : List A) (i : ℕ) {a : A} → get_elem? xs i ≡ some a → i < length xs
  get_elem?_lt [] i h = cc
  get_elem?_lt (x ∷ xs) zero h = omega arith
  get_elem?_lt (x ∷ xs) (suc i) h = omega (arith, get_elem?_lt xs i h)

abbrev AtMost : ℕ → List ℕ → Type 0
AtMost n = All (λ c. c ≤ n)

AtMost-snoc : (m n c : ℕ) (cs : List ℕ) → m ≤ n → c ≤ n → AtMost m cs → AtMost n (cs ++ c ∷ [])
AtMost-snoc m n c [] h k b = (k, tt)
AtMost-snoc m n c (d ∷ cs) h k b = (omega arith, AtMost-snoc m n c cs h k b.1)

-- The counter at `i` is the largest one.
abbrev IsPeak : List ℕ → ℕ → Type 0
IsPeak cs i = (top : ℕ) × (get_elem? cs i ≡ some top) × AtMost top cs

scan-IsPeak :
    (pre cs : List ℕ) (i max index : ℕ)
    → length pre ≡ i
    → get_elem? pre index ≡ some max
    → AtMost max pre
    → IsPeak (pre ++ cs) (scan cs i max index)
unfolding scan
scan-IsPeak pre [] i max index h g b = rw (append-nil pre) (max, g, b)
scan-IsPeak pre (c ∷ cs) i max index h g b = elim (Bool-cases (ltb max c)) [
  | inl p ↦ rw p (
      rw (← append_assoc pre (c ∷ []) cs) (
        scan-IsPeak (pre ++ c ∷ []) cs (suc i) c i (omega (arith, length-append pre (c ∷ [])))
          (rw (← h) (get_elem?-append_length pre [] c))
          (AtMost-snoc max c c pre (ground arith) (omega arith) b)))
  | inr p ↦ rw p (
      rw (← append_assoc pre (c ∷ []) cs) (
        scan-IsPeak (pre ++ c ∷ []) cs (suc i) max index (omega (arith, length-append pre (c ∷ [])))
          (get_elem?-append_left pre (c ∷ []) index g)
          (AtMost-snoc max max c pre (omega arith) (ground arith) b)))
]

scan_all : (c : ℕ) (cs : List ℕ) → IsPeak (c ∷ cs) (scan (c ∷ cs) 0 0 0)
unfolding scan
scan_all zero cs = scan-IsPeak (0 ∷ []) cs 1 0 0 refl refl (omega arith)
scan_all (suc c) cs =
    rw (lt→ltb 0 (suc c) (omega arith))
      (scan-IsPeak (suc c ∷ []) cs 1 (suc c) 0 refl refl (omega arith))

-- Either there is no response, or `most` answers the one at a peak of the counters.
module _ {ℓ} {A : Type ℓ} ⦃e : Eq A⦄ where
  tally-le : (b : A) (top : ℕ) (ds : List A) (cs : List ℕ) → AtMost top cs → tally b ds cs ≤ top
  unfolding tally
  tally-le b top [] cs h = omega arith
  tally-le b top (d ∷ ds) [] h = omega arith
  tally-le b top (d ∷ ds) (c ∷ cs) h = ground (arith, tally-le b top ds cs h.1)

  count_pos : (a : A) (ds : List A) (i : ℕ) → get_elem? ds i ≡ some a → 0 < count a ds
  unfolding count
  count_pos a [] i h = cc
  count_pos a (d ∷ ds) zero h = ground (arith, ==_iff a d)
  count_pos a (d ∷ ds) (suc i) h = ground (arith, count_pos a ds i h)

  tally_at :
      (a : A) (top : ℕ) (ds : List A) (cs : List ℕ) (i : ℕ)
      → count a ds ≤ 1
      → get_elem? ds i ≡ some a
      → get_elem? cs i ≡ some top
      → tally a ds cs ≡ top
  unfolding tally count
  tally_at a top [] cs i d h k = cc
  tally_at a top (x ∷ ds) [] i d h k = cc
  tally_at a top (x ∷ ds) (c ∷ cs) zero d h k = ground (arith, ==_iff a x)
  tally_at a top (x ∷ ds) (c ∷ cs) (suc i) d h k =
      ground (arith, count_pos a ds i h, tally_at a top ds cs i)

  IsMost : List A → List ℕ → Option A → Type ℓ
  IsMost items counter r =
      (a : A) × (r ≡ some a) × ((b : A) → tally b items counter ≤ tally a items counter)

  peak-IsMost :
      (ds : List A) (cs : List ℕ) (i : ℕ)
      → length ds ≡ length cs
      → ((a : A) → count a ds ≤ 1)
      → IsPeak cs i
      → IsMost ds cs (get_elem? ds i)
  unfolding IsMost
  peak-IsMost ds cs i h d (top, p, b) =
      let (a, q) = get_elem?-some ds i (omega (arith, get_elem?_lt cs i p)) in
      (a, q, λ x. rw (tally_at a top ds cs i (d a) q p) (tally-le x top ds cs b))

  most_cases :
      (ds : List A) (cs : List ℕ) (t : ℕ)
      → length ds ≡ length cs
      → ((a : A) → count a ds ≤ 1)
      → (ds ≡ []) ⊎ IsMost ds cs (most (record { threshold = t; counter = cs; items = ds }))
  unfolding most
  most_cases [] cs t h d = inl refl
  most_cases (x ∷ ds) [] t h d = absurd (omega arith)
  most_cases (x ∷ ds) (c ∷ cs) t h d =
      inr (peak-IsMost (x ∷ ds) (c ∷ cs) (scan (c ∷ cs) 0 0 0) h d (scan_all c cs))

  unseen : (x : A) (seen : List A) → count x (x ∷ seen) ≡ 0 → ⊥
  unfolding count
  unseen x seen h = ground (arith, ==_refl x)

  -- Of a map that has seen some responses, `most` answers one that occurs at least as often among
  -- them as any other.
  pub most-plurality :
      (m : InterfaceMap A) (x : A) (seen : List A)
      → Counts m (x ∷ seen)
      → (a : A) × (most m ≡ some a) × ((b : A) → count b (x ∷ seen) ≤ count a (x ∷ seen))
  unfolding IsMost
  most-plurality m x seen h = elim (most_cases m.items m.counter m.threshold h.aligned h.distinct) [
    | inl empty ↦ absurd (unseen x seen (rw (← h.tallied x) (rw empty (unfold tally in refl))))
    | inr (a, q, b) ↦ (a, q, λ y. rw (← h.tallied y, ← h.tallied a) (b y))
  ]
