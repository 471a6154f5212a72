-- ===== src/Dispatcher/InterfaceMap/Tally.antt =====
-- The map counts: it holds the number of every response that was stored in it.
use lightnode.Common.{
  ℕ, suc, ◌+◌, ◌≡◌, refl, Bool, none, some, List, [], ◌∷◌, ◌++◌, arith, ltb, length, length-append,
  if◌then◌else◌, Option-cases, inl, inr, ◌≤◌, ◌≢◌,
}
use lightnode.Common.Eq.{Eq, ◌==◌, ==_iff, ==_refl}
use lightnode.Dispatcher.InterfaceMap.{InterfaceMap, new_interface_map, increment, store}

abbrev plus_one : Bool → ℕ → ℕ
plus_one b n = if b then suc n else n

module _ {ℓ} {A : Type ℓ} ⦃e : Eq A⦄ where
  -- How often a response occurs in a list.
  unfoldable pub count : A → List A → ℕ
  count a [] = 0
  count a (x ∷ xs) = if a == x then suc (count a xs) else count a xs

  pub count-append : (a : A) (xs ys : List A) → count a (xs ++ ys) ≡ count a xs + count a ys
  unfolding count
  count-append a [] ys = omega arith
  count-append a (x ∷ xs) ys = ground (arith, count-append a xs ys)

  -- Two different responses share no place.
  pub count-add-le : (a b : A) (xs : List A) → a ≢ b → count a xs + count b xs ≤ length xs
  unfolding count
  count-add-le a b [] h = omega arith
  count-add-le a b (x ∷ xs) h = ground (arith, ==_iff a x, ==_iff b x, count-add-le a b xs)

  -- The counter that stands at a response.
  unfoldable pub tally : A → List A → List ℕ → ℕ
  tally a [] cs = 0
  tally a (d ∷ ds) [] = 0
  tally a (d ∷ ds) (c ∷ cs) = if a == d then c else tally a ds cs

  abbrev pub tally_of : InterfaceMap A → A → ℕ
  tally_of m a = tally a m.items m.counter

  increment-none :
      (key a : A) (ds : List A) (cs : List ℕ)
      → length ds ≡ length cs
      → increment key ds cs ≡ none
      → tally a (ds ++ key ∷ []) (cs ++ 1 ∷ []) ≡ plus_one (a == key) (tally a ds cs)
  unfolding increment tally
  increment-none key a [] [] h n = refl
  increment-none key a [] (c ∷ cs) h n = absurd (omega arith)
  increment-none key a (d ∷ ds) [] h n = absurd (omega arith)
  increment-none key a (d ∷ ds) (c ∷ cs) h n =
      ground (arith, ==_iff key d, ==_iff a d, ==_iff a key, increment-none key a ds cs)

  tally-none :
      (key : A) (ds : List A) (cs : List ℕ) → increment key ds cs ≡ none → tally key ds cs ≡ 0
  unfolding increment tally
  tally-none key [] cs n = refl
  tally-none key (d ∷ ds) [] n = refl
  tally-none key (d ∷ ds) (c ∷ cs) n = ground (arith, tally-none key ds cs)

  increment-some :
      (key a : A) (ds : List A) (cs : List ℕ) {n : ℕ} {cs' : List ℕ}
      → increment key ds cs ≡ some (n, cs')
      → (n ≡ suc (tally key ds cs))
        × (length cs' ≡ length cs)
        × (tally a ds cs' ≡ plus_one (a == key) (tally a ds cs))
  unfolding increment tally
  increment-some key a [] cs h = cc
  increment-some key a (d ∷ ds) [] h = cc
  increment-some key a (d ∷ ds) (c ∷ cs) h = elim (Option-cases (increment key ds cs)) [
    | inl p ↦ ground (arith, ==_iff key d, ==_iff a d, ==_iff a key)
    | inr (r, p) ↦
        ground (arith, ==_iff key d, ==_iff a d, ==_iff a key, increment-some key a ds cs p)
  ]

  -- The map `m` has seen the responses `seen`.
  pub record Counts (m : InterfaceMap A) (seen : List A) : Type ℓ where
    pub aligned : length m.items ≡ length m.counter
    pub tallied : (a : A) → tally_of m a ≡ count a seen
    pub distinct : (a : A) → count a m.items ≤ 1

  count-zero :
      (key : A) (ds : List A) (cs : List ℕ)
      → length ds ≡ length cs
      → increment key ds cs ≡ none
      → count key ds ≡ 0
  unfolding increment count
  count-zero key [] cs h n = refl
  count-zero key (d ∷ ds) [] h n = absurd (omega arith)
  count-zero key (d ∷ ds) (c ∷ cs) h n = ground (arith, count-zero key ds cs)

  pub new_interface_map-Counts : (total : ℕ) → Counts (new_interface_map total) []
  unfolding new_interface_map tally count
  new_interface_map-Counts total = record {
    aligned = refl;
    tallied = λ a. refl;
    distinct = λ a. omega arith;
  }

  count-snoc :
      (a key : A) (xs : List A) → count a (xs ++ key ∷ []) ≡ plus_one (a == key) (count a xs)
  unfolding count
  count-snoc a key xs = ground (arith, count-append a xs (key ∷ []))

  store_new :
      (m : InterfaceMap A) (key : A) (seen : List A)
      → Counts m seen
      → increment key m.items m.counter ≡ none
      → Counts (store m key).0 (seen ++ key ∷ [])
  unfolding store
  store_new m key seen h p =
      rw (p, store)
        (record {
          aligned = omega (
            arith,
            h.aligned,
            length-append m.items (key ∷ []),
            length-append m.counter (1 ∷ []),
          );
          tallied = λ a. ground (
            arith,
            increment-none key a m.items m.counter h.aligned p,
            h.tallied a,
            count-snoc a key seen,
          );
          distinct = λ a. ground (
            arith,
            count-snoc a key m.items,
            h.distinct a,
            count-zero key m.items m.counter h.aligned p,
            ==_iff a key,
          );
        })

  store_again :
      (m : InterfaceMap A) (key : A) (seen : List A) (n : ℕ) (cs : List ℕ)
      → Counts m seen
      → increment key m.items m.counter ≡ some (n, cs)
      → Counts (store m key).0 (seen ++ key ∷ [])
  unfolding store
  store_again m key seen n cs h p =
      rw (p, store)
        (record {
          aligned = omega (arith, h.aligned, (increment-some key key m.items m.counter p).1);
          tallied = λ a. ground (
            arith,
            (increment-some key a m.items m.counter p).2,
            h.tallied a,
            count-snoc a key seen,
          );
          distinct = h.distinct;
        })

  -- Storing a response counts it, and nothing else.
  pub store-Counts :
      (m : InterfaceMap A) (key : A) (seen : List A)
      → Counts m seen
      → Counts (store m key).0 (seen ++ key ∷ [])
  store-Counts m key seen h = elim (Option-cases (increment key m.items m.counter)) [
    | inl p ↦ store_new m key seen h p
    | inr ((n, cs), p) ↦ store_again m key seen n cs h p
  ]

  -- The answer of `store` says whether the response has now passed the threshold.
  pub store-threshold :
      (m : InterfaceMap A) (key : A) (seen : List A)
      → Counts m seen
      → (store m key).1 ≡ ltb m.threshold (count key (seen ++ key ∷ []))
  unfolding store
  store-threshold m key seen h = elim (Option-cases (increment key m.items m.counter)) [
    | inl p ↦
        rw (p, store)
          (ground (
            arith,
            h.tallied key,
            tally-none key m.items m.counter p,
            count-snoc key key seen,
            ==_refl key,
          ))
    | inr ((n, cs), p) ↦
        rw (p, store)
          (ground (
            arith,
            h.tallied key,
            (increment-some key key m.items m.counter p).0,
            count-snoc key key seen,
            ==_refl key,
          ))
  ]

  pub threshold-store : (m : InterfaceMap A) (key : A) → (store m key).0.threshold ≡ m.threshold
  unfolding store
  threshold-store m key = ground arith
