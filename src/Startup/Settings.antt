-- ===== src/Startup/Settings.antt =====
-- What the variables of the environment change.
use lightnode.Common.{
  ℕ, zero, suc, ◌≢◌, ◌≡◌, refl, ap, subst, ◌∙◌, Option, none, some, List, [], ◌∷◌, arith, All, inl,
  inr, Bool-cases,
}
use lightnode.Common.Eq.{bytes_eq, ◌==◌, ==_iff}
use lightnode.Common.Int.{ℤ, pos}
use lightnode.Darknode.{Bytes}
use lightnode.Startup.{Packages, Options, default_options}
use lightnode.Startup.Environment.{
  Environment, Setting, read_to, settings, apply_settings, parse_network, parse_int, uint64,
  parse_options, chains_of, on_settings,
}

-- The proofs for a list, one after another.
infixr 5 ◌⨾◌
abbrev ◌⨾◌ : {P Q : Type 0} → P → Q → P × Q
◌⨾◌ p q = (p, q)

module _ (packages : Packages) where
  module _ {A : Type 0} (field : Options packages → A) where
    -- A setting that leaves a field alone, wherever it does not panic.
    unfoldable Leaves : Setting packages → Type 0
    Leaves (text, none) = Unit
    Leaves (text, some f) = (o : Options packages) → field (f o) ≡ field o

    left_alone :
        (list : List (Setting packages)) (o out : Options packages)
        → All Leaves list
        → apply_settings packages list o ≡ some out
        → field out ≡ field o
    unfolding apply_settings Leaves
    left_alone [] o out all h = ground arith
    left_alone ((text, none) ∷ rest) o out all h = elim (Bool-cases (text == [])) [
      | inl p ↦ left_alone rest o out all.1 (ground (arith, p))
      | inr p ↦ absurd (ground (arith, p))
    ]
    left_alone ((text, some f) ∷ rest) o out all h = elim (Bool-cases (text == [])) [
      | inl p ↦ left_alone rest o out all.1 (ground (arith, p))
      | inr p ↦ left_alone rest (f o) out all.1 (ground (arith, p)) ∙ all.0 o
    ]

    -- Whether reading the value panics or not, a setting of another field leaves this one alone.
    read_to-Leaves :
        {B : Type 0}
        → (text : Bytes) (set : B → Options packages → Options packages) (read : Option B)
        → ((b : B) (o : Options packages) → field (set b o) ≡ field o)
        → Leaves (text, read_to packages set read)
    unfolding Leaves
    read_to-Leaves text set none same = tt
    read_to-Leaves text set (some b) same = same b

    set_last :
        (text : Bytes) (f : Options packages → Options packages)
        → (rest : List (Setting packages)) (o out : Options packages) → text ≢ []
        → All Leaves rest
        → apply_settings packages ((text, some f) ∷ rest) o ≡ some out
        → field out ≡ field (f o)
    unfolding apply_settings
    set_last text f rest o out given all h = elim (Bool-cases (text == [])) [
      | inl p ↦ absurd (given ((==_iff text []).0 p))
      | inr p ↦ left_alone rest (f o) out all (ground (arith, p))
    ]

  -- The options after the first settings.
  after : ℕ → List (Setting packages) → List (Setting packages)
  after zero list = list
  after (suc n) [] = []
  after (suc n) (s ∷ list) = after n list

  past :
      (n : ℕ) (list : List (Setting packages)) (o out : Options packages)
      → apply_settings packages list o ≡ some out
      → (o' : Options packages) × (apply_settings packages (after n list) o' ≡ some out)
  unfolding apply_settings after
  past zero list o out h = (o, h)
  past (suc n) [] o out h = (o, h)
  past (suc n) ((text, none) ∷ list) o out h = elim (Bool-cases (text == [])) [
    | inl p ↦ past n list o out (ground (arith, p))
    | inr p ↦ absurd (ground (arith, p))
  ]
  past (suc n) ((text, some f) ∷ list) o out h = elim (Bool-cases (text == [])) [
    | inl p ↦ past n list o out (ground (arith, p))
    | inr p ↦ past n list (f o) out (ground (arith, p))
  ]

  -- What the options are read to be, where the variables of the page size and of the confidence
  -- interval are set: these stay at their defaults, and two others are set in their place.
  pub record Misread (env : Environment) (o : Options packages) : Type 0 where
    pub page_size : o.max_page_size ≡ pos 10
    pub confidence : o.watcher_confidence_interval ≡ 6
    pub batch_size : o.max_batch_size ≡ parse_int (env "MAX_PAGE_SIZE")
    pub block_advance :
        o.watcher_max_block_advance ≡ uint64 (parse_int (env "WATCHER_CONFIDENCE_INTERVAL"))

  -- No setting changes the page size and the confidence interval, none after that of the page size
  -- the batch size, and none after that of the confidence interval the block advance.
  defaults : Options packages → ℤ × ℕ
  defaults o = (o.max_page_size, o.watcher_confidence_interval)

  defaults-Leaves : (env : Environment) → All (Leaves defaults) (settings packages env)
  unfolding settings Leaves defaults
  defaults-Leaves env =
      (λ o. refl)
      ⨾ (λ o. refl)
      ⨾ (λ o. refl)
      ⨾ (λ o. refl)
      ⨾ (λ o. refl)
      ⨾ (λ o. refl)
      ⨾ (λ o. refl)
      ⨾ (λ o. refl)
      ⨾ (λ o. refl)
      ⨾ (λ o. refl)
      ⨾ (λ o. refl)
      ⨾ (λ o. refl)
      ⨾ (λ o. refl)
      ⨾ (λ o. refl)
      ⨾ read_to-Leaves defaults (env "ADDRESSES") _ _ (λ b o. refl)
      ⨾ (λ o. refl)
      ⨾ read_to-Leaves defaults (env "LIMITER_IP_RATE") _ _ (λ b o. refl)
      ⨾ read_to-Leaves defaults (env "LIMITER_GLOBAL_RATE") _ _ (λ b o. refl)
      ⨾ tt

  batch_size-Leaves :
      (env : Environment) → All (Leaves (λ o. o.max_batch_size)) (after 4 (settings packages env))
  unfolding settings Leaves after
  batch_size-Leaves env =
      (λ o. refl)
      ⨾ (λ o. refl)
      ⨾ (λ o. refl)
      ⨾ (λ o. refl)
      ⨾ (λ o. refl)
      ⨾ (λ o. refl)
      ⨾ (λ o. refl)
      ⨾ (λ o. refl)
      ⨾ (λ o. refl)
      ⨾ (λ o. refl)
      ⨾ read_to-Leaves (λ o. o.max_batch_size) (env "ADDRESSES") _ _ (λ b o. refl)
      ⨾ (λ o. refl)
      ⨾ read_to-Leaves (λ o. o.max_batch_size) (env "LIMITER_IP_RATE") _ _ (λ b o. refl)
      ⨾ read_to-Leaves (λ o. o.max_batch_size) (env "LIMITER_GLOBAL_RATE") _ _ (λ b o. refl)
      ⨾ tt

  block_advance-Leaves :
      (env : Environment)
      → All (Leaves (λ o. o.watcher_max_block_advance)) (after 13 (settings packages env))
  unfolding settings Leaves after
  block_advance-Leaves env =
      (λ o. refl)
      ⨾ read_to-Leaves (λ o. o.watcher_max_block_advance) (env "ADDRESSES") _ _ (λ b o. refl)
      ⨾ (λ o. refl)
      ⨾ read_to-Leaves (λ o. o.watcher_max_block_advance) (env "LIMITER_IP_RATE") _ _ (λ b o. refl)
      ⨾ read_to-Leaves (λ o. o.watcher_max_block_advance) (env "LIMITER_GLOBAL_RATE") _ _
          (λ b o. refl)
      ⨾ tt

  settings-Misread :
      (env : Environment) (o out : Options packages)
      → env "MAX_PAGE_SIZE" ≢ []
      → env "WATCHER_CONFIDENCE_INTERVAL" ≢ []
      → defaults o ≡ (pos 10, 6)
      → apply_settings packages (settings packages env) o ≡ some out
      → Misread env out
  unfolding settings after defaults
  settings-Misread env o out page_set confidence_set unchanged h =
      let both =
        left_alone defaults (settings packages env) o out (defaults-Leaves env) h ∙ unchanged in
      let (before_size, g) = past 3 (settings packages env) o out h in
      let (before_advance, k) = past 12 (settings packages env) o out h in
      record {
        page_size = ap (λ (d : ℤ × ℕ). d.0) both;
        confidence = ap (λ (d : ℤ × ℕ). d.1) both;
        batch_size =
            set_last (λ o. o.max_batch_size) (env "MAX_PAGE_SIZE") _ _ before_size out page_set
              (batch_size-Leaves env) g;
        block_advance =
            set_last (λ o. o.watcher_max_block_advance) (env "WATCHER_CONFIDENCE_INTERVAL") _ _
              before_advance out confidence_set (block_advance-Leaves env) k;
      }

  or_else : Options packages → Option (Options packages) → Options packages
  or_else o none = o
  or_else o (some out) = out

  on_settings-eq-some :
      (env : Environment) (read : Option (Options packages)) (o : Options packages)
      → on_settings packages env read ≡ some o
      → (out : Options packages) × (read ≡ some out)
        × (record out { chains = chains_of packages env } ≡ o)
  unfolding or_else
  on_settings-eq-some env none o h = absurd (ground arith)
  on_settings-eq-some env (some out) o h = (out, refl, ap (or_else out) h)

  -- Where MAX_PAGE_SIZE and WATCHER_CONFIDENCE_INTERVAL are set and no variable panics, the page size
  -- and the confidence interval keep their defaults, the batch size is the number of the first and
  -- the block advance that of the second.
  pub parse_options-Misread :
      (env : Environment) (o : Options packages)
      → env "MAX_PAGE_SIZE" ≢ []
      → env "WATCHER_CONFIDENCE_INTERVAL" ≢ []
      → parse_options packages env ≡ some o
      → Misread env o
  unfolding parse_options default_options defaults
  parse_options-Misread env o page_set confidence_set h =
      let start = record (default_options packages) {
        network = parse_network (env "HEROKU_APP_NAME");
      } in
      let (out, p, same) =
        on_settings-eq-some env (apply_settings packages (settings packages env) start) o h in
      let m = settings-Misread env start out page_set confidence_set refl p in
      let moved : Misread env (record out { chains = chains_of packages env }) = record {
        page_size = m.page_size;
        confidence = m.confidence;
        batch_size = m.batch_size;
        block_advance = m.block_advance;
      } in
      subst (Misread env) same moved
