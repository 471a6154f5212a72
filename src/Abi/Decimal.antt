-- ===== src/Abi/Decimal.antt =====
-- The decimal texts of big integers, as big.Int's String and SetString with base 10 write and read
-- them, and the quotes that the JSON form of compat/v0/abi.go puts around them.
use lightnode.Common.{
  ℕ, zero, suc, ◌+◌, ◌-◌, ◌*◌, ◌/◌, ◌%◌, ◌≤◌, ◌<◌, ◌≡◌, ◌≢◌, refl, ap, ◌&&◌, ◌⊎◌, sym, subst,
  Option, none, some, [], ◌∷◌, ◌++◌, arith, leb, All, inl, inr, if◌then◌else◌,
}
use lightnode.Common.Eq.{number_eq, ◌==◌}
use lightnode.Common.Int.{ℤ, pos, negsuc, minus}
use lightnode.Darknode.{Bytes}

-- The digits of a number; one round for each of its digits is enough fuel.
unfoldable pub digits : ℕ → ℕ → Bytes
digits zero n = []
digits (suc fuel) n =
    let rest = digits fuel (n / 10) in
    if leb 10 n then rest ++ ((48 + n % 10) ∷ []) else (48 + n) ∷ []

unfoldable pub decimal : ℤ → Bytes
decimal (pos n) = digits (suc n) n
decimal (negsuc n) = 45 ∷ digits (suc (suc n)) (suc n)

unfoldable pub scan_digits : ℕ → Bytes → Option ℕ
scan_digits n [] = some n
scan_digits n (c ∷ s) =
    let rest = scan_digits (n * 10 + (c - 48)) s in if leb 48 c && leb c 57 then rest else none

unfoldable pub natural : Bytes → Option ℕ
natural [] = none
natural (c ∷ s) = scan_digits 0 (c ∷ s)

abbrev signed_by : (ℕ → ℤ) → Option ℕ → Option ℤ
signed_by sign none = none
signed_by sign (some n) = some (sign n)

-- An optional sign and digits.
unfoldable pub set_string : Bytes → Option ℤ
set_string [] = none
set_string (c ∷ s) =
    if c == 45
    then signed_by minus (natural s)
    else if c == 43
    then signed_by pos (natural s)
    else signed_by pos (natural (c ∷ s))

-- strings.Trim of one byte.
unfoldable pub trim_left : ℕ → Bytes → Bytes
trim_left cut [] = []
trim_left cut (c ∷ s) = let rest = trim_left cut s in if c == cut then rest else c ∷ s

abbrev put_kept : ℕ → ℕ → Bytes → Bytes
put_kept cut c [] = if c == cut then [] else c ∷ []
put_kept cut c (d ∷ s) = c ∷ (d ∷ s)

unfoldable pub trim_right : ℕ → Bytes → Bytes
trim_right cut [] = []
trim_right cut (c ∷ s) = put_kept cut c (trim_right cut s)

unfoldable pub trim : ℕ → Bytes → Bytes
trim cut s = trim_right cut (trim_left cut s)

scan_digits-append :
    (n c : ℕ) (s : Bytes) (m : ℕ)
    → scan_digits n s ≡ some m
    → 48 ≤ c
    → c ≤ 57
    → scan_digits n (s ++ (c ∷ [])) ≡ some (m * 10 + (c - 48))
unfolding scan_digits
scan_digits-append n c [] m h low high = ground arith
scan_digits-append n c (d ∷ s) m h low high =
    ground (arith, scan_digits-append (n * 10 + (d - 48)) c s m)

abbrev IsDigit : ℕ → Type 0
IsDigit c = (48 ≤ c) × (c ≤ 57)

append-IsDigit : (s : Bytes) (c : ℕ) → All IsDigit s → IsDigit c → All IsDigit (s ++ (c ∷ []))
append-IsDigit [] c a h = (h, tt)
append-IsDigit (d ∷ s) c a h = (a.0, append-IsDigit s c a.1 h)

digits-more :
    (fuel n : ℕ) → 10 ≤ n → digits (suc fuel) n ≡ digits fuel (n / 10) ++ ((48 + n % 10) ∷ [])
unfolding digits
digits-more fuel n h = ground (arith, h)

digits-last : (fuel n : ℕ) → n < 10 → digits (suc fuel) n ≡ (48 + n) ∷ []
unfolding digits
digits-last fuel n h = ground (arith, h)

le_or_lt : (m n : ℕ) → (m ≤ n) ⊎ (n < m)
le_or_lt m n = ground arith

digits-IsDigit : (fuel n : ℕ) → All IsDigit (digits fuel n)
unfolding digits
digits-IsDigit zero n = tt
digits-IsDigit (suc fuel) n = elim (le_or_lt 10 n) [
  | inl more ↦ subst (All IsDigit) (sym (digits-more fuel n more)) (
      append-IsDigit (digits fuel (n / 10)) (48 + n % 10) (digits-IsDigit fuel (n / 10))
        (omega arith, omega arith))
  | inr last ↦
      subst (All IsDigit) (sym (digits-last fuel n last)) ((omega arith, omega (arith, last)), tt)
]

scan_digits-one : (n : ℕ) → n < 10 → scan_digits 0 ((48 + n) ∷ []) ≡ some n
unfolding scan_digits
scan_digits-one n h = ground (arith, h)

scan_digits-digits : (fuel n : ℕ) → n < fuel → scan_digits 0 (digits fuel n) ≡ some n
scan_digits-digits zero n enough = absurd (omega (arith, enough))
scan_digits-digits (suc fuel) n enough = elim (le_or_lt 10 n) [
  | inl more ↦
      rw
        (
          digits-more fuel n more,
          scan_digits-append 0 (48 + n % 10) (digits fuel (n / 10)) (n / 10)
              (scan_digits-digits fuel (n / 10) (omega (arith, more, enough))) (omega arith)
              (omega arith),
        )
        (ap some (omega arith))
  | inr last ↦ rw (digits-last fuel n last) (scan_digits-one n last)
]

trim_right-unquoted : (s : Bytes) → All IsDigit s → trim_right 34 (s ++ (34 ∷ [])) ≡ s
unfolding trim_right
trim_right-unquoted [] a = refl
trim_right-unquoted (c ∷ []) a = ground (arith, a.0.0)
trim_right-unquoted (c ∷ (d ∷ s)) a = rw (trim_right-unquoted (d ∷ s) a.1) refl

append_cons :
    {t : Bytes} (d : ℕ) (s : Bytes) → t ≡ s ++ (d ∷ []) → (c : ℕ) × (u : Bytes) × (t ≡ c ∷ u)
append_cons d [] h = (d, [], h)
append_cons d (c ∷ s) h = (c, s ++ (d ∷ []), h)

digits-cons : (fuel n : ℕ) → (c : ℕ) × (s : Bytes) × (digits (suc fuel) n ≡ c ∷ s)
digits-cons fuel n = elim (le_or_lt 10 n) [
  | inl more ↦ append_cons (48 + n % 10) (digits fuel (n / 10)) (digits-more fuel n more)
  | inr last ↦ (48 + n, [], digits-last fuel n last)
]

-- A text of digits in quotes loses its quotes.
trim_quoted :
    (c : ℕ) (s : Bytes)
    → c ≢ 34
    → trim_right 34 ((c ∷ s) ++ (34 ∷ [])) ≡ c ∷ s
    → trim 34 (34 ∷ ((c ∷ s) ++ (34 ∷ []))) ≡ c ∷ s
unfolding trim trim_left
trim_quoted c s h kept = ground (arith, kept)

-- The text of a number starts with a digit, is read as the number and ends before a quote.
record IsNumber (n : ℕ) (text : Bytes) : Type 0 where
  first : ℕ
  others : Bytes
  shape : text ≡ first ∷ others
  digit : IsDigit first
  value : natural text ≡ some n
  unquoted : trim_right 34 (text ++ (34 ∷ [])) ≡ text

natural-cons :
    {n : ℕ} {t : Bytes} (c : ℕ) (s : Bytes)
    → t ≡ c ∷ s
    → scan_digits 0 t ≡ some n
    → natural t ≡ some n
unfolding natural
natural-cons {n} c s shape h = rw shape (subst (λ u. scan_digits 0 u ≡ some n) shape h)

digits-IsNumber : (n : ℕ) → IsNumber n (digits (suc n) n)
digits-IsNumber n =
    let r = digits-cons n n in
    record {
      first = r.0;
      others = r.1;
      shape = r.2;
      digit = (subst (All IsDigit) r.2 (digits-IsDigit (suc n) n)).0;
      value = natural-cons r.0 r.1 r.2 (scan_digits-digits (suc n) n (omega arith));
      unquoted = trim_right-unquoted (digits (suc n) n) (digits-IsDigit (suc n) n);
    }

set_string-cons :
    (n c : ℕ) (s : Bytes) → IsDigit c → natural (c ∷ s) ≡ some n → set_string (c ∷ s) ≡ some (pos n)
unfolding set_string
set_string-cons n c s d h = ground (arith, d, h)

set_string-natural : {n : ℕ} {t : Bytes} → IsNumber n t → set_string t ≡ some (pos n)
set_string-natural {n} {t} h =
    subst (λ u. set_string u ≡ some (pos n)) (sym h.shape)
      (set_string-cons n h.first h.others h.digit (subst (λ u. natural u ≡ some n) h.shape h.value))

trim-natural : {n : ℕ} {t : Bytes} → IsNumber n t → trim 34 (34 ∷ (t ++ (34 ∷ []))) ≡ t
trim-natural {n} {t} h =
    subst (λ u. trim 34 (34 ∷ (u ++ (34 ∷ []))) ≡ u) (sym h.shape)
      (trim_quoted h.first h.others (omega (arith, h.digit.0))
        (subst (λ u. trim_right 34 (u ++ (34 ∷ [])) ≡ u) h.shape h.unquoted))

trim_right-signed :
    (c : ℕ) (s : Bytes)
    → c ≢ 34
    → trim_right 34 (s ++ (34 ∷ [])) ≡ s
    → trim_right 34 ((c ∷ s) ++ (34 ∷ [])) ≡ c ∷ s
unfolding trim_right
trim_right-signed c [] h kept = ground (arith, h)
trim_right-signed c (d ∷ s) h kept = rw kept refl

set_string-negative :
    {n : ℕ} {t : Bytes} → IsNumber (suc n) t → set_string (45 ∷ t) ≡ some (negsuc n)
unfolding set_string
set_string-negative h = rw h.value refl

-- Go reads back the integer that it printed.
pub set_string-decimal : (x : ℤ) → set_string (decimal x) ≡ some x
unfolding decimal
set_string-decimal (pos n) = set_string-natural (digits-IsNumber n)
set_string-decimal (negsuc n) = set_string-negative (digits-IsNumber (suc n))

-- The quotes around the text of an integer are all that Trim takes.
pub trim-decimal : (x : ℤ) → trim 34 (34 ∷ (decimal x ++ (34 ∷ []))) ≡ decimal x
unfolding decimal
trim-decimal (pos n) = trim-natural (digits-IsNumber n)
trim-decimal (negsuc n) = trim_quoted 45 (digits (suc (suc n)) (suc n)) (omega arith) (
    trim_right-signed 45 (digits (suc (suc n)) (suc n)) (omega arith)
      (digits-IsNumber (suc n)).unquoted)
