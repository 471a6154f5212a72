-- ===== src/Abi/Values/Identity.antt =====
-- `Equal` of the values of compat/v0/abi.go and compat/v0/ext.go tells values apart by their type,
-- their bytes and the pointers of their numbers.
use lightnode.Common.{
  ℕ, ◌≡◌, ◌↔◌, refl, ap, sym, subst, ◌∙◌, Option, none, some, List, [], ◌∷◌, arith, Bool, true,
  false, ◌&&◌, if◌then◌else◌,
}
use lightnode.Common.Eq.{number_eq, bytes_eq, ◌==◌, ==_iff}
use lightnode.Common.Int.{ℤ}
use lightnode.Darknode.{Bytes}
use lightnode.Abi.Types.{
  type_i8, type_i16, type_i32, type_i64, type_i128, type_i256, type_u8, type_u16, type_u32,
  type_u64, type_u128, type_u256,
}
use lightnode.Abi.Numbers.{
  NumberType, same_pointer, equal_pointers, number_i8, number_i16, number_i32, number_i64,
  number_i128, number_i256, number_u8, number_u16, number_u32, number_u64, number_u128, number_u256,
  methods, i8, i16, i32, i64, i128, i256, u8, u16, u32, u64, u128, u256,
}
use lightnode.Abi.Values.{
  equal_each, Utxo, Payload, Scalar, equal_address, equal_str, equal_b32, equal_b, equal_number,
  equal_eth_compat_address, equal_eth_compat_tx, equal_btc_compat_utxo, equal_btc_compat_utxos,
  equal_eth_compat_payload, equal, address, str, b32, b, eth_compat_address, eth_compat_tx, number,
  btc_compat_utxo, btc_compat_utxos, eth_compat_payload,
}

same_pointer_iff : (p q : Option ℕ) → (same_pointer p q ≡ true) ↔ (p ≡ q)
same_pointer_iff none none = ground arith
same_pointer_iff none (some q) = ground arith
same_pointer_iff (some p) none = ground arith
same_pointer_iff (some p) (some q) = ground (arith, ==_iff p q)

-- The type of numbers that a name names.
number_type : Bytes → Option NumberType
number_type kind =
    if kind == type_i8
    then some i8
    else if kind == type_i16
    then some i16
    else if kind == type_i32
    then some i32
    else if kind == type_i64
    then some i64
    else if kind == type_i128
    then some i128
    else if kind == type_i256
    then some i256
    else if kind == type_u8
    then some u8
    else if kind == type_u16
    then some u16
    else if kind == type_u32
    then some u32
    else if kind == type_u64
    then some u64
    else if kind == type_u128
    then some u128
    else if kind == type_u256
    then some u256
    else none

-- The parts of a conjunction decide the parts of what it decides.
and_iff :
    {P Q : Type 0} {c d : Bool} → (c ≡ true) ↔ P → (d ≡ true) ↔ Q → ((c && d) ≡ true) ↔ (P × Q)
and_iff {c = true} {d = _} h k = (λ e. (h.0 refl, k.0 e), λ r. k.1 r.1)
and_iff {c = false} {d = _} h k = (λ e. absurd (ground (arith, e)), λ r. h.1 r.0)

via : {P Q : Type 0} {c : Bool} → (P → Q) → (Q → P) → (c ≡ true) ↔ P → (c ≡ true) ↔ Q
via f g h = (λ e. f (h.0 e), λ q. h.1 (g q))

equal_pointers_iff :
    (kind other_kind : Bytes) (p q : Option ℕ)
    → (equal_pointers kind p other_kind q ≡ true) ↔ ((kind ≡ other_kind) × (p ≡ q))
unfolding equal_pointers
equal_pointers_iff kind other_kind p q =
    ground (arith, ==_iff other_kind kind, same_pointer_iff p q)

abbrev SameUtxo : Utxo ℕ → Utxo ℕ → Type 0
SameUtxo x y =
    (x.tx_hash ≡ y.tx_hash)
    × ((x.v_out ≡ y.v_out)
        × ((x.script_pub_key ≡ y.script_pub_key) × ((x.amount ≡ y.amount) × (x.g_hash ≡ y.g_hash))))

utxo_equal : (x y : Utxo ℕ) → SameUtxo x y → x ≡ y
utxo_equal x y s = cc (s.0, s.1.0, s.1.1.0, s.1.1.1.0, s.1.1.1.1)

utxo_parts : (x y : Utxo ℕ) → x ≡ y → SameUtxo x y
utxo_parts x y h = subst (λ z. SameUtxo x z) h (refl, (refl, (refl, (refl, refl))))

payload_equal : (x y : Payload) → (x.abi ≡ y.abi) × ((x.value ≡ y.value) × (x.fn ≡ y.fn)) → x ≡ y
payload_equal x y s = cc (s.0, s.1.0, s.1.1)

payload_parts : (x y : Payload) → x ≡ y → (x.abi ≡ y.abi) × ((x.value ≡ y.value) × (x.fn ≡ y.fn))
payload_parts x y h =
    subst (λ z. (x.abi ≡ z.abi) × ((x.value ≡ z.value) × (x.fn ≡ z.fn))) h (refl, (refl, refl))

module _ (padded_big_bytes : ℤ → ℕ → Bytes) where
  number_type-kind : (t : NumberType) → number_type (methods padded_big_bytes t).kind ≡ some t
  unfolding number_type number_i8 number_i16 number_i32 number_i64 number_i128 number_i256 number_u8
      number_u16 number_u32 number_u64 number_u128 number_u256
  number_type-kind i8 = refl
  number_type-kind i16 = refl
  number_type-kind i32 = refl
  number_type-kind i64 = refl
  number_type-kind i128 = refl
  number_type-kind i256 = refl
  number_type-kind u8 = refl
  number_type-kind u16 = refl
  number_type-kind u32 = refl
  number_type-kind u64 = refl
  number_type-kind u128 = refl
  number_type-kind u256 = refl

  some_injective : {t u : NumberType} → some t ≡ some u → t ≡ u
  some_injective h = ground (arith, h)

  kind_injective :
      (t u : NumberType)
      → (methods padded_big_bytes t).kind ≡ (methods padded_big_bytes u).kind
      → t ≡ u
  kind_injective t u h =
      some_injective (sym (number_type-kind t) ∙ ap number_type h ∙ number_type-kind u)

  equal-methods :
      (t u : NumberType) (p q : Option ℕ)
      → (methods padded_big_bytes t).equal p (methods padded_big_bytes u).kind q
        ≡ equal_pointers (methods padded_big_bytes t).kind p (methods padded_big_bytes u).kind q
  unfolding number_i8 number_i16 number_i32 number_i64 number_i128 number_i256 number_u8 number_u16
      number_u32 number_u64 number_u128 number_u256
  equal-methods i8 u p q = refl
  equal-methods i16 u p q = refl
  equal-methods i32 u p q = refl
  equal-methods i64 u p q = refl
  equal-methods i128 u p q = refl
  equal-methods i256 u p q = refl
  equal-methods u8 u p q = refl
  equal-methods u16 u p q = refl
  equal-methods u32 u p q = refl
  equal-methods u64 u p q = refl
  equal-methods u128 u p q = refl
  equal-methods u256 u p q = refl

  equal_number_iff :
      (t u : NumberType) (p q : Option ℕ)
      → (equal_number padded_big_bytes t p (number u q) ≡ true) ↔ ((t ≡ u) × (p ≡ q))
  unfolding equal_number
  equal_number_iff t u p q = rw (equal-methods t u p q) (
      via (λ r. (kind_injective t u r.0, r.1))
        (λ r. (ap (λ v. (methods padded_big_bytes v).kind) r.0, r.1))
        (equal_pointers_iff (methods padded_big_bytes t).kind (methods padded_big_bytes u).kind p
          q))

  same_number_iff :
      (t : NumberType) (p q : Option ℕ)
      → (equal_number padded_big_bytes t p (number t q) ≡ true) ↔ (p ≡ q)
  same_number_iff t p q = via (λ r. r.1) (λ e. (refl, e)) (equal_number_iff t t p q)

  equal_utxo_iff :
      (x y : Utxo ℕ)
      → (equal_btc_compat_utxo padded_big_bytes x (btc_compat_utxo y) ≡ true) ↔ (x ≡ y)
  unfolding equal_btc_compat_utxo equal_b32 equal_b
  equal_utxo_iff x y = via (utxo_equal x y) (utxo_parts x y) (
      and_iff (==_iff x.tx_hash y.tx_hash) (
        and_iff (same_number_iff u32 x.v_out y.v_out) (
          and_iff (==_iff x.script_pub_key y.script_pub_key)
            (and_iff (same_number_iff u256 x.amount y.amount) (==_iff x.g_hash y.g_hash)))))

  equal_each_iff : (xs ys : List (Utxo ℕ)) → (equal_each padded_big_bytes xs ys ≡ true) ↔ (xs ≡ ys)
  equal_each_iff [] [] = ground arith
  equal_each_iff [] (y ∷ ys) = ground arith
  equal_each_iff (x ∷ xs) [] = ground arith
  equal_each_iff (x ∷ xs) (y ∷ ys) = ground (arith, equal_utxo_iff x y, equal_each_iff xs ys)

  equal_payload_iff :
      (x y : Payload)
      → (equal_eth_compat_payload padded_big_bytes x (eth_compat_payload y) ≡ true) ↔ (x ≡ y)
  unfolding equal_eth_compat_payload equal_b
  equal_payload_iff x y =
      via (payload_equal x y) (payload_parts x y)
        (and_iff (==_iff x.abi y.abi) (and_iff (==_iff x.value y.value) (==_iff x.fn y.fn)))

  equal_same : (v w : Scalar ℕ) → equal padded_big_bytes v w ≡ true → v ≡ w
  unfolding equal_address equal_str equal_b32 equal_b equal_eth_compat_address equal_eth_compat_tx
      equal_btc_compat_utxos equal_number equal_btc_compat_utxo equal_eth_compat_payload
  equal_same (address x) (address y) h = ap address ((==_iff x y).0 h)
  equal_same (address x) _ h = absurd (ground (arith, h))
  equal_same (str x) (str y) h = ap str ((==_iff x y).0 h)
  equal_same (str x) _ h = absurd (ground (arith, h))
  equal_same (b32 x) (b32 y) h = ap b32 ((==_iff x y).0 h)
  equal_same (b32 x) _ h = absurd (ground (arith, h))
  equal_same (b x) (b y) h = ap b ((==_iff x y).0 h)
  equal_same (b x) _ h = absurd (ground (arith, h))
  equal_same (eth_compat_address x) (eth_compat_address y) h =
      ap eth_compat_address ((==_iff x y).0 h)
  equal_same (eth_compat_address x) _ h = absurd (ground (arith, h))
  equal_same (eth_compat_tx x) (eth_compat_tx y) h = ap eth_compat_tx ((==_iff x y).0 h)
  equal_same (eth_compat_tx x) _ h = absurd (ground (arith, h))
  equal_same (number t p) (number u q) h = let r = (equal_number_iff t u p q).0 h in cc (r.0, r.1)
  equal_same (number t p) _ h = absurd (ground (arith, h))
  equal_same (btc_compat_utxo x) (btc_compat_utxo y) h =
      ap btc_compat_utxo ((equal_utxo_iff x y).0 h)
  equal_same (btc_compat_utxo x) _ h = absurd (ground (arith, h))
  equal_same (btc_compat_utxos xs) (btc_compat_utxos ys) h =
      ap btc_compat_utxos ((equal_each_iff xs ys).0 h)
  equal_same (btc_compat_utxos xs) _ h = absurd (ground (arith, h))
  equal_same (eth_compat_payload x) (eth_compat_payload y) h =
      ap eth_compat_payload ((equal_payload_iff x y).0 h)
  equal_same (eth_compat_payload x) _ h = absurd (ground (arith, h))

  equal_refl : (v : Scalar ℕ) → equal padded_big_bytes v v ≡ true
  unfolding equal_address equal_str equal_b32 equal_b equal_eth_compat_address equal_eth_compat_tx
      equal_btc_compat_utxos
  equal_refl (address x) = (==_iff x x).1 refl
  equal_refl (str x) = (==_iff x x).1 refl
  equal_refl (b32 x) = (==_iff x x).1 refl
  equal_refl (b x) = (==_iff x x).1 refl
  equal_refl (eth_compat_address x) = (==_iff x x).1 refl
  equal_refl (eth_compat_tx x) = (==_iff x x).1 refl
  equal_refl (number t p) = (equal_number_iff t t p p).1 (refl, refl)
  equal_refl (btc_compat_utxo x) = (equal_utxo_iff x x).1 refl
  equal_refl (btc_compat_utxos xs) = (equal_each_iff xs xs).1 refl
  equal_refl (eth_compat_payload x) = (equal_payload_iff x x).1 refl

  -- Two values are equal for `Equal` exactly where they have the same type, the same bytes and the
  -- same pointers to their numbers.
  pub equal_iff : (v w : Scalar ℕ) → (equal padded_big_bytes v w ≡ true) ↔ (v ≡ w)
  equal_iff v w =
      (equal_same v w, λ e. subst (λ u. equal padded_big_bytes v u ≡ true) e (equal_refl v))
