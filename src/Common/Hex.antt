-- ===== src/Common/Hex.antt =====
-- Go's encoding/hex: EncodeToString and DecodeString on bytes.
use Prim.Native.Nat.{ℕ, ◌+◌, ◌-◌, ◌*◌, ◌/◌, ◌%◌, ◌<◌}
use mathlib.Core.Path.{◌≡◌, refl, ap}
use mathlib.Core.Bool.{◌&&◌}
use mathlib.Core.Option.{Option, none, some}
use mathlib.Core.List.{List, [], ◌∷◌}
use native.Mathlib.Omega.{arith}
use lightnode.Common.Tests.{ltb, leb, if◌then◌else◌}
use lightnode.Common.Lists.{All}

abbrev digit : ℕ → ℕ
digit n = if ltb n 10 then n + 48 else n + 87

unfoldable pub hex_encode : List ℕ → List ℕ
hex_encode [] = []
hex_encode (b ∷ bytes) = digit (b / 16) ∷ (digit (b % 16) ∷ hex_encode bytes)

-- A digit, in either case.
abbrev digit_value : ℕ → Option ℕ
digit_value c =
    if leb 48 c && leb c 57
    then some (c - 48)
    else if leb 97 c && leb c 102
    then some (c - 87)
    else if leb 65 c && leb c 70
    then some (c - 55)
    else none

abbrev pair_value : Option ℕ → Option ℕ → Option (List ℕ) → Option (List ℕ)
pair_value (some high) (some low) (some bytes) = some ((high * 16 + low) ∷ bytes)
pair_value _ _ _ = none

-- none where a byte is no digit or the length is odd.
unfoldable pub hex_decode : List ℕ → Option (List ℕ)
hex_decode [] = some []
hex_decode (c ∷ []) = none
hex_decode (c ∷ (d ∷ text)) = pair_value (digit_value c) (digit_value d) (hex_decode text)

digit_value-digit : (n : ℕ) → n < 16 → digit_value (digit n) ≡ some n
digit_value-digit n h = ground arith

-- Bytes are decoded from their own digits.
pub hex_decode-hex_encode :
    (bytes : List ℕ) → All (λ b. b < 256) bytes → hex_decode (hex_encode bytes) ≡ some bytes
unfolding hex_encode hex_decode
hex_decode-hex_encode [] h = refl
hex_decode-hex_encode (b ∷ bytes) h =
    rw
      (
        digit_value-digit (b / 16) (omega (arith, h.0)),
        digit_value-digit (b % 16) (omega arith),
        hex_decode-hex_encode bytes h.1,
      )
      (ap (λ n. some (n ∷ bytes)) (omega arith))
