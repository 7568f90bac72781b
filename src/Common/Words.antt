-- ===== src/Common/Words.antt =====
-- Fixed-width unsigned integers and their big-endian bytes, as encoding/binary writes them.
use Prim.Native.Nat.{ℕ, ◌+◌, ◌*◌, ◌/◌, ◌%◌, ◌^◌, ◌<◌}
use mathlib.Core.Path.{◌≡◌, sym, ap, ◌∙◌}
use mathlib.Core.List.{List, [], ◌∷◌}
use native.Mathlib.Omega.{arith}

abbrev pub IsU8 : ℕ → Type 0
IsU8 v = v < 2 ^ 8

abbrev pub IsU16 : ℕ → Type 0
IsU16 v = v < 2 ^ 16

abbrev pub IsU32 : ℕ → Type 0
IsU32 v = v < 2 ^ 32

-- The bytes of a uint16 and of a uint32, highest first.
abbrev pub be16 : ℕ → List ℕ
be16 v = (v / 2 ^ 8 % 2 ^ 8) ∷ (v % 2 ^ 8) ∷ []

abbrev pub be32 : ℕ → List ℕ
be32 v = (v / 2 ^ 24 % 2 ^ 8) ∷ (v / 2 ^ 16 % 2 ^ 8) ∷ (v / 2 ^ 8 % 2 ^ 8) ∷ (v % 2 ^ 8) ∷ []

abbrev pub IsU64 : ℕ → Type 0
IsU64 v = v < 2 ^ 64

abbrev pub be64 : ℕ → List ℕ
be64 v =
    (v / 2 ^ 56 % 2 ^ 8)
    ∷ (v / 2 ^ 48 % 2 ^ 8)
    ∷ (v / 2 ^ 40 % 2 ^ 8)
    ∷ (v / 2 ^ 32 % 2 ^ 8)
    ∷ (v / 2 ^ 24 % 2 ^ 8)
    ∷ (v / 2 ^ 16 % 2 ^ 8)
    ∷ (v / 2 ^ 8 % 2 ^ 8)
    ∷ (v % 2 ^ 8)
    ∷ []

abbrev pub of_be16 : ℕ → ℕ → ℕ
of_be16 a b = a * 2 ^ 8 + b

abbrev pub of_be32 : ℕ → ℕ → ℕ → ℕ → ℕ
of_be32 a b c d = a * 2 ^ 24 + b * 2 ^ 16 + c * 2 ^ 8 + d

pub of_be16-be16 : (v : ℕ) → IsU16 v → of_be16 (v / 2 ^ 8 % 2 ^ 8) (v % 2 ^ 8) ≡ v
of_be16-be16 v h = omega arith

pub of_be32-be32 :
    (v : ℕ)
    → IsU32 v
    → of_be32 (v / 2 ^ 24 % 2 ^ 8) (v / 2 ^ 16 % 2 ^ 8) (v / 2 ^ 8 % 2 ^ 8) (v % 2 ^ 8) ≡ v
of_be32-be32 v h = omega arith

-- The number with the given bytes, highest first.
abbrev of_bytes : ℕ → List ℕ → ℕ
of_bytes n [] = n
of_bytes n (b ∷ bs) = of_bytes (n * 2 ^ 8 + b) bs

of_bytes-be64 : (v : ℕ) → IsU64 v → of_bytes 0 (be64 v) ≡ v
of_bytes-be64 v h = omega arith

-- The bytes of a uint64 determine it.
pub be64-injective : (v w : ℕ) → IsU64 v → IsU64 w → be64 v ≡ be64 w → v ≡ w
be64-injective v w hv hw e = sym (of_bytes-be64 v hv) ∙ ap (of_bytes 0) e ∙ of_bytes-be64 w hw
