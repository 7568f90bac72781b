-- ===== src/Bytesutil.antt =====
-- What the packets use of github.com/lithdew/bytesutil, which is not in this repository: the
-- functions are a parameter, and their documented behaviour is a record of laws.
pub mod Instance
use carlo.Common.{ℕ, ◌≡◌, ◌∙◌, List, [], ◌∷◌, ◌++◌}
use carlo.Common.Words.{be16, be32, of_be16, of_be32, IsU16, IsU32, of_be16-be16, of_be32-be32}

pub record BytesUtil : Type 0 where
  pub append_uint16_be : List ℕ → ℕ → List ℕ
  pub append_uint32_be : List ℕ → ℕ → List ℕ
  pub uint16_be : List ℕ → ℕ
  pub uint32_be : List ℕ → ℕ

-- The appending functions add the value's bytes, highest first; the reading ones look at the first
-- two or four bytes of their argument.
pub record IsBigEndian (u : BytesUtil) : Type 0 where
  pub append16 : (dst : List ℕ) (v : ℕ) → u.append_uint16_be dst v ≡ dst ++ be16 v
  pub append32 : (dst : List ℕ) (v : ℕ) → u.append_uint32_be dst v ≡ dst ++ be32 v
  pub read16 : (a b : ℕ) (rest : List ℕ) → u.uint16_be (a ∷ b ∷ rest) ≡ of_be16 a b
  pub read32 : (a b c d : ℕ) (rest : List ℕ) → u.uint32_be (a ∷ b ∷ c ∷ d ∷ rest) ≡ of_be32 a b c d

-- Reading back what was written.
module _ (u : BytesUtil) (big : IsBigEndian u) where
  pub uint16_be-be16 : (v : ℕ) → IsU16 v → u.uint16_be (be16 v) ≡ v
  uint16_be-be16 v h = big.read16 _ _ [] ∙ of_be16-be16 v h

  pub uint32_be-be32 : (v : ℕ) → IsU32 v → u.uint32_be (be32 v) ≡ v
  uint32_be-be32 v h = big.read32 _ _ _ _ [] ∙ of_be32-be32 v h
