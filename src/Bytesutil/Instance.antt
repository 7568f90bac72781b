-- ===== src/Bytesutil/Instance.antt =====
-- Byte functions that do what github.com/lithdew/bytesutil documents: the laws can be met.
use carlo.Common.{ℕ, refl, List, ◌∷◌, ◌++◌}
use carlo.Common.Words.{be16, be32, of_be16, of_be32}
use carlo.Bytesutil.{BytesUtil, IsBigEndian}

abbrev read16 : List ℕ → ℕ
read16 (a ∷ b ∷ rest) = of_be16 a b
read16 _ = 0

abbrev read32 : List ℕ → ℕ
read32 (a ∷ b ∷ c ∷ d ∷ rest) = of_be32 a b c d
read32 _ = 0

abbrev pub big_endian : BytesUtil
big_endian = record {
  append_uint16_be = λ dst v. dst ++ be16 v;
  append_uint32_be = λ dst v. dst ++ be32 v;
  uint16_be = read16;
  uint32_be = read32;
}

pub big_endian-IsBigEndian : IsBigEndian big_endian
big_endian-IsBigEndian = record {
  append16 = λ dst v. refl;
  append32 = λ dst v. refl;
  read16 = λ a b rest. refl;
  read32 = λ a b c d rest. refl;
}
