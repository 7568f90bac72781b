-- ===== src/Transmit/Session/Frames.antt =====
-- A frame on the wire: what `WriteSized` writes, `ReadSized` reads.
use carlo.Common.{
  ℕ, zero, suc, ◌+◌, ◌-◌, ◌≡◌, refl, List, [], ◌∷◌, ◌++◌, append-nil, none, too_large, ok, err,
  length, length-append, take-append_length, drop-append_length, ltb, le→ltb, if◌then◌else◌, arith,
  Bool-cases, inl, inr, some, replicate, take_whole, false, ap, ◌∙◌, ◌≤◌,
}
use carlo.Common.Words.{IsU32, be32, be64}
use carlo.Bytesutil.{BytesUtil, IsBigEndian, uint32_be-be32}
use carlo.Reader.{Bytes}
use carlo.Transmit.Session.{Aead, IsAead, nonce}
use carlo.Transmit.Sized.{read_full, check_size, read_sized, write_sized, size_word}

-- The buffers one after the other.
abbrev pub wire : List Bytes → Bytes
wire [] = []
wire (b ∷ bs) = b ++ wire bs

pub read_full-append :
    (xs rest : Bytes) (n : ℕ) → n ≡ length xs → read_full n (xs ++ rest) ≡ ok (xs, rest)
unfolding read_full
read_full-append xs rest n e =
    rw (e, le→ltb (length (xs ++ rest)) (length xs) (omega (arith, length-append xs rest)))
      (rw (take-append_length xs rest, drop-append_length xs rest))

size_word_lem : (n : ℕ) → IsU32 n → size_word n ≡ n
size_word_lem n h = omega arith

module _ (u : BytesUtil) (big : IsBigEndian u) where
  read_sized-size :
      (max : ℕ) (n : ℕ) (src : Bytes)
      → IsU32 n
      → read_sized u max (be32 n ++ src) ≡ (if ltb max n then err too_large else read_full n src)
  unfolding read_sized check_size
  read_sized-size max n src h =
      rw (read_full-append (be32 n) src 4 refl, uint32_be-be32 u big n h)
        (elim (Bool-cases (ltb max n)) [
          | inl over ↦ rw (over, check_size)
          | inr fits ↦ rw (fits, check_size)
        ])

  -- A message that fits, behind its length, is read back whole with the bytes behind it left; one that is
  -- longer than `max` is refused.
  pub read_sized-write_sized :
      (max : ℕ) (buf rest : Bytes)
      → IsU32 (length buf)
      → read_sized u max (wire (write_sized none none buf).0 ++ rest)
        ≡ (if ltb max (length buf) then err too_large else ok (buf, rest))
  unfolding write_sized
  read_sized-write_sized max buf rest h = rw (
    size_word_lem (length buf) h,
    append-nil buf,
    read_sized-size max (length buf) (buf ++ rest) h,
    read_full-append buf rest (length buf) refl,
  )

length-replicate : (n : ℕ) → length {A = ℕ} (replicate n 0) ≡ n
length-replicate zero = omega arith
length-replicate (suc n) = omega (arith, length-replicate n)

-- A nonce of at least eight bytes has all of its number's.
pub nonce-whole :
    (a : Aead) (n : ℕ) → 8 ≤ a.nonce_size → nonce a n ≡ be64 n ++ replicate (a.nonce_size - 8) 0
unfolding nonce
nonce-whole a n h =
    take_whole a.nonce_size (be64 n ++ replicate (a.nonce_size - 8) 0)
      (omega (arith, length-replicate (a.nonce_size - 8), h))

-- What is sealed with a nonce of a connection.
module _ (a : Aead) (law : IsAead a) (n : ℕ) (m : Bytes) where
  pub length-nonce : length (nonce a n) ≡ a.nonce_size
  length-nonce =
      ap length (nonce-whole a n law.nonce_size_lem)
      ∙ omega (arith, length-replicate (a.nonce_size - 8), law.nonce_size_lem)

  pub is_long : ltb a.nonce_size 8 ≡ false
  is_long = le→ltb a.nonce_size 8 law.nonce_size_lem

  pub open-nonce : a.open_sealed (nonce a n) (a.seal (nonce a n) m) ≡ some m
  open-nonce = law.open-seal (nonce a n) m length-nonce

  pub length-sealed : length (a.seal (nonce a n) m) ≡ length m + a.overhead
  length-sealed = law.length-seal (nonce a n) m length-nonce
