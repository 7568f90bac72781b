-- ===== src/Transmit/Session/Instance.antt =====
-- A small suite that meets the laws of an AEAD.
use carlo.Common.{
  ◌≡◌, refl, ◌++◌, some, none, length, take, drop, length-append, take-append_length,
  drop-append_length, bytes_eq, bytes_eq_iff, if◌then◌else◌, arith,
}
use carlo.Reader.{Bytes}
use carlo.Transmit.Session.{Aead, IsAead}

-- A suite that puts the nonce in front of the plaintext and looks for it there.
abbrev pub plain_suite : Aead
plain_suite = record {
  nonce_size = 12;
  overhead = 12;
  seal = λ nonce m. nonce ++ m;
  open_sealed = λ nonce s. if bytes_eq (take 12 s) nonce then some (drop 12 s) else none;
}

pub take-front : (xs ys : Bytes) → length xs ≡ 12 → take 12 (xs ++ ys) ≡ xs
take-front xs ys e = rw (← e) (take-append_length xs ys)

drop-front : (xs ys : Bytes) → length xs ≡ 12 → drop 12 (xs ++ ys) ≡ ys
drop-front xs ys e = rw (← e) (drop-append_length xs ys)

pub plain_suite-IsAead : IsAead plain_suite
plain_suite-IsAead = record {
  nonce_size_lem = omega arith;
  open-seal = λ nonce m size.
      rw (take-front nonce m size, drop-front nonce m size, (bytes_eq_iff nonce nonce).1 refl);
  length-seal = λ nonce m size. omega (arith, length-append nonce m);
}
