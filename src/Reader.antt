-- ===== src/Reader.antt =====
-- The idiom of the Unmarshal functions: `buf` is cut from the front, after a check of its length.
-- A reader takes `buf` and returns what it read with the `buf` that is left.
use carlo.Common.{
  ℕ, ◌≤◌, ◌≡◌, refl, ◌⊎◌, inl, inr, List, [], ◌∷◌, ◌++◌, arith, ltb, if◌then◌else◌, length, take,
  drop, length-append, take-append_le, drop-append_le, take-append_length, drop-append_length,
  Outcome, ok, err, panic, unexpected_eof, Bool-cases, ◌≢◌, le→ltb,
}

abbrev pub Bytes : Type 0
Bytes = List ℕ

abbrev pub Reader {ℓ} : Type ℓ → Type ℓ
Reader A = Bytes → Outcome (A × Bytes)

abbrev pub pure {ℓ} : {A : Type ℓ} → A → Reader A
pure a buf = ok (a, buf)

module _ {ℓ κ} {A : Type ℓ} {B : Type κ} where
  abbrev pub then_read : Outcome (A × Bytes) → (A → Reader B) → Outcome (B × Bytes)
  then_read (ok (a, rest)) f = f a rest
  then_read (err e) f = err e
  then_read panic f = panic

  infixl 5 ◌>>=◌ ◌>>◌
  abbrev pub ◌>>=◌ : Reader A → (A → Reader B) → Reader B
  ◌>>=◌ m f buf = then_read (m buf) f

  abbrev pub ◌>>◌ : Reader A → Reader B → Reader B
  m >> k = m >>= λ _. k

-- `if len(buf) < n { return packet, io.ErrUnexpectedEOF }`
unfoldable pub need : ℕ → Reader (Unit {0})
need n buf = if ltb (length buf) n then err unexpected_eof else ok (tt, buf)

-- `b, buf = buf[0], buf[1:]`
unfoldable pub next_byte : Reader ℕ
next_byte [] = panic
next_byte (b ∷ buf) = ok (b, buf)

-- `s, buf = buf[:n], buf[n:]`
unfoldable pub slice : ℕ → Reader Bytes
slice n buf = if ltb (length buf) n then panic else ok (take n buf, drop n buf)

-- A value read back from its bytes, whatever follows them.
abbrev pub Reads {ℓ} : {A : Type ℓ} → Reader A → Bytes → A → Type ℓ
Reads r printed a = (rest : Bytes) → r (printed ++ rest) ≡ ok (a, rest)

-- A reader that only cuts from the front: what it read does not depend on what follows, and
-- where it reads nothing it answers with unexpected EOF.
pub record IsSafe {ℓ} {A : Type ℓ} (r : Reader A) : Type ℓ where
  pub stable :
      (src more : Bytes) (a : A) (rest : Bytes)
      → r src ≡ ok (a, rest)
      → r (src ++ more) ≡ ok (a, rest ++ more)
  pub answers :
      (src : Bytes)
      → (r src ≡ err unexpected_eof) ⊎ ((a : A) × (rest : Bytes) × (r src ≡ ok (a, rest)))

pub need_lem : (n : ℕ) (buf : Bytes) → n ≤ length buf → need n buf ≡ ok (tt, buf)
unfolding need
need_lem n buf h = rw (le→ltb (length buf) n h)

pub slice_lem : (n : ℕ) (buf : Bytes) → n ≤ length buf → slice n buf ≡ ok (take n buf, drop n buf)
unfolding slice
slice_lem n buf h = rw (le→ltb (length buf) n h)

-- A cut at the length of what stands in front, unchecked and checked.
pub slice_front : (xs rest : Bytes) → slice (length xs) (xs ++ rest) ≡ ok (xs, rest)
slice_front xs rest =
    let fits : length xs ≤ length (xs ++ rest) = omega (arith, length-append xs rest) in
    rw (slice_lem (length xs) (xs ++ rest) fits)
      (rw (take-append_length xs rest, drop-append_length xs rest))

pub slice-append : (xs : Bytes) → Reads (need (length xs) >> slice (length xs)) xs xs
slice-append xs rest =
    let fits : length xs ≤ length (xs ++ rest) = omega (arith, length-append xs rest) in
    rw (need_lem (length xs) (xs ++ rest) fits) (slice_front xs rest)

pub need-next_byte : (b : ℕ) (rest : Bytes) → (need 1 >> next_byte) (b ∷ rest) ≡ ok (b, rest)
unfolding need next_byte
need-next_byte b rest = ground arith

module _ {ℓ} {A : Type ℓ} where
  pub pure-IsSafe : (a : A) → IsSafe (pure a)
  pure-IsSafe a = record {
    stable = λ src more b rest e. ground arith;
    answers = λ src. inr (a, src, refl);
  }

-- A checked cut is safe.
pub slice-IsSafe : (n : ℕ) → IsSafe (need n >> slice n)
unfolding need slice
slice-IsSafe n = record {
  stable = λ src more a rest e.
      ground (arith, length-append src more, take-append_le n src more, drop-append_le n src more);
  answers = λ src. elim (Bool-cases (ltb (length src) n)) [
    | inl short ↦ inl (rw short)
    | inr fits ↦ inr (take n src, drop n src, rw (fits, fits))
  ];
}

pub next_byte-IsSafe : IsSafe (need 1 >> next_byte)
unfolding need next_byte
next_byte-IsSafe = record { stable = stable; answers = answers }
  where
    stable :
        (src more : Bytes) (b : ℕ) (rest : Bytes)
        → (need 1 >> next_byte) src ≡ ok (b, rest)
        → (need 1 >> next_byte) (src ++ more) ≡ ok (b, rest ++ more)
    stable [] more b rest e = cc
    stable (x ∷ src) more b rest e = ground arith

    answers :
        (src : Bytes)
        → ((need 1 >> next_byte) src ≡ err unexpected_eof)
          ⊎ ((b : ℕ) × (rest : Bytes) × ((need 1 >> next_byte) src ≡ ok (b, rest)))
    answers [] = inl refl
    answers (x ∷ src) = inr (x, src, ground arith)

module _ {ℓ κ} {A : Type ℓ} {B : Type κ} where
  pub then_read-eq-ok :
      (m : Outcome (A × Bytes)) (f : A → Reader B) {b : B} {rest : Bytes}
      → then_read m f ≡ ok (b, rest)
      → (a : A) × (mid : Bytes) × (m ≡ ok (a, mid)) × (f a mid ≡ ok (b, rest))
  then_read-eq-ok (ok (a, mid)) f e = (a, mid, refl, e)
  then_read-eq-ok (err x) f e = cc
  then_read-eq-ok panic f e = cc

  pub bind-IsSafe :
      (m : Reader A) (f : A → Reader B) → IsSafe m → ((a : A) → IsSafe (f a)) → IsSafe (m >>= f)
  bind-IsSafe m f safe_m safe_f = record {
    stable = λ src more b rest e.
        let (a, mid, p, q) = then_read-eq-ok (m src) f e in
        rw (safe_m.stable src more a mid p) ((safe_f a).stable mid more b rest q);
    answers = λ src. elim (safe_m.answers src) [
      | inl p ↦ inl (rw p)
      | inr (a, mid, p) ↦ elim ((safe_f a).answers mid) [
        | inl q ↦ inl (rw p q)
        | inr (b, rest, q) ↦ inr (b, rest, rw p q)
      ]
    ];
  }

module _ {ℓ} {A : Type ℓ} where
  -- `return packet, nil`: what is left of the buffer is dropped.
  abbrev pub packet_of : Outcome (A × Bytes) → Outcome A
  packet_of (ok (a, rest)) = ok a
  packet_of (err e) = err e
  packet_of panic = panic

  pub IsSafe-ne-panic : (r : Reader A) → IsSafe r → (src : Bytes) → packet_of (r src) ≢ panic
  IsSafe-ne-panic r safe src = elim (safe.answers src) [
    | inl e ↦ rw e (λ p. cc)
    | inr (a, rest, e) ↦ rw e (λ p. cc)
  ]

  -- A safe reader that reads all of an input answers with unexpected EOF on each proper prefix.
  pub IsSafe-truncated :
      (r : Reader A)
      → IsSafe r
      → (front : Bytes) (x : ℕ) (back : Bytes) (a : A) → r (front ++ x ∷ back) ≡ ok (a, [])
      → r front ≡ err unexpected_eof
  IsSafe-truncated r safe front x back a whole = elim (safe.answers front) [
    | inl e ↦ e
    | inr (b, rest, e) ↦
        ground (arith, safe.stable front (x ∷ back) b rest e, whole, length-append rest (x ∷ back))
  ]

-- A reader that fails with an error at worst.
abbrev pub IsPanicFree {ℓ} : {A : Type ℓ} → Reader A → Type ℓ
IsPanicFree r = (src : Bytes) → r src ≢ panic

pub need-IsPanicFree : (n : ℕ) → IsPanicFree (need n)
unfolding need
need-IsPanicFree n src = ground arith

module _ {ℓ} {A : Type ℓ} where
  pub pure-IsPanicFree : (a : A) → IsPanicFree (pure a)
  pure-IsPanicFree a src = λ e. cc

  pub IsSafe-IsPanicFree : (r : Reader A) → IsSafe r → IsPanicFree r
  IsSafe-IsPanicFree r safe src = elim (safe.answers src) [
    | inl e ↦ rw e (λ p. cc)
    | inr (a, rest, e) ↦ rw e (λ p. cc)
  ]

  pub packet_of-ne-panic : (o : Outcome (A × Bytes)) → o ≢ panic → packet_of o ≢ panic
  packet_of-ne-panic (ok (a, rest)) h = λ e. cc
  packet_of-ne-panic (err x) h = λ e. cc
  packet_of-ne-panic panic h = λ e. h refl

module _ {ℓ κ} {A : Type ℓ} {B : Type κ} where
  then_read-ne-panic :
      (o : Outcome (A × Bytes)) (f : A → Reader B)
      → o ≢ panic
      → ((a : A) → IsPanicFree (f a))
      → then_read o f ≢ panic
  then_read-ne-panic (ok (a, rest)) f h g = g a rest
  then_read-ne-panic (err e) f h g = λ p. cc
  then_read-ne-panic panic f h g = λ p. h refl

  pub bind-IsPanicFree :
      (m : Reader A) (f : A → Reader B)
      → IsPanicFree m
      → ((a : A) → IsPanicFree (f a))
      → IsPanicFree (m >>= f)
  bind-IsPanicFree m f h g src = then_read-ne-panic (m src) f (h src) g
