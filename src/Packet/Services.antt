-- ===== src/Packet/Services.antt =====
-- The list of services that three packets carry. A Go string is the list of its bytes.
use carlo.Common.{
  ℕ, zero, suc, ◌%◌, ◌^◌, ◌<◌, ◌≡◌, refl, List, [], ◌∷◌, ◌++◌, append-nil, append_assoc, arith,
  length, All,
}
use carlo.Reader.{
  Bytes, Reader, Reads, pure, ◌>>=◌, ◌>>◌, need, next_byte, slice, slice-append, IsSafe,
  pure-IsSafe, slice-IsSafe, next_byte-IsSafe, bind-IsSafe, need-next_byte,
}

-- `for _, service := range services { append(dst, uint8(len(service))); append(dst, service...) }`
unfoldable pub append_services : Bytes → List Bytes → Bytes
append_services dst [] = dst
append_services dst (s ∷ ss) = append_services ((dst ++ (length s % 2 ^ 8) ∷ []) ++ s) ss

-- The loop over `packet.Services`, `n` entries from its end.
unfoldable pub read_services : ℕ → Reader (List Bytes)
read_services zero = pure []
read_services (suc n) = do
  size ← do need 1; next_byte
  service ← do need size; slice size
  rest ← read_services n
  pure (service ∷ rest)

-- What the wire holds for a list of services.
abbrev pub services_bytes : List Bytes → Bytes
services_bytes [] = []
services_bytes (s ∷ ss) = (length s % 2 ^ 8) ∷ (s ++ services_bytes ss)

pub append_services_lem :
    (dst : Bytes) (ss : List Bytes) → append_services dst ss ≡ dst ++ services_bytes ss
unfolding append_services
append_services_lem dst [] = rw append-nil
append_services_lem dst (s ∷ ss) =
    rw (append_services_lem ((dst ++ (length s % 2 ^ 8) ∷ []) ++ s) ss) (simp append_assoc)

pub small_length : (s : Bytes) → length s < 2 ^ 8 → length s % 2 ^ 8 ≡ length s
small_length s h = omega arith

pub read_services-Reads :
    (ss : List Bytes)
    → All (λ s. length s < 2 ^ 8) ss
    → Reads (read_services (length ss)) (services_bytes ss) ss
unfolding read_services
read_services-Reads [] h rest = refl
read_services-Reads (s ∷ ss) h rest = rw (
  need-next_byte (length s % 2 ^ 8) ((s ++ services_bytes ss) ++ rest),
  small_length s h.0,
  append_assoc s (services_bytes ss) rest,
  slice-append s (services_bytes ss ++ rest),
  read_services-Reads ss h.1 rest,
)

pub read_services-IsSafe : (n : ℕ) → IsSafe (read_services n)
unfolding read_services
read_services-IsSafe zero = pure-IsSafe []
read_services-IsSafe (suc n) = bind-IsSafe _ _ next_byte-IsSafe λ size.
    bind-IsSafe _ _ (slice-IsSafe size)
      λ service. bind-IsSafe _ _ (read_services-IsSafe n) λ rest. pure-IsSafe (service ∷ rest)
