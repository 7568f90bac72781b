-- ===== src/Packet/Headers.antt =====
-- The header map that a service request and a service response carry. The order of the entries is
-- the order in which `range p.Headers` visits them.
use carlo.Common.{
  ℕ, zero, suc, ◌%◌, ◌^◌, ◌<◌, ◌≡◌, refl, ◌∙◌, List, [], ◌∷◌, ◌++◌, append-nil, append_assoc,
  Option, none, some, arith, length, All, insert, insert_all, IsDistinct, insert_all_lem, bytes_key,
  ok,
}
use carlo.Common.Words.{be16}
use carlo.Bytesutil.{BytesUtil, IsBigEndian, uint16_be-be16}
use carlo.Packet.Services.{small_length}
use carlo.Reader.{
  Bytes, Reader, Reads, pure, ◌>>=◌, ◌>>◌, need, next_byte, slice, slice-append, IsSafe,
  pure-IsSafe, slice-IsSafe, next_byte-IsSafe, bind-IsSafe, need-next_byte,
}

abbrev pub Headers : Type 0
Headers = List (Bytes × Bytes)

-- What the wire holds for the entries, and for the map with its count; a nil map counts 0.
abbrev pub entries_bytes : Headers → Bytes
entries_bytes [] = []
entries_bytes ((name, value) ∷ es) =
    (length name % 2 ^ 8) ∷ (name ++ (be16 (length value % 2 ^ 16) ++ (value ++ entries_bytes es)))

abbrev pub headers_bytes : Option Headers → Bytes
headers_bytes none = be16 0
headers_bytes (some es) = be16 (length es % 2 ^ 16) ++ entries_bytes es

-- The lengths that the wire can hold, and keys as in a map.
abbrev pub FitsEntry : Bytes × Bytes → Type 0
FitsEntry e = (length e.0 < 2 ^ 8) × (length e.1 < 2 ^ 16)

pub record FitsHeaders (es : Headers) : Type 0 where
  pub count : length es < 2 ^ 16
  pub fits : All FitsEntry es
  pub distinct : IsDistinct es

-- The entries of a map, none for a nil map.
abbrev pub entries : Option Headers → Headers
entries none = []
entries (some es) = es

abbrev pub FitsMap : Option Headers → Type 0
FitsMap none = Unit {0}
FitsMap (some es) = FitsHeaders es

module _ (u : BytesUtil) where
  unfoldable pub append_entries : Bytes → Headers → Bytes
  append_entries dst [] = dst
  append_entries dst ((name, value) ∷ es) =
      append_entries
        (u.append_uint16_be ((dst ++ (length name % 2 ^ 8) ∷ []) ++ name) (length value % 2 ^ 16)
          ++ value)
        es

  -- `if p.Headers != nil { ... } else { ... }`
  unfoldable pub append_headers : Bytes → Option Headers → Bytes
  append_headers dst (some es) = append_entries (u.append_uint16_be dst (length es % 2 ^ 16)) es
  append_headers dst none = u.append_uint16_be dst 0

  -- One round of the loop: a name with its one-byte length, a value with its two-byte length.
  unfoldable pub read_entry : Reader (Bytes × Bytes)
  read_entry = do
    name_size ← do need 1; next_byte
    name ← do need name_size; slice name_size
    value_size_bytes ← do need 2; slice 2
    let value_size = u.uint16_be value_size_bytes
    value ← do need value_size; slice value_size
    pure (name, value)

  unfoldable pub read_entries : ℕ → Headers → Reader Headers
  read_entries zero m = pure m
  read_entries (suc n) m = do entry ← read_entry; read_entries n (insert entry.0 entry.1 m)

  unfoldable pub read_headers : Reader Headers
  read_headers = do
    size_bytes ← do need 2; slice 2
    let size = u.uint16_be size_bytes
    read_entries size []

  pub read_entry-IsSafe : IsSafe read_entry
  unfolding read_entry
  read_entry-IsSafe = bind-IsSafe _ _ next_byte-IsSafe λ name_size.
      bind-IsSafe _ _ (slice-IsSafe name_size) λ name.
        bind-IsSafe _ _ (slice-IsSafe 2)
          λ b. bind-IsSafe _ _ (slice-IsSafe (u.uint16_be b)) λ value. pure-IsSafe (name, value)

  read_entries-IsSafe : (n : ℕ) (m : Headers) → IsSafe (read_entries n m)
  unfolding read_entries
  read_entries-IsSafe zero m = pure-IsSafe m
  read_entries-IsSafe (suc n) m =
      bind-IsSafe _ _ read_entry-IsSafe λ e. read_entries-IsSafe n (insert e.0 e.1 m)

  pub read_headers-IsSafe : IsSafe read_headers
  unfolding read_headers
  read_headers-IsSafe = bind-IsSafe _ _ (slice-IsSafe 2) λ b. read_entries-IsSafe (u.uint16_be b) []

module _ (u : BytesUtil) (big : IsBigEndian u) where
  append_entries_lem :
      (dst : Bytes) (es : Headers) → append_entries u dst es ≡ dst ++ entries_bytes es
  unfolding append_entries
  append_entries_lem dst [] = rw append-nil
  append_entries_lem dst ((name, value) ∷ es) =
      append_entries_lem
        (u.append_uint16_be ((dst ++ (length name % 2 ^ 8) ∷ []) ++ name) (length value % 2 ^ 16)
          ++ value)
        es
      ∙ rw (big.append16 ((dst ++ (length name % 2 ^ 8) ∷ []) ++ name) (length value % 2 ^ 16))
          (simp append_assoc)

  pub append_headers_lem :
      (dst : Bytes) (h : Option Headers) → append_headers u dst h ≡ dst ++ headers_bytes h
  unfolding append_headers
  append_headers_lem dst none = big.append16 dst 0
  append_headers_lem dst (some es) =
      append_entries_lem (u.append_uint16_be dst (length es % 2 ^ 16)) es
      ∙ rw (big.append16 dst (length es % 2 ^ 16)) (simp append_assoc)

  -- The count or length in front of a field, read back.
  small_size : (v : ℕ) → v < 2 ^ 16 → u.uint16_be (be16 (v % 2 ^ 16)) ≡ v
  small_size v h = let e : v % 2 ^ 16 ≡ v = omega arith in rw e (uint16_be-be16 u big v h)

  read_entry_lem :
      (name value rest : Bytes)
      → FitsEntry (name, value)
      → read_entry u
          ((length name % 2 ^ 8) ∷ (name ++ (be16 (length value % 2 ^ 16) ++ (value ++ rest))))
        ≡ ok ((name, value), rest)
  unfolding read_entry
  read_entry_lem name value rest h = rw (
    need-next_byte (length name % 2 ^ 8)
        (name ++ (be16 (length value % 2 ^ 16) ++ (value ++ rest))),
    small_length name h.0,
    slice-append name (be16 (length value % 2 ^ 16) ++ (value ++ rest)),
    slice-append (be16 (length value % 2 ^ 16)) (value ++ rest),
    small_size (length value) h.1,
    slice-append value rest,
  )

  read_entries-Reads :
      (m es : Headers)
      → All FitsEntry es
      → Reads (read_entries u (length es) m) (entries_bytes es) (insert_all m es)
  unfolding read_entries
  read_entries-Reads m [] h rest = refl
  read_entries-Reads m ((name, value) ∷ es) h rest = simp append_assoc (
      rw (read_entry_lem name value (entries_bytes es ++ rest) h.0)
        (read_entries-Reads (insert name value m) es h.1 rest))

  pub read_headers-Reads :
      (h : Option Headers) → FitsMap h → Reads (read_headers u) (headers_bytes h) (entries h)
  unfolding read_headers read_entries
  read_headers-Reads none fits rest =
      rw (slice-append (be16 0) rest, uint16_be-be16 u big 0 (omega arith))
  read_headers-Reads (some es) fits rest = simp append_assoc (
      rw (
        slice-append (be16 (length es % 2 ^ 16)) (entries_bytes es ++ rest),
        small_size (length es) fits.count,
        read_entries-Reads [] es fits.fits rest,
        insert_all_lem es fits.distinct,
      ))
