-- ===== src/Packet/Handshake/Validate.antt =====
-- `Validate`: what it accepts, and what its signature covers.
use carlo.Common.{
  ◌≤◌, ◌≡◌, refl, sym, subst, ◌∙◌, ◌↔◌, true, List, [], ◌∷◌, ◌++◌, append_assoc, append-nil, Option,
  none, some, arith, length, All, ok, Option-cases, inl, inr,
}
use carlo.Kademlia.{Kademlia}
use carlo.Reader.{Bytes}
use carlo.Packet.Utf8.{valid_string}
use carlo.Packet.Handshake.{
  HandshakePacket, append_names, append_payload_to, check_services, check_signature, check_id,
  validate,
}

-- The names one after the other, with nothing between them.
abbrev pub concat : List Bytes → Bytes
concat [] = []
concat (s ∷ ss) = s ++ concat ss

abbrev pub IsName : Bytes → Type 0
IsName s = (valid_string s ≡ true) × (length s ≤ 255)

pub append_names_lem : (dst : Bytes) (ss : List Bytes) → append_names dst ss ≡ dst ++ concat ss
unfolding append_names
append_names_lem dst [] = sym (append-nil dst)
append_names_lem dst (s ∷ ss) = append_names_lem (dst ++ s) ss ∙ append_assoc dst s (concat ss)

check_services-none_iff : (ss : List Bytes) → (check_services ss ≡ none) ↔ All IsName ss
unfolding check_services
check_services-none_iff [] = ((λ _. tt), (λ _. refl))
check_services-none_iff (s ∷ ss) = (
  (λ e. ground (arith, check_services-none_iff ss)),
  (λ h. ground (arith, check_services-none_iff ss)),
)

module _ (k : Kademlia) where
  -- What `Validate` asks of the id and of the signature, for service names of the bytes `names`.
  abbrev IsSignedFor : Option k.KadId → Bytes → Bytes → Bytes → Type 0
  IsSignedFor none signature names dst = Unit {0}
  IsSignedFor (some id) signature names dst =
      (k.validate_id id ≡ true)
      × (k.verify signature (k.pub_key id) (k.append_id id dst ++ names) ≡ true)

  abbrev pub IsSigned : HandshakePacket k → Bytes → Type 0
  IsSigned h dst = IsSignedFor h.kad_id h.signature (concat h.services) dst

  check_signature-ok_iff :
      (h : HandshakePacket k) (dst : Bytes)
      → ((check_id k h.kad_id ≡ none) × (check_signature k h dst ≡ ok tt)) ↔ IsSigned h dst
  unfolding check_signature append_payload_to check_id
  check_signature-ok_iff h dst = elim (Option-cases h.kad_id) [
    | inl e ↦ ((λ q. ground arith), (λ q. ground arith))
    | inr (id, e) ↦
        let names = append_names_lem (k.append_id id dst) h.services in
        ((λ q. ground (arith, names)), (λ q. ground (arith, names)))
  ]

  -- `Validate` accepts a packet exactly when its id is valid and its signature is one of that id for
  -- the id's bytes and the service names, if it has an id, and every name is UTF-8 text of at most
  -- 255 bytes.
  pub validate-ok_iff :
      (h : HandshakePacket k) (dst : Bytes)
      → (validate k h dst ≡ ok tt) ↔ (IsSigned h dst × All IsName h.services)
  unfolding validate
  validate-ok_iff h dst = (
    (λ e. ground (arith, check_signature-ok_iff h dst, check_services-none_iff h.services)),
    (λ q. ground (arith, check_signature-ok_iff h dst, check_services-none_iff h.services)),
  )

  -- A signature for one list of services is one for every list of valid names with the same bytes
  -- in a row, however they are cut into names.
  pub validate_regrouped :
      (h : HandshakePacket k) (ss : List Bytes) (dst : Bytes)
      → concat ss ≡ concat h.services
      → All IsName ss
      → validate k h dst ≡ ok tt
      → validate k (record h { services = ss }) dst ≡ ok tt
  validate_regrouped h ss dst same names accepted =
      (validate-ok_iff (record h { services = ss }) dst).1 (
        subst (λ b. IsSignedFor h.kad_id h.signature b dst) (sym same)
            ((validate-ok_iff h dst).0 accepted).0,
        names,
      )
