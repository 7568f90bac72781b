-- ===== src/Rpc/Selection/Attempts.antt =====
-- `Push` of a node finds an available provider, in whatever order it tries them.
use mathlib.Core.List.{Permᴰ}
use mathlib.Core.List.Permᴰ.{nil, cons, swap, trans}
use carlo.Common.{
  ℕ, ◌+◌, ◌≡◌, ◌≢◌, refl, sym, ap, ◌∙◌, subst, true, List, [], ◌∷◌, map, Option, none, some,
  Outcome, ok, lookup, nat_key, arith, All, ◌⊎◌, inl, inr, ◌==◌, Bool-cases, ==_iff,
}
use carlo.Reader.{Bytes}
use carlo.Rpc.Provider.{Stream, Provider}
use carlo.Rpc.Providers.{Providers, get_providers, service_conns}
use carlo.Rpc.Providers.Index.{IsConsistent}
use carlo.Rpc.Providers.Lookup.{offers_any, occurs, get_providers-offers_any}
use carlo.Rpc.Selection.{Pushed, pushed, not_available, push_any}

module _ {A : Type 0} (P : A → Type 0) where
  abbrev Any : List A → Type 0
  Any [] = ⊥
  Any (x ∷ xs) = P x ⊎ Any xs

  All-perm : {l r : List A} → Permᴰ l r → All P l → All P r
  All-perm nil h = h
  All-perm (cons e d) h = (subst P e h.0, All-perm d h.1)
  All-perm (swap e f) h = (subst P f h.1.0, (subst P e h.0, h.1.1))
  All-perm (trans d e) h = All-perm e (All-perm d h)

  Any-perm : {l r : List A} → Permᴰ l r → Any l → Any r
  Any-perm nil h = h
  Any-perm (cons e d) (inl p) = inl (subst P e p)
  Any-perm (cons e d) (inr h) = inr (Any-perm d h)
  Any-perm (swap e f) (inl p) = inr (inl (subst P e p))
  Any-perm (swap e f) (inr (inl p)) = inl (subst P f p)
  Any-perm (swap e f) (inr (inr h)) = inr (inr h)
  Any-perm (trans d e) h = Any-perm e (Any-perm d h)

module _ {KadId : Type 0} (result : ℕ → Provider KadId → Pushed) (services : List Bytes) where
  -- A provider of one of the services, as the attempts at it see it.
  abbrev Offering : Option (Provider KadId) → Type 0
  Offering r = (p : Provider KadId) × (r ≡ some p) × (offers_any services r ≡ true)

  -- At each attempt the provider opens a stream or is not available.
  abbrev pub IsSound : Type 0
  IsSound =
      (i : ℕ) (p : Provider KadId)
      → offers_any services (some p) ≡ true
      → (result i p ≡ not_available) ⊎ ((s : Stream) × (result i p ≡ pushed s))

  abbrev pub IsUp : Provider KadId → Type 0
  IsUp p = (i : ℕ) → result i p ≢ not_available

  abbrev Up : Option (Provider KadId) → Type 0
  Up r = (p : Provider KadId) × (r ≡ some p) × IsUp p

  -- The stream that one of the providers of the services opened.
  pub record Opened (o : Outcome Stream) : Type 0 where
    pub attempt : ℕ
    pub provider : Provider KadId
    pub offers : offers_any services (some provider) ≡ true
    pub stream : Stream
    pub opens : result attempt provider ≡ pushed stream
    pub returns : o ≡ ok stream

  push_any-Opened :
      IsSound
      → (i : ℕ) (order : List (Option (Provider KadId))) → All Offering order
      → Any Up order
      → Opened (push_any result i order)
  unfolding push_any
  push_any-Opened sound i [] all any = elim any [ ]
  push_any-Opened sound i (none ∷ order) all any = cc (all.0.1)
  push_any-Opened sound i (some p ∷ order) all any = elim (sound i p all.0.2) [
    | inr (s, e) ↦ record {
      attempt = i;
      provider = p;
      offers = all.0.2;
      stream = s;
      opens = e;
      returns = rw e refl;
    }
    | inl e ↦ elim any [
      | inl (q, same, up) ↦ absurd (up i (ap (result i) (sym (some_eq p q same)) ∙ e))
      | inr later ↦
          let w = push_any-Opened sound (i + 1) order all.1 later in
          record {
            attempt = w.attempt;
            provider = w.provider;
            offers = w.offers;
            stream = w.stream;
            opens = w.opens;
            returns = rw e w.returns;
          }
    ]
  ]
    where
      some_eq : (p q : Provider KadId) → some p ≡ some q → p ≡ q
      some_eq p q same = cc same

  Any-occurs :
      (ps : Providers KadId) (conns : List ℕ) (c : ℕ)
      → occurs c conns ≡ true
      → Up (lookup c ps.providers)
      → Any Up (map (λ conn. lookup conn ps.providers) conns)
  Any-occurs ps [] c here up = cc here
  Any-occurs ps (d ∷ conns) c here up = elim (Bool-cases (d == c)) [
    | inl e ↦ inl (subst (λ n. Up (lookup n ps.providers)) (sym ((==_iff d c).0 e)) up)
    | inr e ↦ inr (Any-occurs ps conns c (ground (arith, here, e)) up)
  ]

  -- If each provider of one of the services either opens a stream or is not available, and one of them
  -- is available at each attempt, then `Push` returns a stream that one of them opened, in whatever order
  -- the shuffle puts them. The index agrees with the providers.
  pub push_any-get_providers :
      (ps : Providers KadId) (order : List (Option (Provider KadId))) (c : ℕ) (p : Provider KadId)
      → IsConsistent ps
      → Permᴰ (get_providers services ps) order
      → IsSound
      → lookup c ps.providers ≡ some p
      → offers_any services (some p) ≡ true
      → IsUp p
      → Opened (push_any result 0 order)
  unfolding get_providers
  push_any-get_providers ps order c p inv shuffled sound found offers up =
      let (all, covered) = get_providers-offers_any ps inv services in
      let at : occurs c (service_conns services ps.services) ≡ true =
        covered c (ap (offers_any services) found ∙ offers) in
      push_any-Opened sound 0 order (All-perm Offering shuffled all) (
        Any-perm Up shuffled
          (Any-occurs ps (service_conns services ps.services) c at (p, found, up)))
