-- ===== src/Rpc/Providers/Lookup.antt =====
-- What `getProviders` finds.
use carlo.Common.{
  ℕ, ◌≡◌, refl, sym, ◌∙◌, Bool, true, false, List, [], ◌∷◌, ◌++◌, map, Option, none, some, lookup,
  nat_key, bytes_key, arith, All, ◌==◌, ◌||◌,
}
use carlo.Reader.{Bytes}
use carlo.Rpc.Provider.{Provider}
use carlo.Rpc.Providers.{Conns, Providers, or_empty, keys, service_conns, get_providers, exists}
use carlo.Rpc.Providers.Index.{IsConsistent, offers}

abbrev pub occurs : ℕ → List ℕ → Bool
occurs c [] = false
occurs c (d ∷ ds) = d == c || occurs c ds

occurs-append : (c : ℕ) (xs ys : List ℕ) → occurs c (xs ++ ys) ≡ (occurs c xs || occurs c ys)
occurs-append c [] ys = refl
occurs-append c (x ∷ xs) ys = ground (arith, occurs-append c xs ys)

occurs-keys : (c : ℕ) (cs : Conns) → occurs c (keys cs) ≡ exists (lookup c cs)
occurs-keys c [] = refl
occurs-keys c ((d, u) ∷ cs) = ground (arith, occurs-keys c cs)

-- What holds of every number that occurs holds of the list.
All_of_occurs {ℓ} : (P : ℕ → Type ℓ) (cs : List ℕ) → ((c : ℕ) → occurs c cs ≡ true → P c) → All P cs
All_of_occurs P [] f = tt
All_of_occurs P (d ∷ ds) f = (f d (ground arith), All_of_occurs P ds (λ c h. f c (ground arith)))

All_map {ℓ κ μ} :
    {A : Type ℓ} {B : Type κ} (P : B → Type μ) (f : A → B) (xs : List A)
    → All (λ a. P (f a)) xs
    → All P (map f xs)
All_map P f [] h = tt
All_map P f (x ∷ xs) h = (h.0, All_map P f xs h.1)

module _ {KadId : Type 0} where
  -- A provider, if there is one, that announced one of the services.
  abbrev pub offers_any : List Bytes → Option (Provider KadId) → Bool
  offers_any [] p = false
  offers_any (s ∷ ss) p = offers s p || offers_any ss p

module _ {KadId : Type 0} (ps : Providers KadId) (inv : IsConsistent ps) where
  occurs-service_conns :
      (ss : List Bytes) (conn : ℕ)
      → occurs conn (service_conns ss ps.services) ≡ offers_any ss (lookup conn ps.providers)
  unfolding service_conns
  occurs-service_conns [] conn = refl
  occurs-service_conns (s ∷ ss) conn =
      occurs-append conn (keys (or_empty (lookup s ps.services))) (service_conns ss ps.services)
      ∙ ground (
        arith,
        occurs-keys conn (or_empty (lookup s ps.services)),
        inv s conn,
        occurs-service_conns ss conn,
      )

  -- With a consistent index `getProviders` returns no nil pointer: each result is the provider of a
  -- connection and announced one of the services; and every such provider's connection is among
  -- those that it looks up.
  pub get_providers-offers_any :
      (ss : List Bytes)
      → All
          (λ r. (p : Provider KadId) × (r ≡ some p) × (offers_any ss r ≡ true))
          (get_providers ss ps)
        × ((conn : ℕ)
            → offers_any ss (lookup conn ps.providers) ≡ true
            → occurs conn (service_conns ss ps.services) ≡ true)
  unfolding get_providers
  get_providers-offers_any ss = (
    All_map _ (λ conn. lookup conn ps.providers) (service_conns ss ps.services)
        (All_of_occurs _ (service_conns ss ps.services)
          (λ c h. found (lookup c ps.providers) (sym (occurs-service_conns ss c) ∙ h))),
    λ conn h. occurs-service_conns ss conn ∙ h,
  )
    where
      nobody : (qs : List Bytes) → offers_any {KadId = KadId} qs none ≡ false
      nobody [] = refl
      nobody (q ∷ qs) = nobody qs

      found :
          (r : Option (Provider KadId))
          → offers_any ss r ≡ true
          → (p : Provider KadId) × (r ≡ some p) × (offers_any ss r ≡ true)
      found none h = absurd (cc (nobody ss))
      found (some p) h = (p, refl, h)
