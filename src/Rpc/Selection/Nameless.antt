-- ===== src/Rpc/Selection/Nameless.antt =====
-- `ProvidersFor` of a node with a peer that has no id.
use carlo.Common.{
  ℕ, ◌≡◌, refl, ap, ◌∙◌, true, List, [], ◌∷◌, map, Option, none, some, panic, insert, lookup, Key,
  nat_key, arith, All, inl, inr, Bool-cases, ◌==◌, ==_iff,
}
use carlo.Reader.{Bytes}
use carlo.Rpc.Provider.{Provider}
use carlo.Rpc.Providers.{Providers, get_providers, service_conns}
use carlo.Rpc.Providers.Index.{IsConsistent}
use carlo.Rpc.Providers.Lookup.{offers_any, occurs, get_providers-offers_any}
use carlo.Rpc.Selection.{put_id, put_all_after, providers_by_key}

module _ {KadId PublicKey : Type 0} (pub_key : KadId → PublicKey) ⦃key : Key PublicKey⦄
    (services : List Bytes) where
  abbrev Offering : Option (Provider KadId) → Type 0
  Offering r = (p : Provider KadId) × (r ≡ some p) × (offers_any services r ≡ true)

  providers_by_key-some :
      (r : Option (Provider KadId)) (p : Provider KadId) (l : List (Option (Provider KadId)))
      (set : List (PublicKey × Provider KadId))
      → r ≡ some p
      → providers_by_key pub_key (r ∷ l) set
        ≡ put_all_after pub_key (put_id pub_key p.kad_id p set) (providers_by_key pub_key l)
  unfolding providers_by_key
  providers_by_key-some r p l set e = ap (λ r. providers_by_key pub_key (r ∷ l) set) e

  put_all_after-panic :
      (o : Option KadId) (p : Provider KadId) (l : List (Option (Provider KadId)))
      (set : List (PublicKey × Provider KadId))
      → ((set : List (PublicKey × Provider KadId)) → providers_by_key pub_key l set ≡ panic)
      → put_all_after pub_key (put_id pub_key o p set) (providers_by_key pub_key l) ≡ panic
  put_all_after-panic none p l set later = refl
  put_all_after-panic (some id) p l set later = later (insert (pub_key id) p set)

  providers_by_key-nameless :
      (ps : Providers KadId) (c : ℕ) (p : Provider KadId)
      → lookup c ps.providers ≡ some p
      → p.kad_id ≡ none
      → (conns : List ℕ) → occurs c conns ≡ true
      → All Offering (map (λ conn. lookup conn ps.providers) conns)
      → (set : List (PublicKey × Provider KadId))
      → providers_by_key pub_key (map (λ conn. lookup conn ps.providers) conns) set ≡ panic
  providers_by_key-nameless ps c p found nameless [] here all set = cc here
  providers_by_key-nameless ps c p found nameless (d ∷ conns) here ((q, is_q, offers), all) set =
      let rest = map (λ conn. lookup conn ps.providers) conns in
      elim (Bool-cases (d == c)) [
        | inl e ↦
            providers_by_key-some (lookup d ps.providers) p rest set
              (ap (λ n. lookup n ps.providers) ((==_iff d c).0 e) ∙ found)
            ∙ ap
                (λ o.
                  put_all_after pub_key (put_id pub_key o p set) (providers_by_key pub_key rest))
                nameless
        | inr e ↦
            providers_by_key-some (lookup d ps.providers) q rest set is_q
            ∙ put_all_after-panic q.kad_id q rest set (
                providers_by_key-nameless ps c p found nameless conns (ground (arith, here, e)) all)
      ]

  -- If a provider of one of the services has no id, `ProvidersFor` panics. The index agrees with the
  -- providers.
  pub providers_by_key-panic :
      (ps : Providers KadId) (c : ℕ) (p : Provider KadId)
      → IsConsistent ps
      → lookup c ps.providers ≡ some p
      → offers_any services (some p) ≡ true
      → p.kad_id ≡ none
      → providers_by_key pub_key (get_providers services ps) [] ≡ panic
  unfolding get_providers
  providers_by_key-panic ps c p inv found offers nameless =
      let (all, covered) = get_providers-offers_any ps inv services in
      providers_by_key-nameless ps c p found nameless (service_conns services ps.services)
        (covered c (ap (offers_any services) found ∙ offers)) all []
