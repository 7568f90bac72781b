-- ===== src/Rpc/Selection/Tests.antt =====
-- Two connections to one peer, which offers the service "a"; the first of them has failed.
use mathlib.Core.List.Permᴰ
use carlo.Common.{
  ℕ, ◌≡◌, refl, List, [], ◌∷◌, some, none, panic, ◌==◌, if◌then◌else◌, nat_key, bytes_key, arith,
  inl, inr, Bool-cases,
}
use carlo.Rpc.Provider.{new_stream, Provider}
use carlo.Rpc.Providers.{Providers, get_providers, service_conns}
use carlo.Rpc.Providers.Index.{IsConsistent}
use carlo.Rpc.Selection.{Pushed, pushed, not_available, push_any, providers_by_key}
use carlo.Rpc.Selection.Attempts.{Opened, IsSound, push_any-get_providers}
use carlo.Rpc.Selection.Nameless.{providers_by_key-panic}

abbrev conn_to_nine : ℕ → Provider ℕ
conn_to_nine c = record {
  kad_id = some 9;
  conn = c;
  services = ((0x61 ∷ []), tt) ∷ [];
  counter = 1;
  streams = [];
}

abbrev two_conns : Providers ℕ
two_conns = record {
  services = ((0x61 ∷ []), (4, tt) ∷ (5, tt) ∷ []) ∷ [];
  providers = (4, conn_to_nine 4) ∷ (5, conn_to_nine 5) ∷ [];
}

two_conns-IsConsistent : IsConsistent two_conns
two_conns-IsConsistent service conn = ground arith

abbrev second_up : ℕ → Provider ℕ → Pushed
second_up i p = if p.conn == 5 then pushed (new_stream 1) else not_available

second_up-IsSound : IsSound second_up ((0x61 ∷ []) ∷ [])
second_up-IsSound i p offers = elim (Bool-cases (p.conn == 5)) [
  | inl e ↦ inr (new_stream 1, rw e refl)
  | inr e ↦ inl (rw e refl)
]

push_any-get_providers_example :
    Opened second_up
      ((0x61 ∷ []) ∷ [])
      (push_any second_up 0 (some (conn_to_nine 4) ∷ some (conn_to_nine 5) ∷ []))
unfolding get_providers service_conns
push_any-get_providers_example =
    push_any-get_providers second_up ((0x61 ∷ []) ∷ []) two_conns
      (some (conn_to_nine 4) ∷ some (conn_to_nine 5) ∷ []) 5 (conn_to_nine 5) two_conns-IsConsistent
      (Permᴰ.refl (some (conn_to_nine 4) ∷ some (conn_to_nine 5) ∷ [])) second_up-IsSound refl refl
      (λ i e. cc e)

-- The second connection's peer gave no id.
abbrev one_nameless : Providers ℕ
one_nameless = record two_conns {
  providers = (4, conn_to_nine 4) ∷ (5, record (conn_to_nine 5) { kad_id = none }) ∷ [];
}

one_nameless-IsConsistent : IsConsistent one_nameless
one_nameless-IsConsistent service conn = ground arith

providers_by_key-panic_example :
    providers_by_key (λ id. id) (get_providers ((0x61 ∷ []) ∷ []) one_nameless) [] ≡ panic
providers_by_key-panic_example =
    providers_by_key-panic (λ id. id) ((0x61 ∷ []) ∷ []) one_nameless 5
      (record (conn_to_nine 5) { kad_id = none }) one_nameless-IsConsistent refl refl refl
