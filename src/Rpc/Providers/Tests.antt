-- ===== src/Rpc/Providers/Tests.antt =====
-- Providers and streams at concrete values.
use carlo.Common.{
  ℕ, ◌+◌, ◌-◌, ◌*◌, ◌%◌, ◌^◌, ◌<◌, ◌≡◌, ◌≢◌, ◌↔◌, refl, true, [], ◌∷◌, none, some, All, arith,
  nat_key,
}
use carlo.Rpc.Provider.{Provider, next_stream, get_stream, register_stream}
use carlo.Rpc.Provider.Streams
use carlo.Rpc.Providers.{Providers, new_providers, register_provider, get_providers}
use carlo.Rpc.Providers.Index
use carlo.Rpc.Providers.Lookup

abbrev client : Provider ℕ
client = record { kad_id = none; conn = 4; services = []; counter = 1; streams = [] }

next_stream-id_example :
    ((next_stream (Streams.after_streams 3 client)).0.id ≡ (1 + 2 * 3) % 2 ^ 32)
    × ((next_stream (Streams.after_streams 3 client)).0.id % 2 ≡ 1 % 2)
    × ((m : ℕ)
        → m < 3
        → 3 - m < 2 ^ 31
        → (next_stream (Streams.after_streams m client)).0.id
          ≢ (next_stream (Streams.after_streams 3 client)).0.id)
next_stream-id_example = Streams.next_stream-id 3 client (omega arith)

get_stream-register_stream_example :
    (get_stream 6 (register_stream 6 client).2 ≡ some (register_stream 6 client).0)
    × ((j : ℕ) → j ≢ 6 → get_stream j (register_stream 6 client).2 ≡ get_stream j client)
    × (((register_stream 6 client).1 ≡ true) ↔ (get_stream 6 client ≡ none))
get_stream-register_stream_example = Streams.get_stream-register_stream 6 client

-- Connection 4 offers the services "a" and "b".
abbrev one_provider : Providers ℕ
one_provider = (register_provider 4 (some 9) ((0x61 ∷ []) ∷ (0x62 ∷ []) ∷ []) true new_providers).2

one_provider-IsConsistent : Index.IsConsistent one_provider
one_provider-IsConsistent =
    Index.register_provider-IsConsistent 4 (some 9) ((0x61 ∷ []) ∷ (0x62 ∷ []) ∷ []) true
      new_providers (Index.new_providers-IsConsistent {KadId = ℕ} new_providers refl)

get_providers-offers_any_example :
    All
      (λ r. (p : Provider ℕ) × (r ≡ some p) × (Lookup.offers_any ((0x61 ∷ []) ∷ []) r ≡ true))
      (get_providers ((0x61 ∷ []) ∷ []) one_provider)
get_providers-offers_any_example =
    (Lookup.get_providers-offers_any one_provider one_provider-IsConsistent ((0x61 ∷ []) ∷ [])).0
