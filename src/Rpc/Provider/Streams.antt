-- ===== src/Rpc/Provider/Streams.antt =====
-- The numbers of streams: those that a node opens and those that its peer opens.
use carlo.Common.{
  ℕ, zero, suc, ◌+◌, ◌-◌, ◌*◌, ◌%◌, ◌^◌, ◌<◌, ◌≡◌, ◌≢◌, ◌↔◌, refl, true, none, some, Error, lookup,
  nat_key, arith, lookup-insert, lookup-delete, if◌then◌else◌, ◌==◌, inl, inr, Option-cases,
}
use carlo.Rpc.Provider.{
  Stream, new_stream, Provider, next_stream, get_stream, register_stream, close_stream_with_error,
}

module _ {KadId : Type 0} where
  -- The number of the stream after `n` calls of `next_stream`.
  unfoldable pub after_streams : ℕ → Provider KadId → Provider KadId
  after_streams zero p = p
  after_streams (suc n) p = (next_stream (after_streams n p)).1

  counter-after_streams :
      (n : ℕ) (p : Provider KadId)
      → p.counter < 2 ^ 32
      → (after_streams n p).counter ≡ (p.counter + 2 * n) % 2 ^ 32
  unfolding after_streams next_stream
  counter-after_streams zero p h = omega arith
  counter-after_streams (suc n) p h = ground (arith, counter-after_streams n p h)

  -- The `n`-th stream of a provider whose counter starts at 0 or 1 has the number counter + 2n on 32
  -- bits: its parity is that of the start, and 2 ^ 31 streams in a row have different numbers.
  pub next_stream-id :
      (n : ℕ) (p : Provider KadId)
      → p.counter < 2 ^ 32
      → ((next_stream (after_streams n p)).0.id ≡ (p.counter + 2 * n) % 2 ^ 32)
        × ((next_stream (after_streams n p)).0.id % 2 ≡ p.counter % 2)
        × ((m : ℕ)
            → m < n
            → n - m < 2 ^ 31
            → (next_stream (after_streams m p)).0.id ≢ (next_stream (after_streams n p)).0.id)
  unfolding next_stream
  next_stream-id n p h = (
    counter-after_streams n p h,
    omega (arith, counter-after_streams n p h),
    λ m lt near e. omega (arith, counter-after_streams n p h, counter-after_streams m p h),
  )

  -- A stream that is opened or registered is found under its number, and the other numbers keep theirs; a
  -- request for a number in use gets the stream that has it, and creates none.
  pub get_stream-register_stream :
      (id : ℕ) (p : Provider KadId)
      → (get_stream id (register_stream id p).2 ≡ some (register_stream id p).0)
        × ((j : ℕ) → j ≢ id → get_stream j (register_stream id p).2 ≡ get_stream j p)
        × (((register_stream id p).1 ≡ true) ↔ (get_stream id p ≡ none))
  unfolding get_stream register_stream
  get_stream-register_stream id p = elim (Option-cases (lookup id p.streams)) [
    | inl e ↦
        rw (e, register_stream)
          (
            ground (arith, lookup-insert id id (new_stream id) p.streams),
            (λ j other. ground (arith, lookup-insert id j (new_stream id) p.streams)),
            ((λ _. refl), (λ _. refl)),
          )
    | inr (s, e) ↦ rw (e, register_stream) (e, (λ j other. refl), ((λ h. cc), (λ h. cc)))
  ]

  -- A closed stream is found no more; the streams with other numbers are.
  pub get_stream-close_stream :
      (stream : Stream) (e : Error) (p : Provider KadId) (j : ℕ)
      → get_stream j (close_stream_with_error stream e p).1
        ≡ (if stream.id == j then none else get_stream j p)
  unfolding get_stream close_stream_with_error
  get_stream-close_stream stream e p j = lookup-delete stream.id j p.streams
