-- ===== src/Transmit/Conn/Handle.antt =====
-- `Handle` of streaming_transmit/conn.go: which of its three channels is ready first, what it then
-- does, and the error it returns.
use carlo.Common.{
  ℕ, suc, ◌≡◌, ◌≢◌, Bool, true, false, List, [], ◌∷◌, Option, none, some, Error, arith,
  if◌then◌else◌,
}

-- The cases of the `select`.
pub data Ready : Type 0 where
  done writer_done reader_done : Ready

pub data Action : Type 0 where
  close_writer close_conn await_writer await_reader : Action

-- `if err == nil { err = <-other } else { <-other }`
abbrev pub first_error : Option Error → Option Error → Option Error
first_error none other = other
first_error (some e) other = some e

-- The receive that makes a case ready is its first action. `writer` and `reader` are what the two
-- loops return.
unfoldable pub handle : Ready → (writer reader : Option Error) → List Action × Option Error
handle done writer reader =
    (close_writer ∷ await_writer ∷ close_conn ∷ await_reader ∷ [], first_error writer reader)
handle writer_done writer reader =
    (await_writer ∷ close_writer ∷ close_conn ∷ await_reader ∷ [], first_error writer reader)
handle reader_done writer reader =
    (await_reader ∷ close_writer ∷ await_writer ∷ close_conn ∷ [], first_error reader writer)

abbrev is_same : Action → Action → Bool
is_same close_writer close_writer = true
is_same close_conn close_conn = true
is_same await_writer await_writer = true
is_same await_reader await_reader = true
is_same _ _ = false

abbrev pub count : Action → List Action → ℕ
count a [] = 0
count a (b ∷ rest) = if is_same a b then suc (count a rest) else count a rest

-- Whatever is ready first, `Handle` closes the writer and the connection once each and waits for both
-- loops, and it returns an error if the reader does: what it gives to `close` is then no nil.
pub handle_complete :
    (ready : Ready) (writer reader : Option Error)
    → reader ≢ none
    → ((a : Action) → count a (handle ready writer reader).0 ≡ 1)
      × ((handle ready writer reader).1 ≢ none)
unfolding handle
handle_complete ready writer reader h = (once ready, failing ready)
  where
    once : (q : Ready) (a : Action) → count a (handle q writer reader).0 ≡ 1
    once q a = ground arith

    failing : (q : Ready) → (handle q writer reader).1 ≢ none
    failing q = ground arith
