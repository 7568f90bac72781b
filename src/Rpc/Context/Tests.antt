-- ===== src/Rpc/Context/Tests.antt =====
-- `Write` at concrete data.
use carlo.Common.{
  ℕ, zero, suc, ◌≡◌, true, false, List, [], ◌∷◌, Option, none, some, Error, eof, All,
}
use carlo.Bytesutil.Instance.{big_endian}
use carlo.Reader.{Bytes}
use carlo.Rpc.Context.{Context, write}
use carlo.Rpc.Context.Chunks.{IsChunk, IsFront, concat, planned, write_lem}

abbrev unwritten : Context
unwritten = record { stream_id = 3; response_headers = []; written = false }

-- The second call of `Send` fails.
abbrev second_fails : ℕ → Option Error
second_fails (suc zero) = some eof
second_fails _ = none

write_lem_example :
    (ps : List Bytes) × (concat ps ≡ 1 ∷ 2 ∷ [])
    × All IsChunk ps
    × IsFront
        (write big_endian second_fails (1 ∷ 2 ∷ []) unwritten).1
        (planned big_endian unwritten ps)
    × ((write big_endian second_fails (1 ∷ 2 ∷ []) unwritten).0
        ≡ record unwritten { written = true })
write_lem_example = write_lem big_endian unwritten second_fails 1 (2 ∷ [])
