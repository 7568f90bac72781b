-- ===== src/Packet/Utf8.antt =====
-- `utf8.ValidString` of the Go standard library, as a scan that keeps what the next byte may be.
use carlo.Common.{
  ℕ, zero, suc, Bool, true, false, ◌&&◌, Option, none, some, List, [], ◌∷◌, leb, if◌then◌else◌,
}

-- At the start of a character; or a byte in [lo, hi] comes next, and `more` continuation bytes
-- after it.
pub data Scan : Type 0 where
  start : Scan
  next_in : ℕ → ℕ → ℕ → Scan

abbrev within : ℕ → ℕ → ℕ → Bool
within lo hi b = leb lo b && leb b hi

abbrev continuation : ℕ → Scan
continuation zero = start
continuation (suc more) = next_in 0x80 0xbf more

unfoldable pub scan_byte : Scan → ℕ → Option Scan
scan_byte start b =
    if leb b 0x7f
    then some start
    else if within 0xc2 0xdf b
    then some (next_in 0x80 0xbf 0)
    else if within 0xe0 0xe0 b
    then some (next_in 0xa0 0xbf 1)
    else if within 0xed 0xed b
    then some (next_in 0x80 0x9f 1)
    else if within 0xe1 0xef b
    then some (next_in 0x80 0xbf 1)
    else if within 0xf0 0xf0 b
    then some (next_in 0x90 0xbf 2)
    else if within 0xf1 0xf3 b
    then some (next_in 0x80 0xbf 2)
    else if within 0xf4 0xf4 b
    then some (next_in 0x80 0x8f 2)
    else none
scan_byte (next_in lo hi more) b = if within lo hi b then some (continuation more) else none

unfoldable pub scan : Scan → List ℕ → Bool
scan start [] = true
scan (next_in lo hi more) [] = false
scan st (b ∷ bs) = elim (scan_byte st b) [ none ↦ false | some st' ↦ scan st' bs ]

unfoldable pub valid_string : List ℕ → Bool
valid_string s = scan start s
