-- ===== src/Transmit/Client/Pool.antt =====
-- The pool over time: any calls of `getClientConn` and `deleteClientConn`.
use carlo.Common.{
  ℕ, ◌≤◌, ◌<◌, ◌≢◌, sym, inl, inr, List, [], ◌∷◌, ◌++◌, length, length-append, ◌==◌, arith, All,
  Bool-cases, subst,
}
use carlo.Transmit.Client.{Client, new_client_conn, get_client_conn, without, delete_client_conn}
use carlo.Transmit.Client.Choice.{Answer, reused, created, shared, get_client_conn-Answer}

abbrev pub new_client : Client
new_client = record { conns = []; made = 0 }

-- The clients that a run reaches, whatever the connections have to write at the times of the calls.
pub data Reach (max : ℕ) : Client → Type 0 where
  start : Reach max new_client
  got : {c : Client} (pending : ℕ → ℕ) → Reach max c → Reach max (get_client_conn pending max c).1
  deleted : {c : Client} (conn : ℕ) → Reach max c → Reach max (delete_client_conn conn c)

-- Each connection once.
abbrev pub IsUnique : List ℕ → Type 0
IsUnique [] = Unit
IsUnique (c ∷ cs) = All (λ x. x ≢ c) cs × IsUnique cs

record IsPool (max : ℕ) (c : Client) : Type 0 where
  size : length c.conns ≤ max
  below : All (λ x. x < c.made) c.conns
  unique : IsUnique c.conns

snoc-All : (P : ℕ → Type 0) (cs : List ℕ) (x : ℕ) → All P cs → P x → All P (cs ++ x ∷ [])
snoc-All P [] x h p = (p, tt)
snoc-All P (c ∷ cs) x h p = (h.0, snoc-All P cs x h.1 p)

All-weaken : {P Q : ℕ → Type 0} (cs : List ℕ) → ((x : ℕ) → P x → Q x) → All P cs → All Q cs
All-weaken [] f h = tt
All-weaken (c ∷ cs) f h = (f c h.0, All-weaken cs f h.1)

snoc-IsUnique : (cs : List ℕ) (x : ℕ) → All (λ c. c < x) cs → IsUnique cs → IsUnique (cs ++ x ∷ [])
snoc-IsUnique [] x below u = (tt, tt)
snoc-IsUnique (c ∷ cs) x below u =
    (snoc-All _ cs x u.0 (λ e. omega (arith, below.0)), snoc-IsUnique cs x below.1 u.1)

new-IsPool :
    (max : ℕ) (c : Client) → length c.conns < max → IsPool max c → IsPool max (new_client_conn c).1
unfolding new_client_conn
new-IsPool max c room pool = record {
  size = omega (arith, length-append c.conns (c.made ∷ []));
  below =
      snoc-All _ c.conns c.made (All-weaken c.conns (λ x h. omega arith) pool.below) (omega arith);
  unique = snoc-IsUnique c.conns c.made pool.below pool.unique;
}

length-without : (conn : ℕ) (cs : List ℕ) → length (without conn cs) ≤ length cs
unfolding without
length-without conn [] = omega arith
length-without conn (c ∷ cs) = ground (arith, length-without conn cs)

without-All : (P : ℕ → Type 0) (conn : ℕ) (cs : List ℕ) → All P cs → All P (without conn cs)
unfolding without
without-All P conn [] h = tt
without-All P conn (c ∷ cs) h = ground (arith, without-All P conn cs h.1)

without-IsUnique : (conn : ℕ) (cs : List ℕ) → IsUnique cs → IsUnique (without conn cs)
unfolding without
without-IsUnique conn [] u = tt
without-IsUnique conn (c ∷ cs) u = elim (Bool-cases (c == conn)) [
  | inl hit ↦ rw (hit, without) (without-IsUnique conn cs u.1)
  | inr miss ↦ rw (miss, without) (without-All _ conn cs u.0, without-IsUnique conn cs u.1)
]

answer-IsPool :
    (pending : ℕ → ℕ) (max : ℕ) (c : Client) (r : ℕ × Client)
    → 0 < max
    → Answer pending max c r
    → IsPool max c
    → IsPool max r.1
answer-IsPool pending max c _ positive (reused conn i e) pool = pool
answer-IsPool pending max c _ positive (created busy (inl e)) pool =
    new-IsPool max c (subst (λ l. length l < max) (sym e) positive) pool
answer-IsPool pending max c _ positive (created busy (inr room)) pool = new-IsPool max c room pool
answer-IsPool pending max c _ positive (shared conn i all full) pool = pool

Reach-IsPool : (max : ℕ) (c : Client) → 0 < max → Reach max c → IsPool max c
unfolding delete_client_conn
Reach-IsPool max c positive start = record { size = omega arith; below = tt; unique = tt }
Reach-IsPool max c positive (got {c = b} pending r) =
    answer-IsPool pending max b _ positive (get_client_conn-Answer pending max b)
      (Reach-IsPool max b positive r)
Reach-IsPool max c positive (deleted {c = b} conn r) =
    let pool = Reach-IsPool max b positive r in
    record {
      size = omega (arith, length-without conn b.conns, pool.size);
      below = without-All _ conn b.conns pool.below;
      unique = without-IsUnique conn b.conns pool.unique;
    }

-- In every run a client that may have connections at all has at most `max` of them, and has each of
-- them once.
pub pool_bounded :
    (max : ℕ) (c : Client) → 0 < max → Reach max c → (length c.conns ≤ max) × IsUnique c.conns
pool_bounded max c positive r = let pool = Reach-IsPool max c positive r in (pool.size, pool.unique)
