-- ===== src/Transmit/Client/Choice.antt =====
-- Which connection `getClientConn` returns.
use carlo.Common.{
  ℕ, ◌≤◌, ◌<◌, ◌≡◌, refl, sym, ◌⊎◌, inl, inr, List, [], ◌∷◌, length, ltb, ◌==◌, if◌then◌else◌,
  arith, All, Bool-cases, subst,
}
use carlo.Transmit.Client.{
  Client, new_client_conn, Found, idle, least, scan, choose, from_pool, get_client_conn,
}

-- The connection stands in the list.
abbrev pub In : ℕ → List ℕ → Type 0
In conn [] = ⊥
In conn (c ∷ cs) = (c ≡ conn) ⊎ In conn cs

-- What the loop found: an idle connection of the pool, or one with the least number of pending writes in a
-- pool without idle connections.
abbrev pub IsFound : (ℕ → ℕ) → List ℕ → Found → Type 0
IsFound pending conns (idle conn) = In conn conns × (pending conn ≡ 0)
IsFound pending conns (least conn) =
    In conn conns × All (λ x. (0 < pending x) × (pending conn ≤ pending x)) conns

-- The same for the part of the pool that is left, beside `mc`.
abbrev IsBest : (ℕ → ℕ) → ℕ → List ℕ → Found → Type 0
IsBest pending mc conns (idle conn) = In conn conns × (pending conn ≡ 0)
IsBest pending mc conns (least conn) =
    ((conn ≡ mc) ⊎ In conn conns)
    × (pending conn ≤ pending mc)
    × All (λ x. (0 < pending x) × (pending conn ≤ pending x)) conns

lower-IsBest :
    (pending : ℕ → ℕ) (conns : List ℕ) (mc conn : ℕ) (r : Found)
    → 0 < pending conn
    → pending conn < pending mc
    → IsBest pending conn conns r
    → IsBest pending mc (conn ∷ conns) r
lower-IsBest pending conns mc conn (idle x) busy lt h = (inr h.0, h.1)
lower-IsBest pending conns mc conn (least x) busy lt (inl e, le, all) =
    (inr (inl (sym e)), omega arith, ((busy, le), all))
lower-IsBest pending conns mc conn (least x) busy lt (inr i, le, all) =
    (inr (inr i), omega arith, ((busy, le), all))

higher-IsBest :
    (pending : ℕ → ℕ) (conns : List ℕ) (mc conn : ℕ) (r : Found)
    → 0 < pending conn
    → pending mc ≤ pending conn
    → IsBest pending mc conns r
    → IsBest pending mc (conn ∷ conns) r
higher-IsBest pending conns mc conn (idle x) busy le h = (inr h.0, h.1)
higher-IsBest pending conns mc conn (least x) busy le (inl e, le1, all) =
    (inl e, le1, ((busy, omega arith), all))
higher-IsBest pending conns mc conn (least x) busy le (inr i, le1, all) =
    (inr (inr i), le1, ((busy, omega arith), all))

scan-IsBest :
    (pending : ℕ → ℕ) (conns : List ℕ) (mc : ℕ)
    → IsBest pending mc conns (scan pending mc (pending mc) conns)
unfolding scan
scan-IsBest pending [] mc = (inl refl, omega arith, tt)
scan-IsBest pending (conn ∷ conns) mc = elim (Bool-cases (pending conn == 0)) [
  | inl hit ↦ rw (hit, scan) (inl refl, ground arith)
  | inr busy ↦ elim (Bool-cases (ltb (pending conn) (pending mc))) [
    | inl lower ↦
        rw (busy, lower, scan)
          (lower-IsBest pending conns mc conn _ (ground arith) (ground arith)
            (scan-IsBest pending conns conn))
    | inr not_lower ↦
        rw (busy, not_lower, scan)
          (higher-IsBest pending conns mc conn _ (ground arith) (ground arith)
            (scan-IsBest pending conns mc))
  ]
]

best-IsFound :
    (pending : ℕ → ℕ) (mc : ℕ) (conns : List ℕ) (r : Found)
    → 0 < pending mc
    → IsBest pending mc conns r
    → IsFound pending (mc ∷ conns) r
best-IsFound pending mc conns (idle x) busy h = (inr h.0, h.1)
best-IsFound pending mc conns (least x) busy (inl e, le, all) = (inl (sym e), ((busy, le), all))
best-IsFound pending mc conns (least x) busy (inr i, le, all) = (inr i, ((busy, le), all))

choose-IsFound :
    (pending : ℕ → ℕ) (mc : ℕ) (conns : List ℕ)
    → IsFound pending (mc ∷ conns) (choose pending mc conns)
unfolding choose
choose-IsFound pending mc conns = elim (Bool-cases (pending mc == 0)) [
  | inl hit ↦ rw (hit, choose) (inl refl, ground arith)
  | inr busy ↦
      rw (busy, choose)
        (best-IsFound pending mc conns _ (ground arith) (scan-IsBest pending conns mc))
]

-- What `getClientConn` returns, by case: an idle connection of the pool; a new one, if all have something
-- to write and there are fewer than `max`; the one with the least to write, if there are `max` or more.
pub data Answer (pending : ℕ → ℕ) (max : ℕ) (c : Client) : ℕ × Client → Type 0 where
  reused : (conn : ℕ) → In conn c.conns → pending conn ≡ 0 → Answer pending max c (conn, c)
  created :
      All (λ x. 0 < pending x) c.conns
      → (c.conns ≡ []) ⊎ (length c.conns < max)
      → Answer pending max c (new_client_conn c)
  shared :
      (conn : ℕ)
      → In conn c.conns
      → All (λ x. (0 < pending x) × (pending conn ≤ pending x)) c.conns
      → max ≤ length c.conns
      → Answer pending max c (conn, c)

all_busy :
    (pending : ℕ → ℕ) (conn : ℕ) (conns : List ℕ)
    → All (λ x. (0 < pending x) × (pending conn ≤ pending x)) conns
    → All (λ x. 0 < pending x) conns
all_busy pending conn [] h = tt
all_busy pending conn (x ∷ xs) h = (h.0.0, all_busy pending conn xs h.1)

-- `getClientConn` returns an idle connection if the pool has one; otherwise it makes a new one while
-- the pool is empty or has fewer than `max` connections, and from then on it returns one of the pool
-- with the fewest pending writes.
pub get_client_conn-Answer :
    (pending : ℕ → ℕ) (max : ℕ) (c : Client) → Answer pending max c (get_client_conn pending max c)
unfolding get_client_conn from_pool
get_client_conn-Answer pending max c = go c.conns refl
  where
    found :
        (conns : List ℕ) (r : Found)
        → c.conns ≡ conns
        → IsFound pending conns r
        → Answer pending max c (elim r as (λ _. ℕ × Client) [
          | idle conn ↦ (conn, c)
          | least conn ↦ if ltb (length conns) max then new_client_conn c else (conn, c)
        ])
    found conns (idle conn) e h = reused conn (subst (In conn) (sym e) h.0) h.1
    found conns (least conn) e h = elim (Bool-cases (ltb (length conns) max)) [
      | inl room ↦ rw room (
          created (subst (All (λ x. 0 < pending x)) (sym e) (all_busy pending conn conns h.1))
            (inr (subst (λ l. length l < max) (sym e) (ground arith))))
      | inr full ↦ rw full (
          shared conn (subst (In conn) (sym e) h.0)
            (subst (All (λ x. (0 < pending x) × (pending conn ≤ pending x))) (sym e) h.1)
            (subst (λ l. max ≤ length l) (sym e) (ground arith)))
    ]

    go : (conns : List ℕ) → c.conns ≡ conns → Answer pending max c (from_pool pending max c conns)
    go [] e = created (subst (All (λ x. 0 < pending x)) (sym e) tt) (inl e)
    go (mc ∷ conns) e =
        found (mc ∷ conns) (choose pending mc conns) e (choose-IsFound pending mc conns)
