-- ===== src/Rpc/Bootstrap.antt =====
-- `Bootstrap` of streaming_rpc/streamnode.go: the loop over the queue of peers, the goroutines that it
-- starts, and their lock, interleaved in any order. `size` is kademlia.DefaultBucketSize, the capacity
-- of both channels.
pub mod Visits
pub mod Stuck
pub mod Deadlock
mod Tests
use carlo.Common.{
  ℕ, zero, suc, ◌+◌, ◌<◌, ◌≡◌, List, [], ◌∷◌, ◌++◌, map, Option, none, some, length, lookup, insert,
  Key,
}

-- The goroutine that has the lock: the peer that it is putting into the queue, if any, and the rest of
-- the response.
pub record Offer (KadId : Type 0) : Type 0 where
  pub sending : Option KadId
  pub rest : List KadId

abbrev pub has_lock : {KadId : Type 0} → Option (Offer KadId) → ℕ
has_lock none = 0
has_lock (some o) = 1

-- The queue, the peer that the loop has taken and holds until `busy` takes a token, and the goroutines:
-- those that wait for the network, the responses of those that wait for the lock, and the one that has
-- it. `probed` lists the peers for which a goroutine was started.
pub record System (KadId PublicKey : Type 0) : Type 0 where
  pub queue : List KadId
  pub held : Option KadId
  pub fetching : ℕ
  pub waiting : List (List KadId)
  pub offering : Option (Offer KadId)
  pub visited : List (PublicKey × Unit {0})
  pub results : List KadId
  pub probed : List KadId

-- The tokens in `busy`.
abbrev pub busy : {KadId PublicKey : Type 0} → System KadId PublicKey → ℕ
busy s = s.fetching + length s.waiting + has_lock s.offering

module _ {KadId PublicKey : Type 0} (pub_key : KadId → PublicKey) ⦃key : Key PublicKey⦄ where
  unfoldable pub visit : List KadId → List (PublicKey × Unit {0}) → List (PublicKey × Unit {0})
  visit [] visited = visited
  visit (kid ∷ kids) visited = visit kids (insert (pub_key kid) tt visited)

  -- With the node's own key, which is the zero value without an id, and the closest peers of the table.
  unfoldable pub start : PublicKey → List KadId → System KadId PublicKey
  start own kids = record {
    queue = kids;
    held = none;
    fetching = 0;
    waiting = [];
    offering = none;
    visited = visit kids (insert own tt []);
    results = [];
    probed = [];
  }

  -- `visited[kid.Pub] = struct{}{}; results = append(results, kid)`
  unfoldable pub accept_peer : KadId → List KadId → System KadId PublicKey → System KadId PublicKey
  accept_peer kid rest s = record s {
    offering = some (record { sending = some kid; rest = rest });
    visited = insert (pub_key kid) tt s.visited;
    results = s.results ++ kid ∷ [];
  }

  pub data Step (size : ℕ) (s : System KadId PublicKey) : System KadId PublicKey → Type 0 where
    -- `case kid := <-queue`
    take :
        (kid : KadId) (queue : List KadId)
        → s.held ≡ none
        → s.queue ≡ kid ∷ queue
        → Step size s (record s { queue = queue; held = some kid })
    -- `busy <- struct{}{}; go func() { ... }()`
    spawn :
        (kid : KadId)
        → s.held ≡ some kid
        → busy s < size
        → Step size s
            (record s { held = none; fetching = s.fetching + 1; probed = s.probed ++ kid ∷ [] })
    -- A call of the goroutine has failed, and it returns.
    fail : (n : ℕ) → s.fetching ≡ suc n → Step size s (record s { fetching = n })
    respond :
        (n : ℕ) (closest : List KadId)
        → s.fetching ≡ suc n
        → Step size s (record s { fetching = n; waiting = s.waiting ++ closest ∷ [] })
    -- `mu.Lock()`
    lock :
        (before after : List (List KadId)) (closest : List KadId)
        → s.offering ≡ none
        → s.waiting ≡ before ++ closest ∷ after
        → Step size s (record s {
          waiting = before ++ after;
          offering = some (record { sending = none; rest = closest });
        })
    skip :
        (kid : KadId) (rest : List KadId)
        → s.offering ≡ some (record { sending = none; rest = kid ∷ rest })
        → lookup (pub_key kid) s.visited ≡ some tt
        → Step size s (record s { offering = some (record { sending = none; rest = rest }) })
    accept :
        (kid : KadId) (rest : List KadId)
        → s.offering ≡ some (record { sending = none; rest = kid ∷ rest })
        → lookup (pub_key kid) s.visited ≡ none
        → Step size s (accept_peer kid rest s)
    -- `queue <- kid`
    send :
        (kid : KadId) (rest : List KadId)
        → s.offering ≡ some (record { sending = some kid; rest = rest })
        → length s.queue < size
        → Step size s (record s {
          queue = s.queue ++ kid ∷ [];
          offering = some (record { sending = none; rest = rest });
        })
    -- `mu.Unlock()`, and the end of the goroutine.
    unlock :
        s.offering ≡ some (record { sending = none; rest = [] })
        → Step size s (record s { offering = none })

  pub data Reach (size : ℕ) (own : PublicKey) (kids : List KadId)
      : System KadId PublicKey → Type 0 where
    here : Reach size own kids (start own kids)
    next :
        {s r : System KadId PublicKey}
        → Reach size own kids s
        → Step size s r
        → Reach size own kids r
