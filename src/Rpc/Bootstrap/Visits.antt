-- ===== src/Rpc/Bootstrap/Visits.antt =====
-- Which peers `Bootstrap` probes.
use carlo.Common.{
  ℕ, ◌≡◌, refl, sym, ap, ◌∙◌, subst, List, [], ◌∷◌, ◌++◌, append-nil, append_assoc, map, map-append,
  Option, none, some, arith, lookup, insert, insert_all, insert_all_lem, insert-eq-append,
  lookup-none-Lacks, IsDistinct, IsDistinct-snoc, Key,
}
use carlo.Rpc.Bootstrap.{
  Offer, System, busy, has_lock, visit, start, accept_peer, Step, take, spawn, fail, respond, lock,
  skip, accept, send, unlock, Reach, here, next,
}

abbrev pub to_list : {A : Type 0} → Option A → List A
to_list none = []
to_list (some a) = a ∷ []

-- The peer that is on its way into the queue.
abbrev pub sending_of : {KadId : Type 0} → Option (Offer KadId) → List KadId
sending_of none = []
sending_of (some o) = to_list o.sending

module _ {KadId PublicKey : Type 0} (pub_key : KadId → PublicKey) ⦃key : Key PublicKey⦄ where
  abbrev pub entry : KadId → PublicKey × Unit {0}
  entry kid = (pub_key kid, tt)

  -- The peers that were probed, are held, are queued or are on their way, in this order.
  abbrev pub met : List KadId → Option KadId → List KadId → Option (Offer KadId) → List KadId
  met probed held queue offering = probed ++ (to_list held ++ (queue ++ sending_of offering))

  -- The keys of these peers, behind the node's own, are the visited ones, each once, and they are those of
  -- the first peers and of the results.
  pub record IsOrdered (own : PublicKey) (kids : List KadId) (s : System KadId PublicKey)
      : Type 0 where
    pub visits : s.visited ≡ (own, tt) ∷ map entry (met s.probed s.held s.queue s.offering)
    pub finds : s.visited ≡ (own, tt) ∷ map entry (kids ++ s.results)
    pub distinct : IsDistinct s.visited

  visit-eq-insert_all :
      (kids : List KadId) (visited : List (PublicKey × Unit {0}))
      → visit pub_key kids visited ≡ insert_all visited (map entry kids)
  unfolding visit
  visit-eq-insert_all [] visited = refl
  visit-eq-insert_all (kid ∷ kids) visited =
      visit-eq-insert_all kids (insert (pub_key kid) tt visited)

  start-IsOrdered :
      (own : PublicKey) (kids : List KadId)
      → IsDistinct ((own, tt) ∷ map entry kids)
      → IsOrdered own kids (start pub_key own kids)
  unfolding start
  start-IsOrdered own kids d =
      let all : visit pub_key kids (insert own tt []) ≡ (own, tt) ∷ map entry kids =
        visit-eq-insert_all kids (insert own tt [])
        ∙ insert_all_lem ((own, tt) ∷ map entry kids) d in
      record {
        visits = all ∙ ap (λ l. (own, tt) ∷ map entry l) (sym (append-nil kids));
        finds = all ∙ ap (λ l. (own, tt) ∷ map entry l) (sym (append-nil kids));
        distinct = subst IsDistinct (sym all) d;
      }

  -- A step that only moves peers along.
  moved :
      (own : PublicKey) (kids : List KadId) (s r : System KadId PublicKey)
      → r.visited ≡ s.visited
      → r.results ≡ s.results
      → met s.probed s.held s.queue s.offering ≡ met r.probed r.held r.queue r.offering
      → IsOrdered own kids s
      → IsOrdered own kids r
  moved own kids s r visited results same w = record {
    visits = visited ∙ w.visits ∙ ap (λ l. (own, tt) ∷ map entry l) same;
    finds = visited ∙ w.finds ∙ ap (λ l. (own, tt) ∷ map entry (kids ++ l)) (sym results);
    distinct = subst IsDistinct (sym visited) w.distinct;
  }

  met-snoc :
      (probed : List KadId) (held : Option KadId) (queue : List KadId) (kid : KadId)
      (before rest : List KadId)
      → map entry (met probed held queue (some (record { sending = none; rest = before })))
          ++ entry kid ∷ []
        ≡ map entry (met probed held queue (some (record { sending = some kid; rest = rest })))
  met-snoc probed held queue kid before rest =
      sym (simp (map-append, append_assoc, append-nil) refl)

  accept-IsOrdered :
      (own : PublicKey) (kids : List KadId) (s : System KadId PublicKey) (kid : KadId)
      (before rest : List KadId)
      → s.offering ≡ some (record { sending = none; rest = before })
      → lookup (pub_key kid) s.visited ≡ none
      → IsOrdered own kids s
      → IsOrdered own kids (accept_peer pub_key kid rest s)
  unfolding accept_peer
  accept-IsOrdered own kids s kid before rest e new w =
      let lacks = lookup-none-Lacks (pub_key kid) s.visited new in
      let grown : insert (pub_key kid) tt s.visited ≡ s.visited ++ entry kid ∷ [] =
        insert-eq-append (pub_key kid) tt s.visited lacks in
      record {
        visits =
            grown
            ∙ ap (λ l. l ++ entry kid ∷ [])
                (w.visits ∙ ap (λ o. (own, tt) ∷ map entry (met s.probed s.held s.queue o)) e)
            ∙ ap (λ l. (own, tt) ∷ l) (met-snoc s.probed s.held s.queue kid before rest);
        finds =
            grown
            ∙ ap (λ l. l ++ entry kid ∷ []) w.finds
            ∙ ap (λ l. (own, tt) ∷ l) (sym (simp (map-append, append_assoc) refl));
        distinct =
            subst IsDistinct (sym grown)
              (IsDistinct-snoc (pub_key kid) tt s.visited lacks w.distinct);
      }

  Step-IsOrdered :
      (size : ℕ) (own : PublicKey) (kids : List KadId) (s r : System KadId PublicKey)
      → Step pub_key size s r
      → IsOrdered own kids s
      → IsOrdered own kids r
  Step-IsOrdered size own kids s _ (take kid queue free e) w =
      moved own kids s _ refl refl (rw (free, e)) w
  Step-IsOrdered size own kids s _ (spawn kid e room) w =
      moved own kids s _ refl refl
        (rw e (sym (append_assoc s.probed (kid ∷ []) (s.queue ++ sending_of s.offering)))) w
  Step-IsOrdered size own kids s _ (fail n e) w = moved own kids s _ refl refl refl w
  Step-IsOrdered size own kids s _ (respond n closest e) w = moved own kids s _ refl refl refl w
  Step-IsOrdered size own kids s _ (lock before after closest free e) w =
      moved own kids s _ refl refl (rw free) w
  Step-IsOrdered size own kids s _ (skip kid rest e seen) w = moved own kids s _ refl refl (rw e) w
  Step-IsOrdered size own kids s _ (accept kid rest e new) w =
      accept-IsOrdered own kids s kid (kid ∷ rest) rest e new w
  Step-IsOrdered size own kids s _ (send kid rest e room) w =
      moved own kids s _ refl refl (rw (e, append-nil (s.queue ++ kid ∷ []))) w
  Step-IsOrdered size own kids s _ (unlock e) w = moved own kids s _ refl refl (rw e) w

  -- If the first peers have different keys, none of them the node's own, then at any time the keys of the
  -- peers that were probed, the one that the loop holds, those in the queue and the one on its way into it
  -- are, in this order and behind the node's own, the visited ones. Each of these keys stands there once,
  -- so no peer is probed twice, nor the node itself, and they are those of the first peers and the results.
  pub visits_once :
      (size : ℕ) (own : PublicKey) (kids : List KadId) (s : System KadId PublicKey)
      → IsDistinct ((own, tt) ∷ map entry kids)
      → Reach pub_key size own kids s
      → IsOrdered own kids s
  visits_once size own kids _ d here = start-IsOrdered own kids d
  visits_once size own kids s d (next {s = q} reach step) =
      Step-IsOrdered size own kids q s step (visits_once size own kids q d reach)

  tail_eq : (e : PublicKey × Unit {0}) (l r : List (PublicKey × Unit {0})) → e ∷ l ≡ e ∷ r → l ≡ r
  tail_eq e l r same = cc same

  has_lock-zero : (o : Option (Offer KadId)) → has_lock o ≡ 0 → sending_of o ≡ []
  has_lock-zero none e = refl
  has_lock-zero (some o) e = cc e

  -- If the first peers have different keys, none of them the node's own, then when the queue is
  -- empty, the loop holds no peer and no goroutine is left, exactly the first peers and the results
  -- were probed.
  pub probes_all :
      (size : ℕ) (own : PublicKey) (kids : List KadId) (s : System KadId PublicKey)
      → IsDistinct ((own, tt) ∷ map entry kids)
      → Reach pub_key size own kids s
      → s.queue ≡ []
      → s.held ≡ none
      → busy s ≡ 0
      → map entry s.probed ≡ map entry (kids ++ s.results)
  probes_all size own kids s d reach idle free over =
      let w = visits_once size own kids s d reach in
      let nothing : sending_of s.offering ≡ [] = has_lock-zero s.offering (omega (arith, over)) in
      let all : met s.probed s.held s.queue s.offering ≡ s.probed =
        rw (free, idle, nothing) (append-nil s.probed) in
      ap (map entry) (sym all) ∙ tail_eq (own, tt) _ _ (sym w.visits ∙ w.finds)
