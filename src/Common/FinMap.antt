-- ===== src/Common/FinMap.antt =====
-- Go's `map[K]V` as an association list over a key type with a Boolean equality. The order of the
-- list is the order in which `range` visits the entries.
use mathlib.Core.Path.{◌≡◌, refl, sym, ap, ◌∙◌, subst}
use mathlib.Core.Logic.{◌↔◌, inl, inr}
use mathlib.Core.Bool.{Bool, true, false, ◌&&◌}
use mathlib.Core.Option.{Option, none, some}
use mathlib.Core.List.{List, [], ◌∷◌, ◌++◌, append-nil, append_assoc}
use native.Mathlib.Omega.{arith}
use Prim.Native.Nat.{ℕ}
use carlo.Common.Tests.{◌==◌, ==_iff, if◌then◌else◌, Bool-cases}
use carlo.Common.Lists.{All}

-- An equality test and its law.
pub record Key {ℓ} (K : Type ℓ) : Type ℓ where
  pub beq : K → K → Bool
  pub beq_iff : (a b : K) → (beq a b ≡ true) ↔ (a ≡ b)

instance abbrev pub nat_key : Key ℕ
nat_key = record { beq = ◌==◌; beq_iff = ==_iff }

-- Byte strings are compared byte by byte.
abbrev pub bytes_eq : List ℕ → List ℕ → Bool
bytes_eq [] [] = true
bytes_eq (x ∷ xs) (y ∷ ys) = x == y && bytes_eq xs ys
bytes_eq _ _ = false

pub bytes_eq_iff : (a b : List ℕ) → (bytes_eq a b ≡ true) ↔ (a ≡ b)
bytes_eq_iff [] [] = ((λ _. refl), (λ _. refl))
bytes_eq_iff [] (y ∷ ys) = ((λ h. cc), (λ h. cc))
bytes_eq_iff (x ∷ xs) [] = ((λ h. cc), (λ h. cc))
bytes_eq_iff (x ∷ xs) (y ∷ ys) =
    ((λ h. ground (arith, bytes_eq_iff xs ys)), (λ h. ground (arith, bytes_eq_iff xs ys)))

instance abbrev pub bytes_key : Key (List ℕ)
bytes_key = record { beq = bytes_eq; beq_iff = bytes_eq_iff }

module _ {ℓ κ} {K : Type ℓ} {V : Type κ} ⦃key : Key K⦄ where
  abbrev pub lookup : K → List (K × V) → Option V
  lookup k [] = none
  lookup k ((j, v) ∷ m) = if key.beq j k then some v else lookup k m

  -- `m[k] = v`: a new key goes to the end.
  abbrev pub insert : K → V → List (K × V) → List (K × V)
  insert k v [] = (k, v) ∷ []
  insert k v ((j, w) ∷ m) = if key.beq j k then (k, v) ∷ m else (j, w) ∷ insert k v m

  -- `delete(m, k)`.
  abbrev pub delete : K → List (K × V) → List (K × V)
  delete k [] = []
  delete k ((j, w) ∷ m) = if key.beq j k then delete k m else (j, w) ∷ delete k m

  pub lookup-insert :
      (k j : K) (v : V) (m : List (K × V))
      → lookup j (insert k v m) ≡ (if key.beq k j then some v else lookup j m)
  lookup-insert k j v [] = refl
  lookup-insert k j v ((i, w) ∷ m) =
      ground (arith, key.beq_iff k j, key.beq_iff i k, key.beq_iff i j, lookup-insert k j v m)

  pub lookup-delete :
      (k j : K) (m : List (K × V))
      → lookup j (delete k m) ≡ (if key.beq k j then none else lookup j m)
  lookup-delete k j [] = ground arith
  lookup-delete k j ((i, w) ∷ m) =
      ground (arith, key.beq_iff k j, key.beq_iff i k, key.beq_iff i j, lookup-delete k j m)

  -- A property of every entry.
  module _ {μ} (P : K × V → Type μ) where
    pub All-insert : (k : K) (v : V) (m : List (K × V)) → P (k, v) → All P m → All P (insert k v m)
    All-insert k v [] p h = (p, tt)
    All-insert k v ((j, w) ∷ m) p h = ground (arith, All-insert k v m p h.1)

    pub All-delete : (k : K) (m : List (K × V)) → All P m → All P (delete k m)
    All-delete k [] h = tt
    All-delete k ((j, w) ∷ m) h = ground (arith, All-delete k m h.1)

    pub lookup-All : (k : K) (v : V) (m : List (K × V)) → lookup k m ≡ some v → All P m → P (k, v)
    lookup-All k v [] e h = cc
    lookup-All k v ((j, w) ∷ m) e h = elim (Bool-cases (key.beq j k)) [
      | inl hit ↦ subst P (cc ((key.beq_iff j k).0 hit)) h.0
      | inr miss ↦ lookup-All k v m (ground arith) h.1
    ]

  -- What holds of the entries with other keys is all that is asked after a deletion.
  pub delete-All {μ ν} :
      (P : K × V → Type μ) (Q : K × V → Type ν) (k : K)
      → ((e : K × V) → key.beq e.0 k ≡ false → P e → Q e)
      → (m : List (K × V)) → All P m
      → All Q (delete k m)
  delete-All P Q k f [] h = tt
  delete-All P Q k f ((j, w) ∷ m) h = elim (Bool-cases (key.beq j k)) [
    | inl hit ↦ rw hit (delete-All P Q k f m h.1)
    | inr miss ↦ rw miss (f (j, w) miss h.0, delete-All P Q k f m h.1)
  ]

  -- Assigning entries one after the other.
  abbrev pub insert_all : List (K × V) → List (K × V) → List (K × V)
  insert_all m [] = m
  insert_all m ((k, v) ∷ es) = insert_all (insert k v m) es

  -- No entry has the key `k`.
  abbrev pub Lacks : K → List (K × V) → Type (ℓ ⊔ κ)
  Lacks k [] = Unit
  Lacks k ((j, v) ∷ m) = (key.beq j k ≡ false) × Lacks k m

  -- Every key stands once.
  abbrev pub IsDistinct : List (K × V) → Type (ℓ ⊔ κ)
  IsDistinct [] = Unit
  IsDistinct ((k, v) ∷ m) = Lacks k m × IsDistinct m

  pub insert-eq-append :
      (k : K) (v : V) (m : List (K × V)) → Lacks k m → insert k v m ≡ m ++ (k, v) ∷ []
  insert-eq-append k v [] h = refl
  insert-eq-append k v ((j, w) ∷ m) h = rw h.0 (ap (◌∷◌ (j, w)) (insert-eq-append k v m h.1))

  Lacks-append :
      (j k : K) (v : V) (m : List (K × V))
      → Lacks j m
      → key.beq j k ≡ false
      → Lacks j (m ++ (k, v) ∷ [])
  Lacks-append j k v [] h e = (ground (arith, key.beq_iff j k, key.beq_iff k j), tt)
  Lacks-append j k v ((i, w) ∷ m) h e = (h.0, Lacks-append j k v m h.1 e)

  -- A key that is not found is in no entry.
  pub lookup-none-Lacks : (k : K) (m : List (K × V)) → lookup k m ≡ none → Lacks k m
  lookup-none-Lacks k [] e = tt
  lookup-none-Lacks k ((j, w) ∷ m) e = elim (Bool-cases (key.beq j k)) [
    | inl hit ↦ cc (sym (rw hit at e))
    | inr miss ↦ (miss, lookup-none-Lacks k m (rw miss at e))
  ]

  pub IsDistinct-snoc :
      (k : K) (v : V) (m : List (K × V)) → Lacks k m → IsDistinct m → IsDistinct (m ++ (k, v) ∷ [])
  IsDistinct-snoc k v [] l d = (tt, tt)
  IsDistinct-snoc k v ((j, w) ∷ m) l d =
      (Lacks-append j k v m d.0 l.0, IsDistinct-snoc k v m l.1 d.1)

  Lacks-append_all :
      (k : K) (v : V) (m es : List (K × V))
      → All (λ e. Lacks e.0 m) es
      → Lacks k es
      → All (λ e. Lacks e.0 (m ++ (k, v) ∷ [])) es
  Lacks-append_all k v m [] h l = tt
  Lacks-append_all k v m ((j, w) ∷ es) h l =
      (Lacks-append j k v m h.0 l.0, Lacks-append_all k v m es h.1 l.1)

  insert_all-eq-append :
      (m es : List (K × V)) → All (λ e. Lacks e.0 m) es → IsDistinct es → insert_all m es ≡ m ++ es
  insert_all-eq-append m [] h d = sym (append-nil m)
  insert_all-eq-append m ((k, v) ∷ es) h d = rw (insert-eq-append k v m h.0) (
      insert_all-eq-append (m ++ (k, v) ∷ []) es (Lacks-append_all k v m es h.1 d.0) d.1
      ∙ append_assoc m ((k, v) ∷ []) es)

  Lacks-nil_all : (es : List (K × V)) → All (λ e. Lacks e.0 []) es
  Lacks-nil_all [] = tt
  Lacks-nil_all (e ∷ es) = (tt, Lacks-nil_all es)

  -- Distinct entries, assigned to an empty map in some order, stand in that order.
  pub insert_all_lem : (es : List (K × V)) → IsDistinct es → insert_all [] es ≡ es
  insert_all_lem es d = insert_all-eq-append [] es (Lacks-nil_all es) d

  Lacks-insert :
      (j k : K) (v : V) (m : List (K × V))
      → key.beq k j ≡ false
      → Lacks j m
      → Lacks j (insert k v m)
  Lacks-insert j k v [] e l = (e, tt)
  Lacks-insert j k v ((i, w) ∷ m) e l = elim (Bool-cases (key.beq i k)) [
    | inl hit ↦ rw hit (e, l.1)
    | inr miss ↦ rw miss (l.0, Lacks-insert j k v m e l.1)
  ]

  Lacks-delete : (j k : K) (m : List (K × V)) → Lacks j m → Lacks j (delete k m)
  Lacks-delete j k [] l = tt
  Lacks-delete j k ((i, w) ∷ m) l = elim (Bool-cases (key.beq i k)) [
    | inl hit ↦ rw hit (Lacks-delete j k m l.1)
    | inr miss ↦ rw miss (l.0, Lacks-delete j k m l.1)
  ]

  -- Assigning and deleting keep the keys distinct.
  pub insert-IsDistinct :
      (k : K) (v : V) (m : List (K × V)) → IsDistinct m → IsDistinct (insert k v m)
  insert-IsDistinct k v [] d = (tt, tt)
  insert-IsDistinct k v ((i, w) ∷ m) d = elim (Bool-cases (key.beq i k)) [
    | inl hit ↦ rw hit (subst (λ x. Lacks x m) ((key.beq_iff i k).0 hit) d.0, d.1)
    | inr miss ↦ rw miss (
      Lacks-insert i k v m (ground (arith, key.beq_iff i k, key.beq_iff k i)) d.0,
      insert-IsDistinct k v m d.1,
    )
  ]

  pub delete-IsDistinct : (k : K) (m : List (K × V)) → IsDistinct m → IsDistinct (delete k m)
  delete-IsDistinct k [] d = tt
  delete-IsDistinct k ((i, w) ∷ m) d = elim (Bool-cases (key.beq i k)) [
    | inl hit ↦ rw hit (delete-IsDistinct k m d.1)
    | inr miss ↦ rw miss (Lacks-delete i k m d.0, delete-IsDistinct k m d.1)
  ]
