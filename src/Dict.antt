-- ===== src/Dict.antt =====
-- Python's `dict`, in insertion order, as an association list in which no key is written twice.
-- A `defaultdict` is the same dict, read by `get_or`.
use flow_manager.Base.{
  ==_iff, ==_refl, Bool-cases, Key, List, Option, [], ap, arith, if◌then◌else◌, inl, inr, none,
  refl, some, ◌==◌, ◌∷◌, ◌≡◌,
}

abbrev pub Dict {ℓ κ} : Type ℓ → Type κ → Type (ℓ ⊔ κ)
Dict K V = List (K × V)

module _ {ℓ κ} {K : Type ℓ} {V : Type κ} ⦃e : Key K⦄ where
  -- d.get(k)
  unfoldable pub lookup : K → Dict K V → Option V
  lookup k [] = none
  lookup k ((j, v) ∷ d) = if j == k then some v else lookup k d

  -- d[k] = v
  unfoldable pub insert : K → V → Dict K V → Dict K V
  insert k v [] = (k, v) ∷ []
  insert k v ((j, w) ∷ d) = if j == k then (j, v) ∷ d else (j, w) ∷ insert k v d

  -- del d[k], of a key that is there
  unfoldable pub erase : K → Dict K V → Dict K V
  erase k [] = []
  erase k ((j, w) ∷ d) = let rest = erase k d in if j == k then rest else (j, w) ∷ rest

  pub lookup-insert :
      (k j : K) (v : V) (d : Dict K V)
      → lookup j (insert k v d) ≡ (if k == j then some v else lookup j d)
  unfolding lookup insert
  lookup-insert k j v [] = ground arith
  lookup-insert k j v ((i, w) ∷ d) =
      ground (arith, ==_iff k j, ==_iff i k, ==_iff i j, lookup-insert k j v d)

  pub lookup-erase :
      (k j : K) (d : Dict K V) → lookup j (erase k d) ≡ (if k == j then none else lookup j d)
  unfolding lookup erase
  lookup-erase k j [] = ground arith
  lookup-erase k j ((i, w) ∷ d) =
      ground (arith, ==_iff k j, ==_iff i k, ==_iff i j, lookup-erase k j d)

  pub lookup-insert_self : (k : K) (v : V) (d : Dict K V) → lookup k (insert k v d) ≡ some v
  lookup-insert_self k v d = rw (lookup-insert k k v d, ==_refl k)

  pub lookup-erase_self : (k : K) (d : Dict K V) → lookup k (erase k d) ≡ none
  lookup-erase_self k d = rw (lookup-erase k k d, ==_refl k)

  -- The second of two writes to one key stays.
  pub insert-insert : (k : K) (v w : V) (d : Dict K V) → insert k v (insert k w d) ≡ insert k v d
  unfolding insert
  insert-insert k v w [] = rw (==_refl k)
  insert-insert k v w ((j, u) ∷ d) = elim (Bool-cases (j == k)) [
    | inl hit ↦ rw (hit, insert, hit)
    | inr miss ↦ rw (miss, insert, miss) (ap (◌∷◌ (j, u)) (insert-insert k v w d))
  ]

  erase_absent : (k : K) (d : Dict K V) → lookup k d ≡ none → erase k d ≡ d
  unfolding lookup erase
  erase_absent k [] h = refl
  erase_absent k ((j, w) ∷ d) h = elim (Bool-cases (j == k)) [
    | inl hit ↦ ground arith
    | inr miss ↦ rw (miss, erase_absent k d (ground arith))
  ]

  -- What is written under a new key and deleted again leaves no trace.
  pub erase-insert_absent :
      (k : K) (v : V) (d : Dict K V) → lookup k d ≡ none → erase k (insert k v d) ≡ d
  unfolding lookup insert erase
  erase-insert_absent k v [] h = rw (==_refl k)
  erase-insert_absent k v ((j, w) ∷ d) h = elim (Bool-cases (j == k)) [
    | inl hit ↦ ground arith
    | inr miss ↦ rw (miss, insert, erase, miss, erase-insert_absent k v d (ground arith))
  ]

  pub lookup-empty : (k : K) → lookup k [] ≡ none
  unfolding lookup
  lookup-empty k = refl
