-- ===== src/Ids.antt =====
-- Python's lists used as collections of keys: `in`, `append`, `remove`, and sets of symbols.
use flow_manager.Base.{
  ==_iff, Bool, Bool-cases, Key, List, [], arith, false, if◌then◌else◌, inl, inr, refl, true, ℕ,
  ◌++◌, ◌+◌, ◌<◌, ◌==◌, ◌||◌, ◌∷◌, ◌≡◌,
}

module _ {ℓ} {K : Type ℓ} ⦃e : Key K⦄ where
  -- x in l
  unfoldable pub contains : K → List K → Bool
  contains x [] = false
  contains x (y ∷ l) = y == x || contains x l

  -- l.remove(x), of an element that is there: the first one goes
  unfoldable pub remove : K → List K → List K
  remove x [] = []
  remove x (y ∷ l) = if y == x then l else y ∷ remove x l

  -- How often a key stands in a list.
  unfoldable pub count : K → List K → ℕ
  count x [] = 0
  count x (y ∷ l) = (if y == x then 1 else 0) + count x l

  -- s.add(x), of a set in the order in which its elements came
  unfoldable pub set_add : K → List K → List K
  unfolding contains
  set_add x s = if contains x s then s else s ++ x ∷ []

  -- s.union(t)
  unfoldable pub set_union : List K → List K → List K
  set_union s [] = s
  set_union s (x ∷ t) = set_union (set_add x s) t

  -- No element stands twice.
  abbrev pub IsDistinct : List K → Type ℓ
  IsDistinct [] = Unit
  IsDistinct (x ∷ l) = (contains x l ≡ false) × IsDistinct l

  pub remove_head : (x y : K) (l : List K) → (y == x) ≡ true → remove x (y ∷ l) ≡ l
  unfolding remove
  remove_head x y l h = rw h

  pub remove_tail : (x y : K) (l : List K) → (y == x) ≡ false → remove x (y ∷ l) ≡ y ∷ remove x l
  unfolding remove
  remove_tail x y l h = rw h

  pub count-append : (x : K) (l m : List K) → count x (l ++ m) ≡ count x l + count x m
  unfolding count
  count-append x [] m = omega arith
  count-append x (y ∷ l) m = omega (arith, count-append x l m)

  pub count-remove_self :
      (x : K) (l : List K) → contains x l ≡ true → count x (remove x l) + 1 ≡ count x l
  unfolding count remove contains
  count-remove_self x [] h = cc
  count-remove_self x (y ∷ l) h = ground (arith, count-remove_self x l)

  pub count-remove_ne : (x z : K) (l : List K) → (x == z) ≡ false → count z (remove x l) ≡ count z l
  unfolding count remove
  count-remove_ne x z [] h = refl
  count-remove_ne x z (y ∷ l) h =
      ground (arith, ==_iff y x, ==_iff y z, ==_iff x z, count-remove_ne x z l h)

  pub count_of_contains : (x : K) (l : List K) → contains x l ≡ false → count x l ≡ 0
  unfolding count contains
  count_of_contains x [] h = refl
  count_of_contains x (y ∷ l) h = ground (arith, count_of_contains x l)

  pub contains_of_count : (x : K) (l : List K) → 0 < count x l → contains x l ≡ true
  unfolding count contains
  contains_of_count x [] h = absurd (omega arith)
  contains_of_count x (y ∷ l) h = ground (arith, contains_of_count x l)

  pub contains-append :
      (x : K) (l m : List K) → contains x (l ++ m) ≡ (contains x l || contains x m)
  unfolding contains
  contains-append x [] m = refl
  contains-append x (y ∷ l) m = ground (arith, contains-append x l m)

  pub contains-set_add :
      (x y : K) (s : List K) → contains x (set_add y s) ≡ (contains x s || y == x)
  unfolding set_add
  contains-set_add x y s = elim (Bool-cases (contains y s)) [
    | inl old ↦ rw (old, set_add) (ground (arith, ==_iff y x, old))
    | inr absent ↦
        rw (absent, set_add, contains-append x s (y ∷ [])) (unfold contains in ground arith)
  ]

  pub contains-set_union :
      (x : K) (s t : List K) → contains x (set_union s t) ≡ (contains x s || contains x t)
  unfolding set_union contains
  contains-set_union x s [] = ground arith
  contains-set_union x s (y ∷ t) =
      ground (arith, contains-set_union x (set_add y s) t, contains-set_add x y s)

  IsDistinct-append_one :
      (x : K) (s : List K) → contains x s ≡ false → IsDistinct s → IsDistinct (s ++ x ∷ [])
  unfolding contains
  IsDistinct-append_one x [] h d = (refl, tt)
  IsDistinct-append_one x (y ∷ s) h d =
      ground
        (arith, IsDistinct-append_one x s, contains-append y s (x ∷ []), ==_iff x y, ==_iff y x)

  pub set_add-IsDistinct : (x : K) (s : List K) → IsDistinct s → IsDistinct (set_add x s)
  unfolding set_add
  set_add-IsDistinct x s d = ground (arith, IsDistinct-append_one x s)

  pub set_union-IsDistinct : (s t : List K) → IsDistinct s → IsDistinct (set_union s t)
  unfolding set_union
  set_union-IsDistinct s [] d = d
  set_union-IsDistinct s (x ∷ t) d = set_union-IsDistinct (set_add x s) t (set_add-IsDistinct x s d)
