-- ===== src/PositionManager/Targets.antt =====
-- `_process_target_updates` of position_manager.py.
use flow_manager.Base.{
  Bool, List, Option, String, [], arith, false, get_or, if◌then◌else◌, none, refl, some, string_eq,
  ◌==◌, ◌||◌, ◌∷◌, ◌≡◌,
}
use flow_manager.Dict.{insert, lookup-insert}
use flow_manager.Ids.{contains, contains-set_add, set_add}
use flow_manager.Int.{ℤ}
use flow_manager.PositionManager.{PositionManager, process_target_updates, set_targets, target_of}

-- The last update of a symbol in a queue.
unfoldable pub last_target : String → List (String × ℤ) → Option ℤ
last_target s [] = none
last_target s ((k, n) ∷ q) = elim (last_target s q) [
  | some m ↦ some m
  | none ↦ if k == s then some n else none
]

unfoldable pub is_updated : String → List (String × ℤ) → Bool
is_updated s [] = false
is_updated s ((k, n) ∷ q) = k == s || is_updated s q

pub last_target-none :
    (s : String) (q : List (String × ℤ)) → is_updated s q ≡ false → last_target s q ≡ none
unfolding last_target is_updated
last_target-none s [] h = refl
last_target-none s ((k, n) ∷ q) h = ground (arith, last_target-none s q)

module _ {B : Type 0} where
  pub set_targets-target :
      (q : List (String × ℤ)) (affected : List String) (p : PositionManager B) (s : String)
      → target_of (set_targets q affected p).1 s ≡ get_or (last_target s q) (target_of p s)
  unfolding set_targets last_target
  set_targets-target [] affected p s = refl
  set_targets-target ((k, n) ∷ q) affected p s = ground (
    arith,
    set_targets-target q (set_add k affected)
        (record p { target_positions = insert k n p.target_positions }) s,
    lookup-insert k s n p.target_positions,
  )

  pub set_targets-affected :
      (q : List (String × ℤ)) (affected : List String) (p : PositionManager B) (s : String)
      → contains s (set_targets q affected p).0 ≡ (contains s affected || is_updated s q)
  unfolding set_targets is_updated
  set_targets-affected [] affected p s = ground arith
  set_targets-affected ((k, n) ∷ q) affected p s = ground (
    arith,
    set_targets-affected q (set_add k affected)
        (record p { target_positions = insert k n p.target_positions }) s,
    contains-set_add s k affected,
  )

  -- All but the targets stays as it was.
  pub set_targets_keeps :
      (q : List (String × ℤ)) (affected : List String) (p : PositionManager B)
      → (set_targets q affected p).1
        ≡ record p { target_positions = (set_targets q affected p).1.target_positions }
  unfolding set_targets
  set_targets_keeps [] affected p = refl
  set_targets_keeps ((k, n) ∷ q) affected p =
      set_targets_keeps q (set_add k affected)
        (record p { target_positions = insert k n p.target_positions })

  -- Reading the queue of target updates gives each symbol the last of its updates as its target,
  -- or leaves it the target it had, returns exactly the symbols that were updated, empties the
  -- queue and changes nothing else.
  pub process_target_updates_lem :
      (p : PositionManager B) (s : String)
      → let (symbols, q) = process_target_updates p in
        (target_of q s ≡ get_or (last_target s p.target_updates_q) (target_of p s))
        × (contains s symbols ≡ is_updated s p.target_updates_q)
        × (q ≡ record p { target_positions = q.target_positions; target_updates_q = [] })
  unfolding process_target_updates contains
  process_target_updates_lem p s = (
    set_targets-target p.target_updates_q [] (record p { target_updates_q = [] }) s,
    set_targets-affected p.target_updates_q [] (record p { target_updates_q = [] }) s,
    set_targets_keeps p.target_updates_q [] (record p { target_updates_q = [] }),
  )
