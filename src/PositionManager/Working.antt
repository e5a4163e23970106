-- ===== src/PositionManager/Working.antt =====
-- `_calculate_working_position` of position_manager.py as a sum, and what changes it.
use flow_manager.Base.{
  ==_iff, Bool-cases, List, String, [], ap, arith, inl, inr, refl, some, string_eq, sym, true, ◌++◌,
  ◌==◌, ◌∙◌, ◌∷◌, ◌≡◌,
}
use flow_manager.Broker.{OrderDetails}
use flow_manager.Dict.{Dict, erase, insert, lookup, lookup-erase, lookup-insert, lookup-insert_self}
use flow_manager.Ids.{contains, count, remove, remove_head, remove_tail}
use flow_manager.Int.{+ℤ_assoc, +ℤ_zero, int_laws, parts, pos, zero_+ℤ, ℤ, ◌+ℤ◌}
use flow_manager.PositionManager.{
  PositionManager, calculate_working_position, ids_of, outstanding, position_of, working_from,
}

-- The sum of what the listed orders may still add.
unfoldable pub committed : Dict String OrderDetails → List String → ℤ
committed live [] = pos 0
committed live (id ∷ ids) = outstanding (lookup id live) +ℤ committed live ids

committed_cons :
    (live : Dict String OrderDetails) (id : String) (ids : List String)
    → committed live (id ∷ ids) ≡ outstanding (lookup id live) +ℤ committed live ids
unfolding committed
committed_cons live id ids = refl

pub working_from-eq-committed :
    (live : Dict String OrderDetails) (acc : ℤ) (ids : List String)
    → working_from live acc ids ≡ acc +ℤ committed live ids
unfolding working_from committed
working_from-eq-committed live acc [] = sym (+ℤ_zero acc)
working_from-eq-committed live acc (id ∷ ids) =
    working_from-eq-committed live (acc +ℤ outstanding (lookup id live)) ids
    ∙ +ℤ_assoc acc (outstanding (lookup id live)) (committed live ids)

pub working-eq-committed :
    {B : Type 0} (p : PositionManager B) (s : String)
    → calculate_working_position p s ≡ position_of p s +ℤ committed p.live_orders (ids_of p s)
unfolding calculate_working_position
working-eq-committed p s = working_from-eq-committed p.live_orders (position_of p s) (ids_of p s)

pub committed-append :
    (live : Dict String OrderDetails) (ids more : List String)
    → committed live (ids ++ more) ≡ committed live ids +ℤ committed live more
unfolding committed
committed-append live [] more = sym (zero_+ℤ (committed live more))
committed-append live (id ∷ ids) more =
    ap (◌+ℤ◌ (outstanding (lookup id live))) (committed-append live ids more)
    ∙ sym (+ℤ_assoc (outstanding (lookup id live)) (committed live ids) (committed live more))

-- Orders of the same outstanding quantities commit the same.
pub committed_congr :
    (live live' : Dict String OrderDetails) (ids : List String)
    → ((id : String) → outstanding (lookup id live') ≡ outstanding (lookup id live))
    → committed live' ids ≡ committed live ids
unfolding committed
committed_congr live live' [] same = refl
committed_congr live live' (id ∷ ids) same = rw (same id, committed_congr live live' ids same)

-- An order that is not listed commits nothing.
pub committed-insert_absent :
    (live : Dict String OrderDetails) (id : String) (o : OrderDetails) (ids : List String)
    → count id ids ≡ 0
    → committed (insert id o live) ids ≡ committed live ids
unfolding committed count
committed-insert_absent live id o [] h = refl
committed-insert_absent live id o (j ∷ ids) h = ground (
  arith,
  committed-insert_absent live id o ids,
  lookup-insert id j o live,
  ==_iff id j,
  ==_iff j id,
)

pub committed-erase_absent :
    (live : Dict String OrderDetails) (id : String) (ids : List String)
    → count id ids ≡ 0
    → committed (erase id live) ids ≡ committed live ids
unfolding committed count
committed-erase_absent live id [] h = refl
committed-erase_absent live id (j ∷ ids) h =
    ground
      (arith, committed-erase_absent live id ids, lookup-erase id j live, ==_iff id j, ==_iff j id)

-- A listed identifier contributes once, so a change of its order changes the sum by that much.
pub committed-insert_once :
    (live : Dict String OrderDetails) (id : String) (o : OrderDetails) (ids : List String)
    → count id ids ≡ 1
    → committed (insert id o live) ids +ℤ outstanding (lookup id live)
      ≡ committed live ids +ℤ outstanding (some o)
unfolding count
committed-insert_once live id o [] h = absurd (omega arith)
committed-insert_once live id o (j ∷ ids) h =
    rw (committed_cons (insert id o live) j ids, committed_cons live j ids)
      (elim (Bool-cases (j == id)) [
        | inl hit ↦
            let e : j ≡ id = (==_iff j id).0 hit in
            let rest = committed-insert_absent live id o ids (ground arith) in
            rw (e, lookup-insert_self id o live, rest) (omega int_laws)
        | inr miss ↦
            let rest = parts (committed-insert_once live id o ids (ground arith)) in
            let same : lookup j (insert id o live) ≡ lookup j live =
              ground (arith, ==_iff id j, ==_iff j id, lookup-insert id j o live) in
            rw same (omega int_laws)
      ])

-- Taking an identifier off the list takes its order out of the sum.
pub committed-remove :
    (live : Dict String OrderDetails) (id : String) (ids : List String)
    → contains id ids ≡ true
    → committed live (remove id ids) +ℤ outstanding (lookup id live) ≡ committed live ids
unfolding contains
committed-remove live id [] h = cc
committed-remove live id (j ∷ ids) h = elim (Bool-cases (j == id)) [
  | inl hit ↦
      let e : j ≡ id = (==_iff j id).0 hit in
      rw (remove_head id j ids hit, committed_cons live j ids, e) (omega int_laws)
  | inr miss ↦
      let rest = parts (committed-remove live id ids (ground arith)) in
      rw
        (
          remove_tail id j ids miss,
          committed_cons live j ids,
          committed_cons live j (remove id ids),
        )
        (omega int_laws)
]
