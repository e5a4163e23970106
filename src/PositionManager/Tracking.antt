-- ===== src/PositionManager/Tracking.antt =====
-- The two dicts in which position_manager.py tracks its orders, `live_orders` and
-- `live_orders_by_symbol`, agree: an invariant, and each update of the dicts.
use flow_manager.Base.{
  ==_iff, ==_refl, Bool-cases, List, Option, String, [], arith, false, get_or, if◌then◌else◌, inl,
  inr, none, refl, some, string_eq, suc, ℕ, ◌++◌, ◌<◌, ◌==◌, ◌∷◌, ◌≡◌, ◌≢◌, ◌≤◌,
}
use flow_manager.Broker.{OrderDetails, is_terminal}
use flow_manager.Dict.{Dict, erase, insert, lookup, lookup-empty, lookup-erase, lookup-insert}
use flow_manager.Ids.{
  contains, contains_of_count, count, count-append, count-remove_ne, count-remove_self, remove,
}
use flow_manager.PositionManager.{keep_or_drop, untrack}

-- How often an identifier is to be listed under a symbol.
abbrev pub listed : String → Option OrderDetails → ℕ
listed s none = 0
listed s (some o) = if o.symbol == s then 1 else 0

abbrev pub ids_under : Dict String (List String) → String → List String
ids_under ids s = get_or (lookup s ids) []

-- Every live order is listed once, under its own symbol, and nothing else is listed; an
-- identifier that is still to be drawn is unknown; no live order is over; no list is empty.
pub record IsTracked (uuid : ℕ → String) (issued : ℕ) (live : Dict String OrderDetails)
    (ids : Dict String (List String)) : Type 0 where
  pub counted : (s id : String) → count id (ids_under ids s) ≡ listed s (lookup id live)
  pub unknown : (i : ℕ) → issued ≤ i → lookup (uuid i) live ≡ none
  pub active :
      (id : String) (o : OrderDetails) → lookup id live ≡ some o → is_terminal o.status ≡ false
  pub nonempty : (s : String) → lookup s ids ≢ some []

-- `uuid4` never gives an identifier twice.
abbrev pub IsFresh : (ℕ → String) → Type 0
IsFresh uuid = (i j : ℕ) → uuid i ≡ uuid j → i ≡ j

module _ (uuid : ℕ → String) (issued : ℕ) (live : Dict String OrderDetails)
    (ids : Dict String (List String)) (t : IsTracked uuid issued live ids) where
  -- A live order changes, but neither its symbol nor its being alive.
  pub update-IsTracked :
      (id : String) (o o' : OrderDetails)
      → lookup id live ≡ some o
      → o'.symbol ≡ o.symbol
      → is_terminal o'.status ≡ false
      → IsTracked uuid issued (insert id o' live) ids
  update-IsTracked id o o' found same alive = record {
    counted = λ s j. ground (arith, t.counted s j, lookup-insert id j o' live, ==_iff id j);
    unknown =
        λ i h. ground (arith, t.unknown i h, lookup-insert id (uuid i) o' live, ==_iff id (uuid i));
    active = λ j x e. ground (arith, t.active j x, lookup-insert id j o' live);
    nonempty = t.nonempty;
  }

  -- A new order under the next identifier.
  pub add-IsTracked :
      (s : String) (o : OrderDetails)
      → IsFresh uuid
      → o.symbol ≡ s
      → is_terminal o.status ≡ false
      → IsTracked uuid
          (suc issued)
          (insert (uuid issued) o live)
          (insert s (ids_under ids s ++ uuid issued ∷ []) ids)
  unfolding count
  add-IsTracked s o fresh same alive = record {
    counted = λ r j. ground (
      arith,
      t.counted r j,
      t.counted s j,
      t.unknown issued,
      lookup-insert (uuid issued) j o live,
      lookup-insert s r (ids_under ids s ++ uuid issued ∷ []) ids,
      count-append j (ids_under ids s) (uuid issued ∷ []),
      ==_iff (uuid issued) j,
      ==_iff s r,
      ==_iff o.symbol r,
    );
    unknown = λ i h. ground (
      arith,
      t.unknown i,
      lookup-insert (uuid issued) (uuid i) o live,
      ==_iff (uuid issued) (uuid i),
      fresh issued i,
    );
    active = λ j x e. ground (arith, t.active j x, lookup-insert (uuid issued) j o live);
    nonempty = λ r e. ground (
      arith,
      t.nonempty r,
      lookup-insert s r (ids_under ids s ++ uuid issued ∷ []) ids,
      count-append (uuid issued) (ids_under ids s) (uuid issued ∷ []),
      ==_refl (uuid issued),
    );
  }

  pub lookup-untrack :
      (s r id : String)
      → 0 < count id (ids_under ids s)
      → ids_under (untrack s id ids) r
        ≡ (if s == r then remove id (ids_under ids s) else ids_under ids r)
  unfolding untrack
  lookup-untrack s r id h =
      rw (contains_of_count id (ids_under ids s) h, untrack) (kept (remove id (ids_under ids s)))
    where
      kept :
          (l : List String)
          → ids_under (keep_or_drop s l ids) r ≡ (if s == r then l else ids_under ids r)
      kept [] = ground (arith, lookup-erase s r ids)
      kept (x ∷ l) = ground (arith, lookup-insert s r (x ∷ l) ids)

  nonempty-untrack : (s r id : String) → lookup r (untrack s id ids) ≢ some []
  unfolding untrack
  nonempty-untrack s r id = elim (Bool-cases (contains id (ids_under ids s))) [
    | inl there ↦ rw (there, untrack) (kept (remove id (ids_under ids s)))
    | inr absent ↦ rw (absent, untrack) (t.nonempty r)
  ]
    where
      kept : (l : List String) → lookup r (keep_or_drop s l ids) ≢ some []
      kept [] = ground (arith, lookup-erase s r ids, t.nonempty r)
      kept (x ∷ l) = ground (arith, lookup-insert s r (x ∷ l) ids, t.nonempty r)

  -- An order that is over leaves both dicts.
  pub drop-IsTracked :
      (id : String) (o : OrderDetails)
      → lookup id live ≡ some o
      → IsTracked uuid issued (erase id live) (untrack o.symbol id ids)
  drop-IsTracked id o found = record {
    counted = λ r j. ground (
      arith,
      t.counted r j,
      t.counted o.symbol j,
      t.counted o.symbol id,
      lookup-untrack o.symbol r id,
      lookup-erase id j live,
      count-remove_self id (ids_under ids o.symbol),
      contains_of_count id (ids_under ids o.symbol),
      count-remove_ne id j (ids_under ids o.symbol),
      ==_refl o.symbol,
      ==_iff o.symbol r,
      ==_iff id j,
    );
    unknown = λ i h. ground (arith, t.unknown i h, lookup-erase id (uuid i) live);
    active = λ j x e. ground (arith, t.active j x, lookup-erase id j live);
    nonempty = λ r. nonempty-untrack o.symbol r id;
  }

-- Nothing is tracked at the start.
pub empty-IsTracked : (uuid : ℕ → String) → IsTracked uuid 0 [] []
empty-IsTracked uuid = record {
  counted = λ s id. unfold lookup count in refl;
  unknown = λ i h. lookup-empty (uuid i);
  active = λ id o e. absurd (unfold lookup in cc);
  nonempty = λ s e. unfold lookup in cc;
}
