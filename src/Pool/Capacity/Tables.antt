-- ===== src/Pool/Capacity/Tables.antt =====
-- The tables that bound the number of containers, and what each kind of write does to them.
use openclaw_managed_agents.Prelude.{
  ℕ, suc, ◌+◌, ◌≤◌, ◌<◌, String, ◌≡◌, refl, Bool, true, false, ◌&&◌, Option, none, some, List, [],
  ◌∷◌, ◌++◌, arith, eq_iff, str_eq, if◌then◌else◌, is_some, length, length-append,
}
use openclaw_managed_agents.JsMap
use openclaw_managed_agents.JsMap.{JsMap, get-set, get-delete}
use openclaw_managed_agents.Pool.{
  ActiveContainer, Phase, waiting, looping, admitted, contains, add, remove,
}

module _ {V : Type 0} where
  pub length-set :
      (m : JsMap V) (k : String) (v : V)
      → length (JsMap.set m k v) ≡ (if is_some (JsMap.get m k) then length m else suc (length m))
  unfolding JsMap.set JsMap.get
  length-set [] k v = refl
  length-set ((j, w) ∷ m) k v = ground (arith, eq_iff j k, length-set m k v)

  pub length-delete-le : (m : JsMap V) (k : String) → length (JsMap.delete m k) ≤ length m
  unfolding JsMap.delete
  length-delete-le [] k = omega arith
  length-delete-le ((j, w) ∷ m) k = ground (arith, eq_iff j k, length-delete-le m k)

pub contains-remove :
    (xs : List String) (k j : String)
    → contains (remove xs k) j ≡ (if str_eq k j then false else contains xs j)
contains-remove [] k j = ground arith
contains-remove (x ∷ xs) k j =
    ground (arith, eq_iff x k, eq_iff x j, eq_iff k j, contains-remove xs k j)

pub length-remove :
    (xs : List String) (k : String)
    → length (remove xs k) + (if contains xs k then 1 else 0) ≤ length xs
length-remove [] k = omega arith
length-remove (x ∷ xs) k = ground (arith, eq_iff x k, length-remove xs k)

pub length-remove-none :
    (xs : List String) (k : String) → contains xs k ≡ false → length (remove xs k) ≡ length xs
length-remove-none [] k h = refl
length-remove-none (x ∷ xs) k h = ground (arith, eq_iff x k, length-remove-none xs k)

pub contains-add :
    (xs : List String) (k j : String)
    → contains (add xs k) j ≡ (if str_eq k j then true else contains xs j)
contains-add xs k j = ground (arith, eq_iff k j, snoc xs)
  where
    snoc :
        (ys : List String)
        → contains (ys ++ k ∷ []) j ≡ (if str_eq k j then true else contains ys j)
    snoc [] = ground (arith, eq_iff k j)
    snoc (y ∷ ys) = ground (arith, eq_iff k j, eq_iff y j, snoc ys)

-- An acquire that has passed the lock holds a reservation.
abbrev pub IsHeld : Option Phase → Bool → Type 0
IsHeld (some admitted) b = b ≡ true
IsHeld (some waiting) b = Unit
IsHeld (some looping) b = Unit
IsHeld none b = Unit

IsHeld-now :
    (c : Bool) (o : Option Phase) (b : Bool)
    → IsHeld o b
    → IsHeld (if c then some admitted else o) (if c then true else b)
IsHeld-now true o b h = refl
IsHeld-now false o b h = h

IsHeld-no_more :
    (c : Bool) (o : Option Phase) (b : Bool)
    → IsHeld o b
    → IsHeld (if c then none else o) (if c then false else b)
IsHeld-no_more true o b h = tt
IsHeld-no_more false o b h = h

pub record Inv (max : ℕ) (active : JsMap ActiveContainer) (pending : JsMap Phase)
    (reservations : List String) : Type 0 where
  pub room : length active + length reservations ≤ max
  pub held : (k : String) → IsHeld (JsMap.get pending k) (contains reservations k)
  pub apart : (k : String) → is_some (JsMap.get pending k) && is_some (JsMap.get active k) ≡ false

module _ (max : ℕ) (a : JsMap ActiveContainer) (p : JsMap Phase) (r : List String)
    (inv : Inv max a p r) (k : String) where
  pub Inv-evict : Inv max (JsMap.delete a k) p r
  Inv-evict = record {
    room = omega (arith, inv.room, length-delete-le a k);
    held = inv.held;
    apart = λ j. ground (arith, inv.apart j, get-delete a k j, eq_iff k j);
  }

  pub Inv-touch :
      (e : ActiveContainer) → is_some (JsMap.get a k) ≡ true → Inv max (JsMap.set a k e) p r
  Inv-touch e h = record {
    room = ground (arith, inv.room, length-set a k e);
    held = inv.held;
    apart = λ j. ground (arith, inv.apart j, get-set a k j e, eq_iff k j);
  }

  -- An acquire begins or goes through another round of the loop.
  pub Inv-start : is_some (JsMap.get a k) ≡ false → Inv max a (JsMap.set p k waiting) r
  Inv-start h = record {
    room = inv.room;
    held = λ j. ground (arith, inv.held j, get-set p k j waiting, eq_iff k j);
    apart = λ j. ground (arith, inv.apart j, get-set p k j waiting, eq_iff k j);
  }

  pub Inv-loop : is_some (JsMap.get p k) ≡ true → Inv max a (JsMap.set p k looping) r
  Inv-loop h = record {
    room = inv.room;
    held = λ j. ground (arith, inv.held j, get-set p k j looping, eq_iff k j);
    apart = λ j. ground (arith, inv.apart j, inv.apart k, get-set p k j looping, eq_iff k j);
  }

  pub Inv-hold :
      is_some (JsMap.get p k) ≡ true → contains r k ≡ true → Inv max a (JsMap.set p k admitted) r
  Inv-hold h c = record {
    room = inv.room;
    held = λ j. ground (arith, inv.held j, get-set p k j admitted, eq_iff k j);
    apart = λ j. ground (arith, inv.apart j, inv.apart k, get-set p k j admitted, eq_iff k j);
  }

  pub Inv-reserve :
      is_some (JsMap.get p k) ≡ true
      → length a + length (remove r k) < max
      → Inv max a (JsMap.set p k admitted) (add r k)
  Inv-reserve h l = record {
    room = ground (arith, inv.room, length-append r (k ∷ []), length-remove-none r k);
    held = λ j. rw (get-set p k j admitted) (
        rw (contains-add r k j)
          (IsHeld-now (str_eq k j) (JsMap.get p j) (contains r j) (inv.held j)));
    apart = λ j. ground (arith, inv.apart j, inv.apart k, get-set p k j admitted, eq_iff k j);
  }

  pub Inv-fail : Inv max a (JsMap.delete p k) (remove r k)
  Inv-fail = record {
    room = omega (arith, inv.room, length-remove r k);
    held = λ j. rw (get-delete p k j) (
        rw (contains-remove r k j)
          (IsHeld-no_more (str_eq k j) (JsMap.get p j) (contains r j) (inv.held j)));
    apart = λ j. ground (arith, inv.apart j, get-delete p k j, eq_iff k j);
  }

  pub Inv-own :
      (e : ActiveContainer)
      → JsMap.get p k ≡ some admitted
      → Inv max (JsMap.set a k e) (JsMap.delete p k) (remove r k)
  Inv-own e h = record {
    room = ground (arith, inv.room, inv.held k, inv.apart k, length-set a k e, length-remove r k);
    held = λ j. rw (get-delete p k j) (
        rw (contains-remove r k j)
          (IsHeld-no_more (str_eq k j) (JsMap.get p j) (contains r j) (inv.held j)));
    apart = λ j. ground (arith, inv.apart j, get-delete p k j, get-set a k j e, eq_iff k j);
  }
