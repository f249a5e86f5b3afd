-- ===== src/Prelude/Eq.antt =====
-- Structural comparison, as an interface with its law.
use mathlib.Core.Path.{◌≡◌, refl}
use mathlib.Core.Logic.{◌↔◌}
use mathlib.Core.Bool.{Bool, true, false, ◌&&◌}
use mathlib.Core.List.{List, [], ◌∷◌}
use mathlib.Core.Option.{Option, none, some}
use Prim.Native.Nat.{ℕ}
use Prim.Native.String.{String}
use native.Mathlib.Omega.{arith}
use text.Mathlib.TextEquality.{eq_iff}
use openclaw_managed_agents.Prelude.Tests.{nat_eq, nat_eq_iff, str_eq}

infix 50 ◌==◌
abbrev pub bool_eq : Bool → Bool → Bool
bool_eq true b = b
bool_eq false true = false
bool_eq false false = true

pub bool_eq_iff : (a b : Bool) → (bool_eq a b ≡ true) ↔ (a ≡ b)
bool_eq_iff a b = ground arith

-- A test of sameness for a type.
pub record Comparable {ℓ} (T : Type ℓ) : Type ℓ where
  pub same : T → T → Bool
  pub same_iff : (t u : T) → (same t u ≡ true) ↔ (t ≡ u)

instance abbrev pub eq_bool : Comparable Bool
eq_bool = record { same = bool_eq; same_iff = bool_eq_iff }

abbrev pub ◌==◌ {ℓ} : {T : Type ℓ} ⦃c : Comparable T⦄ → T → T → Bool
◌==◌ ⦃c⦄ t u = c.same t u

instance abbrev pub eq_nat : Comparable ℕ
eq_nat = record { same = nat_eq; same_iff = nat_eq_iff }

instance abbrev pub eq_string : Comparable String
eq_string = record { same = str_eq; same_iff = eq_iff }

module _ {ℓ} {A : Type ℓ} ⦃e : Comparable A⦄ where
  abbrev pub list_eq : List A → List A → Bool
  list_eq [] [] = true
  list_eq (x ∷ xs) (y ∷ ys) = (x == y) && list_eq xs ys
  list_eq _ _ = false

  abbrev pub option_eq : Option A → Option A → Bool
  option_eq none none = true
  option_eq (some x) (some y) = x == y
  option_eq _ _ = false

  list_eq_sound : (xs ys : List A) → list_eq xs ys ≡ true → xs ≡ ys
  list_eq_sound [] [] h = refl
  list_eq_sound [] (y ∷ ys) h = ground arith
  list_eq_sound (x ∷ xs) [] h = ground arith
  list_eq_sound (x ∷ xs) (y ∷ ys) h = ground (arith, e.same_iff x y, list_eq_sound xs ys)

  list_eq_complete : (xs : List A) → list_eq xs xs ≡ true
  list_eq_complete [] = refl
  list_eq_complete (x ∷ xs) = ground (arith, e.same_iff x x, list_eq_complete xs)

  pub list_eq_iff : (xs ys : List A) → (list_eq xs ys ≡ true) ↔ (xs ≡ ys)
  list_eq_iff xs ys = (list_eq_sound xs ys, λ p. rw p (list_eq_complete ys))

  pub option_eq_iff : (a b : Option A) → (option_eq a b ≡ true) ↔ (a ≡ b)
  option_eq_iff none none = ground arith
  option_eq_iff none (some y) = ground arith
  option_eq_iff (some x) none = ground arith
  option_eq_iff (some x) (some y) = ground (arith, e.same_iff x y)

  instance abbrev pub eq_list : Comparable (List A)
  eq_list = record { same = list_eq; same_iff = list_eq_iff }

  instance abbrev pub eq_option : Comparable (Option A)
  eq_option = record { same = option_eq; same_iff = option_eq_iff }

module _ {ℓ κ} {A : Type ℓ} {B : Type κ} ⦃e : Comparable A⦄ ⦃f : Comparable B⦄ where
  abbrev pub pair_eq : A × B → A × B → Bool
  pair_eq (a, b) (c, d) = (a == c) && (b == d)

  pub pair_eq_iff : (p q : A × B) → (pair_eq p q ≡ true) ↔ (p ≡ q)
  pair_eq_iff (a, b) (c, d) = ground (arith, e.same_iff a c, f.same_iff b d)

  instance abbrev pub eq_pair : Comparable (A × B)
  eq_pair = record { same = pair_eq; same_iff = pair_eq_iff }
