-- ===== src/Base/Lists.antt =====
-- Lists measured by native numbers, and a predicate on every element.
use Prim.Native.Nat.{ℕ, suc, ◌+◌, ◌<◌}
use mathlib.Core.Path.{◌≡◌, refl, sym, subst}
use mathlib.Core.Logic.{◌⊎◌, inl, inr}
use mathlib.Core.List.{List, [], ◌∷◌, ◌++◌}
use native.Mathlib.Omega.{arith}
use pty_relay.Base.Tests.{◌==◌, if◌then◌else◌}

module _ {ℓ} {A : Type ℓ} where
  abbrev pub length : List A → ℕ
  length [] = 0
  length (x ∷ xs) = suc (length xs)

  pub length-append : (xs ys : List A) → length (xs ++ ys) ≡ length xs + length ys
  length-append [] ys = omega arith
  length-append (x ∷ xs) ys = omega (arith, length-append xs ys)

module _ {ℓ κ} {A : Type ℓ} (P : A → Type κ) where
  abbrev pub All : List A → Type κ
  All [] = Unit
  All (x ∷ xs) = P x × All xs

  pub All-append : (xs ys : List A) → All xs → All ys → All (xs ++ ys)
  All-append [] ys hx hy = hy
  All-append (x ∷ xs) ys hx hy = (hx.0, All-append xs ys hx.1 hy)

-- A family with one value replaced.
pub updated-All {ℓ} :
    {A : Type ℓ} (P : ℕ → A → Type 0) (a : ℕ) (x : A) (f : ℕ → A)
    → P a x
    → ((i : ℕ) → P i (f i))
    → (i : ℕ) → P i (if i == a then x else f i)
updated-All P a x f p h i = ground (arith, p, h i)

pub updated_both-All {ℓ κ} :
    {A : Type ℓ} {B : Type κ} (P : B → A → Type 0) (a : ℕ) (y : B) (x : A) (g : ℕ → B) (f : ℕ → A)
    → P y x
    → ((i : ℕ) → P (g i) (f i))
    → (i : ℕ) → P (if i == a then y else g i) (if i == a then x else f i)
updated_both-All P a y x g f p h i = ground (arith, p, h i)

-- A byte string is a list of numbers below 256.
abbrev pub Bytes : Type 0
Bytes = List ℕ

abbrev pub IsByte : ℕ → Type 0
IsByte b = b < 256

-- An element of a list, with its place.
module _ {A : Type 0} where
  abbrev pub Occurs : A → List A → Type 0
  Occurs x [] = ⊥
  Occurs x (y ∷ ys) = (x ≡ y) ⊎ Occurs x ys

  pub Occurs-append_left : (x : A) (xs ys : List A) → Occurs x xs → Occurs x (xs ++ ys)
  Occurs-append_left x [] ys h = absurd h
  Occurs-append_left x (y ∷ xs) ys (inl e) = inl e
  Occurs-append_left x (y ∷ xs) ys (inr h) = inr (Occurs-append_left x xs ys h)

  pub Occurs-append_right : (x : A) (xs ys : List A) → Occurs x ys → Occurs x (xs ++ ys)
  Occurs-append_right x [] ys h = h
  Occurs-append_right x (y ∷ xs) ys h = inr (Occurs-append_right x xs ys h)

  pub All-Occurs {κ} : (P : A → Type κ) (xs : List A) → ((x : A) → Occurs x xs → P x) → All P xs
  All-Occurs P [] f = tt
  All-Occurs P (x ∷ xs) f = (f x (inl refl), All-Occurs P xs (λ y h. f y (inr h)))

  pub All-at {κ} : (P : A → Type κ) (x : A) (xs : List A) → All P xs → Occurs x xs → P x
  All-at P x [] h o = absurd o
  All-at P x (y ∷ xs) h (inl e) = subst P (sym e) h.0
  All-at P x (y ∷ xs) h (inr o) = All-at P x xs h.1 o

pub All-map {ℓ κ} :
    {A : Type ℓ} (P Q : A → Type κ) (xs : List A) → ((x : A) → P x → Q x) → All P xs → All Q xs
All-map P Q [] f h = tt
All-map P Q (x ∷ xs) f h = (f x h.0, All-map P Q xs f h.1)
