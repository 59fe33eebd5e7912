-- ===== src/Base/Assoc.antt =====
-- JavaScript's `Map` with number keys: an association list in insertion order.
use Prim.Native.Nat.{ℕ, ◌+◌, ◌≤◌}
use mathlib.Core.Path.{◌≡◌, refl}
use mathlib.Core.Logic.{◌≢◌}
use mathlib.Core.List.{List, [], ◌∷◌}
use mathlib.Core.Option.{Option, none, some}
use native.Mathlib.Omega.{arith}
use pty_relay.Base.Tests.{◌==◌, if◌then◌else◌}
use pty_relay.Base.Lists.{length, All}

module _ {ℓ} {V : Type ℓ} where
  -- `map.get`
  unfoldable pub get : ℕ → List (ℕ × V) → Option V
  get k [] = none
  get k ((j, v) ∷ m) = if j == k then some v else get k m

  -- `map.set`: a new key goes to the end, an old one keeps its place
  unfoldable pub set : ℕ → V → List (ℕ × V) → List (ℕ × V)
  set k v [] = (k, v) ∷ []
  set k v ((j, w) ∷ m) = if j == k then (j, v) ∷ m else (j, w) ∷ set k v m

  -- `map.delete`
  unfoldable pub delete : ℕ → List (ℕ × V) → List (ℕ × V)
  delete k [] = []
  delete k ((j, w) ∷ m) = if j == k then m else (j, w) ∷ delete k m

  abbrev pub keys : List (ℕ × V) → List ℕ
  keys [] = []
  keys ((j, v) ∷ m) = j ∷ keys m

  abbrev pub values : List (ℕ × V) → List V
  values [] = []
  values ((j, v) ∷ m) = v ∷ values m

  -- No key stands twice.
  abbrev pub IsMap : List (ℕ × V) → Type 0
  IsMap [] = Unit
  IsMap ((j, v) ∷ m) = All (λ i. i ≢ j) (keys m) × IsMap m

  pub get-set :
      (k j : ℕ) (v : V) (m : List (ℕ × V))
      → get j (set k v m) ≡ (if k == j then some v else get j m)
  unfolding get set
  get-set k j v [] = refl
  get-set k j v ((i, w) ∷ m) = ground (arith, get-set k j v m)

  pub get_absent : (k : ℕ) (m : List (ℕ × V)) → All (λ i. i ≢ k) (keys m) → get k m ≡ none
  unfolding get
  get_absent k [] h = refl
  get_absent k ((j, v) ∷ m) h = ground (arith, get_absent k m h.1)

  pub absent_of_get : (k : ℕ) (m : List (ℕ × V)) → get k m ≡ none → All (λ i. i ≢ k) (keys m)
  unfolding get
  absent_of_get k [] h = tt
  absent_of_get k ((j, v) ∷ m) h = (ground arith, absent_of_get k m (ground arith))

  pub get-delete :
      (k j : ℕ) (m : List (ℕ × V))
      → IsMap m
      → get j (delete k m) ≡ (if k == j then none else get j m)
  unfolding get delete
  get-delete k j [] h = ground arith
  get-delete k j ((i, w) ∷ m) h = ground (arith, get-delete k j m h.1, get_absent i m h.0)

  pub All-keys-delete :
      (P : ℕ → Type 0) (k : ℕ) (m : List (ℕ × V)) → All P (keys m) → All P (keys (delete k m))
  unfolding delete
  All-keys-delete P k [] h = h
  All-keys-delete P k ((j, v) ∷ m) h = ground (arith, All-keys-delete P k m h.1)

  pub All-keys-set :
      (P : ℕ → Type 0) (k : ℕ) (v : V) (m : List (ℕ × V))
      → P k
      → All P (keys m)
      → All P (keys (set k v m))
  unfolding set
  All-keys-set P k v [] p h = (p, tt)
  All-keys-set P k v ((j, w) ∷ m) p h = ground (arith, All-keys-set P k v m p h.1)

  pub delete-IsMap : (k : ℕ) (m : List (ℕ × V)) → IsMap m → IsMap (delete k m)
  unfolding delete
  delete-IsMap k [] h = h
  delete-IsMap k ((j, v) ∷ m) h =
      ground (arith, delete-IsMap k m h.1, All-keys-delete (λ i. i ≢ j) k m h.0)

  pub set-IsMap : (k : ℕ) (v : V) (m : List (ℕ × V)) → IsMap m → IsMap (set k v m)
  unfolding set
  set-IsMap k v [] h = (tt, tt)
  set-IsMap k v ((j, w) ∷ m) h =
      ground (arith, set-IsMap k v m h.1, λ (p : k ≢ j). All-keys-set (λ i. i ≢ j) k v m p h.0)

  pub length-set_new :
      (k : ℕ) (v : V) (m : List (ℕ × V)) → get k m ≡ none → length (set k v m) ≡ length m + 1
  unfolding get set
  length-set_new k v [] h = omega arith
  length-set_new k v ((j, w) ∷ m) h = ground (arith, length-set_new k v m)

  pub length-delete-le : (k : ℕ) (m : List (ℕ × V)) → length (delete k m) ≤ length m
  unfolding delete
  length-delete-le k [] = omega arith
  length-delete-le k ((j, w) ∷ m) = ground (arith, length-delete-le k m)
