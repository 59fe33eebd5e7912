-- ===== src/Base/Dict.antt =====
-- JavaScript's `Map` with string keys: an association list in insertion order.
use Prim.Native.Nat.{◌+◌, ◌≤◌}
use Prim.Native.String.{String}
use mathlib.Core.Path.{◌≡◌, refl}
use mathlib.Core.Logic.{◌≢◌}
use mathlib.Core.List.{List, [], ◌∷◌}
use mathlib.Core.Option.{Option, none, some}
use native.Mathlib.Omega.{arith}
use text.Mathlib.TextEquality.{eq_iff}
use pty_relay.Base.Tests.{str_eq, if◌then◌else◌}
use pty_relay.Base.Lists.{All, length}

module _ {ℓ} {V : Type ℓ} where
  -- `map.get`
  unfoldable pub get : String → List (String × V) → Option V
  get k [] = none
  get k ((j, v) ∷ m) = if str_eq j k then some v else get k m

  -- `map.set`: a new key goes to the end, an old one keeps its place
  unfoldable pub set : String → V → List (String × V) → List (String × V)
  set k v [] = (k, v) ∷ []
  set k v ((j, w) ∷ m) = if str_eq j k then (j, v) ∷ m else (j, w) ∷ set k v m

  -- `map.delete`
  unfoldable pub delete : String → List (String × V) → List (String × V)
  delete k [] = []
  delete k ((j, w) ∷ m) = if str_eq j k then m else (j, w) ∷ delete k m

  abbrev pub keys : List (String × V) → List String
  keys [] = []
  keys ((j, v) ∷ m) = j ∷ keys m

  -- No key stands twice.
  abbrev pub IsMap : List (String × V) → Type 0
  IsMap [] = Unit
  IsMap ((j, v) ∷ m) = All (λ i. i ≢ j) (keys m) × IsMap m

  pub get-set :
      (k j : String) (v : V) (m : List (String × V))
      → get j (set k v m) ≡ (if str_eq k j then some v else get j m)
  unfolding get set
  get-set k j v [] = refl
  get-set k j v ((i, w) ∷ m) = ground (arith, eq_iff i j, eq_iff i k, eq_iff k j, get-set k j v m)

  pub get_absent : (k : String) (m : List (String × V)) → All (λ i. i ≢ k) (keys m) → get k m ≡ none
  unfolding get
  get_absent k [] h = refl
  get_absent k ((j, v) ∷ m) h = ground (arith, eq_iff j k, get_absent k m h.1)

  pub get-delete :
      (k j : String) (m : List (String × V))
      → IsMap m
      → get j (delete k m) ≡ (if str_eq k j then none else get j m)
  unfolding get delete
  get-delete k j [] h = ground (arith, eq_iff k j)
  get-delete k j ((i, w) ∷ m) h =
      ground (arith, eq_iff i j, eq_iff i k, eq_iff k j, get-delete k j m h.1, get_absent i m h.0)

  pub All-keys-delete :
      (P : String → Type 0) (k : String) (m : List (String × V))
      → All P (keys m)
      → All P (keys (delete k m))
  unfolding delete
  All-keys-delete P k [] h = h
  All-keys-delete P k ((j, v) ∷ m) h = ground (arith, All-keys-delete P k m h.1)

  pub All-keys-set :
      (P : String → Type 0) (k : String) (v : V) (m : List (String × V))
      → P k
      → All P (keys m)
      → All P (keys (set k v m))
  unfolding set
  All-keys-set P k v [] p h = (p, tt)
  All-keys-set P k v ((j, w) ∷ m) p h = ground (arith, All-keys-set P k v m p h.1)

  pub delete-IsMap : (k : String) (m : List (String × V)) → IsMap m → IsMap (delete k m)
  unfolding delete
  delete-IsMap k [] h = h
  delete-IsMap k ((j, v) ∷ m) h =
      ground (arith, delete-IsMap k m h.1, All-keys-delete (λ i. i ≢ j) k m h.0)

  pub set-IsMap : (k : String) (v : V) (m : List (String × V)) → IsMap m → IsMap (set k v m)
  unfolding set
  set-IsMap k v [] h = (tt, tt)
  set-IsMap k v ((j, w) ∷ m) h =
      ground (
        arith,
        eq_iff j k,
        set-IsMap k v m h.1,
        λ (p : k ≢ j). All-keys-set (λ i. i ≢ j) k v m p h.0,
      )

-- A predicate on every entry.
module _ {ℓ} {V : Type ℓ} (P : String × V → Type 0) where
  pub All-get : (k : String) (v : V) (m : List (String × V)) → All P m → get k m ≡ some v → P (k, v)
  unfolding get
  All-get k v [] h found = absurd (ground arith)
  All-get k v ((j, w) ∷ m) h found = ground (arith, eq_iff j k, All-get k v m h.1, h.0)

  pub All-set :
      (k : String) (v : V) (m : List (String × V)) → P (k, v) → All P m → All P (set k v m)
  unfolding set
  All-set k v [] p h = (p, tt)
  All-set k v ((j, w) ∷ m) p h = ground (arith, eq_iff j k, All-set k v m p h.1, p)

  pub All-delete : (k : String) (m : List (String × V)) → All P m → All P (delete k m)
  unfolding delete
  All-delete k [] h = h
  All-delete k ((j, w) ∷ m) h = ground (arith, All-delete k m h.1)

module _ {ℓ} {V : Type ℓ} where
  pub length-set-le :
      (k : String) (v : V) (m : List (String × V)) → length (set k v m) ≤ length m + 1
  unfolding set
  length-set-le k v [] = omega arith
  length-set-le k v ((j, w) ∷ m) = ground (arith, length-set-le k v m)

  pub length-delete-le : (k : String) (m : List (String × V)) → length (delete k m) ≤ length m
  unfolding delete
  length-delete-le k [] = omega arith
  length-delete-le k ((j, w) ∷ m) = ground (arith, length-delete-le k m)
