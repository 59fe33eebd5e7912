-- ===== src/Hosts/Label.antt =====
-- The search for an unused label: pickUniqueLabel of src/relay/known-hosts.ts.
use text.Mathlib.TextLemmas.{append_cancel_left}
use pty_relay.Base.{
  ℕ, zero, suc, ◌+◌, ◌≤◌, ◌<◌, ◌*◌, ◌&&◌, ltb, String, Bool, true, false, Option, some, List, [],
  ◌∷◌, length, str_eq, eq_iff, ◌≡◌, ◌≢◌, refl, sym, ◌∙◌, ap, ◌⊎◌, inl, inr, Bool-cases, arith,
  if◌then◌else◌,
}
use pty_relay.Hosts.{
  has_label, slice_to, text_length, dashed, widen, Platform, numbered, numbers, pick_by_candidate,
  pick_unique_label, peer_label,
}

-- `String(n)` is different for different numbers.
abbrev pub Injective : (ℕ → String) → Type 0
Injective f = (n m : ℕ) → f n ≡ f m → n ≡ m

abbrev drop_all : String → List String → List String
drop_all s [] = []
drop_all s (x ∷ xs) = if str_eq x s then drop_all s xs else x ∷ drop_all s xs

has_label-drop_all :
    (s t : String) (xs : List String) → s ≢ t → has_label t (drop_all s xs) ≡ has_label t xs
unfolding has_label
has_label-drop_all s t [] h = refl
has_label-drop_all s t (x ∷ xs) h =
    ground (arith, eq_iff x s, eq_iff x t, has_label-drop_all s t xs h)

length-drop_all-le : (s : String) (xs : List String) → length (drop_all s xs) ≤ length xs
length-drop_all-le s [] = ground arith
length-drop_all-le s (x ∷ xs) = ground (arith, length-drop_all-le s xs)

length-drop_all :
    (s : String) (xs : List String) → has_label s xs ≡ true → length (drop_all s xs) < length xs
unfolding has_label
length-drop_all s [] h = ground arith
length-drop_all s (x ∷ xs) h = ground (arith, length-drop_all-le s xs, length-drop_all s xs)

module _ (p : Platform) (injective : Injective p.number_text) where
  other_number :
      (c : String) (n m : ℕ) → n < m → dashed c (p.number_text n) ≢ dashed c (p.number_text m)
  other_number c n m h e =
      let same : n ≡ m = injective n m (append_cancel_left "-" _ _ (append_cancel_left c _ _ e)) in
      ground (arith, h, same)

  numbered-drop_all :
      (fuel n k : ℕ) (c : String) (used : List String)
      → k < n
      → numbered p fuel n c (drop_all (dashed c (p.number_text k)) used) ≡ numbered p fuel n c used
  unfolding numbered
  numbered-drop_all zero n k c used h = refl
  numbered-drop_all (suc fuel) n k c used h = rw (
    has_label-drop_all (dashed c (p.number_text k)) (dashed c (p.number_text n)) used
        (other_number c k n h),
    numbered-drop_all fuel (n + 1) k c used (omega (arith, h)),
  )

  -- With more fuel than there are labels in use the search finds an unused one.
  abbrev Free : String → List String → Option String → ℕ → Type 0
  Free c used o n =
      (m : ℕ) × (n ≤ m)
      × (o ≡ some (dashed c (p.number_text m)))
      × (has_label (dashed c (p.number_text m)) used ≡ false)

  numbered-Free :
      (fuel n : ℕ) (c : String) (used : List String)
      → length used < fuel
      → Free c used (numbered p fuel n c used) n
  unfolding numbered
  numbered-Free zero n c used h = absurd (omega (arith, h))
  numbered-Free (suc fuel) n c used h =
      elim (Bool-cases (has_label (dashed c (p.number_text n)) used)) [
        | inl taken ↦
            let (m, le, found, free) =
              numbered-Free fuel (n + 1) c (drop_all (dashed c (p.number_text n)) used)
                (omega (arith, h, length-drop_all _ used taken)) in
            rw taken (
              m,
              omega (arith, le),
              sym (numbered-drop_all fuel (n + 1) n c used (omega arith)) ∙ found,
              sym (
                    has_label-drop_all (dashed c (p.number_text n)) _ used
                      (other_number c n m (omega (arith, le))))
                  ∙ free,
            )
        | inr free ↦ rw free (n, omega arith, refl, free)
      ]

slice_to_all : (n : ℕ) (s : String) → text_length s ≤ n → slice_to n s ≡ s
unfolding slice_to text_length
slice_to_all zero String.[] h = refl
slice_to_all (suc n) String.[] h = refl
slice_to_all (suc n) (String.◌∷◌ ch s) h = ap (String.◌∷◌ ch) (slice_to_all n s (omega (arith, h)))
slice_to_all zero (String.◌∷◌ ch s) h = absurd (omega (arith, h))

-- The widening ends at an unused candidate, or at the whole distinguisher.
abbrev Widened : String → String → List String → String → Type 0
Widened wanted d used c = (has_label c used ≡ false) ⊎ (c ≡ dashed wanted d)

whole :
    (wanted d : String) (width : ℕ) (used : List String)
    → text_length d ≤ width
    → Widened wanted d used (dashed wanted (slice_to width d))
whole wanted d width used h = inr (ap (dashed wanted) (slice_to_all width d h))

widen_step :
    (taken more : Bool) (wanted d rest : String) (width : ℕ) (used : List String)
    → has_label (dashed wanted (slice_to width d)) used ≡ taken
    → ltb width (text_length d) ≡ more
    → Widened wanted d used rest
    → Widened wanted d used (if taken && more then rest else dashed wanted (slice_to width d))
widen_step false more wanted d rest width used e f h = inl e
widen_step true true wanted d rest width used e f h = h
widen_step true false wanted d rest width used e f h = whole wanted d width used (ground (arith, f))

-- With fuel for the length of the distinguisher the widening of the prefix ends at an unused
-- candidate or at the whole distinguisher.
widen-Widened :
    (fuel width : ℕ) (wanted d : String) (used : List String)
    → text_length d ≤ width + 4 * fuel
    → (has_label (widen fuel wanted d width used) used ≡ false)
      ⊎ (widen fuel wanted d width used ≡ dashed wanted d)
unfolding widen
widen-Widened zero width wanted d used h = whole wanted d width used (omega (arith, h))
widen-Widened (suc fuel) width wanted d used h =
    widen_step _ _ wanted d _ width used refl refl
      (widen-Widened fuel (width + 4) wanted d used (omega (arith, h)))

module _ (p : Platform) (injective : Injective p.number_text) where
  abbrev Picked : List String → Option String → Type 0
  Picked used o = (label : String) × (o ≡ some label) × (has_label label used ≡ false)

  numbers-Picked : (c : String) (used : List String) → Picked used (numbers p c used)
  numbers-Picked c used =
      let (m, _, found, free) =
        numbered-Free p injective (suc (length used)) 2 c used (omega arith) in
      (dashed c (p.number_text m), found, free)

  by_candidate : (c : String) (used : List String) → Picked used (pick_by_candidate p c used)
  unfolding pick_by_candidate
  by_candidate c used = elim (Bool-cases (has_label c used)) [
    | inr free ↦ rw free (c, refl, free)
    | inl taken ↦ rw taken (numbers-Picked c used)
  ]

  pub peer_label_unused :
      (wanted : String) (used : List String)
      → (label : String) × (peer_label p wanted used ≡ some label) × (has_label label used ≡ false)
  unfolding peer_label
  peer_label_unused wanted used = elim (Bool-cases (has_label wanted used)) [
    | inr free ↦ rw free (wanted, refl, free)
    | inl taken ↦ rw taken (numbers-Picked wanted used)
  ]

  -- pick_unique_label always gives a label, and one that is not in use, when the texts of different
  -- numbers are different.
  pub pick_unique_label_unused :
      (wanted distinguisher : String) (used : List String)
      → (label : String) × (pick_unique_label p wanted distinguisher used ≡ some label)
        × (has_label label used ≡ false)
  unfolding pick_unique_label pick_by_candidate
  pick_unique_label_unused wanted distinguisher used = elim (Bool-cases (has_label wanted used)) [
    | inr free ↦ rw free (wanted, refl, free)
    | inl taken ↦
        rw taken (by_candidate (widen (text_length distinguisher) wanted distinguisher 4 used) used)
  ]
