-- ===== src/Channel/AllowList/Basename.antt =====
-- What the allow-list check accepts, without indices.
use Prim.Native.Char.{Char, code}
use pty_relay.Base.{
  ℕ, suc, String, Bool, true, false, none, some, List, [], ◌∷◌, ◌≡◌, refl, sym, ◌∙◌, ap, ◌≢◌, ◌↔◌,
  ◌⊎◌, inl, inr, subst, if◌then◌else◌, eq_iff, arith,
}
use pty_relay.Channel.AllowList.{
  exec_allow_list, slash, backslash, last_index_of, slice_from, last_separator, basename, includes,
  if_listed, check_argv_allowed,
}

abbrev pub IsSeparator : Char → Type 0
IsSeparator c = (code c ≡ slash) ⊎ (code c ≡ backslash)

abbrev pub NoSeparator : String → Type 0
NoSeparator String.[] = Unit
NoSeparator (String.◌∷◌ c s) = (code c ≢ slash) × (code c ≢ backslash) × NoSeparator s

-- `path` is some directory text, a separator and then `name`.
abbrev pub EndsWith : String → String → Type 0
EndsWith name String.[] = ⊥
EndsWith name (String.◌∷◌ c s) = (IsSeparator c × (s ≡ name)) ⊎ EndsWith name s

-- `name` is the last component of `path`.
abbrev pub IsBasename : String → String → Type 0
IsBasename name path = NoSeparator name × ((path ≡ name) ⊎ EndsWith name path)

abbrev pub Listed : String → List String → Type 0
Listed s [] = ⊥
Listed s (x ∷ xs) = (x ≡ s) ⊎ Listed s xs

includes_iff : (s : String) (xs : List String) → (includes s xs ≡ true) ↔ Listed s xs
unfolding includes
includes_iff s [] = (λ h. cc, λ h. absurd h)
includes_iff s (x ∷ xs) = ground (arith, eq_iff x s, includes_iff s xs)

-- The last separator by recursion: an index in the tail comes first.
last_separator-cons_some :
    (c : Char) (s : String) (i : ℕ)
    → last_separator s ≡ some i
    → last_separator (String.◌∷◌ c s) ≡ some (suc i)
unfolding last_separator last_index_of
last_separator-cons_some c s i h = ground arith

last_separator-cons_none :
    (c : Char) (s : String)
    → last_separator s ≡ none
    → ((IsSeparator c) × (last_separator (String.◌∷◌ c s) ≡ some 0))
      ⊎ ((code c ≢ slash) × (code c ≢ backslash) × (last_separator (String.◌∷◌ c s) ≡ none))
unfolding last_separator last_index_of
last_separator-cons_none c s h = ground arith

slice_from-cons :
    (n : ℕ) (c : Char) (s : String) → slice_from (suc n) (String.◌∷◌ c s) ≡ slice_from n s
unfolding slice_from
slice_from-cons n c s = refl

slice_from-zero : (s : String) → slice_from 0 s ≡ s
unfolding slice_from
slice_from-zero s = refl

-- With no separator the whole text is the name; else the name follows the last one.
abbrev Located : String → Type 0
Located s =
    ((last_separator s ≡ none) × NoSeparator s)
    ⊎ ((i : ℕ) × (last_separator s ≡ some i)
        × NoSeparator (slice_from (suc i) s)
        × EndsWith (slice_from (suc i) s) s)

Located-cons : (c : Char) (s : String) → Located s → Located (String.◌∷◌ c s)
Located-cons c s (inl (e, h)) = elim (last_separator-cons_none c s e) [
  | inl (sep, f) ↦ inr (
    0,
    f,
    rw (slice_from-cons 0 c s, slice_from-zero s) h,
    inl (sep, rw (slice_from-cons 0 c s, slice_from-zero s)),
  )
  | inr (a, b, f) ↦ inl (f, (a, b, h))
]
Located-cons c s (inr (i, e, h, k)) = inr (
  suc i,
  last_separator-cons_some c s i e,
  rw (slice_from-cons (suc i) c s) h,
  inr (subst (λ n. EndsWith n s) (sym (slice_from-cons (suc i) c s)) k),
)

located : (s : String) → Located s
located String.[] = inl (unfold last_separator last_index_of in refl, tt)
located (String.◌∷◌ c s) = Located-cons c s (located s)

basename-IsBasename : (s : String) → IsBasename (basename s) s
unfolding basename
basename-IsBasename s = elim (located s) [
  | inl (e, h) ↦ rw (e, basename) (h, inl refl)
  | inr (i, e, h, k) ↦ rw (e, basename) (h, inr k)
]

-- A name has one such decomposition.
EndsWith-NoSeparator : (name s : String) → EndsWith name s → NoSeparator s → ⊥
EndsWith-NoSeparator name String.[] k h = k
EndsWith-NoSeparator name (String.◌∷◌ c s) (inl (inl e, _)) h = h.0 e
EndsWith-NoSeparator name (String.◌∷◌ c s) (inl (inr e, _)) h = h.1 e
EndsWith-NoSeparator name (String.◌∷◌ c s) (inr k) h = EndsWith-NoSeparator name s k h.2

EndsWith-unique :
    (m n s : String) → NoSeparator m → NoSeparator n → EndsWith m s → EndsWith n s → m ≡ n
EndsWith-unique m n String.[] hm hn k l = absurd k
EndsWith-unique m n (String.◌∷◌ c s) hm hn (inl (_, e)) (inl (_, f)) = sym e ∙ f
EndsWith-unique m n (String.◌∷◌ c s) hm hn (inl (_, e)) (inr l) =
    absurd (EndsWith-NoSeparator n s l (rw e hm))
EndsWith-unique m n (String.◌∷◌ c s) hm hn (inr k) (inl (_, f)) =
    absurd (EndsWith-NoSeparator m s k (rw f hn))
EndsWith-unique m n (String.◌∷◌ c s) hm hn (inr k) (inr l) = EndsWith-unique m n s hm hn k l

IsBasename-unique : (m n s : String) → IsBasename m s → IsBasename n s → m ≡ n
IsBasename-unique m n s (hm, inl e) (hn, inl f) = sym e ∙ f
IsBasename-unique m n s (hm, inl e) (hn, inr l) = absurd (EndsWith-NoSeparator n s l (rw e hm))
IsBasename-unique m n s (hm, inr k) (hn, inl f) = absurd (EndsWith-NoSeparator m s k (rw f hn))
IsBasename-unique m n s (hm, inr k) (hn, inr l) = EndsWith-unique m n s hm hn k l

basename_iff : (name s : String) → (basename s ≡ name) ↔ IsBasename name s
basename_iff name s = (
  λ e. rw e at (basename-IsBasename s),
  λ h. IsBasename-unique _ name s (basename-IsBasename s) h,
)

pick_iff :
    (n name : String) (hit : Bool) (xs : List String)
    → includes n xs ≡ hit
    → ((if hit then some n else none) ≡ some name) ↔ ((n ≡ name) × Listed name xs)
pick_iff n name true xs e =
    let in_xs = (includes_iff n xs).0 e in
    (λ h. let same : n ≡ name = cc in (same, subst (λ m. Listed m xs) same in_xs), λ h. ap some h.0)
pick_iff n name false xs e =
    (λ h. cc, λ h. let in_xs = (includes_iff n xs).1 (subst (λ m. Listed m xs) (sym h.0) h.1) in cc)

if_listed_iff :
    (n name : String) → (if_listed n ≡ some name) ↔ ((n ≡ name) × Listed name exec_allow_list)
unfolding if_listed
if_listed_iff n name = pick_iff n name _ exec_allow_list refl

nil_not_IsBasename : (name : String) → IsBasename name "" → Listed name exec_allow_list → ⊥
nil_not_IsBasename name (_, inl e) k = ground (
  arith,
  eq_iff "" "rsync",
  eq_iff "" "git",
  eq_iff "" "git-upload-pack",
  eq_iff "" "git-receive-pack",
)
nil_not_IsBasename name (_, inr k) _ = k

-- check_argv_allowed gives a name exactly when that name is the last component of argv[0], where /
-- and \ separate, and is in the list.
pub check_argv_allowed_iff :
    (argv0 name : String)
    → (check_argv_allowed argv0 ≡ some name) ↔ (IsBasename name argv0 × Listed name exec_allow_list)
unfolding check_argv_allowed
check_argv_allowed_iff String.[] name = (λ e. cc, λ h. absurd (nil_not_IsBasename name h.0 h.1))
check_argv_allowed_iff (String.◌∷◌ c s) name =
    let (to, from) = if_listed_iff (basename (String.◌∷◌ c s)) name in
    let (same, back) = basename_iff name (String.◌∷◌ c s) in
    (λ e. (same (to e).0, (to e).1), λ h. from (back h.0, h.1))
