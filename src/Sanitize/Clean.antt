-- ===== src/Sanitize/Clean.antt =====
-- What comes out of `sanitizeRemoteString`.
use Prim.Native.Char.{code}
use pty_relay.Base.{
  ℕ, ◌+◌, ◌≤◌, ◌<◌, ◌⊎◌, ◌↔◌, String, Bool, true, false, ◌≡◌, refl, arith, if◌then◌else◌,
}
use pty_relay.Sanitize.{is_dropped, units, sanitize_from, sanitize_remote_string}

-- TAB, a code point from SPACE to 0x7e, or one from 0xa0 on: all but the other control
-- characters below 0x20, DEL, and those from 0x80 to 0x9f.
abbrev pub IsShown : ℕ → Type 0
IsShown cp = (cp ≡ 9) ⊎ (((32 ≤ cp) × (cp ≤ 126)) ⊎ (160 ≤ cp))

is_dropped-IsShown_iff : (cp : ℕ) → (is_dropped cp ≡ false) ↔ IsShown cp
unfolding is_dropped
is_dropped-IsShown_iff cp = (λ h. ground (arith, h), λ h. ground (arith, h))

-- No character is a control character but TAB.
abbrev pub IsClean : String → Type 0
IsClean String.[] = Unit
IsClean (String.◌∷◌ ch s) = IsShown (code ch) × IsClean s

-- The UTF-16 units of a text.
abbrev pub size : String → ℕ
size String.[] = 0
size (String.◌∷◌ ch s) = units (code ch) + size s

units-range : (cp : ℕ) → (1 ≤ units cp) × (units cp ≤ 2)
unfolding units
units-range cp = (ground arith, ground arith)

sanitize_from-IsClean : (max n : ℕ) (s : String) → IsClean (sanitize_from max n s)
unfolding sanitize_from
sanitize_from-IsClean max n String.[] = tt
sanitize_from-IsClean max n (String.◌∷◌ ch s) =
    kept (sanitize_from max n s) (sanitize_from max (n + units (code ch)) s) _ _
      (sanitize_from-IsClean max n s) (sanitize_from-IsClean max (n + units (code ch)) s) refl
  where
    kept :
        (skipped rest : String) (dropped full : Bool)
        → IsClean skipped
        → IsClean rest
        → is_dropped (code ch) ≡ dropped
        → IsClean
            (if dropped then skipped else (if full then String.◌∷◌ ch "" else String.◌∷◌ ch rest))
    kept x y true full c d e = c
    kept x y false true c d e = ((is_dropped-IsShown_iff (code ch)).0 e, tt)
    kept x y false false c d e = ((is_dropped-IsShown_iff (code ch)).0 e, d)

size-sanitize_from-le :
    (max n : ℕ) (s : String) → n < max → n + size (sanitize_from max n s) ≤ max + 1
unfolding sanitize_from
size-sanitize_from-le max n String.[] h = omega (arith, h)
size-sanitize_from-le max n (String.◌∷◌ ch s) h = ground (
  arith,
  h,
  units-range (code ch),
  size-sanitize_from-le max n s h,
  size-sanitize_from-le max (n + units (code ch)) s,
)

-- A text that is clean and short enough is left as it is.
sanitize_from_id :
    (max n : ℕ) (s : String) → IsClean s → n + size s < max → sanitize_from max n s ≡ s
unfolding sanitize_from
sanitize_from_id max n String.[] c h = refl
sanitize_from_id max n (String.◌∷◌ ch s) c h = ground (
  arith,
  (is_dropped-IsShown_iff (code ch)).1 c.0,
  h,
  sanitize_from_id max (n + units (code ch)) s c.1 (omega (arith, h)),
)

-- With a limit that is not 0, the output has only TAB, the characters from 0x20 to 0x7e and those
-- from 0xa0 on, and is at most one UTF-16 unit longer than the limit; and a text of only these that
-- is shorter than the limit comes out unchanged.
pub sanitize_remote_string_lem :
    (s t : String) (max : ℕ)
    → 0 < max
    → IsClean t
    → size t < max
    → IsClean (sanitize_remote_string s max)
      × ((size (sanitize_remote_string s max) ≤ max + 1) × (sanitize_remote_string t max ≡ t))
unfolding sanitize_remote_string
sanitize_remote_string_lem s t max h c short = (
  sanitize_from-IsClean max 0 s,
  (
    omega (arith, size-sanitize_from-le max 0 s h),
    sanitize_from_id max 0 t c (omega (arith, short)),
  ),
)
