-- ===== src/Channel/AllowList.antt =====
-- src/relay/exec-allow-list.ts: which executables an exec channel may run.
pub mod Basename
use Prim.Native.Char.{Char, code}
use Prim.Native.Nat.{max}
use pty_relay.Base.{
  ℕ, zero, suc, String, Bool, true, false, ◌||◌, Option, none, some, List, [], ◌∷◌, str_eq, ◌==◌,
  if◌then◌else◌,
}

abbrev pub exec_allow_list : List String
exec_allow_list = "rsync" ∷ "git" ∷ "git-upload-pack" ∷ "git-receive-pack" ∷ []

abbrev pub slash : ℕ
slash = b'/'

abbrev pub backslash : ℕ
backslash = 92

abbrev pub later_or : Option ℕ → Bool → Option ℕ
later_or (some i) hit = some (suc i)
later_or none true = some 0
later_or none false = none

-- `s.lastIndexOf(ch)`; `none` is -1.
unfoldable pub last_index_of : ℕ → String → Option ℕ
last_index_of ch String.[] = none
last_index_of ch (String.◌∷◌ c s) = later_or (last_index_of ch s) (code c == ch)

-- `Math.max` of two indices, where `none` is -1.
abbrev pub max_index : Option ℕ → Option ℕ → Option ℕ
max_index none j = j
max_index (some i) none = some i
max_index (some i) (some j) = some (max i j)

-- `s.slice(n)`
unfoldable pub slice_from : ℕ → String → String
slice_from zero s = s
slice_from (suc n) String.[] = ""
slice_from (suc n) (String.◌∷◌ c s) = slice_from n s

unfoldable pub last_separator : String → Option ℕ
last_separator s = max_index (last_index_of slash s) (last_index_of backslash s)

unfoldable pub basename : String → String
basename s = elim (last_separator s) [ none ↦ s | some i ↦ slice_from (suc i) s ]

unfoldable pub includes : String → List String → Bool
includes s [] = false
includes s (x ∷ xs) = str_eq x s || includes s xs

-- The last line: the name, if it is listed.
unfoldable pub if_listed : String → Option String
if_listed name = if includes name exec_allow_list then some name else none

unfoldable pub check_argv_allowed : String → Option String
check_argv_allowed String.[] = none
check_argv_allowed (String.◌∷◌ c s) = if_listed (basename (String.◌∷◌ c s))
