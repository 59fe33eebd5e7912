-- ===== src/Sanitize.antt =====
-- src/sanitize.ts: what may be shown of a text that another party sent.
pub mod Clean
mod Tests
use Prim.Native.Char.{Char, code}
use pty_relay.Base.{
  ℕ, ◌+◌, String, Bool, true, false, not, ◌&&◌, ◌||◌, ltb, leb, ◌==◌, if◌then◌else◌,
}

-- A character that the loop passes over: the controls below 0x20 but for TAB, DEL, and 0x80 to 0x9f.
unfoldable pub is_dropped : ℕ → Bool
is_dropped cp = (ltb cp 0x20 && not (cp == 9)) || ((cp == 0x7f) || (leb 0x80 cp && leb cp 0x9f))

-- The UTF-16 units of a code point, which `out.length` counts.
unfoldable pub units : ℕ → ℕ
units cp = if ltb cp 0x10000 then 1 else 2

-- The loop, with `n` units in `out`.
unfoldable pub sanitize_from : ℕ → ℕ → String → String
sanitize_from max n String.[] = ""
sanitize_from max n (String.◌∷◌ ch s) =
    let rest = sanitize_from max (n + units (code ch)) s in
    let skipped = sanitize_from max n s in
    (if is_dropped (code ch)
      then skipped
      else (if leb max (n + units (code ch)) then String.◌∷◌ ch "" else String.◌∷◌ ch rest))

-- `sanitizeRemoteString(input, maxLen)` of a string
unfoldable pub sanitize_remote_string : String → ℕ → String
sanitize_remote_string s max = sanitize_from max 0 s
