-- ===== src/Sanitize/Tests.antt =====
-- `sanitizeRemoteString` at concrete inputs.
use pty_relay.Base.{◌≤◌, ◌+◌, ◌≡◌, refl, arith}
use pty_relay.Sanitize.{sanitize_remote_string, sanitize_from, is_dropped, units}
use pty_relay.Sanitize.Clean.{IsClean, size, sanitize_remote_string_lem}

sanitize_remote_string_lem_example :
    IsClean (sanitize_remote_string "a\nbcd" 3)
    × ((size (sanitize_remote_string "a\nbcd" 3) ≤ 3 + 1) × (sanitize_remote_string "ab" 3 ≡ "ab"))
unfolding is_dropped units
sanitize_remote_string_lem_example =
    sanitize_remote_string_lem "a\nbcd" "ab" 3 (ground arith) (ground arith, (ground arith, tt))
      (ground arith)

control_dropped : sanitize_remote_string "a\nbcd" 3 ≡ "abc"
unfolding sanitize_remote_string sanitize_from is_dropped units
control_dropped = refl
