-- ===== src/Channel/Tests.antt =====
-- The theorems on frames, registries, argv checks and messages at concrete inputs.
mod Handler
mod Session
use pty_relay.Base.{
  eq_iff, ℕ, ◌+◌, ◌≤◌, ◌<◌, String, Bool, true, false, Option, none, some, List, [], ◌∷◌, ◌++◌, ◌≡◌,
  refl, ◌≢◌, ◌↔◌, Bytes, All, IsByte, length, arith, ◌==◌, if◌then◌else◌, map,
}
use pty_relay.Base.Assoc.{get, set, values}
use pty_relay.Js.{Json, Fields, nat, obj}
use pty_relay.Channel.Framing.{
  Frame, ok, err, frame_too_short, frame_too_large, bytes, encode_frame, decode_frame,
}
use pty_relay.Channel.Framing.RoundTrip.{Fits, decode-encode, encode-decode, encode-Fits_iff}
use pty_relay.Channel.AllowList.{
  check_argv_allowed, exec_allow_list, if_listed, includes, basename, last_separator, last_index_of,
  slice_from,
}
use pty_relay.Channel.AllowList.Basename.{IsBasename, Listed, check_argv_allowed_iff}
use pty_relay.Channel.Registry.{
  Registry, opened, refused, id_collision, channel_limit, max_channels, has, open_channel,
  close_channel, close_all,
}
use pty_relay.Channel.Registry.Laws.{IsValid, open_channel-IsValid, close_each, close_all_lem}
use pty_relay.Channel.Control.{
  ControlMessage, channel_open_exec, channel_open_ack, Optional, given, absent,
}
use pty_relay.Channel.Control.Encode.{to_fields}
use pty_relay.Channel.Control.Parse.{Decoders, control, parse_object}
use pty_relay.Channel.Control.RoundTrip.{IsWellFormed, parse_object-to_fields}
use pty_relay.Channel.Control.Valid.{parse_object-IsWellFormed}
use pty_relay.Channel.Dispatcher.{on_channel, on_control, route}
use pty_relay.Channel.Dispatcher.Routing.{route-encode_control}

abbrev data_frame : Frame
data_frame = record { channel_id = 66051; type = 0; payload = 7 ∷ 9 ∷ [] }

abbrev data_bytes : Bytes
data_bytes = 0 ∷ 1 ∷ 2 ∷ 3 ∷ 0 ∷ 7 ∷ 9 ∷ []

data_frame-encoded : encode_frame (nat 66051) (nat 0) (7 ∷ 9 ∷ []) ≡ bytes data_bytes
unfolding encode_frame
data_frame-encoded = refl

data_frame-decoded : decode_frame data_bytes ≡ ok data_frame
unfolding decode_frame
data_frame-decoded = refl

decode-encode_example : decode_frame data_bytes ≡ ok data_frame
decode-encode_example = decode-encode data_frame data_bytes data_frame-encoded

data_bytes-IsByte : All IsByte data_bytes
data_bytes-IsByte = ground arith

encode-decode_example : encode_frame (nat 66051) (nat 0) (7 ∷ 9 ∷ []) ≡ bytes data_bytes
encode-decode_example = encode-decode data_bytes data_frame data_bytes-IsByte data_frame-decoded

check_argv_allowed_iff_example :
    (check_argv_allowed "/usr/bin/git" ≡ some "git")
    ↔ (IsBasename "git" "/usr/bin/git" × Listed "git" exec_allow_list)
check_argv_allowed_iff_example = check_argv_allowed_iff "/usr/bin/git" "git"

test_allowed : check_argv_allowed "/usr/bin/git" ≡ some "git"
unfolding check_argv_allowed if_listed includes basename last_separator last_index_of slice_from
test_allowed = refl

test_not_allowed : check_argv_allowed "/usr/bin/sh" ≡ none
unfolding check_argv_allowed if_listed includes basename last_separator last_index_of slice_from
test_not_allowed = refl

-- A registry of strings, and a close that counts.
abbrev two_open : Registry String
two_open = (1, "pty") ∷ (7, "exec") ∷ []

abbrev three_open : Registry String
three_open = (1, "pty") ∷ (7, "exec") ∷ (9, "git") ∷ []

abbrev count : String → String → Registry String × ℕ → Registry String × ℕ
count h reason (r, n) = (r, n + 1)

abbrev counted : String → String → ℕ → ℕ
counted h reason n = n + 1

two_open-IsValid : IsValid two_open
two_open-IsValid = record { distinct = ground arith; bounded = ground arith }

open-nine : open_channel 9 "git" two_open ≡ opened three_open
unfolding open_channel get set
open-nine = refl

abbrev open_git : ControlMessage
open_git = channel_open_exec 7 ("git" ∷ "status" ∷ []) (given (("HOME", "/") ∷ [])) absent

open_git-IsWellFormed : IsWellFormed open_git
open_git-IsWellFormed =
    (ground arith, ground arith, (ground (arith, eq_iff "HOME" "__proto__"), tt))

parse_object-to_fields_example : parse_object (to_fields open_git) ≡ control open_git
parse_object-to_fields_example = parse_object-to_fields open_git open_git-IsWellFormed

open_git-parsed : parse_object (to_fields open_git) ≡ control open_git
open_git-parsed = parse_object-to_fields open_git open_git-IsWellFormed

parse_object-IsWellFormed_example : IsWellFormed open_git
parse_object-IsWellFormed_example =
    parse_object-IsWellFormed (to_fields open_git) open_git open_git-parsed

-- Decoders that give the one text and the one object of the example.
abbrev one_text : Decoders
one_text = record {
  utf8_decode = λ bs. some "{}";
  json_parse = λ s. some (obj (to_fields open_git));
}

control-encoded :
    encode_frame (nat 0) (nat 0) (123 ∷ 125 ∷ []) ≡ bytes (0 ∷ 0 ∷ 0 ∷ 0 ∷ 0 ∷ 123 ∷ 125 ∷ [])
unfolding encode_frame
control-encoded = refl

route-encode_control_example :
    route one_text (0 ∷ 0 ∷ 0 ∷ 0 ∷ 0 ∷ 123 ∷ 125 ∷ []) ≡ on_control open_git
route-encode_control_example =
    route-encode_control one_text open_git (123 ∷ 125 ∷ []) (0 ∷ 0 ∷ 0 ∷ 0 ∷ 0 ∷ 123 ∷ 125 ∷ [])
      "{}" refl refl open_git-IsWellFormed control-encoded
