-- ===== src/Channel/Tests/Handler.antt =====
-- The theorems on bridges and on a whole connection at concrete inputs.
use pty_relay.Base.{
  ℕ, true, false, none, some, List, [], ◌∷◌, ◌++◌, ◌≡◌, refl, Bytes, All, length, arith,
}
use pty_relay.Js.{Json, Items, Fields, nat, str, field, end, obj}
use pty_relay.Channel.Framing.{decode_frame, ok}
use pty_relay.Channel.Exec
use pty_relay.Channel.Exec.{
  SpawnOptions, Child, Platform, Bridge, exit, stdout, closed, frame, child_event, send_close, kill,
  stdin_write, stdin_end,
}
use pty_relay.Channel.Exec.Announce.{controls, IsAnnouncement, run-IsAnnouncement}
use pty_relay.Channel.Exec.Stdin.{IsStdinTrace, IsAllowed, run-IsStdinTrace}
use pty_relay.Channel.Exec.Frames.{IsOpen, stdin_frame}
use pty_relay.Channel.Control.{absent, channel_open_exec}
use pty_relay.Channel.Connection.{
  Env, World, sent_data, on_child_event, Handler, exec, close_everything, handler_close,
}
use pty_relay.Base.Assoc.{values}
use pty_relay.Channel.Registry.{Registry}
use pty_relay.Channel.Registry.Laws.{close_each}
use pty_relay.Channel.OpenHandler.Ending.{closed_world, handler_close-quiet, close_everything_lem}
use pty_relay.Channel.OpenHandler
use pty_relay.Channel.OpenHandler.{plaintext, ended, fresh, handle_control}
use pty_relay.Channel.OpenHandler.Gate.{Inv}
use pty_relay.Channel.OpenHandler.Gate.Run.{run-Inv}
use pty_relay.Channel.OpenHandler.Answer.{
  Ends, registry_after, spawns, sent, reply_to, spawn_options,
}
use pty_relay.Channel.OpenHandler.Replies.{handle_control-open_exec}
use pty_relay.Channel.OpenHandler.Chunks.{
  out_pipe, chunk_of, Reads, on_child_event-chunk, on_child_event_lost,
}

abbrev all_pipes : Child
all_pipes = record { has_stdin = true; has_stdout = true; has_stderr = true }

abbrev platform : Platform
platform = record { spawn = λ o. some all_pipes; utf8_decode = λ bs. some "SIGINT"; trim = λ s. s }

abbrev git_options : SpawnOptions
git_options = record { argv = "git" ∷ "status" ∷ []; env = none; cwd = none }

abbrev git_bridge : Bridge
git_bridge = record {
  channel_id = 7;
  opts = git_options;
  child = some all_pipes;
  stdin_closed = false;
  finalized = false;
}

abbrev life : List Exec.Event
life =
    stdin_frame (1 ∷ 2 ∷ [])
    ∷ child_event (stdout (3 ∷ []))
    ∷ stdin_frame []
    ∷ child_event (exit (some (nat 0)) none)
    ∷ closed "peer_lost"
    ∷ []

run-IsAnnouncement_example : IsAnnouncement 7 (controls (Exec.run platform life git_bridge).1)
run-IsAnnouncement_example = run-IsAnnouncement platform life git_bridge refl

run-IsStdinTrace_example :
    IsStdinTrace false (Exec.run platform life git_bridge).1
    × All IsAllowed (Exec.run platform life git_bridge).1
run-IsStdinTrace_example = run-IsStdinTrace platform life git_bridge

git_bridge-IsOpen : IsOpen git_bridge
git_bridge-IsOpen = record {
  child = all_pipes;
  is_child = refl;
  has_pipe = refl;
  live = refl;
  not_ended = refl;
}

-- A daemon with exec enabled, whose client asks for `/usr/bin/git`.
abbrev open_git_object : Fields
open_git_object = field "type" (str "channel_open") (
    field "id" (Json.num (nat 7)) (
      field "mode" (str "exec")
        (field "argv" (Json.arr (Items.item (str "/usr/bin/git") Items.nil)) end)))

abbrev env : Env
env = record {
  allow_exec = true;
  platform = platform;
  spawn_message = λ o. "ENOENT";
  decoders = record { utf8_decode = λ bs. some "{}"; json_parse = λ s. some (obj open_git_object) };
  stringify = λ o. 123 ∷ 125 ∷ [];
  number_text = λ n. "7";
}

abbrev events : List OpenHandler.Event
events = plaintext (0 ∷ 0 ∷ 0 ∷ 0 ∷ 0 ∷ 123 ∷ 125 ∷ []) ∷ ended "peer_lost" ∷ []

run-Inv_example : Inv env (OpenHandler.run env events fresh)
run-Inv_example = run-Inv env events

handle_control-open_exec_example :
    Ends
      (registry_after env 7 (spawn_options ("git" ∷ []) absent absent) [] 0)
      ([]
        ++ (spawns env 7 (spawn_options ("git" ∷ []) absent absent) []
            ++ sent env (reply_to env 7 (spawn_options ("git" ∷ []) absent absent) []) ∷ []))
      (handle_control env (channel_open_exec 7 ("git" ∷ []) absent absent) fresh)
handle_control-open_exec_example =
    handle_control-open_exec env 7 ("git" ∷ []) absent absent fresh (ground arith)

abbrev with_git : World
with_git = record { bridges = λ a. some git_bridge; next = 1; out = [] }

git-Reads : Reads out_pipe 0 with_git git_bridge
git-Reads = record { child = all_pipes; here = refl; alive = refl; reads = refl }

-- The bridge of a channel that is closed already, whose child still writes.
abbrev ended_bridge : Bridge
ended_bridge = record git_bridge { finalized = true }

abbrev with_ended : World
with_ended = record with_git { bridges = λ a. some ended_bridge }

ended-Reads : Reads out_pipe 0 with_ended ended_bridge
ended-Reads = record { child = all_pipes; here = refl; alive = refl; reads = refl }

on_child_event-chunk_example :
    (bs : Bytes) × ((on_child_event env 0 (chunk_of out_pipe (3 ∷ 4 ∷ [])) ([], with_ended)).0.1.out
      ≡ [] ++ sent_data bs ∷ [])
    × (decode_frame bs ≡ ok (record { channel_id = 7; type = 0; payload = 1 ∷ 3 ∷ 4 ∷ [] }))
on_child_event-chunk_example =
    on_child_event-chunk env out_pipe 0 (3 ∷ 4 ∷ []) [] with_ended ended_bridge ended-Reads
      (ground arith) (ground arith)

-- `n` bytes.
abbrev zeros : ℕ → Bytes
zeros Prim.Native.Nat.zero = []
zeros (Prim.Native.Nat.suc n) = 0 ∷ zeros n

length-zeros : (n : ℕ) → length (zeros n) ≡ n
length-zeros Prim.Native.Nat.zero = refl
length-zeros (Prim.Native.Nat.suc n) = omega (arith, length-zeros n)

on_child_event_lost_example :
    (on_child_event env 0 (chunk_of out_pipe (zeros 65531)) ([], with_git)).0.1.out ≡ []
on_child_event_lost_example =
    on_child_event_lost env out_pipe 0 (zeros 65531) [] with_git git_bridge git-Reads (ground arith)
      (omega (arith, length-zeros 65531))

abbrev git_registry : Registry Handler
git_registry = (7, exec 0) ∷ []

close_everything_lem_example : close_everything env "peer_lost" (git_registry, with_git) ≡ (
  [],
  close_each
      (handler_close env)
      (closed_world env)
      (handler_close-quiet env)
      "peer_lost"
      with_git
      (values git_registry),
)
close_everything_lem_example = close_everything_lem env "peer_lost" git_registry with_git
