-- ===== src/Channel/Tests/Session.antt =====
-- The session bridge at concrete inputs.
use pty_relay.Base.{true, false, none, List, [], ◌∷◌, ◌≡◌, refl, ◌⊎◌}
use pty_relay.Channel.Connection.{Conn}
use pty_relay.Channel.SessionBridge.{
  attach_packet, detach_packet, payload, wrote, destroying, resolved, connecting, sent, fresh,
  attach, Event, attaching, framed, closing, connected, received, step, run, on_frame, frame_to,
  close, close_of, attach_to,
}
use pty_relay.Channel.SessionBridge.Trace.{live, IsPtyTrace, run-IsPtyTrace}
use pty_relay.Channel.SessionBridge.Chunks.{IsForwarded, IsCutOff, received_outcome}

abbrev empty_conn : Conn
empty_conn = ([], record { bridges = λ a. none; next = 0; out = [] })

-- A frame comes before the socket connects; then text comes back, and the client closes.
abbrev early_frame : List Event
early_frame =
    framed 0 (104 ∷ [])
    ∷ connected 0
    ∷ received 0 (105 ∷ []) false
    ∷ closing "client_detach" false
    ∷ framed 0 (106 ∷ [])
    ∷ []

run-IsPtyTrace_example :
    IsPtyTrace live (run (λ bs. true) early_frame (attach "main" 80 24 fresh).0).1
run-IsPtyTrace_example =
    run-IsPtyTrace (λ bs. true) "main" 80 24 early_frame (tt, (tt, (tt, (tt, (tt, tt)))))

-- The frame goes to the session ahead of the ATTACH.
early_frame_out : (run (λ bs. true) (attaching "main" 80 24 ∷ early_frame) fresh).1 ≡ (
    connecting 0 "main"
    ∷ wrote 0 (payload (104 ∷ []))
    ∷ wrote 0 (attach_packet 24 80)
    ∷ resolved
    ∷ sent (105 ∷ [])
    ∷ wrote 0 detach_packet
    ∷ destroying 0
    ∷ [])
unfolding run step attach on_frame frame_to close close_of attach_to
early_frame_out = refl

received_outcome_example :
    IsForwarded empty_conn 0 (7 ∷ []) false fresh ⊎ IsCutOff empty_conn 0 (7 ∷ []) false fresh
received_outcome_example = received_outcome empty_conn 0 (7 ∷ []) false fresh
