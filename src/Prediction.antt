-- ===== src/Prediction.antt =====
-- browser/src/predict-input.ts: typed characters that are shown before the server's echo. Texts are
-- lists of character codes; the cursor that the terminal reports comes with an event.
pub mod Terminal
pub mod Screen
mod Tests
use pty_relay.Base.{
  ℕ, ◌+◌, Bool, true, false, not, ◌&&◌, ◌||◌, List, [], ◌∷◌, ◌++◌, leb, length, ◌==◌, if◌then◌else◌,
}

abbrev pub max_queue : ℕ
max_queue = 32

pub record Prediction : Type 0 where
  pub row : ℕ
  pub col : ℕ
  pub char : ℕ

-- `term.write` of a text, and of the escape sequences that go to a row and column (CSI H) and erase to
-- the end of the line (CSI K), and `sendToServer`.
pub data Output : Type 0 where
  wrote : List ℕ → Output
  erased : ℕ → ℕ → Output
  to_server : List ℕ → Output

pub record Predictor : Type 0 where
  pub enabled : Bool
  pub queue : List Prediction
  pub out : List Output

abbrev pub emit : Output → Predictor → Predictor
emit o p = record p { out = p.out ++ (o ∷ []) }

-- `rollback()`
unfoldable pub rollback_by : List Prediction → Predictor → Predictor
rollback_by [] p = p
rollback_by (q ∷ qs) p = emit (erased q.row q.col) (record p { queue = [] })

unfoldable pub rollback : Predictor → Predictor
rollback p = rollback_by p.queue p

-- `/^[\x20-\x7e]+$/.test(data)`
unfoldable pub all_printable : List ℕ → Bool
all_printable [] = true
all_printable (c ∷ cs) = (leb 0x20 c && leb c 0x7e) && all_printable cs

abbrev pub is_empty : List ℕ → Bool
is_empty [] = true
is_empty (c ∷ cs) = false

abbrev pub is_printable : List ℕ → Bool
is_printable cs = not (is_empty cs) && all_printable cs

-- The loop over the characters; `cursor` is the row and the column as each is handled.
unfoldable pub predict_each : (ℕ → ℕ × ℕ) → ℕ → List ℕ → Predictor → Predictor
predict_each cursor i [] p = p
predict_each cursor i (c ∷ cs) p =
    let rest = predict_each cursor (i + 1) cs (
      emit (wrote (c ∷ [])) (record p {
        queue = p.queue ++ (record { row = (cursor i).0; col = (cursor i).1; char = c } ∷ []);
      })) in
    if leb max_queue (length p.queue) then p else rest

-- `onUserData(data)`, when the alternate screen is on or not
unfoldable pub on_user_data : List ℕ → Bool → (ℕ → ℕ × ℕ) → Predictor → Predictor
on_user_data cs alt cursor p =
    if not p.enabled || alt
    then emit (to_server cs) p
    else (if leb max_queue (length p.queue)
        then emit (to_server cs) p
        else (if is_printable cs
            then emit (to_server cs) (predict_each cursor 0 cs p)
            else emit (to_server cs) p))

-- The loop of `onServerData` over the bytes and the queue, and what follows it.
unfoldable pub reconcile : List ℕ → List Prediction → Predictor → Predictor
reconcile [] qs p = record p { queue = qs }
reconcile (b ∷ bs) [] p = emit (wrote (b ∷ bs)) (record p { queue = [] })
reconcile (b ∷ bs) (q ∷ qs) p =
    let rest = reconcile bs qs p in
    if b == q.char then rest else emit (wrote (b ∷ bs)) (rollback (record p { queue = q ∷ qs }))

-- `onServerData(data)`
unfoldable pub server_data_by : List Prediction → List ℕ → Predictor → Predictor
server_data_by [] bs p = emit (wrote bs) p
server_data_by (q ∷ qs) bs p = if p.enabled then reconcile bs (q ∷ qs) p else emit (wrote bs) p

unfoldable pub on_server_data : List ℕ → Predictor → Predictor
on_server_data bs p = server_data_by p.queue bs p

-- `setEnabled(e)` and `destroy()`
unfoldable pub set_enabled : Bool → Predictor → Predictor
set_enabled e p = record (if not e && p.enabled then rollback p else p) { enabled = e }

abbrev pub destroy : Predictor → Predictor
destroy p = record (rollback p) { enabled = false }

pub data Event : Type 0 where
  user_data : List ℕ → Bool → (ℕ → ℕ × ℕ) → Event
  server_data : List ℕ → Event
  enabling : Bool → Event
  destroying : Event

unfoldable pub step : Event → Predictor → Predictor
step (user_data cs alt cursor) p = on_user_data cs alt cursor p
step (server_data bs) p = on_server_data bs p
step (enabling e) p = set_enabled e p
step destroying p = destroy p

unfoldable pub run : List Event → Predictor → Predictor
run [] p = p
run (e ∷ es) p = run es (step e p)

-- `createInputPredictor({enabled})`
abbrev pub fresh : Bool → Predictor
fresh enabled = record { enabled = enabled; queue = []; out = [] }
