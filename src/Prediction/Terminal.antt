-- ===== src/Prediction/Terminal.antt =====
-- The terminal that the predictor of browser/src/predict-input.ts writes to, as a parameter.
use pty_relay.Base.{
  All, ℕ, suc, ◌+◌, ◌≤◌, Bool, true, false, List, [], ◌∷◌, ◌++◌, length, ◌≡◌, refl, ap,
}
use pty_relay.Prediction.{
  Prediction, Output, wrote, erased, to_server, Predictor, all_printable, Event, user_data,
  server_data, step,
}

abbrev pub chars : List Prediction → List ℕ
chars [] = []
chars (q ∷ qs) = q.char ∷ chars qs

-- What the code asks of the terminal: `write` of a text, the escape sequences CSI H to a row and column
-- and CSI K, and its cursor. `HasRoom t n` says that nothing stands behind the cursor on its row, and
-- that the row has room for `n` characters there.
pub record Terminal : Type 1 where
  pub State : Type 0
  pub write : List ℕ → State → State
  pub erase_from : ℕ → ℕ → State → State
  pub cursor : State → ℕ × ℕ
  pub HasRoom : State → ℕ → Type 0

abbrev pub IsPrintable : ℕ → Type 0
IsPrintable c = (32 ≤ c) × (c ≤ 126)

-- A text may be written in pieces; a printable character takes one place; and going back to where a
-- text of one row began, and erasing the row from there, takes the text away.
pub record Laws (m : Terminal) : Type 0 where
  pub write-nil : (t : m.State) → m.write [] t ≡ t
  pub write-append :
      (xs ys : List ℕ) (t : m.State) → m.write (xs ++ ys) t ≡ m.write ys (m.write xs t)
  pub takes_one :
      (c n : ℕ) (t : m.State)
      → IsPrintable c
      → m.HasRoom t (suc n)
      → m.HasRoom (m.write (c ∷ []) t) n
  pub erases :
      (t : m.State) (cs : List ℕ)
      → All IsPrintable cs
      → m.HasRoom t (length cs)
      → m.erase_from (m.cursor t).0 (m.cursor t).1 (m.write cs t) ≡ t

pub length-chars : (qs : List Prediction) → length (chars qs) ≡ length qs
length-chars [] = refl
length-chars (q ∷ qs) = ap suc (length-chars qs)

pub chars-append : (qs rs : List Prediction) → chars (qs ++ rs) ≡ chars qs ++ chars rs
chars-append [] rs = refl
chars-append (q ∷ qs) rs = ap (λ l. q.char ∷ l) (chars-append qs rs)

-- A disabled predictor has no predictions.
abbrev pub IsQuiet : Bool → List Prediction → Type 0
IsQuiet true qs = Unit
IsQuiet false qs = qs ≡ []

pub IsQuiet-nil : (b : Bool) → IsQuiet b []
IsQuiet-nil true = tt
IsQuiet-nil false = refl

-- What the server sent.
abbrev pub served_by : List Event → List ℕ
served_by [] = []
served_by (server_data bs ∷ es) = bs ++ served_by es
served_by (_ ∷ es) = served_by es

module _ (m : Terminal) where
  -- The terminal after the outputs.
  abbrev pub screen : m.State → List Output → m.State
  screen t [] = t
  screen t (wrote cs ∷ os) = screen (m.write cs t) os
  screen t (erased r c ∷ os) = screen (m.erase_from r c t) os
  screen t (to_server cs ∷ os) = screen t os

  pub screen-append :
      (t : m.State) (os ps : List Output) → screen t (os ++ ps) ≡ screen (screen t os) ps
  screen-append t [] ps = refl
  screen-append t (wrote cs ∷ os) ps = screen-append (m.write cs t) os ps
  screen-append t (erased r c ∷ os) ps = screen-append (m.erase_from r c t) os ps
  screen-append t (to_server cs ∷ os) ps = screen-append t os ps

  -- What is asked of the typed characters while they are predicted: the terminal has taken up what was
  -- written before, so that the cursor is where that put it, and the row has room.
  abbrev pub IsTold : m.State → (ℕ → ℕ × ℕ) → ℕ → List ℕ → List Prediction → Type 0
  IsTold t cursor i [] qs = Unit
  IsTold t cursor i (c ∷ cs) qs =
      (cursor i ≡ m.cursor (m.write (chars qs) t))
      × m.HasRoom t (suc (length qs))
      × IsTold t cursor (i + 1) cs
          (qs ++ (record { row = (cursor i).0; col = (cursor i).1; char = c } ∷ []))

  -- This of a run, where `t` is the terminal without predictions.
  abbrev pub IsSynced : m.State → Predictor → List Event → Type 0
  IsSynced t p [] = Unit
  IsSynced t p (user_data cs alt cursor ∷ es) =
      (p.enabled ≡ true → alt ≡ false → all_printable cs ≡ true → IsTold t cursor 0 cs p.queue)
      × IsSynced t (step (user_data cs alt cursor) p) es
  IsSynced t p (server_data bs ∷ es) = IsSynced (m.write bs t) (step (server_data bs) p) es
  IsSynced t p (e ∷ es) = IsSynced t (step e p) es
