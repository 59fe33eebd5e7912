-- ===== src/Approval/Queue.antt =====
-- `updateClients` of src/relay/clients.ts: the queue of changes to the stored tokens. A change loads
-- the tokens, computes, and saves, with other code running in between.
pub mod Atomic
use pty_relay.Base.{ℕ, ◌+◌, Bool, true, false, Option, none, some, List, [], ◌∷◌, ◌++◌, ◌≡◌}
use pty_relay.Approval.Tokens.{ClientToken}

abbrev pub Tokens : Type 0
Tokens = List ClientToken

-- A mutator; `none` is an exception.
abbrev pub Mutator : Type 0
Mutator = Tokens → Option Tokens

-- Where the `work` at the head of the queue stands.
pub data Phase : Type 0 where
  idle : Phase
  loaded : Mutator → Tokens → Phase
  mutated : Mutator → Tokens → Phase

-- What the promise of a call does: `work` ended, or threw.
pub data Outcome : Type 0 where
  resolved rejected : Outcome

-- `turn` counts the works that have ended; `outcomes` are theirs.
pub record Queue : Type 0 where
  pub stored : Tokens
  pub phase : Phase
  pub jobs : List Mutator
  pub turn : ℕ
  pub outcomes : List Outcome

-- The load and the save of each work go well or not. `loadClients` gives no tokens when it fails, or
-- when what is stored is malformed.
pub record Faults : Type 0 where
  pub loads : ℕ → Bool
  pub saves : ℕ → Bool

abbrev pub load_clients : Bool → Tokens → Tokens
load_clients true d = d
load_clients false d = []

-- One step: a call of `updateClients`, or the head of the queue goes on behind an `await`. A mutator
-- that throws and a save that fails end the work without a change.
pub data Step (w : Faults) : Queue → Queue → Type 0 where
  call : (q : Queue) (f : Mutator) → Step w q (record q { jobs = q.jobs ++ (f ∷ []) })
  load :
      (d : Tokens) (js : List Mutator) (f : Mutator) (n : ℕ) (os : List Outcome)
      → Step w
          (record { stored = d; phase = idle; jobs = f ∷ js; turn = n; outcomes = os })
          (record {
            stored = d;
            phase = loaded f (load_clients (w.loads n) d);
            jobs = js;
            turn = n;
            outcomes = os;
          })
  mutate :
      (d e e' : Tokens) (js : List Mutator) (f : Mutator) (n : ℕ) (os : List Outcome)
      → f e ≡ some e'
      → Step w
          (record { stored = d; phase = loaded f e; jobs = js; turn = n; outcomes = os })
          (record { stored = d; phase = mutated f e'; jobs = js; turn = n; outcomes = os })
  throw :
      (d e : Tokens) (js : List Mutator) (f : Mutator) (n : ℕ) (os : List Outcome)
      → f e ≡ none
      → Step w
          (record { stored = d; phase = loaded f e; jobs = js; turn = n; outcomes = os })
          (record {
            stored = d;
            phase = idle;
            jobs = js;
            turn = n + 1;
            outcomes = os ++ (rejected ∷ []);
          })
  save :
      (d e : Tokens) (js : List Mutator) (f : Mutator) (n : ℕ) (os : List Outcome)
      → w.saves n ≡ true
      → Step w
          (record { stored = d; phase = mutated f e; jobs = js; turn = n; outcomes = os })
          (record {
            stored = e;
            phase = idle;
            jobs = js;
            turn = n + 1;
            outcomes = os ++ (resolved ∷ []);
          })
  save_failed :
      (d e : Tokens) (js : List Mutator) (f : Mutator) (n : ℕ) (os : List Outcome)
      → w.saves n ≡ false
      → Step w
          (record { stored = d; phase = mutated f e; jobs = js; turn = n; outcomes = os })
          (record {
            stored = d;
            phase = idle;
            jobs = js;
            turn = n + 1;
            outcomes = os ++ (rejected ∷ []);
          })

abbrev pub empty_queue : Tokens → Queue
empty_queue d = record { stored = d; phase = idle; jobs = []; turn = 0; outcomes = [] }

pub data Reach (w : Faults) (d : Tokens) : Queue → Type 0 where
  start : Reach w d (empty_queue d)
  later : {q q' : Queue} → Reach w d q → Step w q q' → Reach w d q'
