-- ===== src/Approval/Queue/Atomic.antt =====
-- The queue of `updateClients` (src/relay/clients.ts) against a specification in which a change is one
-- step.
use pty_relay.Base.{
  ℕ, ◌+◌, Bool, true, false, Option, none, some, List, [], ◌∷◌, ◌++◌, ◌≡◌, refl, subst, ap, ◌∙◌,
}
use pty_relay.Approval.Queue.{
  Tokens, Mutator, Phase, idle, loaded, mutated, Outcome, resolved, rejected, Queue, Faults,
  load_clients, Step, call, load, mutate, throw, save, save_failed, Reach, start, later,
}

-- The stored tokens, the changes to come, and the outcomes so far.
pub record Store : Type 0 where
  pub stored : Tokens
  pub jobs : List Mutator
  pub outcomes : List Outcome

-- What one change does, by what it gives and whether it can be saved: it is stored and its caller
-- hears so, or nothing changes and its caller hears that.
abbrev pub effect : Option Tokens → Bool → Tokens → Tokens × Outcome
effect none saves d = (d, rejected)
effect (some e) true d = (e, resolved)
effect (some e) false d = (d, rejected)

-- The tokens that the change sees: those that are stored, or none when they cannot be read.
abbrev pub seen : Bool → Tokens → Tokens
seen true d = d
seen false d = []

-- The specification: calls wait in order, and each is applied at once.
pub data Atomic (w : Faults) : ℕ × Store → ℕ × Store → Type 0 where
  called :
      (n : ℕ) (s : Store) (f : Mutator)
      → Atomic w (n, s) (n, record s { jobs = s.jobs ++ (f ∷ []) })
  applied :
      (n : ℕ) (d : Tokens) (js : List Mutator) (f : Mutator) (os : List Outcome)
      (r : Tokens × Outcome)
      → effect (f (seen (w.loads n) d)) (w.saves n) d ≡ r
      → Atomic w
          (n, record { stored = d; jobs = f ∷ js; outcomes = os })
          (n + 1, record { stored = r.0; jobs = js; outcomes = os ++ (r.1 ∷ []) })

pub data AtomicReach (w : Faults) (d : Tokens) : ℕ × Store → Type 0 where
  begin : AtomicReach w d (0, record { stored = d; jobs = []; outcomes = [] })
  next : {a b : ℕ × Store} → AtomicReach w d a → Atomic w a b → AtomicReach w d b

-- What the specification sees of a queue: work that has not ended is still to come.
abbrev pub open_jobs : Phase → List Mutator → List Mutator
open_jobs idle js = js
open_jobs (loaded f e) js = f ∷ js
open_jobs (mutated f e) js = f ∷ js

abbrev pub view : Queue → ℕ × Store
view q =
    (q.turn, record { stored = q.stored; jobs = open_jobs q.phase q.jobs; outcomes = q.outcomes })

-- What was loaded is what the change shall see.
abbrev IsFresh : Faults → ℕ → Tokens → Phase → Type 0
IsFresh w n d idle = Unit
IsFresh w n d (loaded f e) = seen (w.loads n) d ≡ e
IsFresh w n d (mutated f e) = f (seen (w.loads n) d) ≡ some e

open_jobs-append :
    (p : Phase) (js : List Mutator) (f : Mutator)
    → open_jobs p js ++ (f ∷ []) ≡ open_jobs p (js ++ (f ∷ []))
open_jobs-append idle js f = refl
open_jobs-append (loaded g e) js f = refl
open_jobs-append (mutated g e) js f = refl

seen-load_clients : (b : Bool) (d : Tokens) → seen b d ≡ load_clients b d
seen-load_clients true d = refl
seen-load_clients false d = refl

module _ (w : Faults) where
  Step-IsFresh :
      {q q' : Queue}
      → Step w q q'
      → IsFresh w q.turn q.stored q.phase
      → IsFresh w q'.turn q'.stored q'.phase
  Step-IsFresh (call q f) h = h
  Step-IsFresh (load d js f n os) h = seen-load_clients (w.loads n) d
  Step-IsFresh (mutate d e e' js f n os m) h = ap f h ∙ m
  Step-IsFresh (throw d e js f n os m) h = tt
  Step-IsFresh (save d e js f n os m) h = tt
  Step-IsFresh (save_failed d e js f n os m) h = tt

  Reach-IsFresh : {d : Tokens} {q : Queue} → Reach w d q → IsFresh w q.turn q.stored q.phase
  Reach-IsFresh start = tt
  Reach-IsFresh (later r s) = Step-IsFresh s (Reach-IsFresh r)

  -- A step of the queue is a step of the specification, or none.
  Step-refines :
      {d : Tokens} {q q' : Queue}
      → Step w q q'
      → IsFresh w q.turn q.stored q.phase
      → AtomicReach w d (view q)
      → AtomicReach w d (view q')
  Step-refines {d} (call q f) h a =
      subst
        (λ l.
          AtomicReach w d (q.turn, record { stored = q.stored; jobs = l; outcomes = q.outcomes }))
        (open_jobs-append q.phase q.jobs f) (next a (called q.turn _ f))
  Step-refines (load c js f n os) h a = a
  Step-refines (mutate c e e' js f n os m) h a = a
  Step-refines (throw c e js f n os m) h a =
      next a (applied n c js f os (c, rejected) (ap (λ o. effect o (w.saves n) c) (ap f h ∙ m)))
  Step-refines (save c e js f n os m) h a = next a (
      applied n c js f os (e, resolved)
        (ap (λ o. effect o (w.saves n) c) h ∙ ap (λ b. effect (some e) b c) m))
  Step-refines (save_failed c e js f n os m) h a = next a (
      applied n c js f os (c, rejected)
        (ap (λ o. effect o (w.saves n) c) h ∙ ap (λ b. effect (some e) b c) m))

  -- However the changes of the stored tokens interleave with their calls, what is stored, what is
  -- still to come and what the callers have heard are what the specification reaches, in which each
  -- change is made at once, in the order of the calls, on the tokens as the change before it left
  -- them, or on no tokens when they cannot be read: when the change does not throw and can be
  -- saved, it is stored and its promise resolves, and else nothing changes and its promise rejects.
  pub Reach-refines : {d : Tokens} {q : Queue} → Reach w d q → AtomicReach w d (view q)
  Reach-refines start = begin
  Reach-refines (later r s) = Step-refines s (Reach-IsFresh r) (Reach-refines r)
