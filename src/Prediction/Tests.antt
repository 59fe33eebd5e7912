-- ===== src/Prediction/Tests.antt =====
-- The input predictor at concrete inputs, on a terminal of one endless row.
use pty_relay.Base.{
  ℕ, zero, suc, ◌≤◌, true, false, List, [], ◌∷◌, ◌++◌, append_assoc, append-nil, length, ◌≡◌, refl,
  sym, ap,
}
use pty_relay.Prediction.{
  Event, user_data, server_data, wrote, erased, to_server, run, step, fresh, on_user_data,
  predict_each, all_printable, on_server_data, server_data_by, reconcile, rollback, rollback_by,
}
use pty_relay.Prediction.Terminal.{Terminal, Laws, chars, screen, served_by, IsSynced, IsQuiet}
use pty_relay.Prediction.Screen.{run-Shows}

abbrev take : ℕ → List ℕ → List ℕ
take zero xs = []
take (suc n) [] = []
take (suc n) (x ∷ xs) = x ∷ take n xs

take-length : (xs ys : List ℕ) → take (length xs) (xs ++ ys) ≡ xs
take-length [] ys = refl
take-length (x ∷ xs) ys = ap (λ l. x ∷ l) (take-length xs ys)

-- The cursor stands behind the text.
abbrev row : Terminal
row = record {
  State = List ℕ;
  write = λ cs t. t ++ cs;
  erase_from = λ r c t. take c t;
  cursor = λ t. (0, length t);
  HasRoom = λ t n. Unit;
}

row-Laws : Laws row
row-Laws = record {
  write-nil = append-nil;
  write-append = λ xs ys t. sym (append_assoc t xs ys);
  takes_one = λ c n t plain room. tt;
  erases = λ t cs plain room. take-length t cs;
}

-- "l" and "s" are typed, "l" comes back, and then a line break where the "s" was expected.
abbrev typed : List Event
typed =
    user_data (108 ∷ []) false (λ i. (0, 2))
    ∷ user_data (115 ∷ []) false (λ i. (0, 3))
    ∷ server_data (108 ∷ [])
    ∷ server_data (10 ∷ 120 ∷ [])
    ∷ []

abbrev prompt : List ℕ
prompt = 36 ∷ 32 ∷ []

typed-IsSynced : IsSynced row prompt (fresh true) typed
unfolding run step on_user_data predict_each all_printable on_server_data server_data_by reconcile
    rollback rollback_by
typed-IsSynced = (λ on alt plain. (refl, tt, tt), (λ on alt plain. (refl, tt, tt), tt))

run-Shows_example :
    (screen row prompt (run typed (fresh true)).out
      ≡ ((prompt ++ served_by typed) ++ chars (run typed (fresh true)).queue))
    × (length (run typed (fresh true)).queue ≤ 32)
    × IsQuiet (run typed (fresh true)).enabled (run typed (fresh true)).queue
run-Shows_example = run-Shows row row-Laws true typed prompt typed-IsSynced

typed_out : (run typed (fresh true)).out ≡ (
    wrote (108 ∷ [])
    ∷ to_server (108 ∷ [])
    ∷ wrote (115 ∷ [])
    ∷ to_server (115 ∷ [])
    ∷ erased 0 3
    ∷ wrote (10 ∷ 120 ∷ [])
    ∷ [])
unfolding run step on_user_data predict_each all_printable on_server_data server_data_by reconcile
    rollback rollback_by
typed_out = refl

-- Both characters of one batch get the cursor that the terminal had before it; the rollback then erases
-- the confirmed "l" too.
abbrev pasted : List Event
pasted =
    user_data (108 ∷ 115 ∷ []) false (λ i. (0, 2))
    ∷ server_data (108 ∷ [])
    ∷ server_data (10 ∷ [])
    ∷ []

pasted_shown : screen row prompt (run pasted (fresh true)).out ≡ (36 ∷ 32 ∷ 10 ∷ [])
unfolding run step on_user_data predict_each all_printable on_server_data server_data_by reconcile
    rollback rollback_by
pasted_shown = refl
