-- ===== src/Prediction/Screen.antt =====
-- What the terminal shows: the server's output, and the predictions behind it.
use pty_relay.Base.{
  All, All-append, ℕ, suc, ◌+◌, ◌≤◌, Bool, true, false, not, ◌||◌, List, [], ◌∷◌, ◌++◌, leb, length,
  length-append, ◌≡◌, refl, sym, ap, ◌∙◌, subst, arith, ◌==◌, if◌then◌else◌,
}
use pty_relay.Prediction.{
  max_queue, Prediction, wrote, erased, to_server, Predictor, emit, rollback_by, rollback,
  is_printable, all_printable, predict_each, on_user_data, reconcile, server_data_by,
  on_server_data, set_enabled, Event, user_data, server_data, enabling, destroying, step, run,
  fresh,
}
use pty_relay.Prediction.Terminal.{
  chars, Terminal, IsPrintable, Laws, length-chars, chars-append, IsQuiet, IsQuiet-nil, served_by,
  screen, screen-append, IsTold, IsSynced,
}

module _ (m : Terminal) (laws : Laws m) where
  -- The predictions stand where the terminal had its cursor.
  abbrev Placed : m.State → List Prediction → Type 0
  Placed t [] = Unit
  Placed t (q ∷ qs) = (m.cursor t ≡ (q.row, q.col)) × Placed (m.write (q.char ∷ []) t) qs

  abbrev Roomy : m.State → List Prediction → Type 0
  Roomy t [] = Unit
  Roomy t (q ∷ qs) = m.HasRoom t (suc (length qs))

  -- The terminal shows what it shows without predictions, `t`, and the predictions behind it.
  record Shown (s t : m.State) (p : Predictor) (qs : List Prediction) : Type 0 where
    shown : screen m s p.out ≡ m.write (chars qs) t
    placed : Placed t qs
    roomy : Roomy t qs
    printable : All IsPrintable (chars qs)
    few : length qs ≤ 32
    quiet : IsQuiet p.enabled qs

  -- What the server sent is in the terminal, and no prediction.
  none_left : (s t : m.State) (p : Predictor) → screen m s p.out ≡ t → Shown s t p []
  none_left s t p h = record {
    shown = h ∙ sym (laws.write-nil t);
    placed = tt;
    roomy = tt;
    printable = tt;
    few = ground arith;
    quiet = IsQuiet-nil p.enabled;
  }

  wrote-Shown :
      (s t : m.State) (bs : List ℕ) (p : Predictor)
      → screen m s p.out ≡ t
      → Shown s (m.write bs t) (emit (wrote bs) p) []
  wrote-Shown s t bs p h =
      none_left s (m.write bs t) (emit (wrote bs) p)
        (screen-append m s p.out (wrote bs ∷ []) ∙ ap (m.write bs) h)

  send-Shown :
      (s t : m.State) (cs : List ℕ) (p : Predictor) (qs : List Prediction)
      → Shown s t p qs
      → Shown s t (emit (to_server cs) p) qs
  send-Shown s t cs p qs v = record {
    shown = screen-append m s p.out (to_server cs ∷ []) ∙ v.shown;
    placed = v.placed;
    roomy = v.roomy;
    printable = v.printable;
    few = v.few;
    quiet = v.quiet;
  }

  -- A rollback leaves what the server sent.
  rollback_by-Shown :
      (s t : m.State) (qs : List Prediction) (p p' : Predictor)
      → p'.out ≡ p.out
      → p'.queue ≡ qs
      → Shown s t p qs
      → (screen m s (rollback_by qs p').out ≡ t) × ((rollback_by qs p').queue ≡ [])
  unfolding rollback_by
  rollback_by-Shown s t [] p p' o e v = (ap (screen m s) o ∙ v.shown ∙ laws.write-nil t, e)
  rollback_by-Shown s t (q ∷ qs) p p' o e v = (
    screen-append m s p'.out (erased q.row q.col ∷ [])
        ∙ ap (λ os. m.erase_from q.row q.col (screen m s os)) o
        ∙ ap (m.erase_from q.row q.col) v.shown
        ∙ ap (λ (a : ℕ × ℕ). m.erase_from a.0 a.1 (m.write (chars (q ∷ qs)) t)) (sym v.placed.0)
        ∙ laws.erases t (chars (q ∷ qs)) v.printable
            (subst (m.HasRoom t) (sym (length-chars (q ∷ qs))) v.roomy),
    refl,
  )

  -- The prediction at the head is confirmed.
  confirmed :
      (s t : m.State) (q : Prediction) (qs : List Prediction) (p : Predictor)
      → Shown s t p (q ∷ qs)
      → p.enabled ≡ true
      → Shown s (m.write (q.char ∷ []) t) p qs
  confirmed s t q qs p v on = record {
    shown = v.shown ∙ laws.write-append (q.char ∷ []) (chars qs) t;
    placed = v.placed.1;
    roomy = rest qs v.roomy;
    printable = v.printable.1;
    few = omega (arith, v.few);
    quiet = subst (λ b. IsQuiet b qs) (sym on) tt;
  }
    where
      rest :
          (rs : List Prediction)
          → m.HasRoom t (suc (length rs))
          → Roomy (m.write (q.char ∷ []) t) rs
      rest [] r = tt
      rest (x ∷ xs) r = laws.takes_one q.char (suc (length xs)) t v.printable.0 r

  -- A new prediction at the cursor.
  Placed-append :
      (t : m.State) (qs : List Prediction) (q : Prediction)
      → Placed t qs
      → (q.row, q.col) ≡ m.cursor (m.write (chars qs) t)
      → Placed t (qs ++ (q ∷ []))
  Placed-append t [] q h e = (ap m.cursor (sym (laws.write-nil t)) ∙ sym e, tt)
  Placed-append t (x ∷ xs) q h e = (
    h.0,
    Placed-append (m.write (x.char ∷ []) t) xs q h.1
        (e ∙ ap m.cursor (laws.write-append (x.char ∷ []) (chars xs) t)),
  )

  room_before :
      (t : m.State) (qs : List Prediction) (q : Prediction)
      → m.HasRoom t (suc (length qs))
      → Roomy t (qs ++ (q ∷ []))
  room_before t [] q r = r
  room_before t (x ∷ xs) q r = subst (m.HasRoom t) (omega (arith, length-append xs (q ∷ []))) r

  predict_each-Shown :
      (s t : m.State) (cursor : ℕ → ℕ × ℕ) (i : ℕ) (cs : List ℕ) (p : Predictor)
      → p.enabled ≡ true
      → all_printable cs ≡ true
      → IsTold m t cursor i cs p.queue
      → Shown s t p p.queue
      → Shown s t (predict_each cursor i cs p) (predict_each cursor i cs p).queue
  unfolding predict_each all_printable
  predict_each-Shown s t cursor i [] p e a k v = v
  predict_each-Shown s t cursor i (c ∷ cs) p e a k v =
      by _ refl (λ h. predict_each-Shown s t cursor (i + 1) cs p' e (ground arith) k.2 (more h))
    where
      q : Prediction
      q = record { row = (cursor i).0; col = (cursor i).1; char = c }

      p' : Predictor
      p' = emit (wrote (c ∷ [])) (record p { queue = p.queue ++ (q ∷ []) })

      plain : IsPrintable c
      plain = ground (arith, a)

      more : leb max_queue (length p.queue) ≡ false → Shown s t p' (p.queue ++ (q ∷ []))
      more h = record {
        shown =
            screen-append m s p.out (wrote (c ∷ []) ∷ [])
            ∙ ap (m.write (c ∷ [])) v.shown
            ∙ sym (laws.write-append (chars p.queue) (c ∷ []) t)
            ∙ ap (λ l. m.write l t) (sym (chars-append p.queue (q ∷ [])));
        placed = Placed-append t p.queue q v.placed k.0;
        roomy = room_before t p.queue q k.1;
        printable =
            subst (All IsPrintable) (sym (chars-append p.queue (q ∷ [])))
              (All-append IsPrintable (chars p.queue) (c ∷ []) v.printable (plain, tt));
        few = ground (arith, h, length-append p.queue (q ∷ []));
        quiet = subst (λ b. IsQuiet b (p.queue ++ (q ∷ []))) (sym e) tt;
      }

      by :
          (full : Bool)
          → leb max_queue (length p.queue) ≡ full
          → (leb max_queue (length p.queue) ≡ false
              → Shown s t
                  (predict_each cursor (i + 1) cs p')
                  (predict_each cursor (i + 1) cs p').queue)
          → Shown s t
              (if full then p else predict_each cursor (i + 1) cs p')
              (if full then p else predict_each cursor (i + 1) cs p').queue
      by true h rest = v
      by false h rest = rest h

  -- The server's bytes, with the predictions that they confirm.
  reconcile-Shown :
      (s t : m.State) (bs : List ℕ) (qs : List Prediction) (p : Predictor)
      → p.enabled ≡ true
      → Shown s t p qs
      → Shown s (m.write bs t) (reconcile bs qs p) (reconcile bs qs p).queue
  unfolding reconcile rollback
  reconcile-Shown s t [] qs p e v = record {
    shown = v.shown ∙ ap (m.write (chars qs)) (sym (laws.write-nil t));
    placed = subst (λ u. Placed u qs) (sym (laws.write-nil t)) v.placed;
    roomy = subst (λ u. Roomy u qs) (sym (laws.write-nil t)) v.roomy;
    printable = v.printable;
    few = v.few;
    quiet = v.quiet;
  }
  reconcile-Shown s t (b ∷ bs) [] p e v =
      wrote-Shown s t (b ∷ bs) (record p { queue = [] }) (v.shown ∙ laws.write-nil t)
  reconcile-Shown s t (b ∷ bs) (q ∷ qs) p e v =
      by _ refl (λ same. reconcile-Shown s (m.write (b ∷ []) t) bs qs p e (taken same))
    where
      taken : (b == q.char) ≡ true → Shown s (m.write (b ∷ []) t) p qs
      taken same =
          subst (λ c. Shown s (m.write (c ∷ []) t) p qs) (ground (arith, same))
            (confirmed s t q qs p v e)

      undone : Predictor
      undone = record p { queue = q ∷ qs }

      by :
          (same : Bool)
          → (b == q.char) ≡ same
          → ((b == q.char) ≡ true
              → Shown s
                  (m.write bs (m.write (b ∷ []) t))
                  (reconcile bs qs p)
                  (reconcile bs qs p).queue)
          → Shown s
              (m.write (b ∷ bs) t)
              (if same
                then reconcile bs qs p
                else emit (wrote (b ∷ bs)) (rollback_by (q ∷ qs) undone))
              (if same
                then reconcile bs qs p
                else emit (wrote (b ∷ bs)) (rollback_by (q ∷ qs) undone)).queue
      by true same rest =
          subst (λ u. Shown s u (reconcile bs qs p) (reconcile bs qs p).queue)
            (sym (laws.write-append (b ∷ []) bs t)) (rest same)
      by false same rest =
          let (shown, empty) = rollback_by-Shown s t (q ∷ qs) p undone refl refl v in
          subst (Shown s (m.write (b ∷ bs) t) (emit (wrote (b ∷ bs)) (rollback_by (q ∷ qs) undone)))
            (sym empty) (wrote-Shown s t (b ∷ bs) (rollback_by (q ∷ qs) undone) shown)

  rolled_back :
      (s t : m.State) (e : Bool) (p : Predictor)
      → Shown s t p p.queue
      → Shown s t (record (rollback p) { enabled = e }) (rollback p).queue
  unfolding rollback
  rolled_back s t e p v =
      let (shown, empty) = rollback_by-Shown s t p.queue p p refl refl v in
      subst (Shown s t (record (rollback_by p.queue p) { enabled = e })) (sym empty)
        (none_left s t (record (rollback_by p.queue p) { enabled = e }) shown)

  server_data-Shown :
      (s t : m.State) (bs : List ℕ) (qs : List Prediction) (p : Predictor)
      → p.queue ≡ qs
      → Shown s t p qs
      → Shown s (m.write bs t) (server_data_by qs bs p) (server_data_by qs bs p).queue
  unfolding server_data_by
  server_data-Shown s t bs [] p e v =
      subst (Shown s (m.write bs t) (emit (wrote bs) p)) (sym e)
        (wrote-Shown s t bs p (v.shown ∙ laws.write-nil t))
  server_data-Shown s t bs (q ∷ qs) p e v = by p.enabled refl
    where
      by :
          (on : Bool)
          → p.enabled ≡ on
          → Shown s
              (m.write bs t)
              (if on then reconcile bs (q ∷ qs) p else emit (wrote bs) p)
              (if on then reconcile bs (q ∷ qs) p else emit (wrote bs) p).queue
      by true on = reconcile-Shown s t bs (q ∷ qs) p on v
      by false on = absurd (not_quiet (subst (λ b. IsQuiet b (q ∷ qs)) on v.quiet))
        where
          not_quiet : (q ∷ qs) ≡ [] → ⊥
          not_quiet h = ground arith

  typed_by :
      (test : Bool) (s t : m.State) (cs : List ℕ) (cursor : ℕ → ℕ × ℕ) (p : Predictor)
      → is_printable cs ≡ test
      → p.enabled ≡ true
      → (all_printable cs ≡ true → IsTold m t cursor 0 cs p.queue)
      → Shown s t p p.queue
      → Shown s t
          (if test then emit (to_server cs) (predict_each cursor 0 cs p) else emit (to_server cs) p)
          (if test
            then emit (to_server cs) (predict_each cursor 0 cs p)
            else emit (to_server cs) p).queue
  typed_by true s t cs cursor p h on told v =
      let plain : all_printable cs ≡ true = ground (arith, h) in
      send-Shown s t cs _ _ (predict_each-Shown s t cursor 0 cs p on plain (told plain) v)
  typed_by false s t cs cursor p h on told v = send-Shown s t cs p p.queue v

  user_data-Shown :
      (on alt full : Bool) (s t : m.State) (cs : List ℕ) (cursor : ℕ → ℕ × ℕ) (p : Predictor)
      → p.enabled ≡ on
      → (p.enabled ≡ true → alt ≡ false → all_printable cs ≡ true → IsTold m t cursor 0 cs p.queue)
      → Shown s t p p.queue
      → (r : Predictor)
      → r ≡ (
          if not on || alt
          then emit (to_server cs) p
          else (if full
              then emit (to_server cs) p
              else (if is_printable cs
                  then emit (to_server cs) (predict_each cursor 0 cs p)
                  else emit (to_server cs) p)))
      → Shown s t r r.queue
  user_data-Shown false alt full s t cs cursor p e told v r h =
      subst (λ x. Shown s t x x.queue) (sym h) (send-Shown s t cs p p.queue v)
  user_data-Shown true true full s t cs cursor p e told v r h =
      subst (λ x. Shown s t x x.queue) (sym h) (send-Shown s t cs p p.queue v)
  user_data-Shown true false true s t cs cursor p e told v r h =
      subst (λ x. Shown s t x x.queue) (sym h) (send-Shown s t cs p p.queue v)
  user_data-Shown true false false s t cs cursor p e told v r h =
      subst (λ x. Shown s t x x.queue) (sym h)
        (typed_by (is_printable cs) s t cs cursor p refl e (told e refl) v)

  enabling-Shown :
      (e : Bool) (s t : m.State) (p : Predictor)
      → Shown s t p p.queue
      → Shown s t (set_enabled e p) (set_enabled e p).queue
  unfolding set_enabled
  enabling-Shown true s t p v = record {
    shown = v.shown;
    placed = v.placed;
    roomy = v.roomy;
    printable = v.printable;
    few = v.few;
    quiet = tt;
  }
  enabling-Shown false s t p v = by p.enabled refl
    where
      by :
          (on : Bool)
          → p.enabled ≡ on
          → Shown s t
              (record (if on then rollback p else p) { enabled = false })
              (if on then rollback p else p).queue
      by true on = rolled_back s t false p v
      by false on = record {
        shown = v.shown;
        placed = v.placed;
        roomy = v.roomy;
        printable = v.printable;
        few = v.few;
        quiet = subst (λ b. IsQuiet b p.queue) on v.quiet;
      }

  run_from-Shown :
      (s t : m.State) (es : List Event) (p : Predictor)
      → IsSynced m t p es
      → Shown s t p p.queue
      → Shown s (m.write (served_by es) t) (run es p) (run es p).queue
  unfolding run step on_server_data on_user_data
  run_from-Shown s t [] p k v = subst (λ u. Shown s u p p.queue) (sym (laws.write-nil t)) v
  run_from-Shown s t (user_data cs alt cursor ∷ es) p k v = run_from-Shown s t es _ k.1 (
      user_data-Shown p.enabled alt (leb max_queue (length p.queue)) s t cs cursor p refl k.0 v _
        refl)
  run_from-Shown s t (server_data bs ∷ es) p k v =
      subst
        (λ u.
          Shown s u (run es (server_data_by p.queue bs p))
            (run es (server_data_by p.queue bs p)).queue)
        (sym (laws.write-append bs (served_by es) t))
        (run_from-Shown s (m.write bs t) es _ k (server_data-Shown s t bs p.queue p refl v))
  run_from-Shown s t (enabling e ∷ es) p k v = run_from-Shown s t es _ k (enabling-Shown e s t p v)
  run_from-Shown s t (destroying ∷ es) p k v = run_from-Shown s t es _ k (rolled_back s t false p v)

  -- After any events the terminal is as if the server had sent what it sent and then the
  -- predictions that are not yet confirmed, of which there are at most 32, and none when prediction
  -- is off; given that the terminal keeps the laws of its escape sequences, that it has taken up
  -- what was written before each prediction, so that its cursor is behind that, and that the
  -- predictions fit into the row.
  pub run-Shows :
      (enabled : Bool) (es : List Event) (t : m.State)
      → IsSynced m t (fresh enabled) es
      → (screen m t (run es (fresh enabled)).out
          ≡ m.write (chars (run es (fresh enabled)).queue) (m.write (served_by es) t))
        × (length (run es (fresh enabled)).queue ≤ 32)
        × IsQuiet (run es (fresh enabled)).enabled (run es (fresh enabled)).queue
  run-Shows enabled es t k =
      let v = run_from-Shown t t es (fresh enabled) k (none_left t t (fresh enabled) refl) in
      (v.shown, v.few, v.quiet)
