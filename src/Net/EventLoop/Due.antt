-- ===== src/Net/EventLoop/Due.antt =====
-- core/net/event_loop.cpp: what a round of `run_due_timers` fires.
use native.Mathlib.Nat.{suc-mul}
use dnsentinal.Common.{
  ℕ, zero, suc, ◌+◌, ◌*◌, ◌^◌, ◌≡◌, refl, sym, ap, subst, ◌∙◌, Bool, true, false, ◌||◌, List, [],
  ◌∷◌, ◌≤◌, ◌<◌, All, length, length-keep_if-le, arith, Bool-cases, inl, inr, ◌⊎◌, leb, ltb,
}
use dnsentinal.Net.EventLoop.{
  Timer, EventLoop, Call, before, calls, take_first, fire_due, run_due_timers,
}
use dnsentinal.Net.EventLoop.Callbacks.{
  is_due, due, Timely, CancelsNone, Late, Running, Running-room, calls-Running, calls-due,
  calls-due_kept,
}
use dnsentinal.Net.EventLoop.Order.{
  Subsequence, kept, Subsequence-trans, Subsequence-length, Subsequence-nil, keep_if-none, All-map,
  Before, Ordered,
}

module _ {C : Type 0} where
  List-cases :
      (ts : List (Timer C))
      → (ts ≡ []) ⊎ ((t : Timer C) × (rest : List (Timer C)) × (ts ≡ t ∷ rest))
  List-cases [] = inl refl
  List-cases (t ∷ rest) = inr (t, rest, refl)

  length-zero : (ts : List (Timer C)) → length ts ≡ 0 → ts ≡ []
  length-zero [] h = refl
  length-zero (t ∷ rest) h = absurd (omega (arith, h))

  -- The test that ends a round.
  abbrev ends : ℕ → ℕ → Timer C → Bool
  ends now newest t = ltb now t.deadline || leb newest t.id

  module _ (now newest : ℕ) where
    -- The order of the timers makes the first one that ends the round the last that matters.
    not_due-Before :
        (t s : Timer C)
        → ends now newest t ≡ true
        → Late now newest t
        → Before t s
        → is_due now newest s ≡ false
    unfolding before
    not_due-Before t s h (inl older) b = ground arith
    not_due-Before t s h (inr later) b = ground arith

    ends-not_due : (t : Timer C) → ends now newest t ≡ true → is_due now newest t ≡ false
    ends-not_due t h = ground arith

    goes_on-due : (t : Timer C) → ends now newest t ≡ false → is_due now newest t ≡ true
    goes_on-due t h = ground arith

    due-ends :
        (t : Timer C) (rest : List (Timer C))
        → ends now newest t ≡ true
        → Late now newest t
        → All (Before t) rest
        → due now newest (t ∷ rest) ≡ []
    unfolding due
    due-ends t rest h late b =
        keep_if-none (is_due now newest) (t ∷ rest)
          (ends-not_due t h, All-map rest (λ s. not_due-Before t s h late) b)

    due-goes_on :
        (t : Timer C) (rest : List (Timer C))
        → ends now newest t ≡ false
        → due now newest (t ∷ rest) ≡ t ∷ due now newest rest
    unfolding due
    due-goes_on t rest h = rw (goes_on-due t h) refl

    module _ (script : C → ℕ → EventLoop C → List (Call C)) (fuel : ℕ) (l : EventLoop C) where
      fire_due_empty : l.timers ≡ [] → fire_due script (suc fuel) now newest l ≡ (l, [])
      unfolding fire_due
      fire_due_empty e = simp (e, fire_due) refl

      fire_due-ends :
          (t : Timer C) (rest : List (Timer C))
          → l.timers ≡ t ∷ rest
          → ends now newest t ≡ true
          → fire_due script (suc fuel) now newest l ≡ (l, [])
      unfolding fire_due
      fire_due-ends t rest e h = simp (e, h, fire_due) refl

      fire_due_fires :
          (t : Timer C) (rest : List (Timer C))
          → l.timers ≡ t ∷ rest
          → ends now newest t ≡ false
          → let taken = take_first l t rest in
            let next = fire_due script fuel now newest (calls taken (script t.callback 0 taken)) in
            fire_due script (suc fuel) now newest l ≡ (next.0, t ∷ next.1)
      unfolding fire_due
      fire_due_fires t rest e h = rw (e, h, fire_due) refl

  -- What the callbacks of a round may do: the clock does not go back, and each makes at most `k`
  -- calls.
  abbrev pub Bounded : (C → ℕ → EventLoop C → List (Call C)) → ℕ → ℕ → Type 0
  Bounded script k now =
      (callback : C) (l : EventLoop C)
      → All (Timely now) (script callback 0 l) × (length (script callback 0 l) ≤ k)

  -- The ids of the timers come before the next one.
  abbrev pub Issued : EventLoop C → Type 0
  Issued l = All (λ (t : Timer C). t.id < l.next_timer_id) l.timers

  module _ (script : C → ℕ → EventLoop C → List (Call C)) (k now newest : ℕ)
      (b : Bounded script k now) where
    module _ (fuel : ℕ) (l : EventLoop C) (t : Timer C) (rest : List (Timer C))
        (e : l.timers ≡ t ∷ rest) (r : Running now newest (suc fuel * k) l) where
      taken : EventLoop C
      taken = take_first l t rest

      -- The loop after the callback of its first timer.
      fired : EventLoop C
      fired = calls taken (script t.callback 0 taken)

      taken-Running : Running now newest (length (script t.callback 0 taken) + fuel * k) taken
      unfolding taken take_first
      taken-Running = record {
        ordered = (subst Ordered e r.ordered).1;
        late = (subst (All (Late now newest)) e r.late).1;
        newer = r.newer;
        fits = omega (arith, r.fits, (b t.callback (take_first l t rest)).1, suc-mul fuel k);
      }

      fired-Running : Running now newest (fuel * k) fired
      unfolding fired
      fired-Running =
          calls-Running now newest taken (script t.callback 0 taken) (fuel * k)
            (b t.callback taken).0 taken-Running

      fired-due : Subsequence (due now newest fired.timers) (due now newest rest)
      unfolding fired taken take_first
      fired-due =
          calls-due now newest taken (script t.callback 0 taken) (b t.callback taken).0
            (Running-room now newest (omega arith) taken-Running)

    abbrev Right : EventLoop C → EventLoop C × List (Timer C) → Type 0
    Right l (final, fired) =
        (due now newest final.timers ≡ []) × Subsequence fired (due now newest l.timers)

    nothing_due-Right : (l : EventLoop C) → due now newest l.timers ≡ [] → Right l (l, [])
    nothing_due-Right l e = (e, Subsequence-nil (due now newest l.timers))

    due-ends_first :
        (l : EventLoop C) (t : Timer C) (rest : List (Timer C)) {room : ℕ}
        → l.timers ≡ t ∷ rest
        → ends now newest t ≡ true
        → Running now newest room l
        → due now newest l.timers ≡ []
    due-ends_first l t rest e h r =
        let late = subst (All (Late now newest)) e r.late in
        let ordered = subst Ordered e r.ordered in
        ap (due now newest) e ∙ due-ends now newest t rest h late.0 ordered.0

    due_fires :
        (l : EventLoop C) (t : Timer C) (rest : List (Timer C))
        → l.timers ≡ t ∷ rest
        → ends now newest t ≡ false
        → due now newest l.timers ≡ t ∷ due now newest rest
    due_fires l t rest e h = ap (due now newest) e ∙ due-goes_on now newest t rest h

    fire_due-Right :
        (fuel : ℕ) (l : EventLoop C)
        → length (due now newest l.timers) ≤ fuel
        → Running now newest (fuel * k) l
        → Right l (fire_due script fuel now newest l)
    unfolding fire_due fired taken due
    fire_due-Right zero l h r = nothing_due-Right l (length-zero _ (omega (arith, h)))
    fire_due-Right (suc fuel) l h r = elim (List-cases l.timers) [
      | inl e ↦
          subst (Right l) (sym (fire_due_empty now newest script fuel l e))
            (nothing_due-Right l (ap (due now newest) e))
      | inr (t, rest, e) ↦ elim (Bool-cases (ends now newest t)) [
        | inl f ↦
            subst (Right l) (sym (fire_due-ends now newest script fuel l t rest e f))
              (nothing_due-Right l (due-ends_first l t rest e f r))
        | inr f ↦
            let shorter = fired-due fuel l t rest e r in
            let known = due_fires l t rest e f in
            let ih =
              fire_due-Right fuel (fired fuel l t rest e r)
                (omega (arith, h, Subsequence-length shorter, ap length known))
                (fired-Running fuel l t rest e r) in
            subst (Right l) (sym (fire_due_fires now newest script fuel l t rest e f))
              (ih.0, subst (Subsequence _) (sym known) (kept (Subsequence-trans shorter ih.1)))
      ]
    ]

    module _ (calm : (callback : C) (l : EventLoop C) → All CancelsNone (script callback 0 l)) where
      fired-due_kept :
          (fuel : ℕ) (l : EventLoop C) (t : Timer C) (rest : List (Timer C))
          (e : l.timers ≡ t ∷ rest) (r : Running now newest (suc fuel * k) l)
          → due now newest (fired fuel l t rest e r).timers ≡ due now newest rest
      unfolding fired taken take_first
      fired-due_kept fuel l t rest e r =
          let first = taken fuel l t rest e r in
          calls-due_kept now newest first (script t.callback 0 first) (b t.callback first).0
            (calm t.callback first)
            (Running-room now newest (omega arith) (taken-Running fuel l t rest e r))

      fire_due-due :
          (fuel : ℕ) (l : EventLoop C)
          → length (due now newest l.timers) ≤ fuel
          → Running now newest (fuel * k) l
          → (fire_due script fuel now newest l).1 ≡ due now newest l.timers
      unfolding fire_due fired taken due
      fire_due-due zero l h r = sym (length-zero _ (omega (arith, h)))
      fire_due-due (suc fuel) l h r = elim (List-cases l.timers) [
        | inl e ↦
            ap (λ out. out.1) (fire_due_empty now newest script fuel l e)
            ∙ sym (ap (due now newest) e)
        | inr (t, rest, e) ↦ elim (Bool-cases (ends now newest t)) [
          | inl f ↦
              ap (λ out. out.1) (fire_due-ends now newest script fuel l t rest e f)
              ∙ sym (due-ends_first l t rest e f r)
          | inr f ↦
              let same = fired-due_kept fuel l t rest e r in
              let known = due_fires l t rest e f in
              let ih =
                fire_due-due fuel (fired fuel l t rest e r)
                  (omega (arith, h, ap length same, ap length known))
                  (fired-Running fuel l t rest e r) in
              ap (λ out. out.1) (fire_due_fires now newest script fuel l t rest e f)
              ∙ ap (λ ts. t ∷ ts) (ih ∙ same)
              ∙ sym known
        ]
      ]

  module _ (script : C → ℕ → EventLoop C → List (Call C)) (k now : ℕ) (b : Bounded script k now)
      (l : EventLoop C) (ordered : Ordered l.timers) (issued : Issued l)
      (fits : l.next_timer_id + length l.timers * k < 2 ^ 64) where
    at_start : Running now l.next_timer_id (length l.timers * k) l
    at_start = record {
      ordered = ordered;
      late = All-map l.timers (λ t h. inl h) issued;
      newer = omega arith;
      fits = fits;
    }

    -- Whatever the callbacks add or cancel, a round at time `now` ends with none left of the timers
    -- that it found and that are due, and it fires some of those, in the order of their deadlines
    -- and ids, each once, and no other; if the clock does not go back, each callback makes at most
    -- `k` calls, `timers_` is in order, and the ids given out stay below 2^64.
    pub run_due_timers_lem :
        let (final, fired) = run_due_timers script l now in
        (due now l.next_timer_id final.timers ≡ [])
        × Subsequence fired (due now l.next_timer_id l.timers)
    unfolding run_due_timers due
    run_due_timers_lem =
        fire_due-Right script k now l.next_timer_id b (length l.timers) l
          (length-keep_if-le _ l.timers) at_start

    -- If no callback cancels a timer, a round at time `now` fires exactly the timers that it found
    -- and that are due, in the order of their deadlines and ids; if the clock does not go back,
    -- each callback makes at most `k` calls, `timers_` is in order, and the ids given out stay
    -- below 2^64.
    pub run_due_timers-due :
        ((callback : C) (l : EventLoop C) → All CancelsNone (script callback 0 l))
        → (run_due_timers script l now).1 ≡ due now l.next_timer_id l.timers
    unfolding run_due_timers due
    run_due_timers-due calm =
        fire_due-due script k now l.next_timer_id b calm (length l.timers) l
          (length-keep_if-le _ l.timers) at_start
