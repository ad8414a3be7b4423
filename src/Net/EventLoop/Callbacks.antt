-- ===== src/Net/EventLoop/Callbacks.antt =====
-- core/net/event_loop.cpp: what callbacks do to the timers that a round is to fire.
use dnsentinal.Common.{
  ℕ, suc, ◌+◌, ◌^◌, ◌≡◌, refl, sym, ap, subst, ◌∙◌, Bool, ◌&&◌, List, [], ◌∷◌, ◌≤◌, ◌<◌, All,
  keep_if, length, arith, inl, inr, ◌⊎◌, leb, ltb, Option-cases, Option,
}
use dnsentinal.Common.Maps.{find}
use dnsentinal.Net.EventLoop.{
  Timer, EventLoop, Call, adds_fd, modifies_fd, removes_fd, adds_timer, cancels_timer, stops,
  erase_key, add_fd, remove_fd, add_timer, cancel_timer, call, calls,
}
use dnsentinal.Net.EventLoop.Order.{
  Subsequence, Subsequence-refl, Subsequence-eq, Subsequence-trans, Subsequence-keep_if,
  All-keep_if, Ordered, All-emplace, emplace-Ordered, keep_if-Ordered, keep_if-emplace,
}

module _ {C : Type 0} where
  -- A timer that this round is to fire: the round is at `now` and `newest` is the next id.
  abbrev pub is_due : ℕ → ℕ → Timer C → Bool
  is_due now newest t = leb t.deadline now && ltb t.id newest

  unfoldable pub due : ℕ → ℕ → List (Timer C) → List (Timer C)
  due now newest = keep_if (is_due now newest)

  -- The clock does not go back.
  abbrev pub Timely : ℕ → Call C → Type 0
  Timely now (adds_timer delay callback at) = now ≤ at
  Timely now _ = Unit

  abbrev pub CancelsNone : Call C → Type 0
  CancelsNone (cancels_timer id) = ⊥
  CancelsNone _ = Unit

  -- Older than this round, or not before it.
  abbrev pub Late : ℕ → ℕ → Timer C → Type 0
  Late now newest t = (t.id < newest) ⊎ (now ≤ t.deadline)

  -- What holds between the callbacks of a round: `room` more timers have an id of their own.
  pub record Running (now newest room : ℕ) (l : EventLoop C) : Type 0 where
    pub ordered : Ordered l.timers
    pub late : All (Late now newest) l.timers
    pub newer : newest ≤ l.next_timer_id
    pub fits : l.next_timer_id + room < 2 ^ 64

  pub Running-room :
      (now newest : ℕ) {room less : ℕ} {l : EventLoop C}
      → less ≤ room
      → Running now newest room l
      → Running now newest less l
  Running-room now newest h r = record {
    ordered = r.ordered;
    late = r.late;
    newer = r.newer;
    fits = omega (arith, r.fits, h);
  }

  due-dropped :
      (now newest : ℕ) (q : Timer C → Bool) (ts : List (Timer C))
      → Subsequence (due now newest (keep_if q ts)) (due now newest ts)
  unfolding due
  due-dropped now newest q ts = Subsequence-keep_if (is_due now newest) q ts

  module _ (now newest room : ℕ) (l : EventLoop C) (r : Running now newest (suc room) l) where
    add_timer-Running :
        (delay : ℕ) (callback : C) (at : ℕ)
        → now ≤ at
        → Running now newest room (add_timer l delay callback at).0
    unfolding add_timer
    add_timer-Running delay callback at h = record {
      ordered = emplace-Ordered _ l.timers r.ordered;
      late = All-emplace (Late now newest) _ l.timers (inr (omega (arith, h))) r.late;
      newer = ground (arith, r.newer, r.fits);
      fits = ground (arith, r.fits);
    }

    add_timer-due :
        (delay : ℕ) (callback : C) (at : ℕ)
        → due now newest (add_timer l delay callback at).0.timers ≡ due now newest l.timers
    unfolding add_timer due
    add_timer-due delay callback at =
        keep_if-emplace (is_due now newest) _ l.timers (ground (arith, r.newer))

    cancel_timer-Running : (id : ℕ) → Running now newest room (cancel_timer l id).0
    unfolding cancel_timer erase_key
    cancel_timer-Running id = elim (Option-cases (find id l.timer_deadlines)) [
      | inl e ↦ rw (e, cancel_timer) (Running-room now newest (omega arith) r)
      | inr (deadline, e) ↦
          rw (e, cancel_timer)
            (record {
              ordered = keep_if-Ordered _ l.timers r.ordered;
              late = All-keep_if (Late now newest) _ l.timers r.late;
              newer = r.newer;
              fits = omega (arith, r.fits);
            })
    ]

    cancel_timer-due :
        (id : ℕ)
        → Subsequence (due now newest (cancel_timer l id).0.timers) (due now newest l.timers)
    unfolding cancel_timer erase_key
    cancel_timer-due id = elim (Option-cases (find id l.timer_deadlines)) [
      | inl e ↦ rw (e, cancel_timer) (Subsequence-refl (due now newest l.timers))
      | inr (deadline, e) ↦ rw (e, cancel_timer) (due-dropped now newest _ l.timers)
    ]

  add_fd-timers :
      (l : EventLoop C) (fd : ℕ) (callback : C) (failure : Option ℕ)
      → let l' = (add_fd l fd callback failure).0 in
        (l'.timers ≡ l.timers) × (l'.next_timer_id ≡ l.next_timer_id)
  unfolding add_fd
  add_fd-timers l fd callback failure = elim (Option-cases (find fd l.tokens)) [
    | inr (token, e) ↦ rw (e, add_fd) (refl, refl)
    | inl e ↦ elim (Option-cases failure) [
      | inl f ↦ rw (e, f, add_fd) (refl, refl)
      | inr (errno, f) ↦ rw (e, f, add_fd) (refl, refl)
    ]
  ]

  remove_fd-timers :
      (l : EventLoop C) (fd : ℕ)
      → ((remove_fd l fd).timers ≡ l.timers) × ((remove_fd l fd).next_timer_id ≡ l.next_timer_id)
  unfolding remove_fd
  remove_fd-timers l fd = elim (Option-cases (find fd l.tokens)) [
    | inl e ↦ rw (e, remove_fd) (refl, refl)
    | inr (token, e) ↦ rw (e, remove_fd) (refl, refl)
  ]

  module _ (now newest room : ℕ) where
    -- Nothing changes for a round that looks at the same timers.
    Running-same :
        (l l' : EventLoop C)
        → Running now newest (suc room) l
        → (l'.timers ≡ l.timers) × (l'.next_timer_id ≡ l.next_timer_id)
        → Running now newest room l'
    Running-same l l' r e = record {
      ordered = subst Ordered (sym e.0) r.ordered;
      late = subst (All (Late now newest)) (sym e.0) r.late;
      newer = omega (arith, r.newer, e.1);
      fits = omega (arith, r.fits, e.1);
    }

    call-Running :
        (l : EventLoop C) (c : Call C)
        → Timely now c
        → Running now newest (suc room) l
        → Running now newest room (call l c)
    unfolding call
    call-Running l (adds_fd fd callback failure) h r =
        Running-same l _ r (add_fd-timers l fd callback failure)
    call-Running l (modifies_fd fd failure) h r = Running-room now newest (omega arith) r
    call-Running l (removes_fd fd) h r = Running-same l _ r (remove_fd-timers l fd)
    call-Running l (adds_timer delay callback at) h r =
        add_timer-Running now newest room l r delay callback at h
    call-Running l (cancels_timer id) h r = cancel_timer-Running now newest room l r id
    call-Running l stops h r = Running-same l _ r (refl, refl)

    call-due_kept :
        (l : EventLoop C) (c : Call C)
        → CancelsNone c
        → Running now newest (suc room) l
        → due now newest (call l c).timers ≡ due now newest l.timers
    unfolding call
    call-due_kept l (adds_fd fd callback failure) h r =
        ap (due now newest) (add_fd-timers l fd callback failure).0
    call-due_kept l (modifies_fd fd failure) h r = refl
    call-due_kept l (removes_fd fd) h r = ap (due now newest) (remove_fd-timers l fd).0
    call-due_kept l (adds_timer delay callback at) h r =
        add_timer-due now newest room l r delay callback at
    call-due_kept l (cancels_timer id) h r = absurd h
    call-due_kept l stops h r = refl

    call-due :
        (l : EventLoop C) (c : Call C)
        → Running now newest (suc room) l
        → Subsequence (due now newest (call l c).timers) (due now newest l.timers)
    unfolding call
    call-due l (adds_fd fd callback failure) r =
        Subsequence-eq (ap (due now newest) (add_fd-timers l fd callback failure).0)
    call-due l (modifies_fd fd failure) r = Subsequence-refl (due now newest l.timers)
    call-due l (removes_fd fd) r = Subsequence-eq (ap (due now newest) (remove_fd-timers l fd).0)
    call-due l (adds_timer delay callback at) r =
        Subsequence-eq (add_timer-due now newest room l r delay callback at)
    call-due l (cancels_timer id) r = cancel_timer-due now newest room l r id
    call-due l stops r = Subsequence-refl (due now newest l.timers)

  module _ (now newest : ℕ) where
    pub calls-Running :
        (l : EventLoop C) (cs : List (Call C)) (room : ℕ)
        → All (Timely now) cs
        → Running now newest (length cs + room) l
        → Running now newest room (calls l cs)
    unfolding calls
    calls-Running l [] room h r = Running-room now newest (omega arith) r
    calls-Running l (c ∷ cs) room h r = calls-Running (call l c) cs room h.1 (
        call-Running now newest (length cs + room) l c h.0
          (Running-room now newest (omega arith) r))

    pub calls-due :
        (l : EventLoop C) (cs : List (Call C))
        → All (Timely now) cs
        → Running now newest (length cs) l
        → Subsequence (due now newest (calls l cs).timers) (due now newest l.timers)
    unfolding calls
    calls-due l [] h r = Subsequence-refl (due now newest l.timers)
    calls-due l (c ∷ cs) h r =
        Subsequence-trans (call-due now newest (length cs) l c r)
          (calls-due (call l c) cs h.1 (call-Running now newest (length cs) l c h.0 r))

    pub calls-due_kept :
        (l : EventLoop C) (cs : List (Call C))
        → All (Timely now) cs
        → All CancelsNone cs
        → Running now newest (length cs) l
        → due now newest (calls l cs).timers ≡ due now newest l.timers
    unfolding calls
    calls-due_kept l [] h k r = refl
    calls-due_kept l (c ∷ cs) h k r =
        calls-due_kept (call l c) cs h.1 k.1 (call-Running now newest (length cs) l c h.0 r)
        ∙ call-due_kept now newest (length cs) l c k.0 r
