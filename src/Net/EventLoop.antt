-- ===== src/Net/EventLoop.antt =====
-- core/net/event_loop.cpp and event_loop.h. A callback acts on the loop through the loop's public
-- operations alone, so a callback is of any type `C`, and `script` lists the calls it makes. Each
-- call carries what it gets from outside: the time of the steady clock, in nanoseconds, and the
-- `errno` of `epoll_ctl` if that fails. Delays are not negative, as those of all callers.
pub mod Callbacks
pub mod Due
pub mod Order
pub mod Stale
use dnsentinal.Common.{
  ℕ, zero, suc, ◌+◌, ◌-◌, ◌*◌, ◌/◌, ◌%◌, ◌^◌, min, Bool, true, false, not, ◌&&◌, ◌||◌, List, [],
  ◌∷◌, ◌++◌, Option, none, some, leb, ltb, ◌==◌, if◌then◌else◌, keep_if, length, take,
}
use dnsentinal.Common.Maps.{find, erase, put}

-- `kWakeToken` and `kMaxEventsPerWait`
abbrev pub wake_token : ℕ
wake_token = 0

abbrev pub max_events_per_wait : ℕ
max_events_per_wait = 64

abbrev pub int_max : ℕ
int_max = 2 ^ 31 - 1

-- An entry of `timers_`: the key, which is the deadline and then the id, and the callback.
pub record Timer (C : Type 0) : Type 0 where
  pub deadline : ℕ
  pub id : ℕ
  pub callback : C

pub record Watch (C : Type 0) : Type 0 where
  pub fd : ℕ
  pub callback : C

pub data ErrorCode : Type 0 where
  success file_exists no_such_file_or_directory : ErrorCode
  system_error : ℕ → ErrorCode

pub record EventLoop (C : Type 0) : Type 0 where
  pub stop_requested : Bool
  pub next_token : ℕ
  pub watches : List (ℕ × Watch C)
  pub tokens : List (ℕ × ℕ)
  pub next_timer_id : ℕ
  pub timers : List (Timer C)
  pub timer_deadlines : List (ℕ × ℕ)

-- A call of a public operation.
pub data Call (C : Type 0) : Type 0 where
  adds_fd : ℕ → C → Option ℕ → Call C
  modifies_fd : ℕ → Option ℕ → Call C
  removes_fd : ℕ → Call C
  adds_timer : ℕ → C → ℕ → Call C
  cancels_timer : ℕ → Call C
  stops : Call C

-- What one iteration gets from outside: whether a stop arrives before it, the events of
-- `epoll_wait` (token and mask) or nothing if a signal interrupts it, and the time after them.
pub record Round : Type 0 where
  pub stop_arrives : Bool
  pub events : Option (List (ℕ × ℕ))
  pub now : ℕ

-- `std::chrono::ceil` from nanoseconds to milliseconds, and no more than an `int` holds.
abbrev pub ceil_ms : ℕ → ℕ
ceil_ms delay = min ((delay + 999_999) / 1_000_000) int_max

module _ {C : Type 0} where
  abbrev pub new_loop : EventLoop C
  new_loop = record {
    stop_requested = false;
    next_token = 1;
    watches = [];
    tokens = [];
    next_timer_id = 1;
    timers = [];
    timer_deadlines = [];
  }

  -- The order of the keys of `timers_`.
  unfoldable pub before : Timer C → Timer C → Bool
  before s t = ltb s.deadline t.deadline || (s.deadline == t.deadline && ltb s.id t.id)

  -- `timers_.emplace`, which does nothing to a key that is there.
  unfoldable pub emplace : Timer C → List (Timer C) → List (Timer C)
  unfolding before
  emplace t [] = t ∷ []
  emplace t (s ∷ rest) =
      let later = emplace t rest in
      if before t s then t ∷ s ∷ rest else (if before s t then s ∷ later else s ∷ rest)

  abbrev pub has_key : ℕ → ℕ → Timer C → Bool
  has_key deadline id t = t.deadline == deadline && t.id == id

  -- `timers_.erase`
  unfoldable pub erase_key : ℕ → ℕ → List (Timer C) → List (Timer C)
  erase_key deadline id = keep_if (λ t. not (has_key deadline id t))

  unfoldable pub add_fd : EventLoop C → ℕ → C → Option ℕ → EventLoop C × ErrorCode
  unfolding find put
  add_fd l fd callback failure = elim (find fd l.tokens) [
    | some token ↦ (l, file_exists)
    | none ↦
        let token = l.next_token in
        let taken = record l { next_token = (token + 1) % 2 ^ 64 } in
        elim failure [
          | some errno ↦ (taken, system_error errno)
          | none ↦ (
            record taken {
              watches = put token (record { fd = fd; callback = callback }) l.watches;
              tokens = put fd token l.tokens;
            },
            success,
          )
        ]
  ]

  unfoldable pub modify_fd : EventLoop C → ℕ → Option ℕ → ErrorCode
  unfolding find
  modify_fd l fd failure = elim (find fd l.tokens) [
    | none ↦ no_such_file_or_directory
    | some token ↦ elim failure [ none ↦ success | some errno ↦ system_error errno ]
  ]

  unfoldable pub remove_fd : EventLoop C → ℕ → EventLoop C
  unfolding find erase
  remove_fd l fd = elim (find fd l.tokens) [
    | none ↦ l
    | some token ↦ record l { watches = erase token l.watches; tokens = erase fd l.tokens }
  ]

  unfoldable pub add_timer : EventLoop C → ℕ → C → ℕ → EventLoop C × ℕ
  unfolding emplace put
  add_timer l delay callback now =
      let id = l.next_timer_id in
      let deadline = now + delay in
      (
        record l {
          next_timer_id = (id + 1) % 2 ^ 64;
          timers = emplace (record { deadline = deadline; id = id; callback = callback }) l.timers;
          timer_deadlines = put id deadline l.timer_deadlines;
        },
        id,
      )

  unfoldable pub cancel_timer : EventLoop C → ℕ → EventLoop C × Bool
  unfolding find erase erase_key
  cancel_timer l id = elim (find id l.timer_deadlines) [
    | none ↦ (l, false)
    | some deadline ↦ (
      record l {
        timers = erase_key deadline id l.timers;
        timer_deadlines = erase id l.timer_deadlines;
      },
      true,
    )
  ]

  -- `none` is the -1 that makes `epoll_wait` wait for an event.
  unfoldable pub next_timeout_ms : EventLoop C → ℕ → Option ℕ
  next_timeout_ms l now = timeout_of l.timers
    where
      timeout_of : List (Timer C) → Option ℕ
      timeout_of [] = none
      timeout_of (t ∷ rest) =
          if leb t.deadline now then some 0 else some (ceil_ms (t.deadline - now))

  unfoldable pub call : EventLoop C → Call C → EventLoop C
  unfolding add_fd remove_fd add_timer cancel_timer
  call l (adds_fd fd callback failure) = (add_fd l fd callback failure).0
  call l (modifies_fd fd failure) = l
  call l (removes_fd fd) = remove_fd l fd
  call l (adds_timer delay callback now) = (add_timer l delay callback now).0
  call l (cancels_timer id) = (cancel_timer l id).0
  call l stops = record l { stop_requested = true }

  unfoldable pub calls : EventLoop C → List (Call C) → EventLoop C
  unfolding call
  calls l [] = l
  calls l (c ∷ rest) = calls (call l c) rest

  -- Takes the first timer out, as the loop of `run_due_timers` does before the callback.
  unfoldable pub take_first : EventLoop C → Timer C → List (Timer C) → EventLoop C
  unfolding erase
  take_first l t rest = record l { timers = rest; timer_deadlines = erase t.id l.timer_deadlines }

  -- The calls of a callback, given the event mask (0 for a timer) and the loop it runs on.
  module _ (script : C → ℕ → EventLoop C → List (Call C)) where
    -- The watch is looked up when its event is at hand: it may be gone by then.
    unfoldable pub deliver : EventLoop C → ℕ → ℕ → EventLoop C
    unfolding calls find
    deliver l token mask = if token == wake_token then l else (elim (find token l.watches) [
      | none ↦ l
      | some watch ↦ calls l (script watch.callback mask l)
    ])

    unfoldable pub deliver_all : EventLoop C → List (ℕ × ℕ) → EventLoop C
    unfolding deliver
    deliver_all l [] = l
    deliver_all l (event ∷ rest) = deliver_all (deliver l event.0 event.1) rest

    unfoldable pub dispatch_io : EventLoop C → Option (List (ℕ × ℕ)) → EventLoop C
    unfolding deliver_all
    dispatch_io l none = l
    dispatch_io l (some events) = deliver_all l (take max_events_per_wait events)

    -- The loop of `run_due_timers` and the timers it fires, in that order. Each turn takes out a
    -- timer older than `newest`, and callbacks add none, so as much fuel as there are timers ends it.
    unfoldable pub fire_due : ℕ → ℕ → ℕ → EventLoop C → EventLoop C × List (Timer C)
    unfolding take_first calls
    fire_due zero now newest l = (l, [])
    fire_due (suc fuel) now newest l = elim l.timers [
      | [] ↦ (l, [])
      | t ∷ rest ↦
          let taken = take_first l t rest in
          let next = fire_due fuel now newest (calls taken (script t.callback 0 taken)) in
          if ltb now t.deadline || leb newest t.id then (l, []) else (next.0, t ∷ next.1)
    ]

    unfoldable pub run_due_timers : EventLoop C → ℕ → EventLoop C × List (Timer C)
    unfolding fire_due
    run_due_timers l now = fire_due (length l.timers) now l.next_timer_id l

    unfoldable pub iterate : EventLoop C → Round → EventLoop C
    unfolding dispatch_io run_due_timers
    iterate l round = (run_due_timers (dispatch_io l round.events) round.now).0

    -- `run`, over the iterations for which the environment provides.
    unfoldable pub run : EventLoop C → List Round → EventLoop C
    unfolding iterate
    run l [] = l
    run l (round ∷ rest) =
        let stopping = l.stop_requested || round.stop_arrives in
        let next = run (iterate l round) rest in
        if stopping then record l { stop_requested = false } else next
