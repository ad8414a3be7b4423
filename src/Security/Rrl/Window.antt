-- ===== src/Security/Rrl/Window.antt =====
-- core/security/rrl.cpp: how many responses of one fingerprint a window sends.
use dnsentinal.Common.{
  ℕ, ◌+◌, ◌-◌, ◌^◌, ◌<◌, ◌≡◌, min, List, [], ◌∷◌, All, length, arith, false, sym, subst,
}
use dnsentinal.Security.Rrl.{
  RrlConfig, RrlVerdict, send, drop_it, slip_it, Entry, count, count_fresh, cap, expired,
}

abbrev pub as_sent : RrlVerdict → ℕ
as_sent send = 1
as_sent drop_it = 0
as_sent slip_it = 0

-- How many of the responses counted at these times are sent in full.
unfoldable pub sends : RrlConfig → Entry → List ℕ → ℕ
sends config e [] = 0
sends config e (now ∷ rest) =
    as_sent (count config e now).1 + sends config (count config e now).0 rest

-- The window of the entry is not over at `now`.
abbrev pub InWindow : RrlConfig → ℕ → ℕ → Type 0
InWindow config start now =
    expired config now (record { window_start = start; sent = 0; excess = 0 }) ≡ false

module _ (config : RrlConfig) (e : Entry) (now : ℕ) (inside : InWindow config e.window_start now)
    (small : e.sent + 1 < 2 ^ 32) where
  count-as_sent : as_sent (count config e now).1 ≡ min 1 (cap config - e.sent)
  unfolding count count_fresh
  count-as_sent = rw inside (ground arith)

  count-sent : (count config e now).0.sent ≡ e.sent + 1
  unfolding count count_fresh
  count-sent = rw inside (ground arith)

  count-window_start : (count config e now).0.window_start ≡ e.window_start
  unfolding count count_fresh
  count-window_start = rw inside (ground arith)

-- Of the responses counted on one entry before its window is over, the first ones up to the cap are
-- sent in full and no other, if there are fewer than 2^32.
pub sends-cap :
    (config : RrlConfig) (e : Entry) (times : List ℕ)
    → All (InWindow config e.window_start) times
    → e.sent + length times < 2 ^ 32
    → sends config e times ≡ min (length times) (cap config - e.sent)
unfolding sends
sends-cap config e [] h small = ground arith
sends-cap config e (now ∷ rest) h small =
    let next = (count config e now).0 in
    let started = count-window_start config e now h.0 (omega arith) in
    let ih =
      sends-cap config next rest (subst (λ t. All (InWindow config t) rest) (sym started) h.1)
        (omega (arith, count-sent config e now h.0 (omega arith))) in
    omega (
      arith,
      ih,
      count-as_sent config e now h.0 (omega arith),
      count-sent config e now h.0 (omega arith),
    )
