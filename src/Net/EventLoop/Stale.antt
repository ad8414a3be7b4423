-- ===== src/Net/EventLoop/Stale.antt =====
-- core/net/event_loop.cpp: events that were collected for a registration that is no more.
use dnsentinal.Common.{
  ℕ, ◌+◌, ◌^◌, ◌≡◌, ◌∙◌, List, [], ◌∷◌, ◌<◌, length, arith, inl, inr, none, some, Option-cases,
  Option,
}
use dnsentinal.Common.Maps.{find, find-erase, find-erase-none, find-put_other}
use dnsentinal.Net.EventLoop.{
  EventLoop, Call, adds_fd, modifies_fd, removes_fd, adds_timer, cancels_timer, stops, add_fd,
  remove_fd, add_timer, cancel_timer, call, calls, deliver,
}

module _ {C : Type 0} where
  -- No watch has this token, nor will one have it among the next `room` registrations.
  record Gone (token room : ℕ) (l : EventLoop C) : Type 0 where
    unwatched : find token l.watches ≡ none
    used : token < l.next_token
    fits : l.next_token + room < 2 ^ 64

  module _ (token room : ℕ) (l : EventLoop C) (g : Gone token (room + 1) l) where
    add_fd-Gone :
        (fd : ℕ) (callback : C) (failure : Option ℕ)
        → Gone token room (add_fd l fd callback failure).0
    unfolding add_fd
    add_fd-Gone fd callback failure = elim (Option-cases (find fd l.tokens)) [
      | inr (other, e) ↦
          rw (e, add_fd)
            (record { unwatched = g.unwatched; used = g.used; fits = omega (arith, g.fits) })
      | inl e ↦ elim (Option-cases failure) [
        | inl f ↦
            rw (e, f, add_fd)
              (record {
                unwatched =
                    find-put_other token l.next_token _ l.watches
                      (λ same. omega (arith, g.used, same))
                    ∙ g.unwatched;
                used = ground (arith, g.used, g.fits);
                fits = ground (arith, g.fits);
              })
        | inr (errno, f) ↦
            rw (e, f, add_fd)
              (record {
                unwatched = g.unwatched;
                used = ground (arith, g.used, g.fits);
                fits = ground (arith, g.fits);
              })
      ]
    ]

    remove_fd-Gone : (fd : ℕ) → Gone token room (remove_fd l fd)
    unfolding remove_fd
    remove_fd-Gone fd = elim (Option-cases (find fd l.tokens)) [
      | inl e ↦
          rw (e, remove_fd)
            (record { unwatched = g.unwatched; used = g.used; fits = omega (arith, g.fits) })
      | inr (other, e) ↦
          rw (e, remove_fd)
            (record {
              unwatched = find-erase-none token other l.watches g.unwatched;
              used = g.used;
              fits = omega (arith, g.fits);
            })
    ]

    cancel_timer-Gone : (id : ℕ) → Gone token room (cancel_timer l id).0
    unfolding cancel_timer
    cancel_timer-Gone id = elim (Option-cases (find id l.timer_deadlines)) [
      | inl e ↦
          rw (e, cancel_timer)
            (record { unwatched = g.unwatched; used = g.used; fits = omega (arith, g.fits) })
      | inr (deadline, e) ↦
          rw (e, cancel_timer)
            (record { unwatched = g.unwatched; used = g.used; fits = omega (arith, g.fits) })
    ]

    call-Gone : (c : Call C) → Gone token room (call l c)
    unfolding call add_timer
    call-Gone (adds_fd fd callback failure) = add_fd-Gone fd callback failure
    call-Gone (removes_fd fd) = remove_fd-Gone fd
    call-Gone (cancels_timer id) = cancel_timer-Gone id
    call-Gone (modifies_fd fd failure) = record {
      unwatched = g.unwatched;
      used = g.used;
      fits = omega (arith, g.fits);
    }
    call-Gone (adds_timer delay callback at) = record {
      unwatched = g.unwatched;
      used = g.used;
      fits = omega (arith, g.fits);
    }
    call-Gone stops = record {
      unwatched = g.unwatched;
      used = g.used;
      fits = omega (arith, g.fits);
    }

  calls-Gone :
      (token : ℕ) (l : EventLoop C) (cs : List (Call C))
      → Gone token (length cs) l
      → Gone token 0 (calls l cs)
  unfolding calls
  calls-Gone token l [] g = g
  calls-Gone token l (c ∷ cs) g = calls-Gone token (call l c) cs (
      call-Gone token (length cs) l
        (record { unwatched = g.unwatched; used = g.used; fits = omega (arith, g.fits) }) c)

  removed-Gone :
      (l : EventLoop C) (fd token room : ℕ)
      → find fd l.tokens ≡ some token
      → token < l.next_token
      → l.next_token + room < 2 ^ 64
      → Gone token room (remove_fd l fd)
  unfolding remove_fd
  removed-Gone l fd token room e used fits =
      rw (e, remove_fd)
        (record { unwatched = find-erase token l.watches; used = used; fits = fits })

  Gone-deliver :
      (script : C → ℕ → EventLoop C → List (Call C)) (l : EventLoop C) (token mask : ℕ)
      → Gone token 0 l
      → deliver script l token mask ≡ l
  unfolding deliver
  Gone-deliver script l token mask g = rw (g.unwatched, deliver) (ground arith)

  -- An event that was collected for a watched descriptor runs no callback once the descriptor is
  -- removed, whatever is called after that, even if the descriptor's number is watched again; if
  -- the watch's token was given out before and tokens stay below 2^64.
  pub deliver-removed :
      (script : C → ℕ → EventLoop C → List (Call C)) (l : EventLoop C) (fd token mask : ℕ)
      (after : List (Call C))
      → find fd l.tokens ≡ some token
      → token < l.next_token
      → l.next_token + length after < 2 ^ 64
      → let later = calls (remove_fd l fd) after in deliver script later token mask ≡ later
  deliver-removed script l fd token mask after e used fits =
      Gone-deliver script (calls (remove_fd l fd) after) token mask (
        calls-Gone token (remove_fd l fd) after
          (removed-Gone l fd token (length after) e used fits))
