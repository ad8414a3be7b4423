-- ===== src/Resolver/Upstream/Invariant.antt =====
-- core/resolver/upstream.cpp: what every operation keeps, so that `done` is called once for each query.
use dnsentinal.Common.{
  ℕ, suc, ◌+◌, ◌%◌, ◌^◌, ◌<◌, ◌≤◌, ◌≡◌, ◌≢◌, inl, inr, ◌∙◌, Bool, true, false, List, [], ◌∷◌, ◌++◌,
  Option, none, some, arith, Bool-cases, length, All, Option-cases, All-append, ltb, ltb→lt,
  if◌then◌else◌,
}
use dnsentinal.Common.Maps.{find, erase, put, find-erase, find-erase-none, find-put_other}
use dnsentinal.Net.EventLoop.Order.{All-map}
use dnsentinal.Resolver.Upstream.{
  Pending, Reply, Received, Sent, Exchange, UpstreamClient, cancel, finish, settle, on_readable,
  on_tcp_event, on_timeout, finish_writing, on_writable, blocked, broke, complete, Progress,
  waiting, broke_off, write_out, read_tcp,
}

abbrev pub Distinct : List (ℕ × Reply) → Type 0
Distinct [] = Unit
Distinct (x ∷ rest) = All (λ (y : ℕ × Reply). y.0 ≢ x.0) rest × Distinct rest

-- The queries that are over are no longer pending, and each was over once; `room` more ids are
-- free.
pub record IsOnce (room next_id : ℕ) (pending : List (ℕ × Pending)) (called : List (ℕ × Reply))
    : Type 0 where
  pub fits : next_id + room < 2 ^ 64
  pub below : All (λ (x : ℕ × Reply). x.0 < next_id) called
  pub ended : All (λ (x : ℕ × Reply). find x.0 pending ≡ none) called
  pub once : Distinct called
  pub fresh : (id : ℕ) → next_id ≤ id → find id pending ≡ none

abbrev pub Once : ℕ → UpstreamClient → Type 0
Once room c = IsOnce room c.next_id c.pending c.called

All-map_both :
    {P Q R : ℕ × Reply → Type 0} (xs : List (ℕ × Reply))
    → ((x : ℕ × Reply) → P x → Q x → R x)
    → All P xs
    → All Q xs
    → All R xs
All-map_both [] f h k = tt
All-map_both (x ∷ xs) f h k = (f x h.0 k.0, All-map_both xs f h.1 k.1)

Distinct-snoc :
    (id : ℕ) (reply : Reply) (called : List (ℕ × Reply))
    → All (λ (x : ℕ × Reply). id ≢ x.0) called
    → Distinct called
    → Distinct (called ++ (id, reply) ∷ [])
Distinct-snoc id reply [] h d = (tt, tt)
Distinct-snoc id reply (x ∷ rest) h d =
    (All-append _ rest _ d.0 (h.0, tt), Distinct-snoc id reply rest h.1 d.1)

module _ (room next_id : ℕ) (pending : List (ℕ × Pending)) (called : List (ℕ × Reply))
    (o : IsOnce room next_id pending called) (id : ℕ) where
  pending-not_called :
      (p : Pending) → find id pending ≡ some p → All (λ (x : ℕ × Reply). id ≢ x.0) called
  pending-not_called p h = All-map called (λ x gone e. absurd (cc (h, gone, e))) o.ended

  pending-lt : (p : Pending) → find id pending ≡ some p → id < next_id
  pending-lt p h = elim (Bool-cases (ltb id next_id)) [
    | inl e ↦ ltb→lt id next_id e
    | inr e ↦ absurd (cc (h, o.fresh id (ground (arith, e))))
  ]

  erase-Once : IsOnce room next_id (erase id pending) called
  erase-Once = record {
    fits = o.fits;
    below = o.below;
    ended = All-map called (λ x gone. find-erase-none x.0 id pending gone) o.ended;
    once = o.once;
    fresh = λ i h. find-erase-none i id pending (o.fresh i h);
  }

  put-Once :
      (p q : Pending) → find id pending ≡ some p → IsOnce room next_id (put id q pending) called
  put-Once p q h = record {
    fits = o.fits;
    below = o.below;
    ended =
        All-map_both called (λ x other gone. find-put_other x.0 id q pending other ∙ gone)
          (pending-not_called p h) o.ended;
    once = o.once;
    fresh = λ i k.
        find-put_other i id q pending (λ e. omega (arith, k, e, pending-lt p h)) ∙ o.fresh i k;
  }

  call-Once :
      (p : Pending) (reply : Reply)
      → find id pending ≡ some p
      → IsOnce room next_id (erase id pending) (called ++ (id, reply) ∷ [])
  call-Once p reply h = record {
    fits = o.fits;
    below = All-append _ called _ o.below (pending-lt p h, tt);
    ended = All-append _ called _ erase-Once.ended (find-erase id pending, tt);
    once = Distinct-snoc id reply called (pending-not_called p h) o.once;
    fresh = erase-Once.fresh;
  }

pub less-Once : (room : ℕ) (c : UpstreamClient) → Once (suc room) c → Once room c
less-Once room c o = record {
  fits = omega (arith, o.fits);
  below = o.below;
  ended = o.ended;
  once = o.once;
  fresh = o.fresh;
}

-- A new id for a new query.
pub new-Once :
    (room next_id : ℕ) (pending : List (ℕ × Pending)) (called : List (ℕ × Reply)) (p : Pending)
    → IsOnce (suc room) next_id pending called
    → IsOnce room ((next_id + 1) % 2 ^ 64) (put next_id p pending) called
new-Once room next_id pending called p o = record {
  fits = ground (arith, o.fits);
  below = All-map called (λ x h. ground (arith, h, o.fits)) o.below;
  ended =
      All-map_both called
        (λ x h gone. find-put_other x.0 next_id p pending (λ e. omega (arith, h, e)) ∙ gone) o.below
        o.ended;
  once = o.once;
  fresh = λ i k.
      find-put_other i next_id p pending (λ e. ground (arith, k, e, o.fits))
      ∙ o.fresh i (ground (arith, k, o.fits));
}

module _ (room : ℕ) where
  pub finish-Once :
      (c : UpstreamClient) (id : ℕ) (reply : Reply) → Once room c → Once room (finish c id reply)
  unfolding finish
  finish-Once c id reply o = elim (Option-cases (find id c.pending)) [
    | inl e ↦ rw (e, finish) o
    | inr (p, e) ↦ rw (e, finish) (call-Once room c.next_id c.pending c.called o id p reply e)
  ]

  pub cancel-Once : (c : UpstreamClient) (id : ℕ) → Once room c → Once room (cancel c id)
  unfolding cancel
  cancel-Once c id o = elim (Option-cases (find id c.pending)) [
    | inl e ↦ rw (e, cancel) o
    | inr (p, e) ↦ rw (e, cancel) (erase-Once room c.next_id c.pending c.called o id)
  ]

  settle-Once :
      (c : UpstreamClient) (id : ℕ) (p : Pending) (e : Exchange)
      → find id c.pending ≡ some p
      → Once room c
      → Once room (settle c id e)
  unfolding settle
  settle-Once c id p e h o = elim (Option-cases e.reply) [
    | inl f ↦ rw (f, settle) (put-Once room c.next_id c.pending c.called o id p e.pending h)
    | inr (reply, f) ↦
        rw (f, settle)
          (finish-Once (record c { pending = put id e.pending c.pending; stats = e.stats }) id reply
            (put-Once room c.next_id c.pending c.called o id p e.pending h))
  ]

  pub on_timeout-Once : (c : UpstreamClient) (id : ℕ) → Once room c → Once room (on_timeout c id)
  unfolding on_timeout
  on_timeout-Once c id o =
      finish-Once _ id _
        (record { fits = o.fits; below = o.below; ended = o.ended; once = o.once; fresh = o.fresh })

  pub on_readable-Once :
      (c : UpstreamClient) (id : ℕ) (received : List Received)
      → Once room c
      → Once room (on_readable c id received)
  unfolding on_readable
  on_readable-Once c id received o = elim (Option-cases (find id c.pending)) [
    | inl e ↦ rw (e, on_readable) o
    | inr (p, e) ↦ rw (e, on_readable) (settle-Once c id p _ e o)
  ]

  on_writable-Once :
      (c : UpstreamClient) (id : ℕ) (p : Pending) (q : Pending × Progress) (epoll : Option ℕ)
      → find id c.pending ≡ some p
      → Once room c
      → Once room (on_writable c id q epoll)
  unfolding on_writable finish_writing
  on_writable-Once c id p (q, blocked) epoll h o = settle-Once c id p (waiting q c.stats) h o
  on_writable-Once c id p (q, broke) epoll h o = settle-Once c id p (broke_off q c.stats) h o
  on_writable-Once c id p (q, complete) epoll h o = settle-Once c id p _ h o

  if-Once :
      (b : Bool) (d d' : UpstreamClient)
      → Once room d
      → Once room d'
      → Once room (if b then d else d')
  if-Once true d d' h k = h
  if-Once false d d' h k = k

  pub on_tcp_event-Once :
      (c : UpstreamClient) (id : ℕ) (hung_up : Bool) (sent : List Sent) (received : List Received)
      (epoll : Option ℕ)
      → Once room c
      → Once room (on_tcp_event c id hung_up sent received epoll)
  unfolding on_tcp_event
  on_tcp_event-Once c id hung_up sent received epoll o = elim (Option-cases (find id c.pending)) [
    | inl e ↦ rw (e, on_tcp_event) o
    | inr (p, e) ↦
        rw (e, on_tcp_event)
          (if-Once (ltb p.written (length p.out)) _ _
            (if-Once hung_up _ _ (settle-Once c id p (broke_off p c.stats) e o)
              (on_writable-Once c id p (write_out p sent) epoll e o))
            (settle-Once c id p (read_tcp p c.stats received) e o))
  ]
