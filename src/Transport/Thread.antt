-- ===== src/Transport/Thread.antt =====
-- The UDP thread and its timer (atemwire/transport.py): `_udp_thread_loop` turn by turn,
-- `_udp_thread`, `wake_at`, `_fire_wake`. What `select` finds in a turn is an argument.
pub mod Wake
use bmdwire.Prelude.{
  ℕ, zero, suc, ◌+◌, Bool, true, false, Option, none, some, List, [], ◌∷◌, ◌++◌, ltb, leb,
  if◌then◌else◌,
}
use bmdwire.Transport.Packet.{Packet}
use bmdwire.Transport.Udp.{
  Udp, Connection, Item, Failure, Answer, Result, ok, raised, Action, pure, modify, ◌>>=◌, ◌>>◌,
}
use bmdwire.Transport.Send.{send_on_udp_thread}
use bmdwire.Transport.Retransmit.{resend_unacked}
use bmdwire.Transport.Session.{connect}
use bmdwire.Transport.Receive.{Read, drain_socket}

-- `_wake_due is not None and _wake_due <= when`
unfoldable pub is_sooner : Option ℕ → ℕ → Bool
is_sooner none when = false
is_sooner (some due) when = leb due when

-- `wake_at`: the sentinel on `thread_queue` has `select` take the new time.
unfoldable pub wake_at : ℕ → Udp → Udp
wake_at when u =
    if is_sooner u.wake_due when
    then u
    else record u { wake_due = some when; thread_queue = u.thread_queue ++ (none ∷ []) }

-- `_wake_due is None or time.monotonic() < _wake_due`
unfoldable pub is_early : ℕ → Option ℕ → Bool
is_early now none = true
is_early now (some due) = ltb now due

-- `_fire_wake`
unfoldable pub fire_wake : ℕ → Udp → Udp
fire_wake now u =
    if is_early now u.wake_due
    then u
    else record u { wake_due = none; thread_recv_queue = u.thread_recv_queue ++ (Item.wakeup ∷ []) }

-- `thread_recv_queue.put(None)`
abbrev pub put_disconnected : Udp → Udp
put_disconnected u = record u {
  thread_recv_queue = u.thread_recv_queue ++ (Item.disconnected ∷ []);
}

-- What `select` finds ready: the socket, with the reads it then gives, and `thread_queue`.
pub record Ready : Type 0 where
  pub reads : Option (List Read)
  pub has_items : Bool

module _ (net : ℕ → Answer) (timeout now : ℕ) where
  -- The items of `thread_queue`: False is the thread's end, after an `OSError`.
  unfoldable pub send_items : List (Option Packet) → Action Bool
  send_items [] u = (ok true, u)
  send_items (none ∷ items) u = send_items items u
  send_items (some p ∷ items) u =
      let rest = send_items items in
      let (result, u') = send_on_udp_thread net now p u in
      elim result [
        | ok _ ↦ rest u'
        | raised (Failure.os_error e) ↦ (ok false, put_disconnected u')
        | raised e ↦ (raised e, u')
      ]

  -- `queue.get_waiting()`, and its items.
  unfoldable pub send_waiting : Bool → Action Bool
  send_waiting has_items u =
      if has_items then send_items u.thread_queue (record u { thread_queue = [] }) else (ok true, u)

  -- `_drain_socket`, if the socket is readable.
  abbrev pub drain_if_ready : Option (List Read) → Action (Unit {0})
  drain_if_ready none = pure tt
  drain_if_ready (some reads) = drain_socket net now reads

  -- A turn after the test for the timeout.
  unfoldable pub serve : Ready → Action Bool
  serve ready = do
    resend_unacked net now
    modify (fire_wake now)
    drain_if_ready ready.reads
    send_waiting ready.has_items

  -- A turn of `_udp_thread_loop`; it runs on while the answer is True.
  unfoldable pub turn : Ready → Action Bool
  turn ready u =
      if leb (u.last_heard + timeout) now
      then (do
        modify (λ v. record v { state = Connection.closed })
        connect net now true
        modify put_disconnected
        pure true)
          u
      else serve ready u

  -- `_udp_thread` after the given turns: however the loop ends, the reader gets a `None`.
  unfoldable pub thread_end : List Ready → Udp → Udp
  thread_end [] u = u
  thread_end (ready ∷ turns) u =
      let rest = thread_end turns in
      let (result, u') = turn ready u in
      elim result [
        | ok goes_on ↦ if goes_on then rest u' else put_disconnected u'
        | raised e ↦ put_disconnected u'
      ]
