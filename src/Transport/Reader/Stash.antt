-- ===== src/Transport/Reader/Stash.antt =====
-- The sentinels of `receive_packet` (atemwire/transport.py) cost no data packet.
use bmdwire.Prelude.{
  ℕ, zero, suc, ◌⊎◌, ◌≤◌, no_fuel, ◌≡◌, refl, sym, ◌∙◌, ap, Bool, true, false, Option, none, some,
  List, [], ◌∷◌, ◌++◌, length, ◌==◌, inl, inr, arith, Bool-cases,
}
use bmdwire.Transport.Packet.{Packet}
use bmdwire.Transport.Udp.{Udp, Connection, Item, Answer, Result, ok, raised, ◌>>=◌}
use bmdwire.Transport.Queue.{queue_trigger}
use bmdwire.Transport.Reader.{
  Returned, disconnected, woken, next_item, start_acking, receive_disconnect, receive_control,
  receive_established, receive_by_state, receive_after_bulk, receive_data, receive_item, go_on,
  receive_packet,
}
use bmdwire.Transport.Reader.Kept.{
  Kept, data_packets, pending_from, pending, handed, goes_on, is_ok, queue_trigger-Same,
  start_acking-Same, pending_eq, control_packets, unmoved-Kept, either,
}

module _ (net : ℕ → Answer) (now : ℕ) (aggressive_drain : Bool) where
  receive_control-Kept :
      (p : Packet) (items : List Item) (u : Udp)
      → (p.length == 12) ≡ true
      → u.state ≡ Connection.established
      → u.stashed_packet ≡ none
      → u.thread_recv_queue ≡ items
      → Kept (Item.packet p) items (receive_control net now aggressive_drain u)
  unfolding receive_control
  receive_control-Kept p items u h e s q =
      let same = queue_trigger-Same aggressive_drain u in
      let v = (queue_trigger aggressive_drain u).1 in
      either (Kept (Item.packet p) items) (queue_trigger aggressive_drain u).0 _ _
        (unmoved-Kept (Item.packet p) items (ok (some Returned.queue_flushed)) v refl refl
          (same.state ∙ e) (same.stash ∙ s) (same.items ∙ q) (control_packets p items h))
        (unmoved-Kept (Item.packet p) items (ok none) v refl refl (same.state ∙ e) (same.stash ∙ s)
          (same.items ∙ q) (control_packets p items h))

  receive_established-Kept :
      (p : Packet) (items : List Item) (u : Udp)
      → u.state ≡ Connection.established
      → u.stashed_packet ≡ none
      → u.thread_recv_queue ≡ items
      → Kept (Item.packet p) items (receive_established net now aggressive_drain p u)
  unfolding receive_established
  receive_established-Kept p items u e s q =
      let same = start_acking-Same u in
      elim (Bool-cases (p.length == 12)) [
        | inl b ↦ rw b (
            receive_control-Kept p items (start_acking u) b (same.state ∙ e) (same.stash ∙ s)
              (same.items ∙ q))
        | inr b ↦ rw b (record {
          returns = refl;
          state = e;
          conserved = ap (λ l. p ∷ data_packets l) (pending_eq u none items s q) ∙ sym (rw b);
          rest = λ g. cc;
        })
      ]

  receive_by_state-at :
      (p : Packet) (c : Connection) (u : Udp)
      → c ≡ Connection.established
      → receive_by_state net now aggressive_drain p (record u { state = c })
        ≡ receive_established net now aggressive_drain p (record u { state = c })
  unfolding receive_by_state
  receive_by_state-at p Connection.established u e = refl
  receive_by_state-at p Connection.closed u e = cc
  receive_by_state-at p Connection.syn_sent u e = cc
  receive_by_state-at p Connection.syn_received u e = cc

  receive_disconnect-at :
      (c : Connection) (u : Udp)
      → c ≡ Connection.established
      → receive_disconnect net now aggressive_drain (record u { state = c })
        ≡ (ok (some disconnected), record u { state = c })
  unfolding receive_disconnect
  receive_disconnect-at Connection.established u e = refl
  receive_disconnect-at Connection.closed u e = cc
  receive_disconnect-at Connection.syn_sent u e = cc
  receive_disconnect-at Connection.syn_received u e = cc

  receive_by_state-Kept :
      (p : Packet) (items : List Item) (u : Udp)
      → u.state ≡ Connection.established
      → u.stashed_packet ≡ none
      → u.thread_recv_queue ≡ items
      → Kept (Item.packet p) items (receive_by_state net now aggressive_drain p u)
  receive_by_state-Kept p items u e s q =
      rw (receive_by_state-at p u.state u e) (receive_established-Kept p items u e s q)

  -- A sentinel puts the packet back.
  restashed-Kept :
      (p : Packet) (items : List Item) (r : Result (Option Returned)) (v : Udp)
      → is_ok r ≡ true
      → goes_on r ≡ false
      → handed r ≡ []
      → v.state ≡ Connection.established
      → v.thread_recv_queue ≡ items
      → Kept (Item.packet p) items (r, record v { stashed_packet = some p })
  restashed-Kept p items r v o g h e q = record {
    returns = o;
    state = e;
    conserved =
        ap (λ l. l ++ data_packets (Item.packet p ∷ v.thread_recv_queue)) h
        ∙ ap (λ l. data_packets (Item.packet p ∷ l)) q;
    rest = λ t. cc;
  }

  receive_after_bulk-Kept :
      (p : Packet) (items : List Item) (u : Udp)
      → u.state ≡ Connection.established
      → u.stashed_packet ≡ none
      → u.thread_recv_queue ≡ items
      → Kept (Item.packet p) items (receive_after_bulk net now aggressive_drain p u)
  unfolding receive_after_bulk
  receive_after_bulk-Kept p items u e s q =
      let same = queue_trigger-Same aggressive_drain u in
      let v = (queue_trigger aggressive_drain u).1 in
      either (Kept (Item.packet p) items) (queue_trigger aggressive_drain u).0 _ _
        (restashed-Kept p items (ok (some Returned.queue_flushed)) v refl refl refl (same.state ∙ e)
          (same.items ∙ q))
        (receive_by_state-Kept p items v (same.state ∙ e) (same.stash ∙ s) (same.items ∙ q))

  receive_data-Kept :
      (p : Packet) (items : List Item) (u : Udp)
      → u.state ≡ Connection.established
      → u.stashed_packet ≡ none
      → u.thread_recv_queue ≡ items
      → Kept (Item.packet p) items (receive_data net now aggressive_drain p u)
  unfolding receive_data
  receive_data-Kept p items u e s q =
      either (Kept (Item.packet p) items) u.mark_next_connected _ _
        (restashed-Kept p items (ok (some Returned.connection_ready))
          (record u { mark_next_connected = false }) refl refl refl e q)
        (either (Kept (Item.packet p) items) u.enable_ack _ _
          (receive_after_bulk-Kept p items u e s q) (receive_by_state-Kept p items u e s q))

  receive_item-Kept :
      (item : Item) (items : List Item) (u : Udp)
      → u.state ≡ Connection.established
      → u.stashed_packet ≡ none
      → u.thread_recv_queue ≡ items
      → Kept item items (receive_item net now aggressive_drain item u)
  unfolding receive_item
  receive_item-Kept Item.disconnected items u e s q =
      rw (receive_disconnect-at u.state u e)
        (unmoved-Kept Item.disconnected items (ok (some disconnected)) u refl refl e s q refl)
  receive_item-Kept Item.wakeup items u e s q =
      unmoved-Kept Item.wakeup items (ok (some woken)) u refl refl e s q refl
  receive_item-Kept (Item.packet p) items u e s q = receive_data-Kept p items u e s q

  -- What a call of `receive_packet` does to an established session where the items wait.
  pub record Conserved (items : List Item) (out : Result (Option Returned) × Udp) : Type 0 where
    pub returns : is_ok out.0 ≡ true
    pub state : out.1.state ≡ Connection.established
    pub conserved : handed out.0 ++ data_packets (pending out.1) ≡ data_packets items
    pub waits : (goes_on out.0 ≡ false) ⊎ (pending out.1 ≡ [])

  -- The rest of the loop after a turn.
  abbrev resume : ℕ → Result (Option Returned) × Udp → Result (Option Returned) × Udp
  resume turns out =
      ((λ u. out)
          >>= go_on net now aggressive_drain (receive_packet net now aggressive_drain turns))
        out.1

  resume-Conserved :
      (turns : ℕ) (item : Item) (items : List Item) (out : Result (Option Returned) × Udp)
      → Kept item items out
      → ((u : Udp)
          → u.state ≡ Connection.established
          → pending u ≡ items
          → Conserved items (receive_packet net now aggressive_drain turns u))
      → Conserved (item ∷ items) (resume turns out)
  resume-Conserved turns item items (ok none, u) k h =
      let later = h u k.state (k.rest refl) in
      record {
        returns = later.returns;
        state = later.state;
        conserved = later.conserved ∙ ap data_packets (sym (k.rest refl)) ∙ k.conserved;
        waits = later.waits;
      }
  resume-Conserved turns item items (ok (some r), u) k h = record {
    returns = refl;
    state = k.state;
    conserved = k.conserved;
    waits = inl refl;
  }
  resume-Conserved turns item items (raised e, u) k h = cc k.returns

  -- A turn on the item at hand, and the rest by induction.
  resume-turn :
      (turns : ℕ) (item : Item) (items : List Item) (u : Udp)
      → u.state ≡ Connection.established
      → u.stashed_packet ≡ none
      → u.thread_recv_queue ≡ items
      → ((w : Udp)
          → w.state ≡ Connection.established
          → pending w ≡ items
          → Conserved items (receive_packet net now aggressive_drain turns w))
      → Conserved (item ∷ items) (resume turns (receive_item net now aggressive_drain item u))
  resume-turn turns item items u e s q h =
      resume-Conserved turns item items (receive_item net now aggressive_drain item u)
        (receive_item-Kept item items u e s q) h

  receive_packet-at :
      (turns : ℕ) (stash : Option Packet) (items : List Item) (u : Udp)
      → u.state ≡ Connection.established
      → length (pending_from stash items) ≤ turns
      → Conserved (pending_from stash items) (
          receive_packet net now aggressive_drain turns
            (record u { stashed_packet = stash; thread_recv_queue = items }))
  unfolding receive_packet next_item
  receive_packet-at zero none [] u e h = record {
    returns = refl;
    state = e;
    conserved = refl;
    waits = inr refl;
  }
  receive_packet-at zero none (item ∷ items) u e h = elim (no_fuel (length items) h) [ ]
  receive_packet-at zero (some p) items u e h = elim (no_fuel (length items) h) [ ]
  receive_packet-at (suc turns) none [] u e h = record {
    returns = refl;
    state = e;
    conserved = refl;
    waits = inr refl;
  }
  receive_packet-at (suc turns) none (item ∷ items) u e h =
      resume-turn turns item items (record u { stashed_packet = none; thread_recv_queue = items }) e
        refl refl
        (λ w f q. rw (sym q) (
          receive_packet-at turns w.stashed_packet w.thread_recv_queue w f
            (rw q (omega (arith, h)))))
  receive_packet-at (suc turns) (some p) items u e h =
      resume-turn turns (Item.packet p) items
        (record u { stashed_packet = none; thread_recv_queue = items }) e refl refl
        (λ w f q. rw (sym q) (
          receive_packet-at turns w.stashed_packet w.thread_recv_queue w f
            (rw q (omega (arith, h)))))

  -- For every answer of the network, every time and either setting of `aggressive_drain`: a call of
  -- `receive_packet` in an established session, with a turn of its loop for each item that waits,
  -- raises nothing, leaves the session established, hands up or keeps (stashed, or still queued)
  -- every data packet that waited, each once and in order, whatever sentinel it returns, and ends
  -- without a result only when nothing waits any more.
  pub receive_packet-Conserved :
      (turns : ℕ) (u : Udp)
      → u.state ≡ Connection.established
      → length (pending u) ≤ turns
      → Conserved (pending u) (receive_packet net now aggressive_drain turns u)
  receive_packet-Conserved turns u e h =
      receive_packet-at turns u.stashed_packet u.thread_recv_queue u e h
