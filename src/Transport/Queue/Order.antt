-- ===== src/Transport/Queue/Order.antt =====
-- The send queue loses, repeats and reorders nothing: the batches of `queue_trigger` and
-- `drain_queue` (atemwire/transport.py) as one move of packets to the UDP thread.
use mathlib.Core.List.{append_assoc, append-nil, map-append}
use bmdwire.Prelude.{
  ℕ, zero, suc, ◌+◌, ◌≤◌, no_fuel, ◌≡◌, refl, sym, ◌∙◌, ap, Bool, true, false, Option, some, List,
  [], ◌∷◌, ◌++◌, map, length, is_empty, take, drop, if◌then◌else◌, arith,
}
use bmdwire.Transport.Packet.{Packet}
use bmdwire.Transport.Udp.{Udp}
use bmdwire.Transport.Send.{post}
use bmdwire.Transport.Queue.{
  send_first, report_flushed, trigger_paced, send_batches, queue_trigger, drain_queue,
}

-- The state after the first `count` packets of the queue have gone to the UDP thread, in order.
abbrev pub move_first : ℕ → Udp → Udp
move_first count u = record u {
  send_queue = drop count u.send_queue;
  thread_queue = u.thread_queue ++ map some (take count u.send_queue);
  packet_success = u.packet_success + length (take count u.send_queue);
}

-- The state after the whole queue has gone.
abbrev pub move_all : Udp → Udp
move_all u = record u {
  send_queue = [];
  thread_queue = u.thread_queue ++ map some u.send_queue;
  packet_success = u.packet_success + length u.send_queue;
}

-- Two states that differ in the thread's queue and the counter.
moved_eq :
    (u : Udp) (queue : List Packet) (t t' : List (Option Packet)) (n n' : ℕ)
    → t ≡ t'
    → n ≡ n'
    → Path Udp
        (record u { send_queue = queue; thread_queue = t; packet_success = n })
        (record u { send_queue = queue; thread_queue = t'; packet_success = n' })
moved_eq u queue t t' n n' e f = rw (e, f)

pub send_first-eq-move_first :
    (count : ℕ) (queue : List Packet) (u : Udp)
    → send_first count (record u { send_queue = queue })
      ≡ move_first count (record u { send_queue = queue })
unfolding send_first post
send_first-eq-move_first zero queue u =
    sym (moved_eq u queue _ _ _ _ (append-nil u.thread_queue) (omega arith))
send_first-eq-move_first (suc count) [] u =
    sym (moved_eq u [] _ _ _ _ (append-nil u.thread_queue) (omega arith))
send_first-eq-move_first (suc count) (p ∷ rest) u =
    send_first-eq-move_first count rest (post p u)
    ∙ moved_eq u (drop count rest) _ _ _ _
        (append_assoc u.thread_queue (some p ∷ []) (map some (take count rest))) (omega arith)

length-drop_lt :
    (batch_size fuel : ℕ) (p : Packet) (rest : List Packet)
    → length rest ≤ fuel
    → length (drop batch_size rest) ≤ fuel
length-drop_lt zero fuel p rest h = h
length-drop_lt (suc n) fuel p [] h = h
length-drop_lt (suc n) fuel p (q ∷ rest) h = length-drop_lt n fuel q rest (omega (arith, h))

append-take-drop : (count : ℕ) (queue : List Packet) → take count queue ++ drop count queue ≡ queue
append-take-drop zero queue = refl
append-take-drop (suc count) [] = refl
append-take-drop (suc count) (p ∷ rest) = ap (λ r. p ∷ r) (append-take-drop count rest)

length-take-drop :
    (count : ℕ) (queue : List Packet)
    → length (take count queue) + length (drop count queue) ≡ length queue
length-take-drop zero queue = omega arith
length-take-drop (suc count) [] = omega arith
length-take-drop (suc count) (p ∷ rest) = omega (arith, length-take-drop count rest)

take_length : (queue : List Packet) → take (length queue) queue ≡ queue
take_length [] = refl
take_length (p ∷ rest) = ap (λ r. p ∷ r) (take_length rest)

drop_length : (queue : List Packet) → drop (length queue) queue ≡ []
drop_length [] = refl
drop_length (p ∷ rest) = drop_length rest

move_first-eq-move_all : (u : Udp) → move_first (length u.send_queue) u ≡ move_all u
move_first-eq-move_all u = rw (take_length u.send_queue, drop_length u.send_queue)

report_flushed-answers :
    (enabled : Bool) (u : Udp)
    → report_flushed (record u { queue_enabled = enabled })
      ≡ (enabled, record u { queue_enabled = false })
unfolding report_flushed
report_flushed-answers true u = refl
report_flushed-answers false u = refl

-- Batches of at least one packet, with fuel enough, move the whole queue.
pub send_batches-eq-move_all :
    (fuel batch_less : ℕ) (queue : List Packet) (u : Udp)
    → length queue ≤ fuel
    → send_batches fuel (suc batch_less) (record u { send_queue = queue })
      ≡ move_all (record u { send_queue = queue })
unfolding send_batches
send_batches-eq-move_all zero b [] u h =
    sym (moved_eq u [] _ _ _ _ (append-nil u.thread_queue) (omega arith))
send_batches-eq-move_all (suc fuel) b [] u h =
    sym (moved_eq u [] _ _ _ _ (append-nil u.thread_queue) (omega arith))
send_batches-eq-move_all zero b (p ∷ rest) u h = elim (no_fuel (length rest) h) [ ]
send_batches-eq-move_all (suc fuel) b (p ∷ rest) u h =
    ap (λ s. send_batches fuel (suc b) s) (send_first-eq-move_first (suc b) (p ∷ rest) u)
    ∙ send_batches-eq-move_all fuel b (drop b rest)
        (move_first (suc b) (record u { send_queue = p ∷ rest }))
        (length-drop_lt b fuel p rest (omega (arith, h)))
    ∙ moved_eq u [] _ _ _ _
        (append_assoc u.thread_queue _ _
          ∙ ap (λ r. u.thread_queue ++ (some p ∷ r))
              (sym (map-append some (take b rest) (drop b rest))
                ∙ ap (map some) (append-take-drop b rest)))
        (omega (arith, length-take-drop b rest))

-- What `queue_trigger` does to a state with the given queue.
abbrev pub triggered : Bool → Udp → Bool × Udp
triggered aggressive_drain u =
    if is_empty u.send_queue then (u.queue_enabled, record u { queue_enabled = false }) else (
      false,
      if aggressive_drain
          then move_all (record u { queue_enabled = true })
          else move_first 5 (record u { queue_enabled = true }),
    )

queue_trigger-at :
    (aggressive_drain : Bool) (queue : List Packet) (u : Udp)
    → queue_trigger aggressive_drain (record u { send_queue = queue })
      ≡ triggered aggressive_drain (record u { send_queue = queue })
unfolding queue_trigger trigger_paced
queue_trigger-at true [] u = report_flushed-answers u.queue_enabled (record u { send_queue = [] })
queue_trigger-at false [] u = report_flushed-answers u.queue_enabled (record u { send_queue = [] })
queue_trigger-at true (p ∷ rest) u =
    ap (λ s. (false, s))
      (send_batches-eq-move_all (length (p ∷ rest)) 9 (p ∷ rest) (record u { queue_enabled = true })
        (omega arith))
queue_trigger-at false (p ∷ rest) u =
    ap (λ s. (false, s)) (send_first-eq-move_first 5 (p ∷ rest) (record u { queue_enabled = true }))

-- For every state of the protocol and either setting of `aggressive_drain`: with packets in the
-- send queue, `queue_trigger` answers False and moves the first five of them (all of them when
-- draining) to the end of the UDP thread's queue, in order, and changes nothing else but
-- `queue_enabled`, which it sets, and the counter of packets; with the queue empty it moves none,
-- answers what `queue_enabled` was, and leaves it False.
pub queue_trigger-moves_queue :
    (aggressive_drain : Bool) (u : Udp)
    → queue_trigger aggressive_drain u ≡ triggered aggressive_drain u
queue_trigger-moves_queue a u = queue_trigger-at a u.send_queue u

drain_queue-at :
    (queue : List Packet) (u : Udp)
    → is_empty queue ≡ false
    → drain_queue (record u { send_queue = queue })
      ≡ move_all (record u { send_queue = queue; queue_enabled = true })
unfolding drain_queue
drain_queue-at [] u h = cc
drain_queue-at (p ∷ rest) u h =
    send_first-eq-move_first (length (p ∷ rest)) (p ∷ rest) (record u { queue_enabled = true })
    ∙ move_first-eq-move_all (record u { send_queue = p ∷ rest; queue_enabled = true })

trigger-twice :
    (aggressive_drain : Bool) (u : Udp)
    → ((queue_trigger aggressive_drain (move_all (record u { queue_enabled = true }))).0 ≡ true)
      × ((queue_trigger aggressive_drain
            (queue_trigger aggressive_drain (move_all (record u { queue_enabled = true }))).1).0
          ≡ false)
unfolding queue_trigger trigger_paced report_flushed
trigger-twice true u = (refl, refl)
trigger-twice false u = (refl, refl)

-- From every state whose send queue holds a packet, `drain_queue` moves the whole queue to the end
-- of the UDP thread's queue, in order, and changes nothing else but the counter of packets and
-- `queue_enabled`; of the two calls of `queue_trigger` that follow, the first answers True and the
-- second False.
pub drain_queue-flushes_once :
    (aggressive_drain : Bool) (u : Udp)
    → is_empty u.send_queue ≡ false
    → (drain_queue u ≡ move_all (record u { queue_enabled = true }))
      × ((queue_trigger aggressive_drain (drain_queue u)).0 ≡ true)
      × ((queue_trigger aggressive_drain (queue_trigger aggressive_drain (drain_queue u)).1).0
          ≡ false)
drain_queue-flushes_once a u h =
    let drained = drain_queue-at u.send_queue u h in
    (
      drained,
      ap (λ s. (queue_trigger a s).0) drained ∙ (trigger-twice a u).0,
      ap (λ s. (queue_trigger a (queue_trigger a s).1).0) drained ∙ (trigger-twice a u).1,
    )
