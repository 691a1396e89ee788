-- ===== src/Transfers/Asked.antt =====
-- What callers ask, and the timed work (atemwire/protocol.py), on a sound lane.
use bmdwire.Prelude.{
  ℕ, ◌+◌, ◌≡◌, refl, Bool, true, false, not, ◌||◌, Option, none, some, List, [], ◌∷◌, ◌++◌, lookup,
  assign, by_test, by_option, ltb, leb,
}
use bmdwire.Transfers.Lane.{Lane, Task, InFlight, Yield, queue_of}
use bmdwire.Transfers.Waiting.{yield_due}
use bmdwire.Transfers.Locks.{has_queued}
use bmdwire.Transfers.Requests.{enqueue_task, upload, remove_task, has_task, dequeue_clear}
use bmdwire.Transfers.Abort.{
  drain_stall, drain_max, yield_all, must_drain, abandon, abort_and_drain, abort_and_release,
  abort_transfers, reset_transfer_lane, held_but, unlock_but, unlocks,
}
use bmdwire.Transfers.Service.{
  service_drain, is_taken, service_yield, service_stores, is_due, service_retry, service_yields,
}
use bmdwire.Transfers.Filed.{
  IsFiled-append, IsFiled-remove, IsNext-append, IsFiled-open, IsNext-open, IsNext-remove,
}
use bmdwire.Transfers.Sound.{IsFlight, IsSound, IsRest-IsSound, trigger-IsSound}
use bmdwire.Transfers.Handled.{end_drain-IsSound}

IsFlight-append :
    (u : Task) (o : Option InFlight) (requested : Bool) (queues : List (ℕ × List Task))
    (locks : List (ℕ × Bool))
    → IsFlight o requested queues locks
    → IsFlight o requested (assign u.store (queue_of queues u.store ++ (u ∷ [])) queues) locks
IsFlight-append u none requested queues locks f = f
IsFlight-append u (some t) requested queues locks (n, c, o) =
    (IsNext-append t.task u queues n, c, o)

IsFlight-remove :
    (u : Task) (o : Option InFlight) (requested : Bool) (queues : List (ℕ × List Task))
    (locks : List (ℕ × Bool))
    → u.clear ≡ true
    → IsFlight o requested queues locks
    → IsFlight o requested (assign u.store (remove_task u (queue_of queues u.store)) queues) locks
IsFlight-remove u none requested queues locks k f = f
IsFlight-remove u (some t) requested queues locks k (n, c, o) =
    (IsNext-remove t.task u queues c k n, c, o)

pub enqueue_task-IsSound :
    (now : ℕ) (t : Task) (l : Lane) → IsSound l → IsSound (enqueue_task now t l)
unfolding enqueue_task
enqueue_task-IsSound now t l s = trigger-IsSound now t.store false _ (record {
  filed = IsFiled-append t l.transfer_queue s.filed;
  flight = IsFlight-append t l.transfer l.transfer_requested l.transfer_queue l.locks s.flight;
  alone = s.alone;
})

IsFlight-open :
    (k : ℕ) (o : Option InFlight) (requested : Bool) (queues : List (ℕ × List Task))
    (locks : List (ℕ × Bool))
    → IsFlight o requested queues locks
    → IsFlight o requested (assign k (queue_of queues k) queues) locks
IsFlight-open k none requested queues locks f = f
IsFlight-open k (some t) requested queues locks (n, c, o) = (IsNext-open t.task k queues n, c, o)

pub upload-IsSound :
    (now store : ℕ) (o : Option Task) (l : Lane) → IsSound l → IsSound (upload now store o l)
unfolding upload
upload-IsSound now store none l s = record {
  filed = IsFiled-open store l.transfer_queue s.filed;
  flight = IsFlight-open store l.transfer l.transfer_requested l.transfer_queue l.locks s.flight;
  alone = s.alone;
}
upload-IsSound now store (some t) l s = enqueue_task-IsSound now t l s

pub dequeue_clear-IsSound :
    (task : Task) (l : Lane) → task.clear ≡ true → IsSound l → IsSound (dequeue_clear task l).1
unfolding dequeue_clear
dequeue_clear-IsSound task l k s =
    by_test {A = Bool × Lane} (λ r. IsSound r.1)
      (has_task task (queue_of l.transfer_queue task.store)) _ _
      (λ _. record {
        filed = IsFiled-remove task l.transfer_queue s.filed;
        flight =
            IsFlight-remove task l.transfer l.transfer_requested l.transfer_queue l.locks k
              s.flight;
        alone = s.alone;
      })
      (λ _. s)

yield_all-IsSound :
    (now : ℕ) (stores : List ℕ) (l : Lane) → IsSound l → IsSound (yield_all now stores l)
unfolding yield_all
yield_all-IsSound now [] l s = s
yield_all-IsSound now (store ∷ stores) l s =
    yield_all-IsSound now stores _ (record { filed = s.filed; flight = s.flight; alone = s.alone })

-- An abort leaves nothing, whatever the lane was.
pub abort_transfers-IsSound : (now : ℕ) (l : Lane) → IsSound (abort_transfers now l)
unfolding abort_transfers abort_and_drain abort_and_release
abort_transfers-IsSound now l =
    let released =
      yield_all-IsSound now (held_but none l.locks)
        (record (abandon l) {
          lock_requested = [];
          locks = unlock_but none l.locks;
          sent = l.sent ++ unlocks (held_but none l.locks);
        })
        (IsRest-IsSound _ (record { filed = tt; nothing = refl; requested = refl })) in
    by_option IsSound l.transfer (abort_and_release now l) _ (λ _. released)
      (λ t _.
        by_test IsSound (must_drain now t l) _ (abort_and_release now l)
          (λ _. record { filed = tt; flight = refl; alone = refl }) (λ _. released))

pub reset_transfer_lane-IsSound : (l : Lane) → IsSound (reset_transfer_lane l)
unfolding reset_transfer_lane
reset_transfer_lane-IsSound l = record { filed = tt; flight = refl; alone = tt }

service_drain-IsSound : (now : ℕ) (l : Lane) → IsSound l → IsSound (service_drain now l)
unfolding service_drain
service_drain-IsSound now l s =
    by_option IsSound l.draining _ _ (λ _. s)
      (λ d _.
        by_test IsSound (leb (d.last + drain_stall) now || leb (d.since + drain_max) now) _ _
          (λ _. end_drain-IsSound now l s)
          (λ _. record { filed = s.filed; flight = s.flight; alone = s.alone }))

service_retry-IsSound : (now : ℕ) (l : Lane) → IsSound l → IsSound (service_retry now l)
unfolding service_retry
service_retry-IsSound now l s =
    by_option IsSound l.transfer _ _ (λ _. s)
      (λ t _.
        by_test IsSound (is_due now l.try_again_due) _ _
          (λ _.
            trigger-IsSound now t.task.store true _
              (record { filed = s.filed; flight = s.flight; alone = s.alone }))
          (λ _. s))

service_yield-IsSound : (now store : ℕ) (l : Lane) → IsSound l → IsSound (service_yield now store l)
unfolding service_yield
service_yield-IsSound now store l s =
    by_option IsSound (lookup store l.yielding) _ _ (λ _. s)
      (λ y _.
        by_test IsSound (not (has_queued store l)) _ _
          (λ _.
            by_test IsSound (leb (yield_due now store y l) now) _ _
              (λ _. record { filed = s.filed; flight = s.flight; alone = s.alone }) (λ _. s))
          (λ _.
            by_test IsSound (is_taken store l) _ _ (λ _. s)
              (λ _.
                by_test IsSound (ltb now (yield_due now store y l)) _ _
                  (λ _. record { filed = s.filed; flight = s.flight; alone = s.alone })
                  (λ _. trigger-IsSound now store false l s))))

service_stores-IsSound :
    (now : ℕ) (stores : List (ℕ × Yield)) (l : Lane)
    → IsSound l
    → IsSound (service_stores now stores l)
unfolding service_stores
service_stores-IsSound now [] l s = s
service_stores-IsSound now ((store, _) ∷ rest) l s =
    service_stores-IsSound now rest _ (service_yield-IsSound now store l s)

pub service_yields-IsSound : (now : ℕ) (l : Lane) → IsSound l → IsSound (service_yields now l)
unfolding service_yields
service_yields-IsSound now l s =
    service_stores-IsSound now _ _ (service_retry-IsSound now _ (service_drain-IsSound now l s))
