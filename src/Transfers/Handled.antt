-- ===== src/Transfers/Handled.antt =====
-- The handlers of LKOB, LKST, FTCD, FTDa, FTDE and FTDC (atemwire/protocol.py) on a sound lane.
use mathlib.Core.Path.{subst}
use bmdwire.Prelude.{
  ℕ, ◌≡◌, refl, Bool, true, false, not, ◌&&◌, Option, none, some, List, lookup, assign,
  lookup-assign, by_test, by_option, inl, inr, ◌==◌, arith,
}
use bmdwire.Transfers.Lane.{Lane, Task, InFlight, Drain, Budget, is_held, discard}
use bmdwire.Transfers.Trigger.{trigger}
use bmdwire.Transfers.Chunks.{
  cut_chunks, upload_chunks, queue_chunks, send_file_metadata, metadata_first, continue_data,
}
use bmdwire.Transfers.Fields.{end_drain, is_drained, hear_drain, file_chunk}
use bmdwire.Transfers.Locks.{
  lock_obtained, lock_taken, announce, wake_for_turn, has_queued, seen_free, lock_released,
}
use bmdwire.Transfers.Sound.{
  IsOurs, IsFlight, IsAlone, IsSound, trigger-IsSound, release_then_continue-IsSound,
}

IsOurs-grant :
    (store s : ℕ) (locks : List (ℕ × Bool)) → IsOurs locks s → IsOurs (assign store true locks) s
IsOurs-grant store s locks (inl e) = inl e
IsOurs-grant store s locks (inr e) = inr (ground (arith, lookup-assign store s true locks))

IsFlight-grant :
    (store : ℕ) (o : Option InFlight) (requested : Bool) (queues : List (ℕ × List Task))
    (locks : List (ℕ × Bool))
    → IsFlight o requested queues locks
    → IsFlight o requested queues (assign store true locks)
IsFlight-grant store none requested queues locks f = f
IsFlight-grant store (some t) requested queues locks (n, c, inl e) = (n, c, inl e)
IsFlight-grant store (some t) requested queues locks (n, c, inr o) =
    (n, c, inr (IsOurs-grant store t.task.store locks o))

-- Once nothing is requested, the locks do not matter.
pub IsFlight-idle :
    (o : Option InFlight) (requested : Bool) (queues : List (ℕ × List Task))
    (locks locks' : List (ℕ × Bool))
    → IsFlight o requested queues locks
    → IsFlight o false queues locks'
IsFlight-idle none requested queues locks locks' f = refl
IsFlight-idle (some t) requested queues locks locks' (n, c, _) = (n, c, inl refl)

-- The attempt's own attributes do not matter.
IsFlight-attempt :
    (o : Option InFlight) (t t' : InFlight) (requested : Bool) (queues : List (ℕ × List Task))
    (locks : List (ℕ × Bool))
    → o ≡ some t
    → t'.task ≡ t.task
    → IsFlight o requested queues locks
    → IsFlight (some t') requested queues locks
IsFlight-attempt o t t' requested queues locks e same f =
    rw same (subst (λ x. IsFlight x requested queues locks) e f)

IsAlone-attempt :
    (d : Option Drain) (o : Option InFlight) (t t' : InFlight)
    → o ≡ some t
    → IsAlone d o
    → IsAlone d (some t')
IsAlone-attempt none o t t' e a = tt
IsAlone-attempt (some d) o t t' e a = cc

IsAlone-hear :
    (now : ℕ) (d : Option Drain) (o : Option InFlight) → IsAlone d o → IsAlone (hear_drain now d) o
IsAlone-hear now none o a = a
IsAlone-hear now (some d) o a = a

pub lock_obtained-IsSound :
    (now store : ℕ) (l : Lane) → IsSound l → IsSound (lock_obtained now store l)
unfolding lock_obtained
lock_obtained-IsSound now store l s = trigger-IsSound now store false _ (record {
  filed = s.filed;
  flight = IsFlight-grant store l.transfer l.transfer_requested l.transfer_queue l.locks s.flight;
  alone = s.alone;
})

pub lock_taken-IsSound : (now store : ℕ) (l : Lane) → IsSound l → IsSound (lock_taken now store l)
unfolding lock_taken
lock_taken-IsSound now store l s =
    by_test IsSound (is_held l.locks store) _ _ (λ e. s)
      (λ e.
        by_test IsSound _ _ _ (λ _. record { filed = s.filed; flight = s.flight; alone = s.alone })
          (λ _. record { filed = s.filed; flight = s.flight; alone = s.alone }))

announce-IsSound : (now store : ℕ) (l : Lane) → IsSound l → IsSound (announce now store l)
unfolding announce
announce-IsSound now store l s =
    by_option IsSound (lookup store l.yielding) _ _
      (λ e. record { filed = s.filed; flight = s.flight; alone = s.alone })
      (λ y e.
        by_option IsSound y.announced _ _
          (λ _. record { filed = s.filed; flight = s.flight; alone = s.alone }) (λ _ _. s))

wake_for_turn-IsSound : (now store : ℕ) (l : Lane) → IsSound l → IsSound (wake_for_turn now store l)
wake_for_turn-IsSound now store l s =
    by_test IsSound _ _ _ (λ _. record { filed = s.filed; flight = s.flight; alone = s.alone })
      (λ _. s)

seen_free-IsSound : (now store : ℕ) (l : Lane) → IsSound l → IsSound (seen_free now store l)
unfolding seen_free
seen_free-IsSound now store l s =
    let opened = record l { foreign_held = discard store l.foreign_held } in
    let free = wake_for_turn-IsSound now store (announce now store opened) (
      announce-IsSound now store opened
        (record { filed = s.filed; flight = s.flight; alone = s.alone })) in
    record { filed = free.filed; flight = free.flight; alone = free.alone }

pub lock_released-IsSound :
    (now store : ℕ) (l : Lane) → IsSound l → IsSound (lock_released now store l)
unfolding lock_released
lock_released-IsSound now store l s =
    let l' = seen_free now store l in
    let free = seen_free-IsSound now store l s in
    by_test IsSound (is_held l.locks store) _ _ (λ _. s)
      (λ _.
        by_test IsSound (has_queued store l' && not l'.transfer_requested)
          (trigger now store false l') l' (λ _. trigger-IsSound now store false l' free)
          (λ _. free))

pub send_file_metadata-IsSound :
    (t : InFlight) (l : Lane) → l.transfer ≡ some t → IsSound l → IsSound (send_file_metadata t l)
send_file_metadata-IsSound t l e s = record {
  filed = s.filed;
  flight =
      IsFlight-attempt l.transfer t (record t { metadata_sent = true }) l.transfer_requested
        l.transfer_queue l.locks e refl s.flight;
  alone = IsAlone-attempt l.draining l.transfer t (record t { metadata_sent = true }) e s.alone;
}

upload_chunks-IsSound :
    (b : Budget) (t : InFlight) (l : Lane)
    → l.transfer ≡ some t
    → IsSound l
    → IsSound (upload_chunks b t l)
unfolding upload_chunks
upload_chunks-IsSound b t l e s =
    let t' = record t { offset = (cut_chunks b.count b.size t.task.payload t.offset).1 } in
    record {
      filed = s.filed;
      flight =
          IsFlight-attempt l.transfer t t' l.transfer_requested l.transfer_queue l.locks e refl
            s.flight;
      alone = IsAlone-attempt l.draining l.transfer t t' e s.alone;
    }

pub queue_chunks-IsSound : (l : Lane) → IsSound l → IsSound (queue_chunks l)
unfolding queue_chunks
queue_chunks-IsSound l s =
    by_option IsSound l.transfer_budget _ _ (λ _. s)
      (λ b _.
        by_option IsSound l.transfer _ _ (λ _. s)
          (λ t e.
            by_test IsSound t.task.upload _ _ (λ _. upload_chunks-IsSound b t l e s) (λ _. s)))

metadata_first-IsSound : (l : Lane) → IsSound l → IsSound (metadata_first l)
unfolding metadata_first
metadata_first-IsSound l s =
    by_option IsSound l.transfer _ _ (λ _. s)
      (λ t e.
        by_test IsSound (t.task.upload && not t.metadata_sent) _ _
          (λ _. send_file_metadata-IsSound t l e s) (λ _. s))

pub continue_data-IsSound :
    (size count : ℕ) (l : Lane) → IsSound l → IsSound (continue_data size count l)
unfolding continue_data
continue_data-IsSound size count l s =
    queue_chunks-IsSound _
      (metadata_first-IsSound _ (record { filed = s.filed; flight = s.flight; alone = s.alone }))

-- Once the drain is over, nothing is in flight and nothing was requested.
idle : (l : Lane) (d : Drain) → l.draining ≡ some d → IsSound l → l.transfer_requested ≡ false
idle l d e s =
    let none_now : l.transfer ≡ none = subst (λ o. IsAlone o l.transfer) e s.alone in
    subst (λ o. IsFlight o l.transfer_requested l.transfer_queue l.locks) none_now s.flight

pub end_drain-IsSound : (now : ℕ) (l : Lane) → IsSound l → IsSound (end_drain now l)
unfolding end_drain
end_drain-IsSound now l s =
    by_option IsSound l.draining _ _ (λ _. s)
      (λ d e. release_then_continue-IsSound now d.store true _ s.filed (idle l d e s))

pub file_chunk-IsSound :
    (now tid : ℕ) (chunk : List ℕ) (l : Lane) → IsSound l → IsSound (file_chunk now tid chunk l)
unfolding file_chunk
file_chunk-IsSound now tid chunk l s =
    by_test IsSound (is_drained tid l.draining) _ _
      (λ _. record {
        filed = s.filed;
        flight = s.flight;
        alone = IsAlone-hear now l.draining l.transfer s.alone;
      })
      (λ _.
        by_option IsSound l.transfer _ _ (λ _. s)
          (λ t _.
            by_test IsSound (tid == t.tid) _ _
              (λ _. record { filed = s.filed; flight = s.flight; alone = s.alone }) (λ _. s)))
