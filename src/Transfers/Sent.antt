-- ===== src/Transfers/Sent.antt =====
-- `_transfer_trigger` (atemwire/protocol.py) keeps to what it may send.
use bmdwire.Prelude.{
  ℕ, zero, suc, ◌≡◌, refl, Bool, true, false, not, Option, none, some, List, [], ◌∷◌, All,
  Bool-cases, by_test, by_option, inl, inr, ◌==◌, ltb,
}
use bmdwire.Transfers.Lane.{
  Lane, Task, Drain, Command, lock, clear_still, download_request, upload_request, file_data, wake,
}
use bmdwire.Transfers.Waiting.{has_lock, give_back}
use bmdwire.Transfers.Trigger.{
  releases, requests, attempt_id, start, release, dispatch_clear, advance, choose, gate,
  trigger_with, trigger, queued, next_task, upload_mode,
}
use bmdwire.Transfers.Sound.{is_ours}
use bmdwire.Transfers.Polite.{
  IsPolite, MayRequest, Sends, Sends-none, Sends-trans, Sends-imp, IsLater, IsPolite-later,
  release-IsLater, request_lock-Sends,
}

requests-All :
    (P : Command → Type 0) (tid : ℕ) (t : Task)
    → P (upload_request tid t.store t.slot t.data_length (upload_mode t.store))
    → P (file_data tid t)
    → P (download_request tid t.store t.slot)
    → All P (requests tid t)
unfolding requests
requests-All P tid t u f d =
    by_test (All P) t.upload _ _
      (λ _. (
        u,
        by_test (All P) (t.data_length == 0) (file_data tid t ∷ []) [] (λ _. (f, tt)) (λ _. tt),
      ))
      (λ _. (d, tt))

start-Sends :
    (now : ℕ) (retry : Bool) (t : Task) (l : Lane)
    → MayRequest t.store l
    → Sends (IsPolite now l) l (start retry t l)
unfolding start
start-Sends now retry t l may = (
  requests (attempt_id retry l.transfer_id) t,
  refl,
  requests-All (IsPolite now l) (attempt_id retry l.transfer_id) t may may may,
)

releases-All :
    (now : ℕ) (l : Lane) (locks : List (ℕ × Bool)) → All (IsPolite now l) (releases locks)
unfolding releases
releases-All now l [] = tt
releases-All now l ((store, held) ∷ rest) =
    by_test (All (IsPolite now l)) held _ _ (λ _. (tt, releases-All now l rest))
      (λ _. releases-All now l rest)

release-Sends : (now store : ℕ) (l m : Lane) → Sends (IsPolite now l) m (release now store m)
unfolding release
release-Sends now store l m =
    by_test (Sends (IsPolite now l) m) (has_lock store m)
      (give_back now store (record m { transfer = none })) (record m { transfer = none })
      (λ _. (lock store false ∷ [], refl, (tt, tt)))
      (λ _. Sends-none (IsPolite now l) m (record m { transfer = none }) refl)

module _ (continue : ℕ → Lane → Lane) (now : ℕ)
    (sends : (store : ℕ) (l : Lane) → Sends (IsPolite now l) l (continue store l)) where
  IsLater-dispatch : (t : Task) (l m : Lane) → IsLater now (dispatch_clear t l) m → IsLater now l m
  IsLater-dispatch t l m later = record {
    idle = later.idle;
    held = later.held;
    asked = later.asked;
  }

  advance-Sends :
      (retry : Bool) (t : Task) (l : Lane)
      → Sends (IsPolite now l) l (advance continue now retry t l)
  unfolding advance
  advance-Sends retry t l =
      by_test (Sends (IsPolite now l) l) _ _ _ (λ _. request_lock-Sends now t l)
        (λ ours.
          by_test (Sends (IsPolite now l) l) l.transfer_requested _ _
            (λ _. Sends-none (IsPolite now l) l l refl)
            (λ idle.
              by_test (Sends (IsPolite now l) l) t.clear _ _ (λ _. cleared t l idle)
                (λ _. start-Sends now retry t l (idle, is_ours l.locks t.store ours))))
    where
      cleared :
          (t : Task) (l : Lane)
          → l.transfer_requested ≡ false
          → Sends (IsPolite now l) l (continue t.store (release now t.store (dispatch_clear t l)))
      cleared t l idle =
          let gone = dispatch_clear t l in
          let after = release now t.store gone in
          Sends-trans (IsPolite now l) l gone (continue t.store after)
            (clear_still t.slot ∷ [], refl, (idle, tt))
            (Sends-trans (IsPolite now l) gone after (continue t.store after)
              (release-Sends now t.store l gone)
              (Sends-imp (IsPolite now after) (IsPolite now l) after (continue t.store after)
                (IsPolite-later now l after
                  (IsLater-dispatch t l after (release-IsLater now t.store gone idle)))
                (sends t.store after)))

  choose-Sends :
      (store : ℕ) (retry : Bool) (l : Lane)
      → Sends (IsPolite now l) l (choose continue now store retry l)
  unfolding choose
  choose-Sends store retry l =
      by_option (Sends (IsPolite now l) l) (next_task store l.transfer_queue) _ _
        (λ _. (releases l.locks, refl, releases-All now l l.locks)) (λ t _. advance-Sends retry t l)

  gate-Sends :
      (store : ℕ) (retry : Bool) (l : Lane)
      → Sends (IsPolite now l) l (gate continue now store retry l)
  unfolding gate
  gate-Sends store retry l =
      by_option (Sends (IsPolite now l) l) l.draining _ _
        (λ _.
          by_option (Sends (IsPolite now l) l) l.try_again_due _ _ (λ _. choose-Sends store retry l)
            (λ due _.
              by_test (Sends (IsPolite now l) l) (ltb now due) (wake due l) _
                (λ _. Sends-none (IsPolite now l) l (wake due l) refl)
                (λ _. choose-Sends store true (record l { try_again_due = none }))))
        (λ _ _. Sends-none (IsPolite now l) l l refl)

trigger_with-Sends :
    (fuel now store : ℕ) (retry : Bool) (l : Lane)
    → Sends (IsPolite now l) l (trigger_with fuel now store retry l)
unfolding trigger_with
trigger_with-Sends zero now store retry l = Sends-none (IsPolite now l) l l refl
trigger_with-Sends (suc fuel) now store retry l =
    gate-Sends (λ s. trigger_with fuel now s false) now
      (λ s m. trigger_with-Sends fuel now s false m) store retry l

-- No abandoned download drains, and no pause before a retry is running.
abbrev pub is_open : ℕ → Option Drain → Option ℕ → Bool
is_open now (some d) due = false
is_open now none none = true
is_open now none (some due) = not (ltb now due)

open_now :
    (now : ℕ) (d : Option Drain) (due : Option ℕ) → d ≡ none → due ≡ none → is_open now d due ≡ true
open_now now d due e f = rw (e, f) refl

open_late :
    (now when : ℕ) (d : Option Drain) (due : Option ℕ)
    → d ≡ none
    → due ≡ some when
    → ltb now when ≡ false
    → is_open now d due ≡ true
open_late now when d due e f late = rw (e, f, late) refl

gate-sent :
    (continue : ℕ → Lane → Lane) (now store : ℕ) (retry : Bool) (l : Lane)
    → is_open now l.draining l.try_again_due ≡ false
    → (gate continue now store retry l).sent ≡ l.sent
unfolding gate
gate-sent continue now store retry l closed =
    by_option {C = Lane} (λ m. m.sent ≡ l.sent) l.draining _ _
      (λ idle.
        by_option {C = Lane} (λ m. m.sent ≡ l.sent) l.try_again_due _ _
          (λ e. cc (closed, open_now now l.draining l.try_again_due idle e))
          (λ due e.
            by_test {A = Lane} (λ m. m.sent ≡ l.sent) (ltb now due) (wake due l) _ (λ _. refl)
              (λ late. cc (closed, open_late now due l.draining l.try_again_due idle e late))))
      (λ _ _. refl)

-- Whatever the lane: `_transfer_trigger` adds commands to what is sent, and takes none back. It asks
-- for a lock only at a store that no other client holds, that was not asked for within the last
-- second, and where nobody else's turn runs; it requests a transfer, or sends an empty upload's
-- metadata, only with no request out and with the store's lock counted as held, unless it is a
-- macro's; it sends a clear only with no request out; it sends no data and no acknowledgement. All
-- these are read off the lane as it was before, though clears may come in between; and it sends
-- nothing while an abandoned download drains or a pause before a retry is running.
pub trigger-Sends :
    (now store : ℕ) (retry : Bool) (l : Lane)
    → Sends
        (λ c. IsPolite now l c × (is_open now l.draining l.try_again_due ≡ true))
        l
        (trigger now store retry l)
unfolding trigger trigger_with
trigger-Sends now store retry l = elim (Bool-cases (is_open now l.draining l.try_again_due)) [
  | inl clear_way ↦
      Sends-imp (IsPolite now l) _ l (trigger now store retry l) (λ c h. (h, clear_way))
        (trigger_with-Sends (suc (queued l.transfer_queue)) now store retry l)
  | inr closed ↦
      Sends-none _ l (trigger now store retry l) (
        gate-sent (λ s. trigger_with (queued l.transfer_queue) now s false) now store retry l
          closed)
]
