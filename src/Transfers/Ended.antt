-- ===== src/Transfers/Ended.antt =====
-- The handlers of FTDE and FTDC (atemwire/protocol.py) on a sound lane.
use bmdwire.Prelude.{
  ℕ, ◌+◌, ◌≡◌, refl, true, false, not, Option, none, some, List, length, by_test, by_option, ◌==◌,
  ltb,
}
use bmdwire.Transfers.Lane.{Lane, Task, InFlight, Raised, raise, file_transfer_error, download_done}
use bmdwire.Transfers.Waiting.{someone_at_work}
use bmdwire.Transfers.Chunks.{queue_flushed}
use bmdwire.Transfers.Fields.{
  is_drained, fail_transfer, refuse, transfer_failed, transfer_error, announce_done, finish,
  data_complete, tries_of, try_again_attempts, join,
}
use bmdwire.Transfers.Filed.{IsFiled, IsFiled-pop, IsFiled-head}
use bmdwire.Transfers.Sound.{
  IsSound, IsRest-IsSound, trigger-IsSound, release_then_continue-IsSound,
}
use bmdwire.Transfers.Handled.{
  IsFlight-idle, end_drain-IsSound, queue_chunks-IsSound, send_file_metadata-IsSound,
}

raise-IsSound : (event : Raised) (l : Lane) → IsSound l → IsSound (raise event l)
raise-IsSound event l s = record { filed = s.filed; flight = s.flight; alone = s.alone }

someone_at_work-IsSound : (now : ℕ) (l : Lane) → IsSound l → IsSound (someone_at_work now l)
someone_at_work-IsSound now l s = record { filed = s.filed; flight = s.flight; alone = s.alone }

fail_transfer-IsSound :
    (now status : ℕ) (l : Lane)
    → IsFiled l.transfer_queue
    → l.transfer_requested ≡ false
    → IsSound (fail_transfer now status l)
unfolding fail_transfer
fail_transfer-IsSound now status l f r = raise-IsSound (file_transfer_error status) _ (
    by_option IsSound l.transfer _ _
      (λ e. IsRest-IsSound _ (record { filed = f; nothing = e; requested = r }))
      (λ t e.
        release_then_continue-IsSound now t.task.store true _
          (IsFiled-head t.task l.transfer_queue f) r))

refuse-IsSound :
    (now : ℕ) (t : InFlight) (l : Lane)
    → l.transfer_requested ≡ false
    → IsSound l
    → IsSound (refuse now t l)
unfolding refuse
refuse-IsSound now t l r s =
    let tries = tries_of t.task.ident l.try_again + 1 in
    by_test IsSound (ltb try_again_attempts tries) _ _
      (λ _. fail_transfer-IsSound now 1 _ s.filed r)
      (λ _. record { filed = s.filed; flight = s.flight; alone = s.alone })

transfer_failed-IsSound :
    (now status : ℕ) (t : InFlight) (l : Lane)
    → l.transfer_requested ≡ false
    → IsSound l
    → IsSound (transfer_failed now status t l)
unfolding transfer_failed
transfer_failed-IsSound now status t l r s =
    by_test IsSound (status == 1) _ _ (λ _. refuse-IsSound now t l r s)
      (λ _.
        by_test IsSound (status == 5) _ _
          (λ _. trigger-IsSound now t.task.store true _ (record {
            filed = s.filed;
            flight =
                rw r (
                  IsFlight-idle l.transfer l.transfer_requested l.transfer_queue l.locks _
                    s.flight);
            alone = s.alone;
          }))
          (λ _.
            by_test IsSound (status == 6) _ _
              (λ _. release_then_continue-IsSound now t.task.store false _ s.filed r)
              (λ _. fail_transfer-IsSound now status l s.filed r)))

pub transfer_error-IsSound :
    (now tid status : ℕ) (l : Lane) → IsSound l → IsSound (transfer_error now tid status l)
unfolding transfer_error
transfer_error-IsSound now tid status l s =
    by_test IsSound (is_drained tid l.draining) _ _ (λ _. end_drain-IsSound now l s)
      (λ _.
        by_option IsSound l.transfer _ _ (λ _. s)
          (λ t e.
            by_test IsSound (tid == t.tid) _ _
              (λ _. transfer_failed-IsSound now status t _ refl (record {
                filed = s.filed;
                flight =
                    IsFlight-idle l.transfer l.transfer_requested l.transfer_queue l.locks l.locks
                      s.flight;
                alone = s.alone;
              }))
              (λ _. s)))

module _ (rle_decode : List ℕ → Option (List ℕ)) where
  announce_done-IsSound :
      (t : Task) (raw : List ℕ) (l : Lane) → IsSound l → IsSound (announce_done rle_decode t raw l)
  unfolding announce_done
  announce_done-IsSound t raw l s =
      by_test IsSound t.upload _ _ (λ _. raise-IsSound _ l s)
        (λ _.
          by_test IsSound (t.store == 0) _ _
            (λ _.
              by_option IsSound (rle_decode raw) _ _ (λ _. s)
                (λ pixels _. raise-IsSound (download_done t.store t.slot pixels) l s))
            (λ _. raise-IsSound _ l s))

  finish-IsSound : (now : ℕ) (t : Task) (l : Lane) → IsSound l → IsSound (finish rle_decode now t l)
  unfolding finish
  finish-IsSound now t l s = announce_done-IsSound t (join l.transfer_buffer) _ (
      release_then_continue-IsSound now t.store true _
        (IsFiled-pop t.store l.transfer_queue s.filed) refl)

  pub data_complete-IsSound :
      (now tid : ℕ) (l : Lane) → IsSound l → IsSound (data_complete rle_decode now tid l)
  unfolding data_complete
  data_complete-IsSound now tid l s =
      by_test IsSound (is_drained tid l.draining) _ _ (λ _. end_drain-IsSound now l s)
        (λ _.
          by_option IsSound l.transfer _ _ (λ _. someone_at_work-IsSound now l s)
            (λ t _.
              by_test IsSound (tid == t.tid) _ _ (λ _. finish-IsSound now t.task l s)
                (λ _. someone_at_work-IsSound now l s)))

-- A flush either is the `TypeError` of a download, or leaves the lane sound.
abbrev pub IsSoundIf : Option Lane → Type 0
IsSoundIf none = Unit
IsSoundIf (some l) = IsSound l

pub queue_flushed-IsSound : (l : Lane) → IsSound l → IsSoundIf (queue_flushed l)
unfolding queue_flushed
queue_flushed-IsSound l s =
    by_option IsSoundIf l.transfer _ _ (λ _. s)
      (λ t e.
        by_test IsSoundIf (not t.task.upload) _ _ (λ _. tt)
          (λ _.
            by_test IsSoundIf (ltb t.offset (length t.task.payload)) _ _
              (λ _. queue_chunks-IsSound l s)
              (λ _.
                by_test IsSoundIf t.metadata_sent _ _ (λ _. s)
                  (λ _. send_file_metadata-IsSound t l e s))))
