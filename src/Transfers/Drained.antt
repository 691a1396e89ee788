-- ===== src/Transfers/Drained.antt =====
-- An abandoned download (atemwire/protocol.py) does not drain for ever: `_service_drain`.
use mathlib.Core.Option.{some_inj}
use bmdwire.Prelude.{
  ℕ, zero, suc, ◌+◌, ◌≤◌, ◌<◌, ◌≡◌, ◌⊎◌, refl, sym, ◌∙◌, ap, min, Bool, true, false, not, ◌&&◌,
  ◌||◌, Option, none, some, [], ◌∷◌, ◌++◌, ltb, leb, by_test, by_option, inl, inr, ◌==◌, arith,
}
use bmdwire.Transfers.Lane.{Lane, Task, Drain, macro_store, is_held, wake}
use bmdwire.Transfers.Waiting.{has_lock}
use bmdwire.Transfers.Trigger.{
  next_task, request_lock, start, release, dispatch_clear, advance, choose, gate, trigger_with,
  trigger, release_then_continue, queued,
}
use bmdwire.Transfers.Fields.{end_drain}
use bmdwire.Transfers.Abort.{drain_stall, drain_max}
use bmdwire.Transfers.Service.{service_drain}

-- The second lane drains what the first does.
abbrev DrainsAs : Option Drain → Lane → Type 0
DrainsAs d m = m.draining ≡ d

release-DrainsAs : (now store : ℕ) (l : Lane) → DrainsAs l.draining (release now store l)
unfolding release
release-DrainsAs now store l =
    by_test (DrainsAs l.draining) (has_lock store l) _ _ (λ _. refl) (λ _. refl)

request_lock-DrainsAs : (now : ℕ) (t : Task) (l : Lane) → DrainsAs l.draining (request_lock now t l)
unfolding request_lock
request_lock-DrainsAs now t l = ground arith

module _ (continue : ℕ → Lane → Lane) (now : ℕ)
    (keeps : (store : ℕ) (l : Lane) → DrainsAs l.draining (continue store l)) where
  advance-DrainsAs :
      (retry : Bool) (t : Task) (l : Lane) → DrainsAs l.draining (advance continue now retry t l)
  unfolding advance start
  advance-DrainsAs retry t l =
      by_test (DrainsAs l.draining) (not (t.store == macro_store) && not (is_held l.locks t.store))
        _ _ (λ _. request_lock-DrainsAs now t l)
        (λ _.
          by_test (DrainsAs l.draining) l.transfer_requested _ _ (λ _. refl)
            (λ _.
              by_test (DrainsAs l.draining) t.clear _ (start retry t l)
                (λ _.
                  keeps t.store (release now t.store (dispatch_clear t l))
                  ∙ release-DrainsAs now t.store (dispatch_clear t l))
                (λ _. refl)))

  choose-DrainsAs :
      (store : ℕ) (retry : Bool) (l : Lane)
      → DrainsAs l.draining (choose continue now store retry l)
  unfolding choose
  choose-DrainsAs store retry l =
      by_option (DrainsAs l.draining) (next_task store l.transfer_queue) _ _ (λ _. refl)
        (λ t _. advance-DrainsAs retry t l)

  gate-DrainsAs :
      (store : ℕ) (retry : Bool) (l : Lane) → DrainsAs l.draining (gate continue now store retry l)
  unfolding gate
  gate-DrainsAs store retry l =
      by_option (DrainsAs l.draining) l.draining _ _
        (λ _.
          by_option (DrainsAs l.draining) l.try_again_due _ _ (λ _. choose-DrainsAs store retry l)
            (λ due _.
              by_test (DrainsAs l.draining) (ltb now due) (wake due l) _ (λ _. refl)
                (λ _. choose-DrainsAs store true (record l { try_again_due = none }))))
        (λ _ _. refl)

trigger_with-DrainsAs :
    (fuel now store : ℕ) (retry : Bool) (l : Lane)
    → DrainsAs l.draining (trigger_with fuel now store retry l)
unfolding trigger_with
trigger_with-DrainsAs zero now store retry l = refl
trigger_with-DrainsAs (suc fuel) now store retry l =
    gate-DrainsAs (λ s. trigger_with fuel now s false) now
      (λ s m. trigger_with-DrainsAs fuel now s false m) store retry l

release_then_continue-DrainsAs :
    (now store : ℕ) (request_next : Bool) (l : Lane)
    → DrainsAs l.draining (release_then_continue now store request_next l)
unfolding release_then_continue trigger
release_then_continue-DrainsAs now store request_next l =
    let released = release now store l in
    by_test (DrainsAs l.draining) (has_lock store l && not request_next) released _
      (λ _. release-DrainsAs now store l)
      (λ _.
        trigger_with-DrainsAs (suc (queued released.transfer_queue)) now store false released
        ∙ release-DrainsAs now store l)

end_drain-DrainsAs : (now : ℕ) (l : Lane) → DrainsAs none (end_drain now l)
unfolding end_drain
end_drain-DrainsAs now l =
    by_option (DrainsAs none) l.draining _ _ (λ e. e)
      (λ d _. release_then_continue-DrainsAs now d.store true (record l { draining = none }))

-- The wake-up of a drain that goes on
abbrev pub WakesBy : ℕ → Drain → Lane → Lane → Type 0
WakesBy now d l m =
    (when : ℕ) × (m.wakes ≡ l.wakes ++ (when ∷ [])) × (now < when) × (when ≤ d.since + drain_max)

-- While an abandoned download drains, at any time: `_service_drain` either ends the drain, or asks
-- to be woken at a later time, which is at most DRAIN_MAX (120 s) after the download was abandoned,
-- however many chunks come meanwhile; from that time on it always ends it.
pub service_drain-WakesBy :
    (now : ℕ) (d : Drain) (l : Lane)
    → l.draining ≡ some d
    → ((service_drain now l).draining ≡ none) ⊎ WakesBy now d l (service_drain now l)
unfolding service_drain
service_drain-WakesBy now d l e =
    by_option (λ m. (m.draining ≡ none) ⊎ WakesBy now d l m) l.draining _ _ (λ gone. cc (e, gone))
      (λ d' here.
        let same : d' ≡ d = some_inj.0 (sym here ∙ e) in
        by_test (λ m. (m.draining ≡ none) ⊎ WakesBy now d l m)
          (leb (d'.last + drain_stall) now || leb (d'.since + drain_max) now) _
          (wake (min (d'.last + drain_stall) (d'.since + drain_max)) l)
          (λ _. inl (end_drain-DrainsAs now l)) (λ going. inr (wakes d' same going)))
  where
    wakes :
        (d' : Drain)
        → d' ≡ d
        → (leb (d'.last + drain_stall) now || leb (d'.since + drain_max) now) ≡ false
        → WakesBy now d l (wake (min (d'.last + drain_stall) (d'.since + drain_max)) l)
    wakes d' same going =
        let limit : d'.since ≡ d.since = ap (λ x. x.since) same in
        (
          min (d'.last + drain_stall) (d'.since + drain_max),
          refl,
          ground arith,
          omega (arith, limit),
        )
