-- ===== src/Transfers/Tests.antt =====
-- Runs of the transfers (atemwire/protocol.py) on concrete sessions.
use bmdwire.Prelude.{some, ◌+◌, none, ◌⊎◌, ℕ, suc, ◌≡◌, refl, true, false, List, [], ◌∷◌, lookup}
use bmdwire.Imaging.{rle_decode}
use bmdwire.Transfers.Lane.{InFlight, Drain, Lane, new_lane}
use bmdwire.Transfers.Trigger.{trigger, trigger_with, queued}
use bmdwire.Transfers.Fields.{tries_of, refuse}
use bmdwire.Transfers.Sound.{IsSound}
use bmdwire.Transfers.Run.{
  Happening, downloading, obtained, chunk, completed, clear_task, run, run-IsSound,
}
use bmdwire.Transfers.Enough.{trigger-trigger_with}
use bmdwire.Transfers.Service.{service_drain}
use bmdwire.Transfers.Drained.{WakesBy, service_drain-WakesBy}
use bmdwire.Transfers.Retry.{IsPaused, IsGivenUp, refuse-IsPaused_or_IsGivenUp}
use bmdwire.Transfers.Requests.{download_task}
use bmdwire.Transfers.Polite.{IsPolite, Sends}
use bmdwire.Transfers.Sent.{is_open, trigger-Sends}

-- A download of a still, with the switcher's answers.
abbrev session : List (ℕ × Happening)
session =
    (0, downloading 1 0 3) ∷ (5, obtained 0) ∷ (9, chunk 8 (1 ∷ 2 ∷ [])) ∷ (12, completed 8) ∷ []

-- Two clears wait for the lock of their store.
abbrev two_clears : Lane
two_clears = record (new_lane 7) {
  transfer_queue = (0, clear_task 1 0 3 ∷ clear_task 2 0 4 ∷ []) ∷ [];
  locks = (0, true) ∷ [];
}

abbrev bytes : List ℕ
bytes = 1 ∷ 2 ∷ 3 ∷ 4 ∷ 5 ∷ 6 ∷ 7 ∷ 8 ∷ 9 ∷ 10 ∷ []

abbrev session_end : Lane
session_end = run rle_decode session (new_lane 7)

run-IsSound_example : IsSound (run rle_decode session (new_lane 7))
run-IsSound_example = run-IsSound rle_decode 7 session

trigger-trigger_with_example :
    trigger_with (suc (queued two_clears.transfer_queue) + 4) 50 0 false two_clears
    ≡ trigger 50 0 false two_clears
unfolding lookup
trigger-trigger_with_example =
    trigger-trigger_with 4 50 0 false two_clears ((refl, (refl, tt)), refl, tt)

trigger-Sends_example :
    Sends
      (λ c.
        IsPolite 50 two_clears c × (is_open 50 two_clears.draining two_clears.try_again_due ≡ true))
      two_clears
      (trigger 50 0 false two_clears)
trigger-Sends_example = trigger-Sends 50 0 false two_clears

-- A download was abandoned, and its last chunk came four seconds later.
abbrev abandoned : Drain
abandoned = record { tid = 8; store = 0; since = 1000; last = 5000 }

abbrev draining_lane : Lane
draining_lane = record two_clears { draining = some abandoned }

service_drain-WakesBy_example :
    ((service_drain 7000 draining_lane).draining ≡ none)
    ⊎ WakesBy 7000 abandoned draining_lane (service_drain 7000 draining_lane)
service_drain-WakesBy_example = service_drain-WakesBy 7000 abandoned draining_lane refl

abbrev in_flight : InFlight
in_flight = record { task = download_task 1 0 3; tid = 8; metadata_sent = false; offset = 0 }

-- A download that was refused three times
abbrev refused_lane : Lane
refused_lane = record two_clears { transfer = some in_flight; try_again = (1, 3) ∷ [] }

refuse-IsPaused_or_IsGivenUp_example :
    IsPaused 500
      (tries_of 1 refused_lane.try_again + 1)
      in_flight
      refused_lane
      (refuse 500 in_flight refused_lane)
    ⊎ IsGivenUp (tries_of 1 refused_lane.try_again + 1) (refuse 500 in_flight refused_lane)
refuse-IsPaused_or_IsGivenUp_example = refuse-IsPaused_or_IsGivenUp 500 in_flight refused_lane
