-- ===== src/Transfers/Retry.antt =====
-- A transfer that the switcher refuses with "try again" (atemwire/protocol.py): the pauses, and the
-- end of the attempts.
use bmdwire.Prelude.{
  two_pow, ℕ, ◌+◌, ◌-◌, ◌≤◌, ◌<◌, ◌≡◌, ◌⊎◌, refl, ap, none, some, List, [], ◌∷◌, ◌++◌, ltb, ltb→lt,
  ltb-ge, assign, lookup-assign_self, by_test, inl, inr, arith,
}
use bmdwire.Transfers.Lane.{Lane, InFlight, Raised, file_transfer_error}
use bmdwire.Transfers.Fields.{
  refuse, fail_transfer, pause, tries_of, try_again_first, try_again_max, try_again_attempts,
}

pause-bounds : (tries : ℕ) → (try_again_first ≤ pause tries) × (pause tries ≤ try_again_max)
unfolding pause
pause-bounds tries = (omega (arith, two_pow (tries - 1)), omega arith)

tries_of-assign : (ident n : ℕ) (counts : List (ℕ × ℕ)) → tries_of ident (assign ident n counts) ≡ n
tries_of-assign ident n counts =
    ap (λ o. elim o as (λ _. ℕ) [ none ↦ 0 | some k ↦ k ]) (lookup-assign_self ident n counts)

-- The transfer waits for its next attempt.
pub record IsPaused (now tries : ℕ) (t : InFlight) (l m : Lane) : Type 0 where
  pub few : tries ≤ try_again_attempts
  pub due : ℕ
  pub set : m.try_again_due ≡ some due
  pub woken : m.wakes ≡ l.wakes ++ (due ∷ [])
  pub after : now + try_again_first ≤ due
  pub soon : due ≤ now + try_again_max
  pub counted : tries_of t.task.ident m.try_again ≡ tries
  pub same : m.transfer ≡ l.transfer

-- The attempts are used up.
pub record IsGivenUp (tries : ℕ) (m : Lane) : Type 0 where
  pub many : try_again_attempts < tries
  pub before : List Raised
  pub told : m.raised ≡ before ++ (file_transfer_error 1 ∷ [])

-- For a transfer in flight that the switcher refuses with FTDE 1: either this is its refusal number
-- TRY_AGAIN_ATTEMPTS (20) or an earlier one, and it stays in flight, its refusals are counted, and
-- the next attempt and a wake-up for it are set, at least 50 ms and at most a second from now; or it
-- has been refused more often, and the error is told to the subscribers.
pub refuse-IsPaused_or_IsGivenUp :
    (now : ℕ) (t : InFlight) (l : Lane)
    → IsPaused now (tries_of t.task.ident l.try_again + 1) t l (refuse now t l)
      ⊎ IsGivenUp (tries_of t.task.ident l.try_again + 1) (refuse now t l)
unfolding refuse fail_transfer
refuse-IsPaused_or_IsGivenUp now t l =
    let tries = tries_of t.task.ident l.try_again + 1 in
    let bounds = pause-bounds tries in
    by_test {A = Lane} (λ m. IsPaused now tries t l m ⊎ IsGivenUp tries m)
      (ltb try_again_attempts tries)
      (fail_transfer now 1 (record l { try_again = assign t.task.ident tries l.try_again })) _
      (λ many.
        inr (record { many = ltb→lt try_again_attempts tries many; before = _; told = refl }))
      (λ few. inl (record {
        few = ltb-ge try_again_attempts tries few;
        due = now + pause tries;
        set = refl;
        woken = refl;
        after = omega (arith, bounds.0);
        soon = omega (arith, bounds.1);
        counted = tries_of-assign t.task.ident tries l.try_again;
        same = refl;
      }))
