-- ===== src/Transport/Thread/Wake.antt =====
-- The timed work of the protocol's thread (atemwire/transport.py): `wake_at` and `_fire_wake`.
use bmdwire.Prelude.{
  ℕ, ◌≡◌, refl, ap, ◌∙◌, none, some, List, [], ◌∷◌, ◌++◌, ltb, leb, if◌then◌else◌, arith,
}
use bmdwire.Transport.Udp.{Udp, Item}
use bmdwire.Transport.Thread.{is_sooner, wake_at, is_early, fire_wake}

-- The requests in the order in which they come.
abbrev pub wake_at_all : List ℕ → Udp → Udp
wake_at_all [] u = u
wake_at_all (when ∷ whens) u = wake_at_all whens (wake_at when u)

-- The earliest of the times.
abbrev pub earliest : ℕ → List ℕ → ℕ
earliest first [] = first
earliest first (when ∷ whens) = earliest (if leb first when then first else when) whens

wake_due-wake_at :
    (due when : ℕ) (u : Udp)
    → u.wake_due ≡ some due
    → (wake_at when u).wake_due ≡ some (if leb due when then due else when)
unfolding wake_at is_sooner
wake_due-wake_at due when u h = ground arith

wake_due-wake_at_all :
    (whens : List ℕ) (due : ℕ) (u : Udp)
    → u.wake_due ≡ some due
    → (wake_at_all whens u).wake_due ≡ some (earliest due whens)
wake_due-wake_at_all [] due u h = h
wake_due-wake_at_all (when ∷ whens) due u h =
    wake_due-wake_at_all whens _ (wake_at when u) (wake_due-wake_at due when u h)

wake_due-first : (when : ℕ) (u : Udp) → u.wake_due ≡ none → (wake_at when u).wake_due ≡ some when
unfolding wake_at is_sooner
wake_due-first when u h = ground arith

wake_at-recv : (when : ℕ) (u : Udp) → (wake_at when u).thread_recv_queue ≡ u.thread_recv_queue
unfolding wake_at
wake_at-recv when u = ground arith

wake_at_all-recv :
    (whens : List ℕ) (u : Udp) → (wake_at_all whens u).thread_recv_queue ≡ u.thread_recv_queue
wake_at_all-recv [] u = refl
wake_at_all-recv (when ∷ whens) u = wake_at_all-recv whens (wake_at when u) ∙ wake_at-recv when u

fire_wake-at :
    (now due : ℕ) (u : Udp)
    → u.wake_due ≡ some due
    → ((fire_wake now u).wake_due ≡ (if ltb now due then some due else none))
      × ((fire_wake now u).thread_recv_queue ≡ (
          if ltb now due then u.thread_recv_queue else u.thread_recv_queue ++ (Item.wakeup ∷ [])))
unfolding fire_wake is_early
fire_wake-at now due u h = ground arith

-- With no timed work asked for yet, and for every run of `wake_at` calls: `_fire_wake` at a time
-- before the earliest of the times asked for changes neither the timer, which stands at that
-- earliest time, nor what the reader has; at any later time it puts exactly one Wakeup behind what
-- the reader has, and clears the timer.
pub fire_wake-wake_at_all :
    (now when : ℕ) (whens : List ℕ) (u : Udp)
    → u.wake_due ≡ none
    → ((fire_wake now (wake_at_all (when ∷ whens) u)).wake_due
        ≡ (if ltb now (earliest when whens) then some (earliest when whens) else none))
      × ((fire_wake now (wake_at_all (when ∷ whens) u)).thread_recv_queue ≡ (
          if ltb now (earliest when whens)
          then u.thread_recv_queue
          else u.thread_recv_queue ++ (Item.wakeup ∷ [])))
fire_wake-wake_at_all now when whens u h =
    let asked = wake_at_all (when ∷ whens) u in
    let due = wake_due-wake_at_all whens when (wake_at when u) (wake_due-first when u h) in
    let same = wake_at_all-recv (when ∷ whens) u in
    let fired = fire_wake-at now (earliest when whens) asked due in
    (
      fired.0,
      fired.1 ∙ ap (λ q. if ltb now (earliest when whens) then q else q ++ (Item.wakeup ∷ [])) same,
    )
