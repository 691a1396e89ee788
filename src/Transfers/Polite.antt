-- ===== src/Transfers/Polite.antt =====
-- What `_transfer_trigger` (atemwire/protocol.py) may send: requests for a lock that are nobody
-- else's turn, and requests of transfers for stores that are locked.
use mathlib.Core.List.{append_assoc, append-nil}
use bmdwire.Prelude.{
  ℕ, ◌≡◌, refl, sym, ◌∙◌, ap, Bool, true, false, not, ◌&&◌, Option, none, some, List, [], ◌∷◌, ◌++◌,
  lookup, assign, lookup-assign, lookup-assign_self, lookup-assign_ne, contains, All, All-append,
  Bool-cases, by_test, by_option, inl, inr, ==→eq, ==-ne, ◌==◌, arith, ltb,
}
use bmdwire.Transfers.Lane.{
  Lane, Task, Yield, Command, lock, partial_lock, clear_still, download_request, upload_request,
  file_data, transfer_ack, transfer_data, is_held, wake,
}
use bmdwire.Transfers.Waiting.{due_at, yield_due, is_asked, has_lock, give_back, end_yield}
use bmdwire.Transfers.Trigger.{lock_request, ask, request_lock, release}
use bmdwire.Transfers.Sound.{IsOurs}

-- Nobody else's turn runs.
abbrev pub is_over : ℕ → Option Yield → Option ℕ → Option ℕ → Bool
is_over now none own_release others_seen = true
is_over now (some y) own_release others_seen = not (ltb now (due_at now y own_release others_seen))

abbrev pub yield_over : ℕ → ℕ → Lane → Bool
yield_over now store l =
    is_over now (lookup store l.yielding) (lookup store l.own_release) l.others_seen

-- The store may be asked for: no other client holds it, we did not ask within the last second, and
-- no turn runs there.
abbrev pub may_ask : ℕ → ℕ → Lane → Bool
may_ask now store l =
    not (contains l.foreign_held store)
    && not (is_asked now (lookup store l.lock_requested))
    && yield_over now store l

-- A transfer may be requested for the store: none is out, and the lock is ours.
abbrev pub MayRequest : ℕ → Lane → Type 0
MayRequest store l = (l.transfer_requested ≡ false) × IsOurs l.locks store

-- What holds of the lane at which the command is decided.
abbrev pub IsPolite : ℕ → Lane → Command → Type 0
IsPolite now l (lock store true) = may_ask now store l ≡ true
IsPolite now l (lock store false) = Unit
IsPolite now l (partial_lock store slot) = may_ask now store l ≡ true
IsPolite now l (clear_still slot) = l.transfer_requested ≡ false
IsPolite now l (download_request tid store slot) = MayRequest store l
IsPolite now l (upload_request tid store slot size mode) = MayRequest store l
IsPolite now l (file_data tid t) = MayRequest t.store l
IsPolite now l (transfer_ack tid) = ⊥
IsPolite now l (transfer_data tid chunk) = ⊥

-- The second lane is the first with commands sent.
abbrev pub Sends : (Command → Type 0) → Lane → Lane → Type 0
Sends P l m = (new : List Command) × (m.sent ≡ l.sent ++ new) × All P new

module _ (P : Command → Type 0) where
  pub Sends-none : (l m : Lane) → m.sent ≡ l.sent → Sends P l m
  Sends-none l m e = ([], e ∙ sym (append-nil l.sent), tt)

  pub Sends-trans : (l m n : Lane) → Sends P l m → Sends P m n → Sends P l n
  Sends-trans l m n (first, e, h) (next, f, k) = (
    first ++ next,
    f ∙ ap (λ s. s ++ next) e ∙ append_assoc l.sent first next,
    All-append P first next h k,
  )

pub Sends-imp :
    (P Q : Command → Type 0) (l m : Lane) → ((c : Command) → P c → Q c) → Sends P l m → Sends Q l m
Sends-imp P Q l m f (new, e, h) = (new, e, each new h)
  where
    each : (cs : List Command) → All P cs → All Q cs
    each [] h = tt
    each (c ∷ cs) (h, hs) = (f c h, each cs hs)

-- What is allowed later in one trigger was allowed when it began.
pub record IsLater (now : ℕ) (l m : Lane) : Type 0 where
  pub idle : l.transfer_requested ≡ false
  pub held : (store : ℕ) → is_held m.locks store ≡ true → is_held l.locks store ≡ true
  pub asked : (store : ℕ) → may_ask now store m ≡ true → may_ask now store l ≡ true

MayRequest-later :
    (now store : ℕ) (l m : Lane) → IsLater now l m → MayRequest store m → MayRequest store l
MayRequest-later now store l m later (r, inl e) = (later.idle, inl e)
MayRequest-later now store l m later (r, inr e) = (later.idle, inr (later.held store e))

pub IsPolite-later :
    (now : ℕ) (l m : Lane) → IsLater now l m → (c : Command) → IsPolite now m c → IsPolite now l c
IsPolite-later now l m later (lock store true) h = later.asked store h
IsPolite-later now l m later (lock store false) h = tt
IsPolite-later now l m later (partial_lock store slot) h = later.asked store h
IsPolite-later now l m later (clear_still slot) h = later.idle
IsPolite-later now l m later (download_request tid store slot) h =
    MayRequest-later now store l m later h
IsPolite-later now l m later (upload_request tid store slot size mode) h =
    MayRequest-later now store l m later h
IsPolite-later now l m later (file_data tid t) h = MayRequest-later now t.store l m later h
IsPolite-later now l m later (transfer_ack tid) h = h
IsPolite-later now l m later (transfer_data tid chunk) h = h

-- The turn that a release starts is not over at once.
yield_over-fresh :
    (now : ℕ) (own_release others_seen : Option ℕ)
    → is_over now (some (record { since = now; announced = none })) own_release others_seen ≡ false
unfolding due_at
yield_over-fresh now own_release others_seen = ground arith

give_back-asked :
    (now store s : ℕ) (l : Lane)
    → may_ask now s (give_back now store l) ≡ true
    → may_ask now s l ≡ true
give_back-asked now store s l h =
    let now_open : Yield = record { since = now; announced = none } in
    elim (Bool-cases (store == s)) [
      | inl same ↦
          let fresh : yield_over now s (give_back now store l) ≡ false =
            ap (λ o. is_over now o (lookup s (assign store now l.own_release)) l.others_seen)
              (ap (λ n. lookup n (assign store now_open l.yielding)) (sym (==→eq store s same))
                ∙ lookup-assign_self store now_open l.yielding)
            ∙ yield_over-fresh now (lookup s (assign store now l.own_release)) l.others_seen in
          ground arith
      | inr other ↦
          let kept : yield_over now s (give_back now store l) ≡ yield_over now s l =
            ap (λ o. is_over now o (lookup s (assign store now l.own_release)) l.others_seen)
              (lookup-assign_ne store s now_open l.yielding (==-ne store s other))
            ∙ ap (λ r. is_over now (lookup s l.yielding) r l.others_seen)
                (lookup-assign_ne store s now l.own_release (==-ne store s other)) in
          ground arith
    ]

pub release-IsLater :
    (now store : ℕ) (l : Lane) → l.transfer_requested ≡ false → IsLater now l (release now store l)
unfolding release
release-IsLater now store l r =
    by_test (IsLater now l) (has_lock store l) (give_back now store (record l { transfer = none }))
      (record l { transfer = none })
      (λ _. record {
        idle = r;
        held = λ s e. ground (arith, lookup-assign store s false l.locks);
        asked = λ s h. give_back-asked now store s (record l { transfer = none }) h;
      })
      (λ _. record { idle = r; held = λ s e. e; asked = λ s h. h })

no_turn :
    (now store : ℕ) (l : Lane) → lookup store l.yielding ≡ none → yield_over now store l ≡ true
no_turn now store l e = ap (λ o. is_over now o (lookup store l.own_release) l.others_seen) e

turn_over :
    (now store : ℕ) (l : Lane) (y : Yield)
    → lookup store l.yielding ≡ some y
    → ltb now (yield_due now store y l) ≡ false
    → yield_over now store l ≡ true
turn_over now store l y e over =
    ap (λ o. is_over now o (lookup store l.own_release) l.others_seen) e ∙ ap not over

module _ (now : ℕ) (t : Task) where
  lock_request-IsPolite :
      (l : Lane) → may_ask now t.store l ≡ true → IsPolite now l (lock_request t)
  lock_request-IsPolite l h =
      by_test (IsPolite now l) t.clear (lock t.store true) (partial_lock t.store t.slot) (λ _. h)
        (λ _. h)

  -- What is asked of the first lane is sent by the second.
  ask-Sends :
      (l m : Lane)
      → m.sent ≡ l.sent
      → (is_asked now (lookup t.store m.lock_requested) ≡ false → may_ask now t.store l ≡ true)
      → Sends (IsPolite now l) l (ask now t m)
  ask-Sends l m e h =
      by_test (Sends (IsPolite now l) l) (is_asked now (lookup t.store m.lock_requested)) _ _
        (λ _. Sends-none (IsPolite now l) l m e)
        (λ fresh. (
          lock_request t ∷ [],
          ap (λ s. s ++ (lock_request t ∷ [])) e,
          (lock_request-IsPolite l (h fresh), tt),
        ))

  pub request_lock-Sends : (l : Lane) → Sends (IsPolite now l) l (request_lock now t l)
  unfolding request_lock
  request_lock-Sends l =
      by_test (Sends (IsPolite now l) l) (contains l.foreign_held t.store) _ _
        (λ _. Sends-none (IsPolite now l) l l refl)
        (λ free.
          by_option (Sends (IsPolite now l) l) (lookup t.store l.yielding) _ _
            (λ e. ask-Sends l l refl (λ fresh. allowed l free fresh (no_turn now t.store l e)))
            (λ y e.
              by_test (Sends (IsPolite now l) l) (ltb now (yield_due now t.store y l)) _ _
                (λ _. Sends-none (IsPolite now l) l (wake (yield_due now t.store y l) l) refl)
                (λ over.
                  ask-Sends l (end_yield t.store l) refl
                    (λ fresh. allowed l free fresh (turn_over now t.store l y e over)))))
    where
      allowed :
          (l : Lane)
          → contains l.foreign_held t.store ≡ false
          → is_asked now (lookup t.store l.lock_requested) ≡ false
          → yield_over now t.store l ≡ true
          → may_ask now t.store l ≡ true
      allowed l free fresh over = ground arith
