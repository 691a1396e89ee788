-- ===== src/Transfers/Filed.antt =====
-- The queues of tasks (atemwire/protocol.py): each task stands in the queue of its store.
use mathlib.Core.Path.{subst}
use mathlib.Core.Option.{some_inj}
use bmdwire.Prelude.{
  eq→==, ℕ, ◌≡◌, refl, sym, ◌∙◌, ap, true, false, Option, none, some, List, [], ◌∷◌, ◌++◌, lookup,
  assign, lookup-assign, lookup-assign_ne, All, All-append, Bool-cases, by_test, inl, inr, ==→eq,
  ==-ne, ◌==◌, if◌then◌else◌, arith,
}
use bmdwire.Transfers.Lane.{Task, queue_of, rest_of, is_head}
use bmdwire.Transfers.Trigger.{first_queued, next_task}
use bmdwire.Transfers.Requests.{is_same, remove_task}

abbrev pub IsFor : ℕ → List Task → Type 0
IsFor k = All (λ t. t.store ≡ k)

-- One queue for each store, of tasks for that store.
abbrev pub IsFiled : List (ℕ × List Task) → Type 0
IsFiled [] = Unit
IsFiled ((k, ts) ∷ rest) = IsFor k ts × (lookup k rest ≡ none) × IsFiled rest

-- The task is the head of its store's queue.
abbrev pub IsNext : List (ℕ × List Task) → Task → Type 0
IsNext queues t = (rest : List Task) × (queue_of queues t.store ≡ t ∷ rest)

pub IsFiled-assign :
    (k : ℕ) (ts : List Task) (d : List (ℕ × List Task))
    → IsFor k ts
    → IsFiled d
    → IsFiled (assign k ts d)
unfolding assign lookup
IsFiled-assign k ts [] h f = (h, refl, tt)
IsFiled-assign k ts ((j, us) ∷ d) h (here, new, f) = elim (Bool-cases (j == k)) [
  | inl e ↦ rw e (h, ap (λ n. lookup n d) (sym (==→eq j k e)) ∙ new, f)
  | inr e ↦ rw e (
    here,
    lookup-assign_ne k j ts d (λ same. ==-ne j k e (sym same)) ∙ new,
    IsFiled-assign k ts d h f,
  )
]

pub queue_of-IsFor : (k : ℕ) (d : List (ℕ × List Task)) → IsFiled d → IsFor k (queue_of d k)
unfolding lookup
queue_of-IsFor k [] f = tt
queue_of-IsFor k ((j, us) ∷ d) (here, new, f) = elim (Bool-cases (j == k)) [
  | inl e ↦ rw (e, queue_of) (subst (λ n. IsFor n us) (==→eq j k e) here)
  | inr e ↦ rw (e, queue_of) (queue_of-IsFor k d f)
]

pub queue_of-assign :
    (k j : ℕ) (ts : List Task) (d : List (ℕ × List Task))
    → queue_of (assign k ts d) j ≡ (if k == j then ts else queue_of d j)
queue_of-assign k j ts d = ground (arith, lookup-assign k j ts d)

head-IsNext :
    (k : ℕ) (t : Task) (ts : List Task) (d : List (ℕ × List Task))
    → IsFiled d
    → queue_of d k ≡ t ∷ ts
    → IsNext d t
head-IsNext k t ts d f e =
    let same : t.store ≡ k = (subst (IsFor k) e (queue_of-IsFor k d f)).0 in
    (ts, ap (queue_of d) same ∙ e)

queue_of-here : (k : ℕ) (ts : List Task) (d : List (ℕ × List Task)) → queue_of ((k, ts) ∷ d) k ≡ ts
unfolding lookup
queue_of-here k ts d = rw (eq→== k k refl, queue_of) refl

-- An empty queue in front hides no head.
IsNext-later :
    (k : ℕ) (t : Task) (d : List (ℕ × List Task))
    → lookup k d ≡ none
    → IsNext d t
    → IsNext ((k, []) ∷ d) t
unfolding lookup
IsNext-later k t d new (rest, e) = (
  rest,
  elim (Bool-cases (k == t.store)) [
    | inl same ↦ cc (
      e,
      ap (queue_of d) (==→eq k t.store same),
      ap (λ o. elim o as (λ _. List Task) [ none ↦ [] | some tasks ↦ tasks ]) new,
    )
    | inr other ↦ rw (other, queue_of) e
  ],
)

first_queued-IsNext :
    (d : List (ℕ × List Task)) (t : Task) → IsFiled d → first_queued d ≡ some t → IsNext d t
unfolding first_queued
first_queued-IsNext [] t f e = cc
first_queued-IsNext ((k, []) ∷ d) t (here, new, f) e =
    IsNext-later k t d new (first_queued-IsNext d t f e)
first_queued-IsNext ((k, u ∷ us) ∷ d) t f e =
    head-IsNext k t us ((k, u ∷ us) ∷ d) f
      (queue_of-here k (u ∷ us) d ∙ ap (λ v. v ∷ us) (some_inj.0 e))

-- What the trigger chooses is the head of its queue.
pub next_task-IsNext :
    (k : ℕ) (d : List (ℕ × List Task)) (t : Task) → IsFiled d → next_task k d ≡ some t → IsNext d t
unfolding next_task
next_task-IsNext k d t f e = by_queue (queue_of d k) refl e
  where
    by_queue :
        (tasks : List Task)
        → queue_of d k ≡ tasks
        → elim tasks as (λ _. Option Task) [ [] ↦ first_queued d | u ∷ _ ↦ some u ] ≡ some t
        → IsNext d t
    by_queue [] at chosen = first_queued-IsNext d t f chosen
    by_queue (u ∷ us) at chosen = head-IsNext k t us d f (at ∙ ap (λ v. v ∷ us) (some_inj.0 chosen))

IsFor-rest : (k : ℕ) (ts : List Task) → IsFor k ts → IsFor k (rest_of ts)
IsFor-rest k [] h = tt
IsFor-rest k (t ∷ ts) h = h.1

-- `pop_task` and `append_task` keep the queues in order.
pub IsFiled-pop :
    (k : ℕ) (d : List (ℕ × List Task)) → IsFiled d → IsFiled (assign k (rest_of (queue_of d k)) d)
IsFiled-pop k d f = IsFiled-assign k _ d (IsFor-rest k (queue_of d k) (queue_of-IsFor k d f)) f

pub IsFiled-append :
    (t : Task) (d : List (ℕ × List Task))
    → IsFiled d
    → IsFiled (assign t.store (queue_of d t.store ++ (t ∷ [])) d)
IsFiled-append t d f =
    IsFiled-assign t.store _ d
      (All-append (λ u. u.store ≡ t.store) (queue_of d t.store) (t ∷ [])
        (queue_of-IsFor t.store d f) (refl, tt))
      f

-- A head stays one when a task is queued behind it.
pub IsNext-append :
    (t u : Task) (d : List (ℕ × List Task))
    → IsNext d t
    → IsNext (assign u.store (queue_of d u.store ++ (u ∷ [])) d) t
IsNext-append t u d (rest, e) = elim (Bool-cases (u.store == t.store)) [
  | inl same ↦ (
    rest ++ (u ∷ []),
    queue_of-assign u.store t.store _ d
        ∙ rw same (
            ap (λ n. queue_of d n ++ (u ∷ [])) (==→eq u.store t.store same)
            ∙ ap (λ q. q ++ (u ∷ [])) e),
  )
  | inr other ↦ (rest, queue_of-assign u.store t.store _ d ∙ rw other e)
]

IsFor-remove : (k : ℕ) (task : Task) (ts : List Task) → IsFor k ts → IsFor k (remove_task task ts)
unfolding remove_task
IsFor-remove k task [] h = tt
IsFor-remove k task (t ∷ ts) h = elim (Bool-cases (is_same t task)) [
  | inl e ↦ rw e (IsFor-remove k task ts h.1)
  | inr e ↦ rw e (h.0, IsFor-remove k task ts h.1)
]

pub IsFiled-remove :
    (task : Task) (d : List (ℕ × List Task))
    → IsFiled d
    → IsFiled (assign task.store (remove_task task (queue_of d task.store)) d)
IsFiled-remove task d f =
    IsFiled-assign task.store _ d
      (IsFor-remove task.store task (queue_of d task.store) (queue_of-IsFor task.store d f)) f

is_same-clear : (t task : Task) → t.clear ≡ false → task.clear ≡ true → is_same t task ≡ false
is_same-clear t task h k = ground arith

-- A head that is no clear stays one when a clear leaves its queue.
pub IsNext-remove :
    (t task : Task) (d : List (ℕ × List Task))
    → t.clear ≡ false
    → task.clear ≡ true
    → IsNext d t
    → IsNext (assign task.store (remove_task task (queue_of d task.store)) d) t
unfolding remove_task
IsNext-remove t task d h k (rest, e) = elim (Bool-cases (task.store == t.store)) [
  | inl same ↦ (
    remove_task task rest,
    queue_of-assign task.store t.store _ d
        ∙ rw same (
            ap (λ n. remove_task task (queue_of d n)) (==→eq task.store t.store same)
            ∙ ap (remove_task task) e
            ∙ rw (is_same-clear t task h k) refl),
  )
  | inr other ↦ (rest, queue_of-assign task.store t.store _ d ∙ rw other e)
]

pub IsFiled-head :
    (t : Task) (d : List (ℕ × List Task))
    → IsFiled d
    → IsFiled (
        if is_head t (queue_of d t.store)
        then assign t.store (rest_of (queue_of d t.store)) d
        else d)
IsFiled-head t d f =
    by_test IsFiled (is_head t (queue_of d t.store)) _ _ (λ _. IsFiled-pop t.store d f) (λ _. f)

pub IsFiled-open :
    (k : ℕ) (d : List (ℕ × List Task)) → IsFiled d → IsFiled (assign k (queue_of d k) d)
IsFiled-open k d f = IsFiled-assign k _ d (queue_of-IsFor k d f) f

pub IsNext-open :
    (t : Task) (k : ℕ) (d : List (ℕ × List Task))
    → IsNext d t
    → IsNext (assign k (queue_of d k) d) t
IsNext-open t k d (rest, e) = elim (Bool-cases (k == t.store)) [
  | inl same ↦
      (rest, queue_of-assign k t.store _ d ∙ rw same (ap (queue_of d) (==→eq k t.store same) ∙ e))
  | inr other ↦ (rest, queue_of-assign k t.store _ d ∙ rw other e)
]
