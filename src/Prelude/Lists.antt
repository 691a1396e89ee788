-- ===== src/Prelude/Lists.antt =====
-- Lists measured by native numbers, and association lists keyed by numbers (Python's `dict`).
use Prim.Native.Nat.{ℕ, zero, suc, ◌+◌, ◌<◌, ◌≤◌}
use mathlib.Core.Path.{◌≡◌, refl, sym, ◌∙◌}
use mathlib.Core.Logic.{◌≢◌, ◌⊎◌, inl, inr}
use mathlib.Core.Bool.{Bool, true, false, ◌||◌}
use mathlib.Core.Option.{Option, none, some}
use mathlib.Core.List.{List, [], ◌∷◌, ◌++◌}
use native.Mathlib.Omega.{arith}
use bmdwire.Prelude.Tests.{◌==◌, if◌then◌else◌, Bool-cases, ==→eq, ==-ne}

module _ {ℓ} {A : Type ℓ} where
  abbrev pub length : List A → ℕ
  length [] = 0
  length (x ∷ xs) = suc (length xs)

  abbrev pub is_empty : List A → Bool
  is_empty [] = true
  is_empty (x ∷ xs) = false

  abbrev pub take : ℕ → List A → List A
  take zero xs = []
  take (suc n) [] = []
  take (suc n) (x ∷ xs) = x ∷ take n xs

  abbrev pub drop : ℕ → List A → List A
  drop zero xs = xs
  drop (suc n) [] = []
  drop (suc n) (x ∷ xs) = drop n xs

  pub length-append : (xs ys : List A) → length (xs ++ ys) ≡ length xs + length ys
  length-append [] ys = omega arith
  length-append (x ∷ xs) ys = omega (arith, length-append xs ys)

-- A predicate of every element.
abbrev pub All {ℓ κ} : {A : Type ℓ} → (A → Type κ) → List A → Type κ
All P [] = Unit
All P (x ∷ xs) = P x × All P xs

pub All-append {ℓ κ} :
    {A : Type ℓ} (P : A → Type κ) (xs ys : List A) → All P xs → All P ys → All P (xs ++ ys)
All-append P [] ys h k = k
All-append P (x ∷ xs) ys h k = (h.0, All-append P xs ys h.1 k)

-- `x in xs`
unfoldable pub contains : List ℕ → ℕ → Bool
contains [] k = false
contains (x ∷ xs) k = x == k || contains xs k

-- `d.pop(k, None)` where only the keys of `d` matter: its first occurrence goes.
unfoldable pub remove : ℕ → List ℕ → List ℕ
remove k [] = []
remove k (x ∷ xs) = if x == k then xs else x ∷ remove k xs

pub length-remove :
    (k : ℕ) (xs : List ℕ) → contains xs k ≡ true → length (remove k xs) + 1 ≡ length xs
unfolding contains remove
length-remove k [] h = cc
length-remove k (x ∷ xs) h = ground (arith, length-remove k xs)

pub length-remove_le : (k : ℕ) (xs : List ℕ) → length (remove k xs) ≤ length xs
unfolding remove
length-remove_le k [] = omega arith
length-remove_le k (x ∷ xs) = ground (arith, length-remove_le k xs)

pub contains-remove_ne : (k j : ℕ) (xs : List ℕ) → k ≢ j → contains (remove k xs) j ≡ contains xs j
unfolding contains remove
contains-remove_ne k j [] h = refl
contains-remove_ne k j (x ∷ xs) h = ground (arith, contains-remove_ne k j xs h)

module _ {ℓ} {V : Type ℓ} where
  -- `d.get(k)`
  unfoldable pub lookup : ℕ → List (ℕ × V) → Option V
  lookup k [] = none
  lookup k ((j, v) ∷ d) = if j == k then some v else lookup k d

  -- `d.pop(k, None)`
  unfoldable pub without : ℕ → List (ℕ × V) → List (ℕ × V)
  without k [] = []
  without k ((j, v) ∷ d) = let rest = without k d in if j == k then rest else (j, v) ∷ rest

  -- `d[k] = v`
  abbrev pub insert : ℕ → V → List (ℕ × V) → List (ℕ × V)
  insert k v d = (k, v) ∷ without k d

  pub lookup-without :
      (k j : ℕ) (d : List (ℕ × V)) → lookup j (without k d) ≡ (if k == j then none else lookup j d)
  unfolding lookup without
  lookup-without k j [] = ground arith
  lookup-without k j ((i, v) ∷ d) = ground (arith, lookup-without k j d)

  pub lookup-insert :
      (k j : ℕ) (v : V) (d : List (ℕ × V))
      → lookup j (insert k v d) ≡ (if k == j then some v else lookup j d)
  unfolding lookup
  lookup-insert k j v d = ground (arith, lookup-without k j d)

  pub lookup-insert_self :
      (k j : ℕ) (v : V) (d : List (ℕ × V)) → k ≡ j → lookup j (insert k v d) ≡ some v
  lookup-insert_self k j v d e = ground (arith, lookup-insert k j v d)

  pub lookup-insert_ne :
      (k j : ℕ) (v : V) (d : List (ℕ × V)) → k ≢ j → lookup j (insert k v d) ≡ lookup j d
  lookup-insert_ne k j v d e = ground (arith, lookup-insert k j v d)

  -- What is left after a removal was there under another key.
  pub lookup-without-some :
      (j k : ℕ) (d : List (ℕ × V)) (v : V)
      → lookup k (without j d) ≡ some v
      → (k ≢ j) × (lookup k d ≡ some v)
  lookup-without-some j k d v h =
      (λ e. ground (arith, lookup-without j k d), ground (arith, lookup-without j k d))

  -- What is found after a write is the new value, or was there under another key.
  pub lookup-insert-some :
      (j k : ℕ) (w v : V) (d : List (ℕ × V))
      → lookup k (insert j w d) ≡ some v
      → ((k ≡ j) × (v ≡ w)) ⊎ ((k ≢ j) × (lookup k d ≡ some v))
  lookup-insert-some j k w v d h = elim (Bool-cases (j == k)) [
    | inl e ↦ inl (sym (==→eq j k e), cc (h, lookup-insert_self j k w d (==→eq j k e)))
    | inr e ↦ inr (λ same. ==-ne j k e (sym same), sym (lookup-insert_ne j k w d (==-ne j k e)) ∙ h)
  ]

  pub length-without_le : (k : ℕ) (d : List (ℕ × V)) → length (without k d) ≤ length d
  unfolding without
  length-without_le k [] = omega arith
  length-without_le k ((j, v) ∷ d) = ground (arith, length-without_le k d)

  pub length-without_lt :
      (k : ℕ) (d : List (ℕ × V)) (v : V) → lookup k d ≡ some v → length (without k d) < length d
  unfolding lookup without
  length-without_lt k [] v h = cc
  length-without_lt k ((j, w) ∷ d) v h =
      ground (arith, length-without_lt k d v, length-without_le k d)

  -- `d[k] = v` where the order of the keys matters: a key that is there keeps its place.
  unfoldable pub assign : ℕ → V → List (ℕ × V) → List (ℕ × V)
  assign k v [] = (k, v) ∷ []
  assign k v ((j, w) ∷ d) = let rest = assign k v d in if j == k then (k, v) ∷ d else (j, w) ∷ rest

  pub lookup-assign :
      (k j : ℕ) (v : V) (d : List (ℕ × V))
      → lookup j (assign k v d) ≡ (if k == j then some v else lookup j d)
  unfolding lookup assign
  lookup-assign k j v [] = ground arith
  lookup-assign k j v ((i, w) ∷ d) = ground (arith, lookup-assign k j v d)

  pub lookup-assign_self : (k : ℕ) (v : V) (d : List (ℕ × V)) → lookup k (assign k v d) ≡ some v
  lookup-assign_self k v d = ground (arith, lookup-assign k k v d)

  pub lookup-assign_ne :
      (k j : ℕ) (v : V) (d : List (ℕ × V)) → k ≢ j → lookup j (assign k v d) ≡ lookup j d
  lookup-assign_ne k j v d e = ground (arith, lookup-assign k j v d)
