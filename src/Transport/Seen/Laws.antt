-- ===== src/Transport/Seen/Laws.antt =====
-- The window holds the newest distinct numbers of the history of appends.
use mathlib.Core.Path.{ap₂}
use bmdwire.Prelude.{
  ℕ, zero, suc, ◌≤◌, ◌≡◌, refl, ap, ◌∙◌, sym, List, [], ◌∷◌, length, take, ltb, ◌==◌, remove,
  ltb→lt, length-remove_le, arith, Bool-cases, inl, inr,
}
use bmdwire.Transport.Seen.{SeenWindow, drop_oldest, append}

-- The numbers of a history, newest first, each at its newest place.
pub distinct : List ℕ → List ℕ
distinct [] = []
distinct (x ∷ history) = x ∷ remove x (distinct history)

-- The window after a history of appends, newest first.
pub window : ℕ → List ℕ → SeenWindow
window maxlen [] = record { maxlen = maxlen; seen = [] }
window maxlen (x ∷ history) = append (window maxlen history) x

drop_oldest-eq-take : (n : ℕ) (xs : List ℕ) → length xs ≡ suc n → drop_oldest xs ≡ take n xs
unfolding drop_oldest
drop_oldest-eq-take n [] h = absurd (omega arith)
drop_oldest-eq-take zero (x ∷ []) h = refl
drop_oldest-eq-take (suc n) (x ∷ []) h = absurd (omega arith)
drop_oldest-eq-take zero (x ∷ y ∷ xs) h = absurd (omega arith)
drop_oldest-eq-take (suc n) (x ∷ y ∷ xs) h =
    ap (λ r. x ∷ r) (drop_oldest-eq-take n (y ∷ xs) (omega arith))

take_all : (n : ℕ) (xs : List ℕ) → length xs ≤ n → take n xs ≡ xs
take_all zero [] h = refl
take_all (suc n) [] h = refl
take_all zero (x ∷ xs) h = absurd (omega arith)
take_all (suc n) (x ∷ xs) h = ap (λ r. x ∷ r) (take_all n xs (omega arith))

-- Removing one number from the first `n + 1` leaves at least the first `n` of the rest.
take-remove : (n k : ℕ) (xs : List ℕ) → take n (remove k (take (suc n) xs)) ≡ take n (remove k xs)
unfolding remove
take-remove zero k xs = refl
take-remove (suc n) k [] = refl
take-remove (suc n) k (x ∷ xs) = elim (Bool-cases (x == k)) [
  | inl e ↦ rw e (take-take n xs)
  | inr e ↦ rw e (ap (λ r. x ∷ r) (take-remove n k xs))
]
  where
    take-take : (m : ℕ) (ys : List ℕ) → take (suc m) (take (suc m) ys) ≡ take (suc m) ys
    take-take m [] = refl
    take-take zero (y ∷ ys) = refl
    take-take (suc m) (y ∷ ys) = ap (λ r. y ∷ r) (take-take m ys)

length-take_le : (n : ℕ) (xs : List ℕ) → length (take n xs) ≤ n
length-take_le zero xs = omega arith
length-take_le (suc n) [] = omega arith
length-take_le (suc n) (x ∷ xs) = omega (arith, length-take_le n xs)

take-cons-remove :
    (n x : ℕ) (xs : List ℕ) → take n (x ∷ remove x (take n xs)) ≡ take n (x ∷ remove x xs)
take-cons-remove zero x xs = refl
take-cons-remove (suc n) x xs = ap (λ r. x ∷ r) (take-remove n x xs)

-- One append to a window that holds the first `n` of a list.
append-take :
    (n x : ℕ) (xs : List ℕ)
    → (append (record { maxlen = n; seen = take n xs }) x).seen ≡ take n (x ∷ remove x xs)
unfolding append
append-take n x xs = elim (Bool-cases (ltb n (length full))) [
  | inl e ↦ rw e (
      drop_oldest-eq-take n full (omega (arith, bound, ltb→lt n (length full) e))
      ∙ take-cons-remove n x xs)
  | inr e ↦ rw e (sym (take_all n full (ground arith)) ∙ take-cons-remove n x xs)
]
  where
    full : List ℕ
    full = x ∷ remove x (take n xs)

    bound : length full ≤ suc n
    bound = omega (arith, length-remove_le x (take n xs), length-take_le n xs)

maxlen-window : (n : ℕ) (history : List ℕ) → (window n history).maxlen ≡ n
unfolding window append
maxlen-window n [] = refl
maxlen-window n (x ∷ history) = maxlen-window n history

-- After any history of appends the window holds the newest `maxlen` distinct numbers of it, in
-- order, newest first.
pub window-eq-take-distinct :
    (n : ℕ) (history : List ℕ) → (window n history).seen ≡ take n (distinct history)
unfolding window distinct
window-eq-take-distinct zero [] = refl
window-eq-take-distinct (suc n) [] = refl
window-eq-take-distinct n (x ∷ history) =
    ap₂ (λ m xs. (append (record { maxlen = m; seen = xs }) x).seen) (maxlen-window n history)
      (window-eq-take-distinct n history)
    ∙ append-take n x (distinct history)
