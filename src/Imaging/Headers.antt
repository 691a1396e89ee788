-- ===== src/Imaging/Headers.antt =====
-- The search for a header of `rle_decode` (atemwire/imaging.py): the first on the grid of 8 bytes.
use mathlib.Core.Option.{some_inj}
use bmdwire.Prelude.{
  ℕ, zero, suc, ◌+◌, ◌-◌, ◌%◌, ◌<◌, ◌≡◌, ◌≢◌, ◌⊎◌, ==→eq, ==-ne, drop_all, refl, sym, ◌∙◌, ap, true,
  false, Option, none, some, List, [], ◌∷◌, length, drop, ◌==◌, if◌then◌else◌, Bool-cases,
  Option-cases, inl, inr, arith, drop-drop, drop_none,
}
use bmdwire.Imaging.{header, begins, shift, find_first, find_aligned}

-- The first header on the grid, byte by byte: the number counts the bytes to the grid's next place.
unfoldable pub grid : ℕ → List ℕ → Option ℕ
grid p [] = none
grid zero (x ∷ xs) =
    let later = grid 7 xs in if begins header (x ∷ xs) then some 0 else shift 1 later
grid (suc p) (x ∷ xs) = shift 1 (grid p xs)

pub shift-shift : (n m : ℕ) (o : Option ℕ) → shift n (shift m o) ≡ shift (n + m) o
shift-shift n m none = refl
shift-shift n m (some k) = ap some (omega arith)

pub shift-zero : (o : Option ℕ) → shift 0 o ≡ o
shift-zero none = refl
shift-zero (some k) = ap some (omega arith)

-- Between two places of the grid nothing is looked at.
pub grid-skip : (p : ℕ) (xs : List ℕ) → grid p xs ≡ shift p (grid 0 (drop p xs))
unfolding grid
grid-skip zero xs = sym (shift-zero (grid 0 xs))
grid-skip (suc p) [] = refl
grid-skip (suc p) (x ∷ xs) =
    ap (shift 1) (grid-skip p xs)
    ∙ shift-shift 1 p (grid 0 (drop p xs))
    ∙ ap (λ n. shift n (grid 0 (drop p xs))) (omega arith)

first-none :
    (x : ℕ) (xs : List ℕ)
    → find_first (x ∷ xs) ≡ none
    → (begins header (x ∷ xs) ≡ false) × (find_first xs ≡ none)
unfolding find_first
first-none x xs e = elim (Bool-cases (begins header (x ∷ xs))) [
  | inl b ↦ cc (e, ap (λ t. if t then some 0 else shift 1 (find_first xs)) b)
  | inr b ↦ (
    b,
    later (find_first xs) (sym (ap (λ t. if t then some 0 else shift 1 (find_first xs)) b) ∙ e),
  )
]
  where
    later : (o : Option ℕ) → shift 1 o ≡ none → o ≡ none
    later none e = refl
    later (some k) e = cc

first-some :
    (x h : ℕ) (xs : List ℕ)
    → find_first (x ∷ xs) ≡ some h
    → ((begins header (x ∷ xs) ≡ true) × (h ≡ 0))
      ⊎ ((begins header (x ∷ xs) ≡ false) × ((k : ℕ) × (find_first xs ≡ some k) × (h ≡ suc k)))
unfolding find_first
first-some x h xs e = elim (Bool-cases (begins header (x ∷ xs))) [
  | inl b ↦ inl (b, some_inj.0 (sym e ∙ ap (λ t. if t then some 0 else shift 1 (find_first xs)) b))
  | inr b ↦ inr (
    b,
    later (find_first xs) (sym (ap (λ t. if t then some 0 else shift 1 (find_first xs)) b) ∙ e),
  )
]
  where
    later : (o : Option ℕ) → shift 1 o ≡ some h → (k : ℕ) × (o ≡ some k) × (h ≡ suc k)
    later none e = cc
    later (some k) e = (k, refl, sym (some_inj.0 e) ∙ omega arith)

-- No header behind means none on the grid.
grid-none : (p : ℕ) (xs : List ℕ) → find_first xs ≡ none → grid p xs ≡ none
unfolding grid
grid-none p [] e = refl
grid-none zero (x ∷ xs) e =
    let rest = first-none x xs e in
    ap (λ t. if t then some 0 else shift 1 (grid 7 xs)) rest.0
    ∙ ap (shift 1) (grid-none 7 xs rest.1)
grid-none (suc p) (x ∷ xs) e = ap (shift 1) (grid-none p xs (first-none x xs e).1)

-- The bytes from a position to the grid's next place.
unfoldable to_grid : ℕ → ℕ → ℕ
to_grid p zero = p
to_grid zero (suc h) = to_grid 7 h
to_grid (suc p) (suc h) = to_grid p h

abbrev grid_from : ℕ → List ℕ → Option ℕ
grid_from n xs = shift n (grid 0 (drop n xs))

step : (k n x : ℕ) (xs : List ℕ) → n ≡ suc k → shift 1 (grid_from k xs) ≡ grid_from n (x ∷ xs)
step k n x xs e =
    shift-shift 1 k (grid 0 (drop k xs))
    ∙ ap (λ m. shift m (grid 0 (drop k xs))) (omega arith)
    ∙ ap (λ m. grid_from m (x ∷ xs)) (sym e)

grid-behind :
    (p k x : ℕ) (xs : List ℕ)
    → begins header (x ∷ xs) ≡ false
    → ((q : ℕ) → grid q xs ≡ grid_from (k + to_grid q k) xs)
    → grid p (x ∷ xs) ≡ grid_from (suc k + to_grid p (suc k)) (x ∷ xs)
unfolding grid to_grid
grid-behind zero k x xs b later =
    ap (λ t. if t then some 0 else shift 1 (grid 7 xs)) b
    ∙ ap (shift 1) (later 7)
    ∙ step (k + to_grid 7 k) (suc k + to_grid 7 k) x xs (omega arith)
grid-behind (suc p) k x xs b later =
    ap (shift 1) (later p) ∙ step (k + to_grid p k) (suc k + to_grid p k) x xs (omega arith)

-- The first header on the grid is not before the first header.
grid-some :
    (p h : ℕ) (xs : List ℕ) → find_first xs ≡ some h → grid p xs ≡ grid_from (h + to_grid p h) xs
unfolding grid to_grid
grid-some p h [] e =
    sym (ap (λ l. shift (h + to_grid p h) (grid 0 l)) (drop_none (h + to_grid p h)))
grid-some p h (x ∷ xs) e = elim (first-some x h xs e) [
  | inl (b, here) ↦
      grid-skip p (x ∷ xs) ∙ ap (λ n. grid_from n (x ∷ xs)) (sym (rw here (omega arith)))
  | inr (b, (k, found, there)) ↦
      grid-behind p k x xs b (λ q. grid-some q k xs found)
      ∙ ap (λ n. grid_from (n + to_grid p n) (x ∷ xs)) (sym there)
]

-- From the grid itself.
to_grid-mod : (p h : ℕ) → p < 8 → (h + to_grid p h) % 8 ≡ p % 8
unfolding to_grid
to_grid-mod p zero l = ap (λ n. n % 8) (omega arith)
to_grid-mod zero (suc h) l = let rest = to_grid-mod 7 h (omega arith) in omega arith
to_grid-mod (suc p) (suc h) l = let rest = to_grid-mod p h (omega arith) in omega arith

to_grid-lt : (p h : ℕ) → p < 8 → to_grid p h < 8
unfolding to_grid
to_grid-lt p zero l = l
to_grid-lt zero (suc h) l = to_grid-lt 7 h (omega arith)
to_grid-lt (suc p) (suc h) l = to_grid-lt p h (omega arith)

nothing_found : (h : ℕ) → find_first [] ≡ some h → ⊥
unfolding find_first
nothing_found h e = cc

found-begins : (h : ℕ) (xs : List ℕ) → find_first xs ≡ some h → grid 0 (drop h xs) ≡ some 0
unfolding grid
found-begins h [] e = elim (nothing_found h e) [ ]
found-begins h (x ∷ xs) e = elim (first-some x h xs e) [
  | inl (b, here) ↦ rw here (ap (λ t. if t then some 0 else shift 1 (grid 7 xs)) b)
  | inr (b, (k, found, there)) ↦ rw there (found-begins k xs found)
]

grid_nil : (n : ℕ) → shift n (grid 0 []) ≡ none
unfolding grid
grid_nil n = refl

found-lt : (h : ℕ) (xs : List ℕ) → find_first xs ≡ some h → h < length xs
found-lt h [] e = elim (nothing_found h e) [ ]
found-lt h (x ∷ xs) e = elim (first-some x h xs e) [
  | inl (b, here) ↦ omega arith
  | inr (b, (k, found, there)) ↦ omega (arith, found-lt k xs found)
]

-- A header that is found on the grid is the first there.
on_the_grid :
    (start h : ℕ) (rest : List ℕ)
    → start % 8 ≡ 0
    → find_first (drop start rest) ≡ some h
    → (start + h) % 8 ≡ 0
    → some (start + h) ≡ grid_from start rest
on_the_grid start h rest on_grid e aligned =
    let there : h + to_grid 0 h ≡ h =
      omega (arith, to_grid-mod 0 h (omega arith), to_grid-lt 0 h (omega arith)) in
    ap some (omega arith)
    ∙ sym (ap (λ o. shift start (shift h o)) (found-begins h (drop start rest) e))
    ∙ sym (ap (λ n. shift start (grid_from n (drop start rest))) there)
    ∙ sym (ap (shift start) (grid-some 0 h (drop start rest) e))

-- After one that is not, the search goes on where the grid has its next place.
off_the_grid :
    (start h : ℕ) (rest : List ℕ)
    → start % 8 ≡ 0
    → find_first (drop start rest) ≡ some h
    → (start + h) % 8 ≢ 0
    → grid_from (start + h + 8 - (start + h) % 8) rest ≡ grid_from start rest
off_the_grid start h rest on_grid e unaligned =
    let t = to_grid 0 h in
    let next : start + h + 8 - (start + h) % 8 ≡ start + (h + t) =
      omega (arith, to_grid-mod 0 h (omega arith), to_grid-lt 0 h (omega arith)) in
    ap (λ n. grid_from n rest) next
    ∙ sym (ap (λ l. shift (start + (h + t)) (grid 0 l)) (drop-drop (h + t) start rest))
    ∙ sym (shift-shift start (h + t) (grid 0 (drop (h + t) (drop start rest))))
    ∙ sym (ap (shift start) (grid-some 0 h (drop start rest) e))

-- The loop that looks for a header finds the first one on the grid.
pub find_aligned-grid :
    (fuel start : ℕ) (rest : List ℕ)
    → start % 8 ≡ 0
    → length rest < start + fuel
    → find_aligned fuel start rest ≡ grid_from start rest
unfolding find_aligned
find_aligned-grid zero start rest on_grid enough =
    sym (ap (λ l. shift start (grid 0 l)) (drop_all start rest (omega arith)) ∙ grid_nil start)
find_aligned-grid (suc fuel) start rest on_grid enough =
    elim (Option-cases (find_first (drop start rest))) [
      | inl e ↦ rw (e, find_aligned) (sym (ap (shift start) (grid-none 0 (drop start rest) e)))
      | inr (h, e) ↦ elim (Bool-cases ((start + h) % 8 == 0)) [
        | inl aligned ↦
            rw (e, aligned, find_aligned)
              (on_the_grid start h rest on_grid e (==→eq ((start + h) % 8) 0 aligned))
        | inr unaligned ↦
            let odd : (start + h) % 8 ≢ 0 = ==-ne ((start + h) % 8) 0 unaligned in
            rw (e, unaligned, find_aligned)
              (find_aligned-grid fuel (start + h + 8 - (start + h) % 8) rest (omega arith)
                  (omega arith)
                ∙ off_the_grid start h rest on_grid e odd)
      ]
    ]
