-- ===== src/Imaging/Words.antt =====
-- `rle_decode` (atemwire/imaging.py) against the format read word by word.
use mathlib.Core.Path.{subst}
use mathlib.Core.List.{append_assoc}
use bmdwire.Prelude.{
  ℕ, zero, suc, ◌+◌, ◌≤◌, ◌≡◌, refl, sym, ◌∙◌, ap, true, false, Option, none, some, List, [], ◌∷◌,
  ◌++◌, length, take, drop, if◌then◌else◌, Bool-cases, inl, inr, arith, no_fuel, drop-drop,
  length-drop, take-append-drop,
}
use bmdwire.Imaging.{
  header, begins, shift, find_aligned, prepend, with_run, decode_rest, rle_decode,
}
use bmdwire.Imaging.Headers.{grid, grid-skip, shift-shift, shift-zero, find_aligned-grid}

-- The format, 8 bytes at a time: a header with its count and its word is a run, all else is literal.
unfoldable pub words : ℕ → List ℕ → Option (List ℕ)
words zero rest = some []
words (suc fuel) [] = some []
words (suc fuel) (x ∷ xs) =
    let run = words fuel (drop 24 (x ∷ xs)) in
    let literal = words fuel (drop 8 (x ∷ xs)) in
    if begins header (x ∷ xs) then with_run (x ∷ xs) run else prepend (take 8 (x ∷ xs)) literal

-- The frame that the bytes stand for
abbrev pub frame_of : List ℕ → Option (List ℕ)
frame_of bytes = words (length bytes) bytes

prepend-prepend :
    (xs ys : List ℕ) (o : Option (List ℕ)) → prepend xs (prepend ys o) ≡ prepend (xs ++ ys) o
prepend-prepend xs ys none = refl
prepend-prepend xs ys (some zs) = ap some (sym (append_assoc xs ys zs))

prepend_nil : (o : Option (List ℕ)) → prepend [] o ≡ o
prepend_nil none = refl
prepend_nil (some zs) = refl

take-take : (n m : ℕ) (xs : List ℕ) → take n xs ++ take m (drop n xs) ≡ take (n + m) xs
take-take zero m xs = ap (λ k. take k xs) (omega arith)
take-take (suc n) m [] = take_nil m ∙ sym (take_nil (suc n + m))
  where
    take_nil : (k : ℕ) → take {A = ℕ} k [] ≡ []
    take_nil zero = refl
    take_nil (suc k) = refl
take-take (suc n) m (x ∷ xs) =
    ap (λ l. x ∷ l) (take-take n m xs) ∙ ap (λ k. take k (x ∷ xs)) (suc_sum n m)
  where
    suc_sum : (a b : ℕ) → suc (a + b) ≡ suc a + b
    suc_sum a b = omega arith

length-drop_le :
    (k n : ℕ) (x : ℕ) (xs : List ℕ) → suc (length xs) ≤ suc n → length (drop (suc k) (x ∷ xs)) ≤ n
length-drop_le k n x xs h = omega (arith, length-drop (suc k) (x ∷ xs))

words-enough :
    (n m : ℕ) (rest : List ℕ) → length rest ≤ n → length rest ≤ m → words n rest ≡ words m rest
unfolding words
words-enough zero zero rest h k = refl
words-enough zero (suc m) [] h k = refl
words-enough zero (suc m) (x ∷ xs) h k = elim (no_fuel (length xs) h) [ ]
words-enough (suc n) zero [] h k = refl
words-enough (suc n) zero (x ∷ xs) h k = elim (no_fuel (length xs) k) [ ]
words-enough (suc n) (suc m) [] h k = refl
words-enough (suc n) (suc m) (x ∷ xs) h k =
    let run =
      words-enough n m (drop 24 (x ∷ xs)) (length-drop_le 23 n x xs h)
        (length-drop_le 23 m x xs k) in
    let literal =
      words-enough n m (drop 8 (x ∷ xs)) (length-drop_le 7 n x xs h) (length-drop_le 7 m x xs k) in
    ap
      (λ o.
        if begins header (x ∷ xs)
        then with_run (x ∷ xs) o
        else prepend (take 8 (x ∷ xs)) (words n (drop 8 (x ∷ xs))))
      run
    ∙ ap
        (λ o.
          if begins header (x ∷ xs)
          then with_run (x ∷ xs) (words m (drop 24 (x ∷ xs)))
          else prepend (take 8 (x ∷ xs)) o)
        literal

grid-header : (x : ℕ) (xs : List ℕ) → begins header (x ∷ xs) ≡ true → grid 0 (x ∷ xs) ≡ some 0
unfolding grid
grid-header x xs b = ap (λ t. if t then some 0 else shift 1 (grid 7 xs)) b

grid-literal :
    (x : ℕ) (xs : List ℕ)
    → begins header (x ∷ xs) ≡ false
    → grid 0 (x ∷ xs) ≡ shift 8 (grid 0 (drop 8 (x ∷ xs)))
unfolding grid
grid-literal x xs b =
    ap (λ t. if t then some 0 else shift 1 (grid 7 xs)) b
    ∙ ap (shift 1) (grid-skip 7 xs)
    ∙ shift-shift 1 7 (grid 0 (drop 7 xs))

-- What the words are up to the first header on the grid.
abbrev UpTo : ℕ → List ℕ → Option ℕ → Type 0
UpTo n rest none = words n rest ≡ some rest
UpTo n rest (some h) =
    words n rest ≡ prepend (take h rest) (with_run (drop h rest) (words n (drop (h + 24) rest)))

module _ (n x : ℕ) (xs : List ℕ) (short : length (x ∷ xs) ≤ suc n) where
  header-UpTo : begins header (x ∷ xs) ≡ true → UpTo (suc n) (x ∷ xs) (some 0)
  unfolding words
  header-UpTo b =
      let run =
        words-enough n (suc n) (drop 24 (x ∷ xs)) (length-drop_le 23 n x xs short)
          (omega (arith, length-drop_le 23 n x xs short)) in
      ap
        (λ t.
          if t
          then with_run (x ∷ xs) (words n (drop 24 (x ∷ xs)))
          else prepend (take 8 (x ∷ xs)) (words n (drop 8 (x ∷ xs))))
        b
      ∙ ap (with_run (x ∷ xs)) run
      ∙ sym (prepend_nil (with_run (x ∷ xs) (words (suc n) (drop 24 (x ∷ xs)))))

  words-literal :
      begins header (x ∷ xs) ≡ false
      → words (suc n) (x ∷ xs) ≡ prepend (take 8 (x ∷ xs)) (words n (drop 8 (x ∷ xs)))
  unfolding words
  words-literal b =
      ap
        (λ t.
          if t
          then with_run (x ∷ xs) (words n (drop 24 (x ∷ xs)))
          else prepend (take 8 (x ∷ xs)) (words n (drop 8 (x ∷ xs))))
        b

  literal-UpTo :
      (g : Option ℕ)
      → begins header (x ∷ xs) ≡ false
      → UpTo n (drop 8 (x ∷ xs)) g
      → UpTo (suc n) (x ∷ xs) (shift 8 g)
  literal-UpTo none b later =
      words-literal b ∙ ap (prepend (take 8 (x ∷ xs))) later ∙ ap some (take-append-drop 8 (x ∷ xs))
  literal-UpTo (some h) b later =
      let rest = x ∷ xs in
      let behind : drop (h + 24) (drop 8 rest) ≡ drop (8 + h + 24) rest =
        drop-drop (h + 24) 8 rest ∙ ap (λ k. drop k rest) (omega arith) in
      let left : length (drop (8 + h + 24) rest) ≤ n =
        omega (arith, length-drop (8 + h + 24) rest) in
      words-literal b
      ∙ ap (prepend (take 8 rest)) later
      ∙ prepend-prepend (take 8 rest) (take h (drop 8 rest))
          (with_run (drop h (drop 8 rest)) (words n (drop (h + 24) (drop 8 rest))))
      ∙ ap
          (λ l. prepend l (with_run (drop h (drop 8 rest)) (words n (drop (h + 24) (drop 8 rest)))))
          (take-take 8 h rest)
      ∙ ap (λ l. prepend (take (8 + h) rest) (with_run l (words n (drop (h + 24) (drop 8 rest)))))
          (drop-drop h 8 rest)
      ∙ ap (λ l. prepend (take (8 + h) rest) (with_run (drop (8 + h) rest) (words n l))) behind
      ∙ ap (λ o. prepend (take (8 + h) rest) (with_run (drop (8 + h) rest) o))
          (words-enough n (suc n) (drop (8 + h + 24) rest) left (omega arith))

words-UpTo : (n : ℕ) (rest : List ℕ) → length rest ≤ n → UpTo n rest (grid 0 rest)
unfolding grid words
words-UpTo zero [] h = refl
words-UpTo (suc n) [] h = refl
words-UpTo zero (x ∷ xs) h = elim (no_fuel (length xs) h) [ ]
words-UpTo (suc n) (x ∷ xs) h = elim (Bool-cases (begins header (x ∷ xs))) [
  | inl b ↦ subst (UpTo (suc n) (x ∷ xs)) (sym (grid-header x xs b)) (header-UpTo n x xs h b)
  | inr b ↦ subst (UpTo (suc n) (x ∷ xs)) (sym (grid-literal x xs b)) (
      literal-UpTo n x xs h (grid 0 (drop 8 (x ∷ xs))) b
        (words-UpTo n (drop 8 (x ∷ xs)) (length-drop_le 7 n x xs h)))
]

aligned-grid : (rest : List ℕ) → find_aligned (suc (length rest)) 0 rest ≡ grid 0 rest
aligned-grid rest =
    find_aligned-grid (suc (length rest)) 0 rest (omega arith) (omega arith)
    ∙ shift-zero (grid 0 rest)

decode_rest-words :
    (n m : ℕ) (rest : List ℕ)
    → length rest ≤ n
    → length rest ≤ m
    → decode_rest n rest ≡ words m rest
unfolding decode_rest words
decode_rest-words zero zero [] h k = refl
decode_rest-words zero (suc m) [] h k = refl
decode_rest-words (suc n) zero [] h k = refl
decode_rest-words (suc n) (suc m) [] h k = refl
decode_rest-words zero m (x ∷ xs) h k = elim (no_fuel (length xs) h) [ ]
decode_rest-words (suc n) m (x ∷ xs) h k =
    by_header (grid 0 (x ∷ xs)) (aligned-grid (x ∷ xs)) (words-UpTo m (x ∷ xs) k) (λ p.
      decode_rest-words n m (drop (p + 24) (x ∷ xs)) (omega (arith, length-drop (p + 24) (x ∷ xs)))
        (omega (arith, length-drop (p + 24) (x ∷ xs))))
  where
    by_header :
        (g : Option ℕ)
        → find_aligned (suc (length (x ∷ xs))) 0 (x ∷ xs) ≡ g
        → UpTo m (x ∷ xs) g
        → ((p : ℕ) → decode_rest n (drop (p + 24) (x ∷ xs)) ≡ words m (drop (p + 24) (x ∷ xs)))
        → decode_rest (suc n) (x ∷ xs) ≡ words m (x ∷ xs)
    by_header none e up later = rw (e, decode_rest) (sym up)
    by_header (some p) e up later = rw (e, decode_rest, later p) (sym up)

-- For all bytes: `rle_decode`, which finds the headers with `bytes.find` and copies the literal runs
-- whole, gives what reading the format 8 bytes at a time gives, the `struct.error` of a count that is
-- cut off included.
pub rle_decode-eq-frame_of : (bytes : List ℕ) → rle_decode bytes ≡ frame_of bytes
unfolding rle_decode
rle_decode-eq-frame_of bytes =
    decode_rest-words (length bytes) (length bytes) bytes (omega arith) (omega arith)
