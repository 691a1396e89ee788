-- ===== src/Imaging.antt =====
-- The decoder of stills (atemwire/imaging.py): `rle_decode`.
pub mod Headers
pub mod Words
mod Tests
use bmdwire.Prelude.{
  ℕ, zero, suc, ◌+◌, ◌-◌, ◌*◌, ◌%◌, Bool, true, false, Option, none, some, List, [], ◌∷◌, ◌++◌,
  length, take, drop, ltb, ◌==◌, if◌then◌else◌,
}

-- `_RLE_HEADER`
abbrev pub header : List ℕ
header = 0xfe ∷ 0xfe ∷ 0xfe ∷ 0xfe ∷ 0xfe ∷ 0xfe ∷ 0xfe ∷ 0xfe ∷ []

-- The text begins with the other one.
unfoldable pub begins : List ℕ → List ℕ → Bool
begins [] xs = true
begins (h ∷ hs) [] = false
begins (h ∷ hs) (x ∷ xs) = let rest = begins hs xs in if x == h then rest else false

abbrev pub shift : ℕ → Option ℕ → Option ℕ
shift n none = none
shift n (some k) = some (n + k)

-- `data.find(_RLE_HEADER)`; `none` is -1.
unfoldable pub find_first : List ℕ → Option ℕ
find_first [] = none
find_first (x ∷ xs) =
    let later = find_first xs in if begins header (x ∷ xs) then some 0 else shift 1 later

-- The loop that looks for a header on the grid of 8 bytes from the offset; positions count from the
-- offset, and the search goes on from the next place on the grid.
unfoldable pub find_aligned : ℕ → ℕ → List ℕ → Option ℕ
find_aligned zero start rest = none
find_aligned (suc fuel) start rest = elim (shift start (find_first (drop start rest))) [
  | none ↦ none
  | some h ↦
      let next = find_aligned fuel (h + 8 - h % 8) rest in if h % 8 == 0 then some h else next
]

-- `struct.unpack_from('>Q', …)`
unfoldable pub number_of : List ℕ → ℕ → ℕ
number_of [] n = n
number_of (b ∷ bs) n = number_of bs (n * 256 + b)

-- `bytes * count`. The source raises `OverflowError` or `MemoryError` for a count beyond its memory;
-- here every count has its result.
unfoldable pub repeat : ℕ → List ℕ → List ℕ
repeat zero bytes = []
repeat (suc n) bytes = bytes ++ repeat n bytes

abbrev pub prepend : List ℕ → Option (List ℕ) → Option (List ℕ)
prepend bytes none = none
prepend bytes (some rest) = some (bytes ++ rest)

-- A group of 24 bytes, and what follows it: `none` is the `struct.error` of a count that is cut off.
abbrev pub with_run : List ℕ → Option (List ℕ) → Option (List ℕ)
with_run group rest =
    if ltb (length group) 16
    then none
    else prepend (repeat (number_of (take 8 (drop 8 group)) 0) (take 8 (drop 16 group))) rest

-- The loop of `rle_decode`, from the offset on: each turn takes a byte at least.
unfoldable pub decode_rest : ℕ → List ℕ → Option (List ℕ)
decode_rest zero rest = some []
decode_rest (suc fuel) [] = some []
decode_rest (suc fuel) (x ∷ xs) = elim (find_aligned (suc (length (x ∷ xs))) 0 (x ∷ xs)) [
  | none ↦ some (x ∷ xs)
  | some h ↦
      prepend (take h (x ∷ xs))
        (with_run (drop h (x ∷ xs)) (decode_rest fuel (drop (h + 24) (x ∷ xs))))
]

-- `rle_decode`
unfoldable pub rle_decode : List ℕ → Option (List ℕ)
rle_decode bytes = decode_rest (length bytes) bytes
