-- ===== src/Python.antt =====
-- What atemwire/messages/_dsl.py uses of Python's own types: integers, finite floats with their
-- product, quotient and rounding, and the UTF-8 codec.
pub mod Utf8
pub mod Steps
pub mod Chars
pub mod Decoded
mod Tests
use bmdwire.Prelude.{
  ℕ, zero, suc, ◌+◌, ◌*◌, ◌/◌, ◌%◌, ◌^◌, Bool, true, false, not, Option, none, some, List, [], ◌∷◌,
  ltb, leb, ◌==◌, if◌then◌else◌, ◌>>=◌,
}

-- A Python integer
pub data ℤ : Type 0 where
  pos : ℕ → ℤ
  negsuc : ℕ → ℤ

-- A Python value: an integer, a bool, the finite float `float m k` of value m / 2^k, an infinity or
-- a NaN, a `str` by its code points, or a `bytes`.
pub data Value : Type 0 where
  number : ℤ → Value
  truth : Bool → Value
  float : ℤ → ℕ → Value
  not_finite : Value
  text : List ℕ → Value
  raw_bytes : List ℕ → Value

-- `if value`
abbrev pub is_truthy : Value → Bool
is_truthy (number (pos n)) = not (n == 0)
is_truthy (number (negsuc n)) = true
is_truthy (truth b) = b
is_truthy (float (pos n) k) = not (n == 0)
is_truthy (float (negsuc n) k) = true
is_truthy not_finite = true
is_truthy (text []) = false
is_truthy (text (c ∷ cs)) = true
is_truthy (raw_bytes []) = false
is_truthy (raw_bytes (b ∷ bs)) = true

abbrev pub minus : ℕ → ℤ
minus zero = pos 0
minus (suc n) = negsuc n

abbrev pub magnitude : ℤ → ℕ
magnitude (pos n) = n
magnitude (negsuc n) = suc n

-- A function of the magnitude, with the sign kept: Python rounds the two signs alike.
abbrev pub on_magnitude : (ℕ → ℕ) → ℤ → ℤ
on_magnitude f (pos n) = pos (f n)
on_magnitude f (negsuc n) = minus (f (suc n))

-- The integer nearest to n / d, and the even one of two that are as near: `round`, and the rounding
-- of IEEE 754.
unfoldable pub half_even : ℕ → ℕ → ℕ
half_even n d =
    let q = n / d in
    let r = n % d * 2 in
    if ltb r d then q else if ltb d r then q + 1 else if q % 2 == 0 then q else q + 1

-- How many binary places a double keeps of n / d, which gives it 53 significant bits. The fuel is
-- the 1074 places that the smallest double has. From 2^53 on, where a double is even coarser, none
-- is kept: no field holds such an integer.
unfoldable pub places : ℕ → ℕ → ℕ → ℕ
places zero n d = 0
places (suc fuel) n d = elim (leb (d * 4503599627370496) n) [
  | true ↦ 0
  | false ↦ suc (places fuel (n + n) d)
]

-- `int(round(value * scale))` for a factor that is a whole number. An integer times the factor is
-- exact as a double below 2^53, and no field holds a larger one. `round` of a NaN or an infinity
-- raises, and so does a text or a `bytes`, in the product or in `round`.
unfoldable pub scaled : ℕ → Value → Option ℤ
scaled scale (number z) = some (on_magnitude (λ n. n * scale) z)
scaled scale (truth b) = some (pos (if b then scale else 0))
scaled scale (float z k) = some (
    on_magnitude
      (λ n.
        let kept = places 1074 (n * scale) (2 ^ k) in
        half_even (half_even (n * scale * 2 ^ kept) (2 ^ k)) (2 ^ kept))
      z)
scaled scale not_finite = none
scaled scale (text cs) = none
scaled scale (raw_bytes bs) = none

-- `wire / scale`, as the nearest double
unfoldable pub quotient : ℕ → ℤ → Value
quotient scale z =
    let kept = places 1074 (magnitude z) scale in
    float (on_magnitude (λ n. half_even (n * 2 ^ kept) scale) z) kept
