-- ===== src/Messages/Mask.antt =====
-- The mask of a command (atemwire/messages/_dsl.py): which bits `get_command` sets.
use native.Mathlib.Nat.{pow-suc}
use bmdwire.Prelude.{
  ℕ, zero, suc, ◌+◌, ◌*◌, ◌/◌, ◌%◌, ◌^◌, ◌<◌, ◌≡◌, refl, sym, ◌∙◌, ap, Bool, true, false, ◌&&◌,
  ◌||◌, Option, none, some, List, [], ◌∷◌, ltb, ltb→lt, ne→==, and-left, and-right, ◌==◌,
  if◌then◌else◌, arith, no_fuel,
}
use bmdwire.Messages.{Field, Value, or_bit, mask_of}

-- The bit is set in the number.
unfoldable pub has_bit : ℕ → ℕ → Bool
has_bit zero mask = mask % 2 == 1
has_bit (suc bit) mask = has_bit bit (mask / 2)

suc-eqb : (b c : ℕ) → (suc b == suc c) ≡ (b == c)
suc-eqb b c = ground arith

half_kept : (m : ℕ) → (if m % 2 == 1 then m else m + 1) / 2 ≡ m / 2
half_kept m = ground arith

half_double : (x r : ℕ) → (x * 2 + r % 2) / 2 ≡ x
half_double x r = omega arith

-- `or_bit` sets its bit, and leaves the others.
has_bit-or_bit : (c b m : ℕ) → has_bit c (or_bit b m) ≡ (b == c) || has_bit c m
unfolding has_bit or_bit
has_bit-or_bit zero zero m = ground arith
has_bit-or_bit zero (suc b) m = ground arith
has_bit-or_bit (suc c) zero m =
    ap (has_bit c) (half_kept m) ∙ sym (rw (ne→== 0 (suc c) (omega arith)) refl)
has_bit-or_bit (suc c) (suc b) m =
    ap (has_bit c) (half_double (or_bit b (m / 2)) m)
    ∙ has_bit-or_bit c b (m / 2)
    ∙ ap (λ e. e || has_bit c (m / 2)) (sym (suc-eqb b c))

or_bit-lt : (w b m : ℕ) → b < w → m < 2 ^ w → or_bit b m < 2 ^ w
unfolding or_bit
or_bit-lt zero b m h k = elim (no_fuel b h) [ ]
or_bit-lt (suc w) zero m h k = ground (arith, pow-suc 2 w)
or_bit-lt (suc w) (suc b) m h k =
    let twice : 2 ^ suc w ≡ 2 ^ w * 2 = pow-suc 2 w in
    let small = or_bit-lt w b (m / 2) (omega arith) (omega arith) in omega arith

-- Some field that is given has the bit.
unfoldable pub is_given : ℕ → List Field → List (Option Value) → Bool
is_given bit (f ∷ fs) (some v ∷ vs) =
    elim f.mask_bit [ none ↦ false | some b ↦ b == bit ] || is_given bit fs vs
is_given bit (f ∷ fs) (none ∷ vs) = is_given bit fs vs
is_given bit _ _ = false

-- The mask bits are below the limit.
unfoldable pub bits_below : ℕ → List Field → Bool
bits_below w [] = true
bits_below w (f ∷ fs) = elim f.mask_bit [ none ↦ true | some b ↦ ltb b w ] && bits_below w fs

swap_or : (x y z : Bool) → (x || (y || z)) ≡ ((y || x) || z)
swap_or true true z = refl
swap_or true false z = refl
swap_or false true z = refl
swap_or false false z = refl

-- For every list of fields, values and bit: the mask that `get_command` writes has the bit if and
-- only if a field with that mask bit is given, or it was set before.
pub has_bit-mask_of :
    (bit : ℕ) (fs : List Field) (vs : List (Option Value)) (mask : ℕ)
    → has_bit bit (mask_of fs vs mask) ≡ (is_given bit fs vs || has_bit bit mask)
unfolding mask_of is_given
has_bit-mask_of bit [] vs mask = refl
has_bit-mask_of bit (f ∷ fs) [] mask = refl
has_bit-mask_of bit (f ∷ fs) (none ∷ vs) mask = has_bit-mask_of bit fs vs mask
has_bit-mask_of bit (f ∷ fs) (some v ∷ vs) mask = by_bit f.mask_bit (has_bit-mask_of bit fs vs)
  where
    by_bit :
        (o : Option ℕ)
        → ((m : ℕ) → has_bit bit (mask_of fs vs m) ≡ (is_given bit fs vs || has_bit bit m))
        → has_bit bit (mask_of fs vs (elim o as (λ _. ℕ) [ none ↦ mask | some b ↦ or_bit b mask ]))
          ≡ ((elim o as (λ _. Bool) [ none ↦ false | some b ↦ b == bit ] || is_given bit fs vs)
              || has_bit bit mask)
    by_bit none later = later mask
    by_bit (some b) later =
        later (or_bit b mask)
        ∙ ap (λ x. is_given bit fs vs || x) (has_bit-or_bit bit b mask)
        ∙ swap_or (is_given bit fs vs) (b == bit) (has_bit bit mask)

pub mask_of-lt :
    (w : ℕ) (fs : List Field) (vs : List (Option Value)) (mask : ℕ)
    → bits_below w fs ≡ true
    → mask < 2 ^ w
    → mask_of fs vs mask < 2 ^ w
unfolding mask_of bits_below
mask_of-lt w [] vs mask h k = k
mask_of-lt w (f ∷ fs) [] mask h k = k
mask_of-lt w (f ∷ fs) (none ∷ vs) mask h k = mask_of-lt w fs vs mask (and-right _ _ h) k
mask_of-lt w (f ∷ fs) (some v ∷ vs) mask h k =
    mask_of-lt w fs vs _ (and-right _ _ h) (by_bit f.mask_bit (and-left _ _ h))
  where
    by_bit :
        (o : Option ℕ)
        → elim o as (λ _. Bool) [ none ↦ true | some b ↦ ltb b w ] ≡ true
        → elim o as (λ _. ℕ) [ none ↦ mask | some b ↦ or_bit b mask ] < 2 ^ w
    by_bit none h = k
    by_bit (some b) h = or_bit-lt w b mask (ltb→lt b w h) k
