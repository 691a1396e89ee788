-- ===== src/Python/Tests.antt =====
-- Python's floats and its UTF-8 codec at concrete values.
use bmdwire.Prelude.{◌≡◌, refl, some, [], ◌∷◌}
use bmdwire.Python.{pos, negsuc, number, float, scaled, quotient, half_even, places}
use bmdwire.Python.Utf8.{utf8, utf8_char, utf8_replaced, replaced_from, next_byte, first_byte}

-- 12 times 10.0, and -30 times 10.0
int_scaled : scaled 10 (number (pos 12)) ≡ some (pos 120)
unfolding scaled
int_scaled = refl

negative_scaled : scaled 10 (number (negsuc 29)) ≡ some (negsuc 299)
unfolding scaled
negative_scaled = refl

-- 0.25 times 10.0 is 2.5, and rounds to 2.
half_scaled : scaled 10 (float (pos 1) 2) ≡ some (pos 2)
unfolding scaled half_even places
half_scaled = refl

-- 12.34, as a double, times 10.0 rounds to 123.
float_scaled : scaled 10 (float (pos 6946802425218990) 49) ≡ some (pos 123)
unfolding scaled half_even places
float_scaled = refl

-- 123 / 10.0 is the double 12.3.
quotient_of_123 : quotient 10 (pos 123) ≡ float (pos 6924284427082138) 49
unfolding quotient half_even places
quotient_of_123 = refl

-- The text "é€", cut in its second character
euro_cut : utf8_replaced (195 ∷ 169 ∷ 226 ∷ 130 ∷ []) ≡ (233 ∷ 65533 ∷ [])
unfolding utf8_replaced replaced_from next_byte first_byte
euro_cut = refl

-- A byte that begins no character, and a text of four bytes
bad_then_wide : utf8_replaced (128 ∷ 240 ∷ 159 ∷ 152 ∷ 128 ∷ []) ≡ (65533 ∷ 128512 ∷ [])
unfolding utf8_replaced replaced_from next_byte first_byte
bad_then_wide = refl

-- "é€" and a character of four bytes
text_encoded :
    utf8 (233 ∷ 8364 ∷ 128512 ∷ [])
    ≡ some (195 ∷ 169 ∷ 226 ∷ 130 ∷ 172 ∷ 240 ∷ 159 ∷ 152 ∷ 128 ∷ [])
unfolding utf8 utf8_char
text_encoded = refl
