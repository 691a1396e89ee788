-- ===== src/Messages/Bytes.antt =====
-- The bytes of a field (atemwire/messages/_dsl.py): what is packed is unpacked again.
use bmdwire.Prelude.{
  ℕ, zero, suc, ◌+◌, ◌≤◌, ◌≡◌, ◌⊎◌, refl, ap, List, [], ◌∷◌, length, take, drop, arith, inl, inr,
  no_fuel,
}
use bmdwire.Messages.{overlay, put, padded}

pub length-padded : (n : ℕ) (bytes : List ℕ) → length (padded n bytes) ≡ n
unfolding padded
length-padded zero bytes = refl
length-padded (suc n) [] = omega (arith, length-padded n [])
length-padded (suc n) (b ∷ bs) = omega (arith, length-padded n bs)

pub length-overlay : (bytes buf : List ℕ) → length (overlay bytes buf) ≡ length buf
length-overlay [] buf = refl
length-overlay (b ∷ bs) [] = refl
length-overlay (b ∷ bs) (x ∷ xs) = omega (arith, length-overlay bs xs)

pub length-put : (at : ℕ) (bytes buf : List ℕ) → length (put at bytes buf) ≡ length buf
length-put zero bytes buf = length-overlay bytes buf
length-put (suc n) bytes [] = refl
length-put (suc n) bytes (x ∷ xs) = omega (arith, length-put n bytes xs)

take-overlay :
    (bytes buf : List ℕ)
    → length bytes ≤ length buf
    → take (length bytes) (overlay bytes buf) ≡ bytes
take-overlay [] buf h = refl
take-overlay (b ∷ bs) [] h = elim (no_fuel (length bs) h) [ ]
take-overlay (b ∷ bs) (x ∷ xs) h = ap (λ l. b ∷ l) (take-overlay bs xs (omega arith))

-- What was put is read back.
pub take-put :
    (at : ℕ) (bytes buf : List ℕ)
    → at + length bytes ≤ length buf
    → take (length bytes) (drop at (put at bytes buf)) ≡ bytes
take-put zero bytes buf h = take-overlay bytes buf (omega arith)
take-put (suc n) bytes [] h = elim (no_fuel (n + length bytes) (omega arith)) [ ]
take-put (suc n) bytes (x ∷ xs) h = take-put n bytes xs (omega arith)

take-put_later : (n at : ℕ) (bytes buf : List ℕ) → n ≤ at → take n (put at bytes buf) ≡ take n buf
take-put_later zero at bytes buf h = refl
take-put_later (suc n) zero bytes buf h = elim (no_fuel n h) [ ]
take-put_later (suc n) (suc at) bytes [] h = refl
take-put_later (suc n) (suc at) bytes (x ∷ xs) h =
    ap (λ l. x ∷ l) (take-put_later n at bytes xs (omega arith))

drop-overlay :
    (n : ℕ) (bytes buf : List ℕ) → length bytes ≤ n → drop n (overlay bytes buf) ≡ drop n buf
drop-overlay n [] buf h = refl
drop-overlay zero (b ∷ bs) buf h = elim (no_fuel (length bs) h) [ ]
drop-overlay (suc n) (b ∷ bs) [] h = refl
drop-overlay (suc n) (b ∷ bs) (x ∷ xs) h = drop-overlay n bs xs (omega arith)

drop-put :
    (n at : ℕ) (bytes buf : List ℕ) → at + length bytes ≤ n → drop n (put at bytes buf) ≡ drop n buf
drop-put n zero bytes buf h = drop-overlay n bytes buf (omega arith)
drop-put zero (suc at) bytes buf h = elim (no_fuel (at + length bytes) (omega arith)) [ ]
drop-put (suc n) (suc at) bytes [] h = refl
drop-put (suc n) (suc at) bytes (x ∷ xs) h = drop-put n at bytes xs (omega arith)

-- What lies before or behind the bytes that are put is left.
pub take-put_apart :
    (n from at : ℕ) (bytes buf : List ℕ)
    → (from + n ≤ at) ⊎ (at + length bytes ≤ from)
    → take n (drop from (put at bytes buf)) ≡ take n (drop from buf)
take-put_apart n from at bytes buf (inr h) = ap (take n) (drop-put from at bytes buf h)
take-put_apart n zero at bytes buf (inl h) = take-put_later n at bytes buf (omega arith)
take-put_apart n (suc from) zero bytes buf (inl h) = elim (no_fuel (from + n) (omega arith)) [ ]
take-put_apart n (suc from) (suc at) bytes [] (inl h) = refl
take-put_apart n (suc from) (suc at) bytes (x ∷ xs) (inl h) =
    take-put_apart n from at bytes xs (inl (omega arith))
