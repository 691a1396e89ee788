-- ===== src/Protocol/Framing.antt =====
-- `decode_packet` (atemwire/protocol.py) against the frames that `get_command`
-- (atemwire/messages/_dsl.py) makes.
use mathlib.Core.List.{append_assoc}
use bmdwire.Prelude.{
  ℕ, zero, suc, ◌+◌, ◌-◌, ◌/◌, ◌%◌, ◌≤◌, ◌<◌, ◌≡◌, ◌≢◌, ==-ne, refl, ◌∙◌, ap, false, List, [], ◌∷◌,
  ◌++◌, length, take, drop, ltb, ◌==◌, All, length-append, length-drop, arith, Bool-cases, inl, inr,
  no_fuel,
}
use bmdwire.Messages.{of16, be16}
use bmdwire.Protocol.{Wire, decode_from, decode_packet}

fewer : (d b : ℕ) (bs : List ℕ) → (d == 0) ≡ false → length (drop d (b ∷ bs)) ≤ length bs
fewer d b bs e = let some_bytes : d ≢ 0 = ==-ne d 0 e in omega (arith, length-drop d (b ∷ bs))

-- More fuel than bytes changes nothing.
decode_from-enough :
    (n m : ℕ) (rest : List ℕ)
    → length rest ≤ n
    → length rest ≤ m
    → decode_from n rest ≡ decode_from m rest
unfolding decode_from
decode_from-enough zero zero rest h k = refl
decode_from-enough zero (suc m) [] h k = refl
decode_from-enough zero (suc m) (b ∷ bs) h k = elim (no_fuel (length bs) h) [ ]
decode_from-enough (suc n) zero [] h k = refl
decode_from-enough (suc n) zero (b ∷ bs) h k = elim (no_fuel (length bs) k) [ ]
decode_from-enough (suc n) (suc m) [] h k = refl
decode_from-enough (suc n) (suc m) (b ∷ bs) h k = elim (Bool-cases (of16 (b ∷ bs) == 0)) [
  | inl e ↦ rw e refl
  | inr e ↦
      rw
        (decode_from-enough n m (drop (of16 (b ∷ bs)) (b ∷ bs))
          (omega (arith, fewer (of16 (b ∷ bs)) b bs e))
          (omega (arith, fewer (of16 (b ∷ bs)) b bs e)))
        refl
]

-- A field as a frame: the length with the header's own 8 bytes, two bytes that nobody reads, the
-- code and the contents.
unfoldable pub frame : Wire → List ℕ
frame w = be16 (length w.raw + 8) ++ (0 ∷ 0 ∷ w.code) ++ w.raw

unfoldable pub frames : List Wire → List ℕ
frames [] = []
frames (w ∷ ws) = frame w ++ frames ws

-- The field has a code of four bytes, and its length fits 16 bits.
abbrev pub IsWire : Wire → Type 0
IsWire w = (length w.code ≡ 4) × (length w.raw + 8 < 65536)

take-append : (n : ℕ) (xs ys : List ℕ) → length xs ≡ n → take n (xs ++ ys) ≡ xs
take-append zero [] ys e = refl
take-append zero (x ∷ xs) ys e = cc
take-append (suc n) [] ys e = cc
take-append (suc n) (x ∷ xs) ys e = ap (λ l. x ∷ l) (take-append n xs ys (omega arith))

drop-append : (n : ℕ) (xs ys : List ℕ) → length xs ≡ n → drop n (xs ++ ys) ≡ ys
drop-append zero [] ys e = refl
drop-append zero (x ∷ xs) ys e = cc
drop-append (suc n) [] ys e = cc
drop-append (suc n) (x ∷ xs) ys e = drop-append n xs ys (omega arith)

of16-be16 : (n : ℕ) (rest : List ℕ) → of16 (be16 n ++ rest) ≡ n
of16-be16 n rest = omega arith

length-frame : (w : Wire) → length w.code ≡ 4 → length (frame w) ≡ length w.raw + 8
unfolding frame
length-frame w h = omega (arith, length-append w.code w.raw)

-- A step of the loop, from what its slices are.
decode_step :
    (n b : ℕ) (bs code raw rest : List ℕ)
    → ltb (length (b ∷ bs)) 8 ≡ false
    → (of16 (b ∷ bs) == 0) ≡ false
    → take 4 (drop 4 (b ∷ bs)) ≡ code
    → take (of16 (b ∷ bs) - 8) (drop 8 (b ∷ bs)) ≡ raw
    → drop (of16 (b ∷ bs)) (b ∷ bs) ≡ rest
    → length rest ≤ n
    → decode_from (suc n) (b ∷ bs)
      ≡ (record { code = code; raw = raw } ∷ (decode_packet rest).0, (decode_packet rest).1)
unfolding decode_packet decode_from
decode_step n b bs code raw rest long there code_here raw_here rest_here room =
    rw
      (
        long,
        there,
        code_here,
        raw_here,
        rest_here,
        decode_from-enough n (length rest) rest room (omega arith),
      )
      refl

-- One frame in front.
pub decode_packet-frame :
    (w : Wire) (rest : List ℕ)
    → IsWire w
    → decode_packet (frame w ++ rest) ≡ (w ∷ (decode_packet rest).0, (decode_packet rest).1)
unfolding decode_packet frame
decode_packet-frame w rest (code_of_4, short) =
    let datalen = length w.raw + 8 in
    let body : List ℕ = (w.code ++ w.raw) ++ rest in
    let split : body ≡ w.code ++ (w.raw ++ rest) = append_assoc w.code w.raw rest in
    let long : length body ≡ 4 + length w.raw + length rest =
      omega (arith, length-append (w.code ++ w.raw) rest, length-append w.code w.raw) in
    let is_length : of16 (frame w ++ rest) ≡ datalen = omega arith in
    decode_step (suc (suc (suc (length body)))) (datalen / 256) (datalen % 256 ∷ 0 ∷ 0 ∷ body)
      w.code w.raw rest (ground (arith, long)) (ground (arith, is_length))
      (ap (take 4) split ∙ take-append 4 w.code (w.raw ++ rest) code_of_4)
      (ap (λ n. take (n - 8) (drop 4 body)) is_length
        ∙ ap (λ l. take (datalen - 8) (drop 4 l)) split
        ∙ ap (take (datalen - 8)) (drop-append 4 w.code (w.raw ++ rest) code_of_4)
        ∙ take-append (datalen - 8) w.raw rest (omega arith))
      (ap (λ n. drop n (frame w ++ rest)) is_length
        ∙ drop-append datalen (frame w) rest (length-frame w code_of_4))
      (omega (arith, long))

-- For every list of fields with codes of four bytes and lengths that fit 16 bits: `decode_packet` of
-- their frames, and then of any data behind them, yields those fields in order, and then what it
-- yields of the data alone, and ends as it ends there: at the end of the packet, or with the same
-- error.
pub decode_packet-frames :
    (ws : List Wire) (rest : List ℕ)
    → All IsWire ws
    → decode_packet (frames ws ++ rest) ≡ (ws ++ (decode_packet rest).0, (decode_packet rest).1)
unfolding frames
decode_packet-frames [] rest h = refl
decode_packet-frames (w ∷ ws) rest h =
    ap decode_packet (append_assoc (frame w) (frames ws) rest)
    ∙ decode_packet-frame w (frames ws ++ rest) h.0
    ∙ ap (λ r. (w ∷ r.0, r.1)) (decode_packet-frames ws rest h.1)
