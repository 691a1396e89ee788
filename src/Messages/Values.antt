-- ===== src/Messages/Values.antt =====
-- The values of the fields (atemwire/messages/_dsl.py): what `unpack` shows of what `pack` wrote.
use mathlib.Core.Option.{some_inj}
use bmdwire.Prelude.{
  ℕ, zero, suc, ◌+◌, ◌-◌, ◌≤◌, ◌<◌, ◌≡◌, refl, sym, ◌∙◌, ap, Bool, false, not, Option, none, some,
  List, [], ◌∷◌, length, take, ltb, ltb→lt, ◌==◌, if◌then◌else◌, arith, Bool-cases, Option-cases,
  inl, inr, no_fuel, length-take_le,
}
use bmdwire.Messages.{
  Kind, Value, ℤ, pos, negsuc, number, truth, text, width, encode, decode, encoded, integer,
  is_truthy, padded, cut_nul, be16, be32, of8, of16, of32, unsigned, signed, as_signed,
}
use bmdwire.Python.Utf8.{utf8_replaced}
use bmdwire.Messages.Bytes.{length-padded}

-- What the wire shows of a value: an integer, a bool, or the text of as many bytes as the field has,
-- up to the first NUL, where U+FFFD stands for bytes that are no character.
abbrev pub shown_number : Value → Option ℤ → Value
shown_number v none = v
shown_number v (some z) = number z

unfoldable pub shown : Kind → Value → Value
shown Kind.boolean v = truth (is_truthy v)
shown (Kind.string n) v = elim (encoded v) [
  | none ↦ v
  | some bytes ↦ text (utf8_replaced (cut_nul (take n bytes)))
]
shown _ v = shown_number v (integer v)

unsigned-some :
    (limit : ℕ) (f : ℕ → List ℕ) (o : Option ℤ) (bytes : List ℕ)
    → unsigned limit f o ≡ some bytes
    → (n : ℕ) × (o ≡ some (pos n)) × (n < limit) × (f n ≡ bytes)
unsigned-some limit f none bytes e = cc
unsigned-some limit f (some (negsuc n)) bytes e = cc
unsigned-some limit f (some (pos n)) bytes e = elim (Bool-cases (ltb n limit)) [
  | inl h ↦ (n, refl, ltb→lt n limit h, some_inj.0 (sym (rw h refl) ∙ e))
  | inr h ↦ cc (h, e)
]

as_signed-pos : (half n : ℕ) → n < half → as_signed half n ≡ pos n
as_signed-pos half n h = ground arith

as_signed-negsuc : (half n : ℕ) → n < half → as_signed half (half + half - 1 - n) ≡ negsuc n
as_signed-negsuc half n h =
    let far : ltb (half + half - 1 - n) half ≡ false = ground arith in
    let back : half + half - 1 - (half + half - 1 - n) ≡ n = omega arith in rw far (ap negsuc back)

signed-some :
    (half : ℕ) (f : ℕ → List ℕ) (o : Option ℤ) (bytes : List ℕ)
    → signed half f o ≡ some bytes
    → (m : ℕ) × (o ≡ some (as_signed half m)) × (m < half + half) × (f m ≡ bytes)
signed-some half f none bytes e = cc
signed-some half f (some (pos n)) bytes e = elim (Bool-cases (ltb n half)) [
  | inl h ↦
      let small = ltb→lt n half h in
      (n, ap some (sym (as_signed-pos half n small)), omega arith, some_inj.0 (sym (rw h refl) ∙ e))
  | inr h ↦ cc (h, e)
]
signed-some half f (some (negsuc n)) bytes e = elim (Bool-cases (ltb n half)) [
  | inl h ↦
      let small = ltb→lt n half h in
      (
        half + half - 1 - n,
        ap some (sym (as_signed-negsuc half n small)),
        omega arith,
        some_inj.0 (sym (rw h refl) ∙ e),
      )
  | inr h ↦ cc (h, e)
]

of16-be16 : (n : ℕ) → of16 (be16 n) ≡ n
of16-be16 n = omega arith

of32-be32 : (n : ℕ) → of32 (be32 n) ≡ n
of32-be32 n = omega arith

cut_nul-padded :
    (n : ℕ) (bytes : List ℕ) → length bytes ≤ n → cut_nul (padded n bytes) ≡ cut_nul bytes
unfolding cut_nul padded
cut_nul-padded zero [] h = refl
cut_nul-padded zero (b ∷ bs) h = elim (no_fuel (length bs) h) [ ]
cut_nul-padded (suc n) [] h = refl
cut_nul-padded (suc n) (b ∷ bs) h = elim (Bool-cases (b == 0)) [
  | inl e ↦ rw e refl
  | inr e ↦ rw e (ap (λ l. b ∷ l) (cut_nul-padded n bs (omega arith)))
]

-- The bytes of a field as wide as it is, that show the value.
abbrev pub IsCode : Kind → Value → List ℕ → Type 0
IsCode k v bytes = (length bytes ≡ width k) × (decode k bytes ≡ shown k v)

module _ (v : Value) (bytes : List ℕ) where
  unsigned-IsCode :
      (limit : ℕ) (f : ℕ → List ℕ) (of : List ℕ → ℕ) (w : ℕ)
      → ((n : ℕ) → of (f n) ≡ n)
      → ((n : ℕ) → length (f n) ≡ w)
      → unsigned limit f (integer v) ≡ some bytes
      → (length bytes ≡ w) × (number (pos (of bytes)) ≡ shown_number v (integer v))
  unsigned-IsCode limit f of w back long e =
      let (n, whole, small, same) = unsigned-some limit f (integer v) bytes e in
      (
        ap length (sym same) ∙ long n,
        ap (λ b. number (pos (of b))) (sym same)
            ∙ ap (λ m. number (pos m)) (back n)
            ∙ sym (ap (shown_number v) whole),
      )

  signed-IsCode :
      (half : ℕ) (f : ℕ → List ℕ) (of : List ℕ → ℕ) (w : ℕ)
      → ((n : ℕ) → of (f n) ≡ n)
      → ((n : ℕ) → length (f n) ≡ w)
      → signed half f (integer v) ≡ some bytes
      → (length bytes ≡ w) × (number (as_signed half (of bytes)) ≡ shown_number v (integer v))
  signed-IsCode half f of w back long e =
      let (m, whole, small, same) = signed-some half f (integer v) bytes e in
      (
        ap length (sym same) ∙ long m,
        ap (λ b. number (as_signed half (of b))) (sym same)
            ∙ ap (λ x. number (as_signed half x)) (back m)
            ∙ sym (ap (shown_number v) whole),
      )

string-IsCode :
    (n : ℕ) (v : Value) (bytes : List ℕ)
    → encode (Kind.string n) v ≡ some bytes
    → IsCode (Kind.string n) v bytes
unfolding encode decode shown
string-IsCode n v bytes e = elim (Option-cases (encoded v)) [
  | inl f ↦ cc (f, e)
  | inr (whole, f) ↦
      let same : padded n (take n whole) ≡ bytes = some_inj.0 (sym (rw f refl) ∙ e) in
      (
        ap length (sym same) ∙ length-padded n (take n whole),
        ap (λ b. text (utf8_replaced (cut_nul b))) (sym same)
            ∙ ap (λ b. text (utf8_replaced b))
                (cut_nul-padded n (take n whole) (length-take_le n whole))
            ∙ sym (rw (f, shown) refl),
      )
]

truth-back : (b : Bool) → not ((if b then 1 else 0) == 0) ≡ b
truth-back b = ground arith

-- The same for every kind.
pub encode-IsCode :
    (k : Kind) (v : Value) (bytes : List ℕ) → encode k v ≡ some bytes → IsCode k v bytes
unfolding encode decode shown
encode-IsCode Kind.u8 v bytes e =
    unsigned-IsCode v bytes 256 (λ n. n ∷ []) of8 1 (λ n. refl) (λ n. refl) e
encode-IsCode Kind.u16 v bytes e = unsigned-IsCode v bytes 65536 be16 of16 2 of16-be16 (λ n. refl) e
encode-IsCode Kind.u32 v bytes e =
    unsigned-IsCode v bytes 4294967296 be32 of32 4 of32-be32 (λ n. refl) e
encode-IsCode Kind.i8 v bytes e =
    signed-IsCode v bytes 128 (λ n. n ∷ []) of8 1 (λ n. refl) (λ n. refl) e
encode-IsCode Kind.i16 v bytes e = signed-IsCode v bytes 32768 be16 of16 2 of16-be16 (λ n. refl) e
encode-IsCode Kind.i32 v bytes e =
    signed-IsCode v bytes 2147483648 be32 of32 4 of32-be32 (λ n. refl) e
encode-IsCode Kind.boolean v bytes e =
    let same : (if is_truthy v then 1 else 0) ∷ [] ≡ bytes = some_inj.0 e in
    (
      ap length (sym same),
      ap (λ b. truth (not (of8 b == 0))) (sym same) ∙ ap truth (truth-back (is_truthy v)),
    )
encode-IsCode (Kind.string n) v bytes e = string-IsCode n v bytes e
