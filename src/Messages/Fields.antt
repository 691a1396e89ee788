-- ===== src/Messages/Fields.antt =====
-- The fields (atemwire/messages/_dsl.py): what `unpack` shows of what `pack` wrote, with the factor of
-- a scaled field.
use bmdwire.Prelude.{
  ℕ, ◌≡◌, refl, sym, ◌∙◌, true, none, some, List, length, Bool-cases, Option-cases, inl, inr,
  and-left, if◌then◌else◌,
}
use bmdwire.Python.{scaled, quotient}
use bmdwire.Messages.{
  Field, Kind, Value, ℤ, number, width, is_numeric, has_scale, to_wire, from_wire, bytes_in, decode,
}
use bmdwire.Messages.Values.{shown, encode-IsCode}

-- What a reader of the field sees of a value: for a field with a factor, the value times the factor,
-- rounded to an integer, over the factor again.
unfoldable pub shown_in : Field → Value → Value
shown_in f v =
    if has_scale f
    then elim (scaled f.scale v) [ none ↦ v | some wire ↦ quotient f.scale wire ]
    else shown f.kind v

-- The bytes of a field as wide as it is, that a reader of the field sees as the value.
abbrev pub IsCodeIn : Field → Value → List ℕ → Type 0
IsCodeIn f v bytes =
    (length bytes ≡ width f.kind) × (from_wire f (decode f.kind bytes) ≡ shown_in f v)

number-shown : (k : Kind) (z : ℤ) → is_numeric k ≡ true → shown k (number z) ≡ number z
unfolding shown
number-shown Kind.u8 z h = refl
number-shown Kind.u16 z h = refl
number-shown Kind.u32 z h = refl
number-shown Kind.i8 z h = refl
number-shown Kind.i16 z h = refl
number-shown Kind.i32 z h = refl
number-shown Kind.boolean z h = cc
number-shown (Kind.string n) z h = cc

has_scale-is_numeric : (f : Field) → has_scale f ≡ true → is_numeric f.kind ≡ true
unfolding has_scale
has_scale-is_numeric f h = and-left _ _ h

-- For every field and every value that it packs: the bytes are as many as the field is wide, and a
-- reader of the field sees in them, where the field has a factor, the value times the factor, rounded
-- to an integer, over the factor; else an integer as it is, the truth of a value, or the text of its
-- UTF-8 bytes cut to the field's size and to the first NUL, with U+FFFD for bytes that are no
-- character.
pub bytes_in-IsCodeIn :
    (f : Field) (v : Value) (bytes : List ℕ) → bytes_in f v ≡ some bytes → IsCodeIn f v bytes
unfolding bytes_in to_wire from_wire shown_in
bytes_in-IsCodeIn f v bytes e = elim (Bool-cases (has_scale f)) [
  | inr plain ↦
      let (long, code) = encode-IsCode f.kind v bytes (sym (rw plain refl) ∙ e) in
      (long, rw plain code)
  | inl factor ↦ elim (Option-cases (scaled f.scale v)) [
    | inl f' ↦ cc (factor, f', e)
    | inr (z, f') ↦
        let (long, code) = encode-IsCode f.kind (number z) bytes (sym (rw (factor, f') refl) ∙ e) in
        (long, rw (factor, f', code, number-shown f.kind z (has_scale-is_numeric f factor)) refl)
  ]
]
