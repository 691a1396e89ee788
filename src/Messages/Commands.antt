-- ===== src/Messages/Commands.antt =====
-- `get_command` (atemwire/messages/_dsl.py) of a class that is laid out well, its mask included.
use mathlib.Core.Path.{subst}
use bmdwire.Prelude.{
  two_pow, ℕ, zero, suc, ◌+◌, ◌*◌, ◌≤◌, ◌<◌, ◌^◌, ◌≡◌, refl, sym, ◌∙◌, ap, Bool, true, false, ◌&&◌,
  ◌||◌, Option, none, some, List, [], ◌∷◌, length, take, drop, leb, leb→le, and-left, and-right,
  ◌>>=◌, arith, inl, inr,
}
use bmdwire.Messages.{
  Field, Kind, Layout, Value, pos, number, width, encode, decode, put, pack_into, mask_of,
  packet_body, unpack, zeros, be16, be32,
}
use bmdwire.Messages.Bytes.{length-put, take-put, take-put_apart}
use bmdwire.Messages.Values.{shown, IsCode, encode-IsCode}
use bmdwire.Messages.Mask.{bits_below, mask_of-lt}
use bmdwire.Messages.RoundTrip.{
  is_clear, is_apart, is_clear-cases, fits, Reads, pack_fields-IsPacked, pack_into-put,
}

-- A mask is one of these.
abbrev pub is_mask_type : Kind → Bool
is_mask_type Kind.u8 = true
is_mask_type Kind.u16 = true
is_mask_type Kind.u32 = true
is_mask_type _ = false

-- The mask lies in the payload, apart from the fields, and is wide enough for their bits.
unfoldable pub has_room : Layout → ℕ → Bool
has_room c at =
    leb (at + width c.mask_type) c.size
    && (is_clear at (width c.mask_type) c.fields
        && (is_mask_type c.mask_type && bits_below (8 * width c.mask_type) c.fields))

-- The fields and the mask of a class have their own bytes.
unfoldable pub is_laid_out : Layout → Bool
is_laid_out c = is_apart c.size c.fields && elim c.mask_at [ none ↦ true | some at ↦ has_room c at ]

length-zeros : (n : ℕ) → length (zeros n) ≡ n
unfolding zeros
length-zeros zero = refl
length-zeros (suc n) = omega (arith, length-zeros n)

encode-mask :
    (k : Kind) (m : ℕ)
    → is_mask_type k ≡ true
    → m < 2 ^ (8 * width k)
    → (bytes : List ℕ) × (encode k (number (pos m)) ≡ some bytes)
unfolding encode
encode-mask Kind.u8 m h b = (m ∷ [], ground arith)
encode-mask Kind.u16 m h b = (be16 m, ground arith)
encode-mask Kind.u32 m h b = (be32 m, ground arith)
encode-mask Kind.i8 m h b = cc
encode-mask Kind.i16 m h b = cc
encode-mask Kind.i32 m h b = cc
encode-mask Kind.boolean m h b = cc
encode-mask (Kind.string n) m h b = cc

mask-shown : (k : Kind) (m : ℕ) → is_mask_type k ≡ true → shown k (number (pos m)) ≡ number (pos m)
unfolding shown
mask-shown Kind.u8 m h = refl
mask-shown Kind.u16 m h = refl
mask-shown Kind.u32 m h = refl
mask-shown Kind.i8 m h = refl
mask-shown Kind.i16 m h = refl
mask-shown Kind.i32 m h = refl
mask-shown Kind.boolean m h = cc
mask-shown (Kind.string n) m h = cc

unpack-put :
    (f : Field) (at : ℕ) (bytes buf : List ℕ)
    → (leb (at + length bytes) f.at || leb (f.at + width f.kind) at) ≡ true
    → unpack f (put at bytes buf) ≡ unpack f buf
unfolding unpack
unpack-put f at bytes buf apart =
    let same : take (width f.kind) (drop f.at (put at bytes buf))
        ≡ take (width f.kind) (drop f.at buf) =
      elim (is_clear-cases at (length bytes) f.at (width f.kind) apart) [
        | inl before ↦ take-put_apart (width f.kind) f.at at bytes buf (inr before)
        | inr behind ↦ take-put_apart (width f.kind) f.at at bytes buf (inl behind)
      ] in
    rw (length-put at bytes buf, same) refl

Reads-put :
    (fs : List Field) (vs : List (Option Value)) (at : ℕ) (bytes buf : List ℕ)
    → is_clear at (length bytes) fs ≡ true
    → Reads fs vs buf
    → Reads fs vs (put at bytes buf)
unfolding is_clear
Reads-put [] vs at bytes buf c r = tt
Reads-put (f ∷ fs) [] at bytes buf c r = tt
Reads-put (f ∷ fs) (none ∷ vs) at bytes buf c r = Reads-put fs vs at bytes buf (and-right _ _ c) r
Reads-put (f ∷ fs) (some v ∷ vs) at bytes buf c r = (
  unpack-put f at bytes buf (and-left _ _ c) ∙ r.0,
  Reads-put fs vs at bytes buf (and-right _ _ c) r.1,
)

-- The mask in the payload
abbrev pub ReadsMask : Layout → List (Option Value) → Option ℕ → List ℕ → Type 0
ReadsMask c vs none out = Unit
ReadsMask c vs (some at) out =
    decode c.mask_type (take (width c.mask_type) (drop at out))
    ≡ number (pos (mask_of c.fields vs 0))

-- What `get_command` makes of the values given.
pub record IsPayload (c : Layout) (vs : List (Option Value)) (out : List ℕ) : Type 0 where
  pub made : packet_body c vs ≡ some out
  pub long : length out ≡ c.size
  pub reads : Reads c.fields vs out
  pub masked : ReadsMask c vs c.mask_at out

-- The mask, put into the fields' buffer.
with_mask :
    (c : Layout) (vs : List (Option Value)) (buf : List ℕ) (at : ℕ)
    → has_room c at ≡ true
    → length buf ≡ c.size
    → Reads c.fields vs buf
    → (out : List ℕ) × ((encode c.mask_type (number (pos (mask_of c.fields vs 0))) >>= λ bytes.
          pack_into at bytes buf)
        ≡ some out)
      × (length out ≡ c.size)
      × Reads c.fields vs out
      × ReadsMask c vs (some at) out
unfolding has_room
with_mask c vs buf at room l r =
    let rest : (is_clear at (width c.mask_type) c.fields
          && (is_mask_type c.mask_type && bits_below (8 * width c.mask_type) c.fields))
        ≡ true =
      and-right (leb (at + width c.mask_type) c.size) _ room in
    let kinds : (is_mask_type c.mask_type && bits_below (8 * width c.mask_type) c.fields) ≡ true =
      and-right (is_clear at (width c.mask_type) c.fields) _ rest in
    let typed : is_mask_type c.mask_type ≡ true = and-left _ _ kinds in
    let bits : bits_below (8 * width c.mask_type) c.fields ≡ true =
      and-right (is_mask_type c.mask_type) _ kinds in
    let clear : is_clear at (width c.mask_type) c.fields ≡ true = and-left _ _ rest in
    let below : leb (at + width c.mask_type) c.size ≡ true = and-left _ _ room in
    let mask = mask_of c.fields vs 0 in
    let small : mask < 2 ^ (8 * width c.mask_type) =
      mask_of-lt (8 * width c.mask_type) c.fields vs 0 bits (two_pow (8 * width c.mask_type)) in
    let (bytes, e) = encode-mask c.mask_type mask typed small in
    let code : IsCode c.mask_type (number (pos mask)) bytes =
      encode-IsCode c.mask_type (number (pos mask)) bytes e in
    let inside : at + width c.mask_type ≤ length buf =
      subst (λ n. at + width c.mask_type ≤ n) (sym l)
        (leb→le (at + width c.mask_type) c.size below) in
    let fitting : at + length bytes ≤ length buf =
      subst (λ n. at + n ≤ length buf) (sym code.0) inside in
    (
      put at bytes buf,
      rw (e, pack_into-put at bytes buf fitting) refl,
      length-put at bytes buf ∙ l,
      Reads-put c.fields vs at bytes buf
          (subst (λ n. is_clear at n c.fields ≡ true) (sym code.0) clear) r,
      ap (decode c.mask_type) (
            subst (λ n. take n (drop at (put at bytes buf)) ≡ bytes) code.0
              (take-put at bytes buf fitting))
          ∙ code.1
          ∙ mask-shown c.mask_type mask typed,
    )

-- The same for a class with or without a mask.
with_mask_at :
    (c : Layout) (vs : List (Option Value)) (buf : List ℕ) (o : Option ℕ)
    → elim o as (λ _. Bool) [ none ↦ true | some at ↦ has_room c at ] ≡ true
    → length buf ≡ c.size
    → Reads c.fields vs buf
    → (out : List ℕ) × (elim o as (λ _. Option (List ℕ)) [
      | none ↦ some buf
      | some at ↦ encode c.mask_type (number (pos (mask_of c.fields vs 0))) >>= λ bytes.
          pack_into at bytes buf
    ]
        ≡ some out)
      × (length out ≡ c.size)
      × Reads c.fields vs out
      × ReadsMask c vs o out
with_mask_at c vs buf none room l r = (buf, refl, l, r, tt)
with_mask_at c vs buf (some at) room l r = with_mask c vs buf at room l r

-- For a class whose fields and mask have bytes of their own, and values that pack into their fields:
-- `get_command` makes a payload of exactly the class's size; a reader with the same fields sees
-- each value that was given as its field shows it; and the mask in it, if the class has one, is the
-- one of the fields given.
pub packet_body-IsPayload :
    (c : Layout) (vs : List (Option Value))
    → is_laid_out c ≡ true
    → fits c.fields vs ≡ true
    → (out : List ℕ) × IsPayload c vs out
unfolding is_laid_out packet_body
packet_body-IsPayload c vs laid_out f =
    let apart : is_apart c.size c.fields ≡ true = and-left _ _ laid_out in
    let room : elim c.mask_at as (λ _. Bool) [ none ↦ true | some at ↦ has_room c at ] ≡ true =
      and-right (is_apart c.size c.fields) _ laid_out in
    let (buf, p) =
      pack_fields-IsPacked c.size c.fields vs (zeros c.size) apart f (length-zeros c.size) in
    let (out, made, long, reads, masked) =
      with_mask_at c vs buf c.mask_at room (p.long ∙ length-zeros c.size) p.reads in
    (out, record { made = rw p.made made; long = long; reads = reads; masked = masked })
