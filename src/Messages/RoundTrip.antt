-- ===== src/Messages/RoundTrip.antt =====
-- `get_command` and `Recv` (atemwire/messages/_dsl.py) over a whole layout.
use mathlib.Core.Path.{subst}
use bmdwire.Prelude.{
  ℕ, ◌+◌, ◌≤◌, ◌≡◌, ◌⊎◌, refl, sym, ◌∙◌, ap, Bool, true, ◌&&◌, ◌||◌, Option, none, some, List, [],
  ◌∷◌, length, take, drop, leb, leb→le, and-left, and-right, is_some, arith, Bool-cases,
  Option-cases, inl, inr,
}
use bmdwire.Messages.{
  Field, Value, width, bytes_in, from_wire, decode, put, pack_into, pack, pack_fields, unpack,
}
use bmdwire.Messages.Bytes.{length-put, take-put, take-put_apart}
use bmdwire.Messages.Fields.{shown_in, IsCodeIn, bytes_in-IsCodeIn}

-- The bytes from `at` on, as many as `n`, lie apart from every field.
unfoldable pub is_clear : ℕ → ℕ → List Field → Bool
is_clear at n [] = true
is_clear at n (f ∷ fs) = (leb (at + n) f.at || leb (f.at + width f.kind) at) && is_clear at n fs

-- The fields lie in a payload of that size, and no two of them meet.
unfoldable pub is_apart : ℕ → List Field → Bool
is_apart size [] = true
is_apart size (f ∷ fs) =
    leb (f.at + width f.kind) size && (is_clear f.at (width f.kind) fs && is_apart size fs)

-- Each value that is given packs into its field.
unfoldable pub fits : List Field → List (Option Value) → Bool
fits (f ∷ fs) (some v ∷ vs) = is_some (bytes_in f v) && fits fs vs
fits (f ∷ fs) (none ∷ vs) = fits fs vs
fits _ _ = true

-- Each field that is given unpacks to what it shows.
abbrev pub Reads : List Field → List (Option Value) → List ℕ → Type 0
Reads (f ∷ fs) (some v ∷ vs) buf = (unpack f buf ≡ some (shown_in f v)) × Reads fs vs buf
Reads (f ∷ fs) (none ∷ vs) buf = Reads fs vs buf
Reads _ _ buf = Unit

-- What packing the fields makes of a buffer.
pub record IsPacked (fs : List Field) (vs : List (Option Value)) (buf out : List ℕ) : Type 0 where
  pub made : pack_fields fs vs buf ≡ some out
  pub long : length out ≡ length buf
  pub kept : (at n : ℕ) → is_clear at n fs ≡ true → take n (drop at out) ≡ take n (drop at buf)
  pub reads : Reads fs vs out

pub pack_into-put :
    (at : ℕ) (bytes buf : List ℕ)
    → at + length bytes ≤ length buf
    → pack_into at bytes buf ≡ some (put at bytes buf)
unfolding pack_into
pack_into-put at bytes buf h = ground arith

pub is_clear-cases :
    (at n b w : ℕ) → (leb (at + n) b || leb (b + w) at) ≡ true → (at + n ≤ b) ⊎ (b + w ≤ at)
is_clear-cases at n b w h = elim (Bool-cases (leb (at + n) b)) [
  | inl e ↦ inl (leb→le (at + n) b e)
  | inr e ↦ inr (leb→le (b + w) at (sym (rw e refl) ∙ h))
]

-- Bytes that show a value, where the field lies, unpack to it.
unpack-shown :
    (f : Field) (v : Value) (bytes out : List ℕ)
    → IsCodeIn f v bytes
    → f.at + width f.kind ≤ length out
    → take (width f.kind) (drop f.at out) ≡ bytes
    → unpack f out ≡ some (shown_in f v)
unfolding unpack
unpack-shown f v bytes out code h e =
    let inside : leb (f.at + width f.kind) (length out) ≡ true = ground arith in
    rw inside (ap (λ b. some (from_wire f (decode f.kind b))) e ∙ ap some code.1)

module _ (f : Field) (v : Value) (fs : List Field) (vs : List (Option Value))
    (buf bytes : List ℕ) where
  pack_more :
      (out : List ℕ)
      → bytes_in f v ≡ some bytes
      → f.at + width f.kind ≤ length buf
      → is_clear f.at (width f.kind) fs ≡ true
      → IsPacked fs vs (put f.at bytes buf) out
      → IsPacked (f ∷ fs) (some v ∷ vs) buf out
  unfolding pack_fields pack is_clear
  pack_more out e inside apart p =
      let code : IsCodeIn f v bytes = bytes_in-IsCodeIn f v bytes e in
      let room : f.at + length bytes ≤ length buf =
        subst (λ n. f.at + n ≤ length buf) (sym code.0) inside in
      let long : length out ≡ length buf = p.long ∙ length-put f.at bytes buf in
      record {
        made = rw (e, pack_into-put f.at bytes buf room) (p.made);
        long = long;
        kept = λ at n clear.
            p.kept at n (and-right _ _ clear)
            ∙ take-put_apart n at f.at bytes buf (
                subst (λ w. (at + n ≤ f.at) ⊎ (f.at + w ≤ at)) (sym code.0)
                  (is_clear-cases at n f.at (width f.kind) (and-left _ _ clear)));
        reads = (
          unpack-shown f v bytes out code (subst (λ n. f.at + width f.kind ≤ n) (sym long) inside) (
              p.kept f.at (width f.kind) apart
              ∙ subst (λ w. take w (drop f.at (put f.at bytes buf)) ≡ bytes) code.0
                  (take-put f.at bytes buf room)),
          p.reads,
        );
      }

skipped :
    (f : Field) (fs : List Field) (vs : List (Option Value)) (buf out : List ℕ)
    → IsPacked fs vs buf out
    → IsPacked (f ∷ fs) (none ∷ vs) buf out
unfolding pack_fields is_clear
skipped f fs vs buf out p = record {
  made = p.made;
  long = p.long;
  kept = λ at n c. p.kept at n (and-right _ _ c);
  reads = p.reads;
}

pub pack_fields-IsPacked :
    (size : ℕ) (fs : List Field) (vs : List (Option Value)) (buf : List ℕ)
    → is_apart size fs ≡ true
    → fits fs vs ≡ true
    → length buf ≡ size
    → (out : List ℕ) × IsPacked fs vs buf out
unfolding pack_fields is_apart fits
pack_fields-IsPacked size [] vs buf a h l =
    (buf, record { made = refl; long = refl; kept = λ at n c. refl; reads = tt })
pack_fields-IsPacked size (f ∷ fs) [] buf a h l =
    (buf, record { made = refl; long = refl; kept = λ at n c. refl; reads = tt })
pack_fields-IsPacked size (f ∷ fs) (none ∷ vs) buf a h l =
    let (out, p) = pack_fields-IsPacked size fs vs buf (and-right _ _ (and-right _ _ a)) h l in
    (out, skipped f fs vs buf out p)
pack_fields-IsPacked size (f ∷ fs) (some v ∷ vs) buf a h l = elim (Option-cases (bytes_in f v)) [
  | inl e ↦ let given : is_some (bytes_in f v) ≡ true = and-left _ _ h in cc (given, ap is_some e)
  | inr (bytes, e) ↦
      let rest = and-right _ _ a in
      let (out, p) =
        pack_fields-IsPacked size fs vs (put f.at bytes buf) (and-right _ _ rest) (and-right _ _ h)
          (length-put f.at bytes buf ∙ l) in
      (
        out,
        pack_more f v fs vs buf bytes out e
            (subst (λ n. f.at + width f.kind ≤ n) (sym l) (leb→le _ _ (and-left _ _ a)))
            (and-left _ _ rest) p,
      )
]
