-- ===== src/Messages/Received.antt =====
-- `Recv` (atemwire/messages/_dsl.py): the fields of a payload.
use bmdwire.Prelude.{
  ℕ, ◌+◌, ◌≡◌, refl, ◌∙◌, ap, true, ◌&&◌, Option, none, some, is_some, List, [], ◌∷◌, length, leb,
  max, map, ◌>>=◌, arith,
}
use bmdwire.Messages.{Field, Layout, Value, width, unpack, unpack_all, packet_body}
use bmdwire.Messages.Fields.{shown_in}
use bmdwire.Messages.RoundTrip.{Reads, fits}
use bmdwire.Messages.Commands.{is_laid_out, packet_body-IsPayload}

-- How far the fields reach.
unfoldable pub reach : List Field → ℕ
reach [] = 0
reach (f ∷ fs) = max (f.at + width f.kind) (reach fs)

unpack-is_some :
    (f : Field) (raw : List ℕ) → is_some (unpack f raw) ≡ leb (f.at + width f.kind) (length raw)
unfolding unpack
unpack-is_some f raw = ground arith

is_some-bind :
    (o : Option Value) (p : Option (List Value))
    → is_some (o >>= λ v. p >>= λ vs. some (v ∷ vs)) ≡ (is_some o && is_some p)
is_some-bind none p = refl
is_some-bind (some v) none = refl
is_some-bind (some v) (some vs) = refl

leb-max : (a b n : ℕ) → (leb a n && leb b n) ≡ leb (max a b) n
leb-max a b n = ground arith

-- For every class and payload: reading the fields raises `struct.error` exactly when the payload is
-- shorter than its fields reach.
pub unpack_all-is_some :
    (fs : List Field) (raw : List ℕ) → is_some (unpack_all fs raw) ≡ leb (reach fs) (length raw)
unfolding unpack_all reach
unpack_all-is_some [] raw = ground arith
unpack_all-is_some (f ∷ fs) raw =
    is_some-bind (unpack f raw) (unpack_all fs raw)
    ∙ ap (λ b. b && is_some (unpack_all fs raw)) (unpack-is_some f raw)
    ∙ ap (λ b. leb (f.at + width f.kind) (length raw) && b) (unpack_all-is_some fs raw)
    ∙ leb-max (f.at + width f.kind) (reach fs) (length raw)

-- What a reader sees of all the values
unfoldable pub shown_all : List Field → List Value → List Value
shown_all (f ∷ fs) (v ∷ vs) = shown_in f v ∷ shown_all fs vs
shown_all _ _ = []

Reads-unpack_all :
    (fs : List Field) (vs : List Value) (out : List ℕ)
    → length fs ≡ length vs
    → Reads fs (map some vs) out
    → unpack_all fs out ≡ some (shown_all fs vs)
unfolding unpack_all shown_all
Reads-unpack_all [] [] out l r = refl
Reads-unpack_all [] (v ∷ vs) out l r = cc
Reads-unpack_all (f ∷ fs) [] out l r = cc
Reads-unpack_all (f ∷ fs) (v ∷ vs) out l r =
    rw (r.0, Reads-unpack_all fs vs out (omega arith) r.1) refl

-- For a class whose fields and mask have bytes of their own, with every field given a value that
-- packs into it: reading the payload of `get_command` with the same fields gives for each value what
-- a reader of its field sees: for a field with a factor the value times the factor, rounded to an
-- integer, over the factor; else an integer as it is, the truth of a value, or the text of its UTF-8
-- bytes cut to the field's size and to the first NUL, with U+FFFD for bytes that are no character.
pub unpack_all-packet_body :
    (c : Layout) (vs : List Value)
    → is_laid_out c ≡ true
    → fits c.fields (map some vs) ≡ true
    → length c.fields ≡ length vs
    → (packet_body c (map some vs) >>= λ out. unpack_all c.fields out)
      ≡ some (shown_all c.fields vs)
unpack_all-packet_body c vs laid_out f l =
    let (out, p) = packet_body-IsPayload c (map some vs) laid_out f in
    rw p.made (Reads-unpack_all c.fields vs out l p.reads)
