-- ===== src/Messages/Texts.antt =====
-- A text in a `string` field (atemwire/messages/_dsl.py): when it is read back as it was.
use bmdwire.Prelude.{
  ℕ, zero, suc, ◌+◌, ◌≤◌, ◌≡◌, refl, sym, ◌∙◌, ap, Bool, true, not, ◌&&◌, Option, none, some, List,
  [], ◌∷◌, ◌++◌, length, take, ◌==◌, ◌>>=◌, arith, and-left, and-right, inl, inr, Option-cases,
  Bool-cases,
}
use Prim.Native.String.{String}
use mathlib.Core.Option.{some_inj}
use bmdwire.Python.Utf8.{utf8, utf8_char, utf8_replaced}
use bmdwire.Python.Chars.{IsChar, utf8_char-IsChar}
use bmdwire.Python.Decoded.{utf8_replaced-utf8}
use bmdwire.Messages.{
  field, Kind, text, encoded, cut_nul, has_scale, pack, pack_fields, unpack, bytes_in, to_wire,
  encode,
}
use bmdwire.Messages.Values.{shown}
use bmdwire.Messages.Fields.{shown_in}
use bmdwire.Messages.RoundTrip.{is_apart, is_clear, fits, pack_fields-IsPacked}

-- No NUL is among the characters or bytes.
unfoldable pub has_no_nul : List ℕ → Bool
has_no_nul [] = true
has_no_nul (c ∷ cs) = not (c == 0) && has_no_nul cs

has_no_nul-append :
    (xs ys : List ℕ) → has_no_nul xs ≡ true → has_no_nul ys ≡ true → has_no_nul (xs ++ ys) ≡ true
unfolding has_no_nul
has_no_nul-append [] ys h k = k
has_no_nul-append (x ∷ xs) ys h k =
    let rest = has_no_nul-append xs ys (and-right _ _ h) k in
    let this : not (x == 0) ≡ true = and-left _ _ h in rw (this, rest) refl

char_has_no_nul :
    (c : ℕ) (bytes : List ℕ) → IsChar c bytes → not (c == 0) ≡ true → has_no_nul bytes ≡ true
unfolding has_no_nul
char_has_no_nul c bytes (inl (h, e)) k = ap has_no_nul e ∙ ground arith
char_has_no_nul c bytes (inr (inl (h, l, e))) k = ap has_no_nul e ∙ ground arith
char_has_no_nul c bytes (inr (inr (inl (h, l, m, e)))) k = ap has_no_nul e ∙ ground arith
char_has_no_nul c bytes (inr (inr (inr (h, l, e)))) k = ap has_no_nul e ∙ ground arith

has_no_nul-utf8 :
    (t bytes : List ℕ) → utf8 t ≡ some bytes → has_no_nul t ≡ true → has_no_nul bytes ≡ true
unfolding utf8 has_no_nul
has_no_nul-utf8 [] bytes e h = ap has_no_nul (sym (some_inj.0 e))
has_no_nul-utf8 (c ∷ cs) bytes e h = elim (Option-cases (utf8_char c)) [
  | inl none_ ↦ cc (none_, e)
  | inr (first, made) ↦ elim (Option-cases (utf8 cs)) [
    | inl none_ ↦ cc (made, none_, e)
    | inr (rest, made') ↦
        let whole : first ++ rest ≡ bytes = some_inj.0 (sym (rw (made, made') refl) ∙ e) in
        ap has_no_nul (sym whole)
        ∙ has_no_nul-append first rest
            (char_has_no_nul c first (utf8_char-IsChar c first made) (and-left _ _ h))
            (has_no_nul-utf8 cs rest made' (and-right _ _ h))
  ]
]

cut_nul-kept : (bytes : List ℕ) → has_no_nul bytes ≡ true → cut_nul bytes ≡ bytes
unfolding cut_nul has_no_nul
cut_nul-kept [] h = refl
cut_nul-kept (b ∷ bs) h = elim (Bool-cases (b == 0)) [
  | inl e ↦ cc (h, ap not e)
  | inr e ↦ rw e (ap (λ l. b ∷ l) (cut_nul-kept bs (and-right _ _ h)))
]

take-all : (n : ℕ) (xs : List ℕ) → length xs ≤ n → take n xs ≡ xs
take-all zero [] h = refl
take-all zero (x ∷ xs) h = absurd (ground arith)
take-all (suc n) [] h = refl
take-all (suc n) (x ∷ xs) h = ap (λ l. x ∷ l) (take-all n xs (omega arith))

shown-text :
    (n : ℕ) (t bytes : List ℕ)
    → utf8 t ≡ some bytes
    → length bytes ≤ n
    → has_no_nul t ≡ true
    → shown (Kind.string n) (text t) ≡ text t
unfolding shown encoded
shown-text n t bytes e h k =
    let kept : cut_nul (take n bytes) ≡ bytes =
      ap cut_nul (take-all n bytes h) ∙ cut_nul-kept bytes (has_no_nul-utf8 t bytes e k) in
    rw (e, shown) (ap (λ b. text (utf8_replaced b)) kept ∙ ap text (utf8_replaced-utf8 t bytes e))

-- A step that gives a value is the whole chain's.
bind-made :
    (o : Option (List ℕ)) (out : List ℕ) → (o >>= λ next. some next) ≡ some out → o ≡ some out
bind-made none out e = e
bind-made (some next) out e = e

-- For a `string` field that lies in the buffer, and a text without a NUL whose UTF-8 bytes are no
-- more than the field has: packing it and unpacking the field gives the text again.
pub pack-unpack_text :
    (name : String) (n at : ℕ) (mask_bit : Option ℕ) (t bytes buf : List ℕ)
    → utf8 t ≡ some bytes
    → length bytes ≤ n
    → has_no_nul t ≡ true
    → at + n ≤ length buf
    → (pack (field name (Kind.string n) at mask_bit 1) (text t) buf >>= λ next.
        unpack (field name (Kind.string n) at mask_bit 1) next)
      ≡ some (text t)
unfolding is_apart is_clear fits bytes_in to_wire has_scale encode encoded pack_fields shown_in
pack-unpack_text name n at mask_bit t bytes buf e h k inside =
    let f = field name (Kind.string n) at mask_bit 1 in
    let apart : is_apart (length buf) (f ∷ []) ≡ true = ground arith in
    let fitting : fits (f ∷ []) (some (text t) ∷ []) ≡ true = rw e refl in
    let (out, p) =
      pack_fields-IsPacked (length buf) (f ∷ []) (some (text t) ∷ []) buf apart fitting refl in
    let made : pack f (text t) buf ≡ some out = bind-made (pack f (text t) buf) out (p.made) in
    rw made (p.reads.0 ∙ ap some (shown-text n t bytes e h k))
