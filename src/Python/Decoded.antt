-- ===== src/Python/Decoded.antt =====
-- The UTF-8 codec of `Python/Utf8`: what `encode` wrote, `decode` reads.
use mathlib.Core.Option.{some_inj}
use bmdwire.Prelude.{ℕ, ◌≡◌, refl, sym, ◌∙◌, ap, some, List, [], ◌∷◌, ◌++◌, Option-cases, inl, inr}
use bmdwire.Python.Utf8.{utf8, utf8_char, utf8_replaced, replaced_from, ready}
use bmdwire.Python.Chars.{utf8_char-IsChar, char_back}

-- For every text that has a UTF-8 form: decoding it gives the text.
pub utf8_replaced-utf8 : (t bytes : List ℕ) → utf8 t ≡ some bytes → utf8_replaced bytes ≡ t
unfolding utf8 utf8_replaced replaced_from
utf8_replaced-utf8 [] bytes e = ap (λ b. replaced_from ready b) (sym (some_inj.0 e))
utf8_replaced-utf8 (c ∷ cs) bytes e = elim (Option-cases (utf8_char c)) [
  | inl none_ ↦ cc (none_, e)
  | inr (first, made) ↦ elim (Option-cases (utf8 cs)) [
    | inl none_ ↦ cc (made, none_, e)
    | inr (rest, made') ↦
        let whole : first ++ rest ≡ bytes = some_inj.0 (sym (rw (made, made') refl) ∙ e) in
        ap (λ b. replaced_from ready b) (sym whole)
        ∙ char_back rest c first (utf8_char-IsChar c first made)
        ∙ ap (λ x. c ∷ x) (utf8_replaced-utf8 cs rest made')
  ]
]
