-- ===== src/Messages/Registry.antt =====
-- The commands of atemwire/messages, each with its layout.
use bmdwire.Prelude.{
  ℕ, ◌≡◌, ◌⊎◌, inl, inr, refl, ap, ◌∙◌, Bool, true, ◌&&◌, Option, List, [], ◌∷◌, and-left,
  and-right,
}
use bmdwire.Messages.{Layout, Value}
use bmdwire.Messages.RoundTrip.{fits, is_apart, is_clear}
use bmdwire.Messages.Mask.{bits_below}
use bmdwire.Messages.Commands.{is_laid_out, has_room, IsPayload, packet_body-IsPayload}
use bmdwire.Messages.Layouts.{commands}

-- The class is one of the list.
abbrev pub IsIn : Layout → List Layout → Type 0
IsIn c [] = ⊥
IsIn c (d ∷ ds) = (c ≡ d) ⊎ IsIn c ds

unfoldable pub all_laid_out : List Layout → Bool
all_laid_out [] = true
all_laid_out (c ∷ cs) = is_laid_out c && all_laid_out cs

one_laid_out :
    (c : Layout) (cs : List Layout) → IsIn c cs → all_laid_out cs ≡ true → is_laid_out c ≡ true
unfolding all_laid_out
one_laid_out c [] m h = elim m [ ]
one_laid_out c (d ∷ ds) (inl e) h = ap is_laid_out e ∙ and-left _ _ h
one_laid_out c (d ∷ ds) (inr m) h = one_laid_out c ds m (and-right _ _ h)

commands_laid_out : all_laid_out commands ≡ true
unfolding all_laid_out is_laid_out is_apart has_room is_clear bits_below
commands_laid_out = refl

-- For each of the command classes and all values that pack into their fields: `get_command` makes a
-- payload of exactly the class's size; a reader with the same fields sees each value that was given
-- as its field shows it (for a field with a factor the value times the factor, rounded to an integer,
-- over the factor; else an integer as it is, the truth of a value, or the text of its UTF-8 bytes cut
-- to the field's size and to the first NUL, with U+FFFD for bytes that are no character); and the
-- mask in it, if the class has one, is that of the fields given.
pub commands-IsPayload :
    (c : Layout) (vs : List (Option Value))
    → IsIn c commands
    → fits c.fields vs ≡ true
    → (out : List ℕ) × IsPayload c vs out
commands-IsPayload c vs m f =
    packet_body-IsPayload c vs (one_laid_out c commands m commands_laid_out) f
