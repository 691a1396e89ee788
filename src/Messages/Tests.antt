-- ===== src/Messages/Tests.antt =====
-- The layouts of atemwire/messages at concrete values.
use bmdwire.Prelude.{
  ℕ, ◌≡◌, inl, inr, refl, false, ◌||◌, Option, none, some, is_some, List, [], ◌∷◌, length, leb, map,
  ◌>>=◌, arith,
}
use bmdwire.Python.{scaled, half_even, places}
use bmdwire.Python.Utf8.{utf8, utf8_char, utf8_replaced, replaced_from, next_byte, first_byte}
use bmdwire.Messages.Texts.{has_no_nul, pack-unpack_text}
use bmdwire.Messages.{
  pack, unpack, Field, field, Kind, Value, pos, number, truth, float, text, has_scale, to_wire,
  bytes_in, cut_nul, encoded, encode, mask_of, packet_body, unpack_all,
}
use bmdwire.Messages.Values.{shown}
use bmdwire.Messages.Fields.{IsCodeIn, bytes_in-IsCodeIn, shown_in}
use bmdwire.Messages.Mask.{has_bit, is_given, has_bit-mask_of}
use bmdwire.Messages.RoundTrip.{fits, is_apart, is_clear}
use bmdwire.Messages.Commands.{IsPayload, is_laid_out}
use bmdwire.Messages.Registry.{IsIn, commands-IsPayload}
use bmdwire.Messages.Received.{reach, unpack_all-is_some, shown_all, unpack_all-packet_body}
use bmdwire.Messages.Layouts.{commands}
use bmdwire.Messages.Layouts.ColorGenerator.{color_generator_command}
use bmdwire.Messages.Layouts.Lock.{lock_command, lock_state_field}

-- A hue of 180 and the luma 0.5, a float, of the second generator.
abbrev hue_and_luma : List (Option Value)
hue_and_luma = some (number (pos 1)) ∷ some (number (pos 180)) ∷ none ∷ some (float (pos 1) 1) ∷ []

abbrev release_of_stills : List Value
release_of_stills = number (pos 0) ∷ truth false ∷ []

abbrev hue : Field
hue = field "hue" Kind.u16 2 (some 0) 10

-- A payload of two bytes, where four are read
abbrev short : List ℕ
short = 0 ∷ 1 ∷ []

bytes_in-IsCodeIn_example : IsCodeIn hue (number (pos 12)) (0 ∷ 120 ∷ [])
unfolding bytes_in to_wire has_scale scaled encode
bytes_in-IsCodeIn_example = bytes_in-IsCodeIn hue (number (pos 12)) (0 ∷ 120 ∷ []) refl

-- "é" in a field of one byte is cut in its character, and shown as U+FFFD.
cut_text : shown_in (field "name" (Kind.string 1) 0 none 1) (text (233 ∷ [])) ≡ text (65533 ∷ [])
unfolding shown_in has_scale shown encoded utf8 utf8_char utf8_replaced replaced_from next_byte
    first_byte cut_nul
cut_text = refl

has_bit-mask_of_example :
    has_bit 2 (mask_of color_generator_command.fields hue_and_luma 0)
    ≡ (is_given 2 color_generator_command.fields hue_and_luma || has_bit 2 0)
has_bit-mask_of_example = has_bit-mask_of 2 color_generator_command.fields hue_and_luma 0

color-IsIn : IsIn color_generator_command commands
color-IsIn = inr (inr (inr (inr (inl refl))))

commands-IsPayload_example : (out : List ℕ) × IsPayload color_generator_command hue_and_luma out
unfolding fits bytes_in to_wire has_scale scaled half_even places encode
commands-IsPayload_example = commands-IsPayload color_generator_command hue_and_luma color-IsIn refl

unpack_all-is_some_example :
    is_some (unpack_all lock_state_field.fields short)
    ≡ leb (reach lock_state_field.fields) (length short)
unpack_all-is_some_example = unpack_all-is_some lock_state_field.fields short

unpack_all-packet_body_example :
    (packet_body lock_command (map some release_of_stills) >>= λ out.
    unpack_all lock_command.fields out)
    ≡ some (shown_all lock_command.fields release_of_stills)
unfolding fits bytes_in to_wire has_scale encode is_laid_out is_apart is_clear
unpack_all-packet_body_example =
    unpack_all-packet_body lock_command release_of_stills refl refl refl

-- A buffer of eight bytes, and "é" in a field of three.
abbrev old_buffer : List ℕ
old_buffer = 1 ∷ 2 ∷ 3 ∷ 4 ∷ 5 ∷ 6 ∷ 7 ∷ 8 ∷ []

pack-unpack_text_example :
    (pack (field "name" (Kind.string 3) 2 none 1) (text (233 ∷ [])) old_buffer >>= λ next.
    unpack (field "name" (Kind.string 3) 2 none 1) next)
    ≡ some (text (233 ∷ []))
unfolding utf8 utf8_char has_no_nul
pack-unpack_text_example =
    pack-unpack_text "name" 3 2 none (233 ∷ []) (195 ∷ 169 ∷ []) old_buffer refl (omega arith) refl
      (omega arith)
