-- ===== src/Python/Chars.antt =====
-- A character's UTF-8 bytes, and the decoder of `Python/Utf8` on them.
use bmdwire.Prelude.{
  ℕ, ◌+◌, ◌-◌, ◌*◌, ◌/◌, ◌%◌, ◌≤◌, ◌<◌, ◌≡◌, ◌⊎◌, ◌∙◌, ap, some, List, [], ◌∷◌, ◌++◌, ltb, arith,
  Bool-cases, inl, inr,
}
use bmdwire.Python.Utf8.{utf8_char, replaced_from, first_byte, ready, awaiting}
use bmdwire.Python.Steps.{first_byte-two, one_more, two_more, three_more, begun, ascii_char}

lt-cases : (a b : ℕ) → (a < b) ⊎ (b ≤ a)
lt-cases a b = elim (Bool-cases (ltb a b)) [
  | inl e ↦ inl (ground arith)
  | inr e ↦ inr (ground arith)
]

-- The bytes of a character, by their number
abbrev pub IsChar : ℕ → List ℕ → Type 0
IsChar c bytes =
    ((c < 128) × (bytes ≡ c ∷ []))
    ⊎ (((128 ≤ c) × (c < 2048) × (bytes ≡ (192 + c / 64) ∷ (128 + c % 64) ∷ []))
        ⊎ (((2048 ≤ c)
              × (c < 65536)
              × ((c < 55296) ⊎ (57344 ≤ c))
              × (bytes ≡ (224 + c / 4096) ∷ (128 + c / 64 % 64) ∷ (128 + c % 64) ∷ []))
            ⊎ ((65536 ≤ c)
                × (c < 1114112)
                × (bytes
                    ≡ (240 + c / 262144)
                      ∷ (128 + c / 4096 % 64)
                      ∷ (128 + c / 64 % 64)
                      ∷ (128 + c % 64)
                      ∷ []))))

above_two : (c : ℕ) (bytes : List ℕ) → 2048 ≤ c → utf8_char c ≡ some bytes → IsChar c bytes
unfolding utf8_char
above_two c bytes h e = elim (lt-cases c 65536) [
  | inr wide ↦ elim (lt-cases c 1114112) [
    | inl inside ↦ inr (inr (inr (wide, inside, ground arith)))
    | inr outside ↦ absurd (ground arith)
  ]
  | inl narrow ↦ elim (lt-cases c 55296) [
    | inl below ↦ inr (inr (inl (h, narrow, inl below, ground arith)))
    | inr above ↦ elim (lt-cases c 57344) [
      | inl surrogate ↦ absurd (ground arith)
      | inr beyond ↦ inr (inr (inl (h, narrow, inr beyond, ground arith)))
    ]
  ]
]

pub utf8_char-IsChar : (c : ℕ) (bytes : List ℕ) → utf8_char c ≡ some bytes → IsChar c bytes
unfolding utf8_char
utf8_char-IsChar c bytes e = elim (lt-cases c 128) [
  | inl one ↦ inl (one, ground arith)
  | inr many ↦ elim (lt-cases c 2048) [
    | inl two ↦ inr (inl (many, two, ground arith))
    | inr more ↦ above_two c bytes more e
  ]
]

module _ (rest : List ℕ) where
  two_bytes :
      (c : ℕ)
      → 128 ≤ c
      → c < 2048
      → replaced_from ready ((192 + c / 64) ∷ (128 + c % 64) ∷ rest) ≡ c ∷ replaced_from ready rest
  two_bytes c h k =
      let whole : (192 + c / 64 - 192) * 64 + c % 64 ≡ c = omega arith in
      begun rest (192 + c / 64) ((128 + c % 64) ∷ rest) _
        (first_byte-two (192 + c / 64) (omega arith) (omega arith))
      ∙ one_more rest 128 191 (192 + c / 64 - 192) (c % 64) (omega arith) (omega arith)
      ∙ ap (λ x. x ∷ replaced_from ready rest) whole

  three_bytes_with :
      (c low high point : ℕ)
      → first_byte (224 + c / 4096) ≡ ([], awaiting 1 low high point)
      → low ≤ 128 + c / 64 % 64
      → 128 + c / 64 % 64 ≤ high
      → point ≡ c / 4096
      → replaced_from ready ((224 + c / 4096) ∷ (128 + c / 64 % 64) ∷ (128 + c % 64) ∷ rest)
        ≡ c ∷ replaced_from ready rest
  three_bytes_with c low high point first h k e =
      let whole : (point * 64 + c / 64 % 64) * 64 + c % 64 ≡ c = omega (arith, e) in
      begun rest (224 + c / 4096) ((128 + c / 64 % 64) ∷ (128 + c % 64) ∷ rest) _ first
      ∙ two_more rest low high point (c / 64 % 64) (c % 64) h k (omega arith)
      ∙ ap (λ x. x ∷ replaced_from ready rest) whole

  three_bytes :
      (c : ℕ)
      → 2048 ≤ c
      → c < 65536
      → (c < 55296) ⊎ (57344 ≤ c)
      → replaced_from ready ((224 + c / 4096) ∷ (128 + c / 64 % 64) ∷ (128 + c % 64) ∷ rest)
        ≡ c ∷ replaced_from ready rest
  unfolding first_byte
  three_bytes c h k (inr far) =
      three_bytes_with c 128 191 (224 + c / 4096 - 224) (ground arith) (omega arith) (omega arith)
        (omega arith)
  three_bytes c h k (inl near) = elim (lt-cases c 4096) [
    | inl small ↦
        three_bytes_with c 160 191 0 (ground arith) (omega arith) (omega arith) (omega arith)
    | inr large ↦ elim (lt-cases c 53248) [
      | inl below ↦
          three_bytes_with c 128 191 (224 + c / 4096 - 224) (ground arith) (omega arith)
            (omega arith) (omega arith)
      | inr above ↦
          three_bytes_with c 128 159 13 (ground arith) (omega arith) (omega arith) (omega arith)
    ]
  ]

  four_bytes_with :
      (c low high point : ℕ)
      → first_byte (240 + c / 262144) ≡ ([], awaiting 2 low high point)
      → low ≤ 128 + c / 4096 % 64
      → 128 + c / 4096 % 64 ≤ high
      → point ≡ c / 262144
      → replaced_from ready
          ((240 + c / 262144) ∷ (128 + c / 4096 % 64) ∷ (128 + c / 64 % 64) ∷ (128 + c % 64) ∷ rest)
        ≡ c ∷ replaced_from ready rest
  four_bytes_with c low high point first h k e =
      let whole : ((point * 64 + c / 4096 % 64) * 64 + c / 64 % 64) * 64 + c % 64 ≡ c =
        omega (arith, e) in
      begun rest (240 + c / 262144)
        ((128 + c / 4096 % 64) ∷ (128 + c / 64 % 64) ∷ (128 + c % 64) ∷ rest) _ first
      ∙ three_more rest low high point (c / 4096 % 64) (c / 64 % 64) (c % 64) h k (omega arith)
          (omega arith)
      ∙ ap (λ x. x ∷ replaced_from ready rest) whole

  four_bytes :
      (c : ℕ)
      → 65536 ≤ c
      → c < 1114112
      → replaced_from ready
          ((240 + c / 262144) ∷ (128 + c / 4096 % 64) ∷ (128 + c / 64 % 64) ∷ (128 + c % 64) ∷ rest)
        ≡ c ∷ replaced_from ready rest
  unfolding first_byte
  four_bytes c h k = elim (lt-cases c 262144) [
    | inl small ↦
        four_bytes_with c 144 191 0 (ground arith) (omega arith) (omega arith) (omega arith)
    | inr large ↦ elim (lt-cases c 1048576) [
      | inl below ↦
          four_bytes_with c 128 191 (240 + c / 262144 - 240) (ground arith) (omega arith)
            (omega arith) (omega arith)
      | inr above ↦
          four_bytes_with c 128 143 4 (ground arith) (omega arith) (omega arith) (omega arith)
    ]
  ]

  -- A character, and the bytes that `encode` makes of it.
  pub char_back :
      (c : ℕ) (bytes : List ℕ)
      → IsChar c bytes
      → replaced_from ready (bytes ++ rest) ≡ c ∷ replaced_from ready rest
  char_back c bytes (inl (h, e)) = ap (λ b. replaced_from ready (b ++ rest)) e ∙ ascii_char rest c h
  char_back c bytes (inr (inl (h, k, e))) =
      ap (λ b. replaced_from ready (b ++ rest)) e ∙ two_bytes c h k
  char_back c bytes (inr (inr (inl (h, k, l, e)))) =
      ap (λ b. replaced_from ready (b ++ rest)) e ∙ three_bytes c h k l
  char_back c bytes (inr (inr (inr (h, k, e)))) =
      ap (λ b. replaced_from ready (b ++ rest)) e ∙ four_bytes c h k
