-- ===== src/Python/Steps.antt =====
-- The UTF-8 decoder of `Python/Utf8` on the bytes of a character.
use bmdwire.Prelude.{
  ℕ, suc, ◌+◌, ◌-◌, ◌*◌, ◌≤◌, ◌<◌, ◌≡◌, refl, ◌∙◌, ap, List, [], ◌∷◌, ◌++◌, ltb, if◌then◌else◌,
  arith,
}
use bmdwire.Python.Utf8.{replaced_from, next_byte, first_byte, Pending, ready, awaiting}

pub first_byte-two : (b : ℕ) → 194 ≤ b → b < 224 → first_byte b ≡ ([], awaiting 0 128 191 (b - 192))
unfolding first_byte
first_byte-two b h k = ground arith

-- The first byte of three: the limits of the second keep out what has a shorter form, and the
-- surrogates.
abbrev second_of_three : ℕ → Pending
second_of_three b =
    if ltb b 225
    then awaiting 1 160 191 0
    else if ltb b 237
    then awaiting 1 128 191 (b - 224)
    else if ltb b 238
    then awaiting 1 128 159 13
    else awaiting 1 128 191 (b - 224)

first_byte-three : (b : ℕ) → 224 ≤ b → b < 240 → first_byte b ≡ ([], second_of_three b)
unfolding first_byte
first_byte-three b h k = ground arith

next_byte-last :
    (low high point b : ℕ)
    → low ≤ b
    → b ≤ high
    → next_byte (awaiting 0 low high point) b ≡ ((point * 64 + (b - 128)) ∷ [], ready)
unfolding next_byte
next_byte-last low high point b h k = ground arith

next_byte-more :
    (more low high point b : ℕ)
    → low ≤ b
    → b ≤ high
    → next_byte (awaiting (suc more) low high point) b
      ≡ ([], awaiting more 128 191 (point * 64 + (b - 128)))
unfolding next_byte
next_byte-more more low high point b h k = ground arith

-- A byte within the limits
replaced_from-step :
    (pending : Pending) (b : ℕ) (bs out : List ℕ) (next : Pending)
    → next_byte pending b ≡ (out, next)
    → replaced_from pending (b ∷ bs) ≡ out ++ replaced_from next bs
unfolding replaced_from
replaced_from-step pending b bs out next e = rw e refl

-- The bytes after the first of a character
module _ (rest : List ℕ) where
  pub one_more :
      (low high point r : ℕ)
      → low ≤ 128 + r
      → 128 + r ≤ high
      → replaced_from (awaiting 0 low high point) ((128 + r) ∷ rest)
        ≡ (point * 64 + r) ∷ replaced_from ready rest
  one_more low high point r h k =
      let same : point * 64 + (128 + r - 128) ≡ point * 64 + r = omega arith in
      replaced_from-step (awaiting 0 low high point) (128 + r) rest _ ready
        (next_byte-last low high point (128 + r) h k)
      ∙ ap (λ c. c ∷ replaced_from ready rest) same

  more_bytes :
      (bs : List ℕ) (low high point more q : ℕ)
      → low ≤ 128 + q
      → 128 + q ≤ high
      → replaced_from (awaiting (suc more) low high point) ((128 + q) ∷ bs)
        ≡ replaced_from (awaiting more 128 191 (point * 64 + q)) bs
  more_bytes bs low high point more q h k =
      let same : point * 64 + (128 + q - 128) ≡ point * 64 + q = omega arith in
      replaced_from-step (awaiting (suc more) low high point) (128 + q) bs [] _
        (next_byte-more more low high point (128 + q) h k)
      ∙ ap (λ p. replaced_from (awaiting more 128 191 p) bs) same

  pub two_more :
      (low high point q r : ℕ)
      → low ≤ 128 + q
      → 128 + q ≤ high
      → r < 64
      → replaced_from (awaiting 1 low high point) ((128 + q) ∷ (128 + r) ∷ rest)
        ≡ ((point * 64 + q) * 64 + r) ∷ replaced_from ready rest
  two_more low high point q r h k l =
      more_bytes ((128 + r) ∷ rest) low high point 0 q h k
      ∙ one_more 128 191 (point * 64 + q) r (omega arith) (omega arith)

  pub three_more :
      (low high point p q r : ℕ)
      → low ≤ 128 + p
      → 128 + p ≤ high
      → q < 64
      → r < 64
      → replaced_from (awaiting 2 low high point) ((128 + p) ∷ (128 + q) ∷ (128 + r) ∷ rest)
        ≡ (((point * 64 + p) * 64 + q) * 64 + r) ∷ replaced_from ready rest
  three_more low high point p q r h k l m =
      more_bytes ((128 + q) ∷ (128 + r) ∷ rest) low high point 1 p h k
      ∙ two_more 128 191 (point * 64 + p) q r (omega arith) (omega arith) m

  -- The first byte, and what follows it.
  pub begun :
      (b : ℕ) (bs : List ℕ) (pending : Pending)
      → first_byte b ≡ ([], pending)
      → replaced_from ready (b ∷ bs) ≡ replaced_from pending bs
  unfolding next_byte
  begun b bs pending e = replaced_from-step ready b bs [] pending e

  pub ascii_char : (c : ℕ) → c < 128 → replaced_from ready (c ∷ rest) ≡ c ∷ replaced_from ready rest
  unfolding next_byte first_byte
  ascii_char c h =
      let plain : first_byte c ≡ (c ∷ [], ready) = ground arith in
      replaced_from-step ready c rest (c ∷ []) ready plain
