-- ===== src/Python/Utf8.antt =====
-- Python's UTF-8 codec: `str.encode('utf-8')` and `bytes.decode('utf-8', errors='replace')`.
use bmdwire.Prelude.{
  ℕ, zero, suc, ◌+◌, ◌-◌, ◌*◌, ◌/◌, ◌%◌, ◌&&◌, Option, none, some, List, [], ◌∷◌, ◌++◌, ltb, leb,
  if◌then◌else◌, ◌>>=◌,
}

-- The bytes of a character. A surrogate raises `UnicodeEncodeError`.
unfoldable pub utf8_char : ℕ → Option (List ℕ)
utf8_char c =
    if ltb c 128
    then some (c ∷ [])
    else if ltb c 2048
    then some ((192 + c / 64) ∷ (128 + c % 64) ∷ [])
    else if leb 55296 c && ltb c 57344
    then none
    else if ltb c 65536
    then some ((224 + c / 4096) ∷ (128 + c / 64 % 64) ∷ (128 + c % 64) ∷ [])
    else if ltb c 1114112
    then some
        ((240 + c / 262144) ∷ (128 + c / 4096 % 64) ∷ (128 + c / 64 % 64) ∷ (128 + c % 64) ∷ [])
    else none

-- `encode('utf-8')`
unfoldable pub utf8 : List ℕ → Option (List ℕ)
utf8 [] = some []
utf8 (c ∷ cs) = utf8_char c >>= λ bytes. utf8 cs >>= λ rest. some (bytes ++ rest)

-- What the decoder waits for: the first byte of a character, or a byte within limits, after which
-- `more` bytes of the character follow, and the bits read so far.
pub data Pending : Type 0 where
  ready : Pending
  awaiting : (more low high point : ℕ) → Pending

-- U+FFFD, for bytes that are no character
abbrev pub replacement : ℕ
replacement = 65533

-- The first byte of a character: what it gives, and what is waited for.
unfoldable pub first_byte : ℕ → List ℕ × Pending
first_byte b =
    if ltb b 128
    then (b ∷ [], ready)
    else if ltb b 194
    then (replacement ∷ [], ready)
    else if ltb b 224
    then ([], awaiting 0 128 191 (b - 192))
    else if ltb b 225
    then ([], awaiting 1 160 191 0)
    else if ltb b 237
    then ([], awaiting 1 128 191 (b - 224))
    else if ltb b 238
    then ([], awaiting 1 128 159 13)
    else if ltb b 240
    then ([], awaiting 1 128 191 (b - 224))
    else if ltb b 241
    then ([], awaiting 2 144 191 0)
    else if ltb b 244
    then ([], awaiting 2 128 191 (b - 240))
    else if ltb b 245
    then ([], awaiting 2 128 143 4)
    else (replacement ∷ [], ready)

-- A byte that does not go on with the character replaces what was read of it, and begins anew.
unfoldable pub next_byte : Pending → ℕ → List ℕ × Pending
next_byte ready b = first_byte b
next_byte (awaiting more low high point) b =
    let bits = point * 64 + (b - 128) in
    let (out, pending) = first_byte b in
    if leb low b && leb b high
    then elim more [ zero ↦ (bits ∷ [], ready) | suc rest ↦ ([], awaiting rest 128 191 bits) ]
    else (replacement ∷ out, pending)

-- The decoder on the rest of the bytes; a character that the end cuts off is replaced.
unfoldable pub replaced_from : Pending → List ℕ → List ℕ
replaced_from ready [] = []
replaced_from (awaiting more low high point) [] = replacement ∷ []
replaced_from pending (b ∷ bs) =
    let (out, next) = next_byte pending b in out ++ replaced_from next bs

-- `decode('utf-8', errors='replace')`
unfoldable pub utf8_replaced : List ℕ → List ℕ
utf8_replaced bytes = replaced_from ready bytes
