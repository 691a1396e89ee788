-- ===== src/Messages.antt =====
-- The declarative layouts of the messages (atemwire/messages/_dsl.py): fields, `Send.get_command` and
-- `Recv`. The values are Python's, of `Python`.
pub mod Bytes
pub mod Values
pub mod Fields
pub mod Mask
pub mod RoundTrip
pub mod Commands
pub mod Layouts
pub mod Registry
pub mod Received
pub mod Texts
mod Tests
use Prim.Native.Char.{code}
use Prim.Native.String.{String}
use bmdwire.Prelude.{
  ℕ, zero, suc, ◌+◌, ◌-◌, ◌*◌, ◌/◌, ◌%◌, ◌^◌, Bool, true, false, not, ◌&&◌, ◌||◌, Option, none,
  some, List, [], ◌∷◌, ◌++◌, length, take, drop, ltb, leb, ◌==◌, if◌then◌else◌, ◌>>=◌, guard,
  is_some,
}
pub use bmdwire.Python.{
  ℤ, pos, negsuc, Value, number, truth, float, not_finite, text, raw_bytes, is_truthy,
}
use bmdwire.Python.{scaled, quotient}
use bmdwire.Python.Utf8.{utf8, utf8_replaced}

-- The subclasses of `Field`, but `tail`.
pub data Kind : Type 0 where
  u8 u16 u32 i8 i16 i32 boolean : Kind
  string : ℕ → Kind

-- `Field`: a name, `fmt`, `at`, `mask_bit` and `scale`.
pub record Field : Type 0 where
  pub name : String
  pub kind : Kind
  pub at : ℕ
  pub mask_bit : Option ℕ
  pub scale : ℕ

-- A field's declaration
abbrev pub field : String → Kind → ℕ → Option ℕ → ℕ → Field
field name kind at mask_bit scale = record {
  name = name;
  kind = kind;
  at = at;
  mask_bit = mask_bit;
  scale = scale;
}

-- A subclass of `Send` or `Recv`: `CODE`, `SIZE`, `MASK_AT`, `MASK_TYPE` and the fields.
pub record Layout : Type 0 where
  pub code : String
  pub size : ℕ
  pub mask_at : Option ℕ
  pub mask_type : Kind
  pub fields : List Field

-- `size` of a field
abbrev pub width : Kind → ℕ
width Kind.u8 = 1
width Kind.u16 = 2
width Kind.u32 = 4
width Kind.i8 = 1
width Kind.i16 = 2
width Kind.i32 = 4
width Kind.boolean = 1
width (Kind.string n) = n

-- The big-endian bytes of `struct`, for 1, 2 and 4 of them
abbrev pub be16 : ℕ → List ℕ
be16 n = n / 256 ∷ n % 256 ∷ []

abbrev pub be32 : ℕ → List ℕ
be32 n = n / 16777216 ∷ n / 65536 % 256 ∷ n / 256 % 256 ∷ n % 256 ∷ []

-- The integer that Python's `struct` sees; a float, a text and a `bytes` are none.
abbrev pub integer : Value → Option ℤ
integer (number z) = some z
integer (truth b) = some (pos (if b then 1 else 0))
integer _ = none

-- An unsigned format with its limit; `none` is `struct.error`.
abbrev pub unsigned : ℕ → (ℕ → List ℕ) → Option ℤ → Option (List ℕ)
unsigned limit bytes none = none
unsigned limit bytes (some (pos n)) = if ltb n limit then some (bytes n) else none
unsigned limit bytes (some (negsuc n)) = none

-- A signed format, in two's complement: the limit is the half of the unsigned one.
abbrev pub signed : ℕ → (ℕ → List ℕ) → Option ℤ → Option (List ℕ)
signed half bytes none = none
signed half bytes (some (pos n)) = if ltb n half then some (bytes n) else none
signed half bytes (some (negsuc n)) =
    if ltb n half then some (bytes (half + half - 1 - n)) else none

-- `struct.pack` of the format `{n}s`: padded with NULs
unfoldable pub padded : ℕ → List ℕ → List ℕ
padded zero bytes = []
padded (suc n) [] = 0 ∷ padded n []
padded (suc n) (b ∷ bs) = b ∷ padded n bs

-- `bytearray(self.SIZE)`
unfoldable pub zeros : ℕ → List ℕ
zeros zero = []
zeros (suc n) = 0 ∷ zeros n

-- `encoded` in `string.pack`: the UTF-8 of a `str`, and `bytes(value)` of anything else, which for a
-- number is that many NULs.
unfoldable pub encoded : Value → Option (List ℕ)
encoded (text chars) = utf8 chars
encoded (raw_bytes bytes) = some bytes
encoded (number (pos n)) = some (zeros n)
encoded (truth b) = some (zeros (if b then 1 else 0))
encoded _ = none

-- The bytes that a value is on the wire, after the factor of a scaled field.
unfoldable pub encode : Kind → Value → Option (List ℕ)
encode Kind.u8 v = unsigned 256 (λ n. n ∷ []) (integer v)
encode Kind.u16 v = unsigned 65536 be16 (integer v)
encode Kind.u32 v = unsigned 4294967296 be32 (integer v)
encode Kind.i8 v = signed 128 (λ n. n ∷ []) (integer v)
encode Kind.i16 v = signed 32768 be16 (integer v)
encode Kind.i32 v = signed 2147483648 be32 (integer v)
encode Kind.boolean v = some ((if is_truthy v then 1 else 0) ∷ [])
encode (Kind.string n) v = encoded v >>= λ bytes. some (padded n (take n bytes))

-- `struct.pack_into(fmt, buf, at, …)`: the bytes must lie inside the buffer.
abbrev pub overlay : List ℕ → List ℕ → List ℕ
overlay [] buf = buf
overlay (b ∷ bs) [] = []
overlay (b ∷ bs) (x ∷ xs) = b ∷ overlay bs xs

abbrev pub put : ℕ → List ℕ → List ℕ → List ℕ
put zero bytes buf = overlay bytes buf
put (suc n) bytes [] = []
put (suc n) bytes (x ∷ xs) = x ∷ put n bytes xs

unfoldable pub pack_into : ℕ → List ℕ → List ℕ → Option (List ℕ)
pack_into at bytes buf =
    if leb (at + length bytes) (length buf) then some (put at bytes buf) else none

-- `self.scale != 1.0`, where `boolean` and `string` do not override `pack` and `unpack`.
abbrev pub is_numeric : Kind → Bool
is_numeric Kind.boolean = false
is_numeric (Kind.string n) = false
is_numeric _ = true

unfoldable pub has_scale : Field → Bool
has_scale f = is_numeric f.kind && not (f.scale == 1)

-- `value = int(round(value * self.scale))`, where the field has a factor
unfoldable pub to_wire : Field → Value → Option Value
to_wire f v = if has_scale f then (scaled f.scale v >>= λ z. some (number z)) else some v

-- The bytes of a value in its field.
unfoldable pub bytes_in : Field → Value → Option (List ℕ)
bytes_in f v = to_wire f v >>= λ wire. encode f.kind wire

-- `Field.pack`
unfoldable pub pack : Field → Value → List ℕ → Option (List ℕ)
pack f v buf = bytes_in f v >>= λ bytes. pack_into f.at bytes buf

-- `mask |= 1 << bit`
unfoldable pub or_bit : ℕ → ℕ → ℕ
or_bit zero mask = if mask % 2 == 1 then mask else mask + 1
or_bit (suc bit) mask = or_bit bit (mask / 2) * 2 + mask % 2

-- The loop of `get_command`: the buffer, and the mask of the fields that are given. The values stand
-- in the order of the fields, `none` where the attribute is None or missing.
unfoldable pub pack_fields : List Field → List (Option Value) → List ℕ → Option (List ℕ)
pack_fields (f ∷ fs) (none ∷ vs) buf = pack_fields fs vs buf
pack_fields (f ∷ fs) (some v ∷ vs) buf = pack f v buf >>= λ next. pack_fields fs vs next
pack_fields _ _ buf = some buf

unfoldable pub mask_of : List Field → List (Option Value) → ℕ → ℕ
mask_of (f ∷ fs) (none ∷ vs) mask = mask_of fs vs mask
mask_of (f ∷ fs) (some v ∷ vs) mask =
    mask_of fs vs (elim f.mask_bit [ none ↦ mask | some bit ↦ or_bit bit mask ])
mask_of _ _ mask = mask

-- The payload of `get_command`
unfoldable pub packet_body : Layout → List (Option Value) → Option (List ℕ)
packet_body c vs = pack_fields c.fields vs (zeros c.size) >>= λ buf. elim c.mask_at [
  | none ↦ some buf
  | some at ↦
      encode c.mask_type (number (pos (mask_of c.fields vs 0))) >>= λ bytes. pack_into at bytes buf
]

-- The bytes of an ASCII text; `String` has its own `[]` and `∷`.
abbrev pub codes : String → List ℕ
codes String.[] = []
codes (String.◌∷◌ c s) = code c ∷ codes s

-- `get_command`: the length with the header's own 8 bytes, two NULs, the code, and the payload.
unfoldable pub get_command : Layout → List (Option Value) → Option (List ℕ)
get_command c vs = packet_body c vs >>= λ buf.
    unsigned 65536 be16 (some (pos (length buf + 8))) >>= λ size.
    some (size ++ (0 ∷ 0 ∷ padded 4 (take 4 (codes c.code))) ++ buf)

-- The integers that `struct.unpack` reads
abbrev pub of16 : List ℕ → ℕ
of16 (a ∷ b ∷ _) = a * 256 + b
of16 _ = 0

abbrev pub of32 : List ℕ → ℕ
of32 (a ∷ b ∷ c ∷ d ∷ _) = a * 16777216 + b * 65536 + c * 256 + d
of32 _ = 0

abbrev pub of8 : List ℕ → ℕ
of8 (a ∷ _) = a
of8 _ = 0

abbrev pub as_signed : ℕ → ℕ → ℤ
as_signed half n = if ltb n half then pos n else negsuc (half + half - 1 - n)

-- `split(b'\x00')[0]`
unfoldable pub cut_nul : List ℕ → List ℕ
cut_nul [] = []
cut_nul (b ∷ bs) = let rest = cut_nul bs in if b == 0 then [] else b ∷ rest

unfoldable pub decode : Kind → List ℕ → Value
decode Kind.u8 bytes = number (pos (of8 bytes))
decode Kind.u16 bytes = number (pos (of16 bytes))
decode Kind.u32 bytes = number (pos (of32 bytes))
decode Kind.i8 bytes = number (as_signed 128 (of8 bytes))
decode Kind.i16 bytes = number (as_signed 32768 (of16 bytes))
decode Kind.i32 bytes = number (as_signed 2147483648 (of32 bytes))
decode Kind.boolean bytes = truth (not (of8 bytes == 0))
decode (Kind.string n) bytes = text (utf8_replaced (cut_nul bytes))

-- `wire / self.scale`; `struct` reads integers.
abbrev pub divided : ℕ → Value → Value
divided scale (number z) = quotient scale z
divided scale v = v

unfoldable pub from_wire : Field → Value → Value
from_wire f v = if has_scale f then divided f.scale v else v

-- `Field.unpack`: `none` is the `struct.error` of a payload that is too short.
unfoldable pub unpack : Field → List ℕ → Option Value
unpack f raw =
    if leb (f.at + width f.kind) (length raw)
    then some (from_wire f (decode f.kind (take (width f.kind) (drop f.at raw))))
    else none

-- `Recv`: every field, or the error of the first that does not unpack.
unfoldable pub unpack_all : List Field → List ℕ → Option (List Value)
unpack_all [] raw = some []
unpack_all (f ∷ fs) raw = unpack f raw >>= λ v. unpack_all fs raw >>= λ vs. some (v ∷ vs)
