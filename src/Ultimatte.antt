-- ===== src/Ultimatte.antt =====
-- The binary channel of an Ultimatte (ultimattewire/_protocol.py): `_recv_exact`,
-- `_connect_with_retry`, `binary_request`, `upload_one`.
pub mod Stream
pub mod Request
mod Tests
use bmdwire.Prelude.{
  ℕ, zero, suc, ◌+◌, ◌-◌, ◌*◌, ◌/◌, ◌%◌, Bool, true, false, Option, none, some, List, [], ◌∷◌, ◌++◌,
  length, is_empty, take, drop, ltb, ◌==◌, ◌||◌, ◌&&◌, ◌>>=◌, if◌then◌else◌,
}

-- What reaches the socket, in order: bytes, at least one at a time, or a silence longer than the
-- socket's timeout. After it the peer has closed.
pub data Incoming : Type 0 where
  arrived : ℕ → List ℕ → Incoming
  stalled : Incoming

-- How a call fails: an error of `create_connection` or `sendall`, a `socket.timeout`, the
-- `struct.error` of a number that does not fit, and the `IOError`s of this file.
pub data Fault : Type 0 where
  unreachable send_failed timed_out struct_error : Fault
  short_header short_body no_ack nonzero_ack : Fault

pub data Outcome {ℓ} (A : Type ℓ) : Type ℓ where
  done : A → Outcome A
  failed : Fault → Outcome A

-- `ACK_LEN`
abbrev pub ack_len : ℕ
ack_len = 6

-- `sock.recv(n)`: the bytes, empty at the end of the stream, and what is left of the stream.
unfoldable pub recv : ℕ → List Incoming → Outcome (List ℕ) × List Incoming
recv n [] = (done [], [])
recv n (stalled ∷ rest) = (failed timed_out, rest)
recv n (arrived b bs ∷ rest) = elim (drop n (b ∷ bs)) [
  | [] ↦ (done (b ∷ bs), rest)
  | c ∷ cs ↦ (done (take n (b ∷ bs)), arrived c cs ∷ rest)
]

-- The loop of `_recv_exact`, and of `upload_one` for the ACK, with fuel: the bytes asked for are
-- fuel enough, since each turn reads one at least.
unfoldable pub recv_more : ℕ → List ℕ → ℕ → List Incoming → Outcome (List ℕ) × List Incoming
recv_more zero buffer n stream = (done buffer, stream)
recv_more (suc fuel) buffer n stream =
    if ltb (length buffer) n
    then (let (chunk, rest) = recv (n - length buffer) stream in
        elim chunk [
          | failed f ↦ (failed f, rest)
          | done [] ↦ (done buffer, rest)
          | done (b ∷ bs) ↦ recv_more fuel (buffer ++ (b ∷ bs)) n rest
        ])
    else (done buffer, stream)

-- `_recv_exact`
unfoldable pub recv_exact : ℕ → List Incoming → Outcome (List ℕ) × List Incoming
recv_exact n stream = recv_more n [] n stream

-- struct's `>H` and `>I`
unfoldable pub pack_u16 : ℕ → Option (List ℕ)
pack_u16 n = if ltb n 65536 then some (n / 256 ∷ n % 256 ∷ []) else none

unfoldable pub pack_u32 : ℕ → Option (List ℕ)
pack_u32 n =
    if ltb n 4294967296
    then some (n / 16777216 ∷ (n / 65536) % 256 ∷ (n / 256) % 256 ∷ n % 256 ∷ [])
    else none

-- `struct.unpack(">I", length_bytes)`
abbrev pub unpack_u32 : List ℕ → Option ℕ
unpack_u32 (a ∷ b ∷ c ∷ d ∷ []) = some (a * 16777216 + b * 65536 + c * 256 + d)
unpack_u32 _ = none

-- The unit, as the calls meet it: which attempts to connect it answers, whether `sendall`
-- returns, and what it sends.
pub record Device : Type 0 where
  pub answers : ℕ → Bool
  pub takes : Bool
  pub stream : List Incoming

-- `_connect_with_retry`
unfoldable pub connect_with_retry : Device → Bool
connect_with_retry d = d.answers 0 || d.answers 1

-- What a call puts on the wire, and how it ends.
abbrev pub Exchange {ℓ} : Type ℓ → Type ℓ
Exchange A = List ℕ × Outcome A

-- The body of a reply.
unfoldable pub read_body : ℕ → List Incoming → Outcome (List ℕ)
read_body n stream = elim (recv_exact n stream).0 [
  | failed f ↦ failed f
  | done body ↦ if length body == n then done body else failed short_body
]

-- A reply: its length, and so many bytes.
unfoldable pub read_reply : List Incoming → Outcome (List ℕ)
read_reply stream =
    let (header, rest) = recv_exact 4 stream in
    elim header [
      | failed f ↦ failed f
      | done length_bytes ↦ elim (unpack_u32 length_bytes) [
        | none ↦ failed short_header
        | some n ↦ if n == 0 then done [] else read_body n rest
      ]
    ]

-- The frame of a read.
unfoldable pub request_frame : ℕ → List ℕ → Option (List ℕ)
request_frame opcode payload = do
  op ← pack_u16 opcode
  len ← pack_u32 (length payload)
  some (op ++ (len ++ payload))

-- The frame of a write.
unfoldable pub upload_frame : ℕ → List ℕ → List ℕ → Option (List ℕ)
upload_frame opcode name payload = do
  op ← pack_u16 opcode
  name_len ← pack_u32 (length name)
  len ← pack_u32 (length payload)
  some (op ++ (name_len ++ (name ++ (len ++ (payload ++ (0 ∷ []))))))

-- `sendall`, and then the read of the answer.
unfoldable pub exchange {ℓ} : {A : Type ℓ} → Device → List ℕ → Outcome A → Exchange A
exchange d frame answer = if d.takes then (frame, answer) else ([], failed send_failed)

-- `binary_request`, the payload as bytes
unfoldable pub binary_request : Device → ℕ → List ℕ → Exchange (List ℕ)
binary_request d opcode payload =
    if connect_with_retry d
    then elim (request_frame opcode payload) [
      | none ↦ ([], failed struct_error)
      | some frame ↦ exchange d frame (read_reply d.stream)
    ]
    else ([], failed unreachable)

abbrev pub all_zero : List ℕ → Bool
all_zero [] = true
all_zero (b ∷ bs) = (b == 0) && all_zero bs

-- The ACK of a write: a short one will do, if it is all zeros.
unfoldable pub read_ack : List Incoming → Outcome (Unit {0})
read_ack stream = elim (recv_more ack_len [] ack_len stream).0 [
  | failed f ↦ failed f
  | done ack ↦
      if is_empty ack then failed no_ack else if all_zero ack then done tt else failed nonzero_ack
]

-- `upload_one`, the name as bytes; its frame is made before it connects
unfoldable pub upload_one : Device → ℕ → List ℕ → List ℕ → Exchange (Unit {0})
upload_one d opcode name payload = elim (upload_frame opcode name payload) [
  | none ↦ ([], failed struct_error)
  | some frame ↦
      if connect_with_retry d
      then exchange d frame (read_ack d.stream)
      else ([], failed unreachable)
]
