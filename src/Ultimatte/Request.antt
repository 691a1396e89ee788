-- ===== src/Ultimatte/Request.antt =====
-- A read and a write on the binary channel against the frames that the unit sends
-- (ultimattewire/_protocol.py): `binary_request`, `upload_one`.
use bmdwire.Prelude.{
  ℕ, zero, suc, ◌+◌, ◌*◌, ◌≡◌, refl, ◌∙◌, ap, true, none, some, List, [], ◌∷◌, ◌++◌, length,
  is_empty, take, drop, leb, ◌==◌, if◌then◌else◌, arith,
}
use bmdwire.Ultimatte.{
  Incoming, short_header, short_body, no_ack, nonzero_ack, Outcome, done, failed, recv_exact,
  unpack_u32, Device, connect_with_retry, exchange, read_body, read_reply, request_frame,
  upload_frame, binary_request, all_zero, read_ack, upload_one,
}
use bmdwire.Ultimatte.Stream.{bytes, IsPrompt, recv_exact-Collected}

-- The body of a reply in the bytes after its length.
abbrev pub parse_body : ℕ → List ℕ → Outcome (List ℕ)
parse_body n rest = if leb n (length rest) then done (take n rest) else failed short_body

-- The reply in all the bytes that the unit sends: four bytes of length, and so many bytes.
unfoldable pub parse_reply : List ℕ → Outcome (List ℕ)
parse_reply (a ∷ b ∷ c ∷ d ∷ rest) =
    let n = a * 16777216 + b * 65536 + c * 256 + d in if n == 0 then done [] else parse_body n rest
parse_reply _ = failed short_header

-- The ACK in all the bytes that the unit sends: at most six, which are zero.
unfoldable pub parse_ack : List ℕ → Outcome (Unit {0})
parse_ack [] = failed no_ack
parse_ack (b ∷ rest) = if all_zero (take 6 (b ∷ rest)) then done tt else failed nonzero_ack

length-take_eq : (n : ℕ) (xs : List ℕ) → (length (take n xs) == n) ≡ leb n (length xs)
length-take_eq zero xs = ground arith
length-take_eq (suc n) [] = ground arith
length-take_eq (suc n) (x ∷ xs) = ground (arith, length-take_eq n xs)

read_body-eq-parse :
    (n : ℕ) (stream : List Incoming)
    → IsPrompt stream
    → read_body n stream ≡ parse_body n (bytes stream)
unfolding read_body
read_body-eq-parse n stream p =
    let c = recv_exact-Collected n stream p in
    rw (c.is_done, read_body) (rw (length-take_eq n (bytes stream)) refl)

-- After the four bytes of the length.
header-eq-parse :
    (total : List ℕ) (stream : List Incoming)
    → IsPrompt stream
    → take 4 total ++ bytes stream ≡ total
    → elim (unpack_u32 (take 4 total)) as (λ _. Outcome (List ℕ)) [
      | none ↦ failed short_header
      | some n ↦ if n == 0 then done [] else read_body n stream
    ]
      ≡ parse_reply total
unfolding parse_reply
header-eq-parse [] stream p e = refl
header-eq-parse (a ∷ []) stream p e = refl
header-eq-parse (a ∷ b ∷ []) stream p e = refl
header-eq-parse (a ∷ b ∷ c ∷ []) stream p e = refl
header-eq-parse (a ∷ b ∷ c ∷ d ∷ rest) stream p e =
    let n = a * 16777216 + b * 65536 + c * 256 + d in
    ap (λ body. if n == 0 then done [] else body)
      (read_body-eq-parse n stream p ∙ ap (parse_body n) (ap (drop 4) e))

read_reply-eq-parse :
    (stream : List Incoming) → IsPrompt stream → read_reply stream ≡ parse_reply (bytes stream)
unfolding read_reply
read_reply-eq-parse stream p =
    let c = recv_exact-Collected 4 stream p in
    rw (c.is_done, read_reply)
      (header-eq-parse (bytes stream) (recv_exact 4 stream).1 c.prompt c.rest)

read_ack-eq-parse :
    (stream : List Incoming) → IsPrompt stream → read_ack stream ≡ parse_ack (bytes stream)
unfolding read_ack recv_exact parse_ack
read_ack-eq-parse stream p =
    rw ((recv_exact-Collected 6 stream p).is_done, read_ack) (by_bytes (bytes stream))
  where
    by_bytes :
        (total : List ℕ)
        → (if is_empty (take 6 total)
            then failed no_ack
            else if all_zero (take 6 total)
            then done tt
            else failed nonzero_ack)
          ≡ parse_ack total
    by_bytes [] = refl
    by_bytes (b ∷ rest) = refl

-- A unit that can be reached by one of two attempts, takes the request, and sends its bytes without
-- a silence as long as the timeout, however they are cut into chunks: `binary_request` sends the
-- request's frame and gives what the reply's format says of all the bytes sent: the bytes after a
-- length of four bytes, as many as it says, and the error of a short read if either is incomplete.
pub binary_request-eq-parse_reply :
    (d : Device) (opcode : ℕ) (payload frame : List ℕ)
    → request_frame opcode payload ≡ some frame
    → connect_with_retry d ≡ true
    → d.takes ≡ true
    → IsPrompt d.stream
    → binary_request d opcode payload ≡ (frame, parse_reply (bytes d.stream))
unfolding binary_request exchange
binary_request-eq-parse_reply d opcode payload frame f c t p =
    rw (c, f, binary_request)
      (rw (t, exchange) (ap (λ r. (frame, r)) (read_reply-eq-parse d.stream p)))

-- Such a unit, for a write: `upload_one` sends the write's frame, and succeeds if and only if the
-- first six bytes that the unit sends, or all if it sends fewer, are one at least and all zero.
pub upload_one-eq-parse_ack :
    (d : Device) (opcode : ℕ) (name payload frame : List ℕ)
    → upload_frame opcode name payload ≡ some frame
    → connect_with_retry d ≡ true
    → d.takes ≡ true
    → IsPrompt d.stream
    → upload_one d opcode name payload ≡ (frame, parse_ack (bytes d.stream))
unfolding upload_one exchange
upload_one-eq-parse_ack d opcode name payload frame f c t p =
    rw (f, c, upload_one) (rw (t, exchange) (ap (λ r. (frame, r)) (read_ack-eq-parse d.stream p)))
