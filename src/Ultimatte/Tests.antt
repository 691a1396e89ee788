-- ===== src/Ultimatte/Tests.antt =====
-- The binary channel at concrete inputs (ultimattewire/_protocol.py).
use bmdwire.Prelude.{ℕ, ◌≡◌, refl, true, List, [], ◌∷◌, ◌==◌}
use bmdwire.Ultimatte.{
  arrived, Device, pack_u16, pack_u32, connect_with_retry, request_frame, upload_frame,
  binary_request, upload_one,
}
use bmdwire.Ultimatte.Stream.{bytes}
use bmdwire.Ultimatte.Request.{
  parse_reply, parse_ack, binary_request-eq-parse_reply, upload_one-eq-parse_ack,
}

-- A unit that misses the first attempt to connect, and answers with two bytes in three chunks.
abbrev replying : Device
replying = record {
  answers = λ attempt. attempt == 1;
  takes = true;
  stream = arrived 0 (0 ∷ []) ∷ arrived 0 (2 ∷ 7 ∷ []) ∷ arrived 8 (9 ∷ []) ∷ [];
}

binary_request-eq-parse_reply_example :
    binary_request replying 258 (5 ∷ [])
    ≡ (1 ∷ 2 ∷ 0 ∷ 0 ∷ 0 ∷ 1 ∷ 5 ∷ [], parse_reply (bytes replying.stream))
unfolding request_frame pack_u16 pack_u32 connect_with_retry
binary_request-eq-parse_reply_example =
    binary_request-eq-parse_reply replying 258 (5 ∷ []) (1 ∷ 2 ∷ 0 ∷ 0 ∷ 0 ∷ 1 ∷ 5 ∷ []) refl refl
      refl tt

-- A unit that closes after four zeros.
abbrev accepting : Device
accepting = record {
  answers = λ attempt. true;
  takes = true;
  stream = arrived 0 (0 ∷ []) ∷ arrived 0 (0 ∷ []) ∷ [];
}

abbrev stored : List ℕ
stored = 0 ∷ 7 ∷ 0 ∷ 0 ∷ 0 ∷ 1 ∷ 65 ∷ 0 ∷ 0 ∷ 0 ∷ 2 ∷ 1 ∷ 2 ∷ 0 ∷ []

upload_one-eq-parse_ack_example :
    upload_one accepting 7 (65 ∷ []) (1 ∷ 2 ∷ []) ≡ (stored, parse_ack (bytes accepting.stream))
unfolding upload_frame pack_u16 pack_u32 connect_with_retry
upload_one-eq-parse_ack_example =
    upload_one-eq-parse_ack accepting 7 (65 ∷ []) (1 ∷ 2 ∷ []) stored refl refl refl tt
