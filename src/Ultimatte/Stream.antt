-- ===== src/Ultimatte/Stream.antt =====
-- Reading a fixed number of bytes, however the network has cut them (ultimattewire/_protocol.py).
use mathlib.Core.Path.{ap₂, subst}
use mathlib.Core.List.{append_assoc, append-nil}
use bmdwire.Prelude.{
  ℕ, zero, suc, ◌+◌, ◌-◌, ◌<◌, ◌≤◌, no_fuel, ◌≡◌, refl, sym, ◌∙◌, ap, List, [], ◌∷◌, ◌++◌, length,
  length-append, take, drop, ltb, ltb→lt, ltb-ge, inl, inr, Bool-cases, arith,
}
use bmdwire.Ultimatte.{
  Incoming, arrived, stalled, Outcome, done, failed, recv, recv_more, recv_exact,
}

-- The bytes that arrive, whatever their cuts.
abbrev pub bytes : List Incoming → List ℕ
bytes [] = []
bytes (arrived b bs ∷ rest) = (b ∷ bs) ++ bytes rest
bytes (stalled ∷ rest) = bytes rest

-- No silence of the timeout's length.
abbrev pub IsPrompt : List Incoming → Type 0
IsPrompt [] = Unit
IsPrompt (arrived b bs ∷ rest) = IsPrompt rest
IsPrompt (stalled ∷ rest) = ⊥

-- What the read of at most `n` bytes has read of the stream.
pub record Received (n : ℕ) (stream : List Incoming) (out : Outcome (List ℕ) × List Incoming)
    : Type 0 where
  pub chunk : List ℕ
  pub is_done : out.0 ≡ done chunk
  pub whole : chunk ++ bytes out.1 ≡ bytes stream
  pub short : length chunk ≤ n
  pub ended : chunk ≡ [] → bytes stream ≡ []
  pub prompt : IsPrompt out.1

take-drop : (n : ℕ) (xs : List ℕ) → take n xs ++ drop n xs ≡ xs
take-drop zero xs = refl
take-drop (suc n) [] = refl
take-drop (suc n) (x ∷ xs) = ap (λ r. x ∷ r) (take-drop n xs)

take_short : (n : ℕ) (xs : List ℕ) → length (take n xs) ≤ n
take_short zero xs = omega arith
take_short (suc n) [] = omega arith
take_short (suc n) (x ∷ xs) = omega (arith, take_short n xs)

drop_none : (n : ℕ) (xs : List ℕ) → drop n xs ≡ [] → length xs ≤ n
drop_none zero [] h = omega arith
drop_none zero (x ∷ xs) h = cc
drop_none (suc n) [] h = omega arith
drop_none (suc n) (x ∷ xs) h = omega (arith, drop_none n xs h)

recv-Received :
    (n : ℕ) (stream : List Incoming)
    → IsPrompt stream
    → Received (suc n) stream (recv (suc n) stream)
unfolding recv
recv-Received n [] p = record {
  chunk = [];
  is_done = refl;
  whole = refl;
  short = omega arith;
  ended = λ e. refl;
  prompt = tt;
}
recv-Received n (stalled ∷ rest) p = absurd p
recv-Received n (arrived b bs ∷ rest) p = go (drop n bs) refl
  where
    go :
        (left : List ℕ)
        → drop n bs ≡ left
        → Received
            (suc n)
            (arrived b bs ∷ rest)
            (elim left as (λ _. Outcome (List ℕ) × List Incoming) [
              | [] ↦ (done (b ∷ bs), rest)
              | c ∷ cs ↦ (done (b ∷ take n bs), arrived c cs ∷ rest)
            ])
    go [] e = record {
      chunk = b ∷ bs;
      is_done = refl;
      whole = refl;
      short = omega (arith, drop_none n bs e);
      ended = λ f. cc;
      prompt = p;
    }
    go (c ∷ cs) e = record {
      chunk = b ∷ take n bs;
      is_done = refl;
      whole =
          ap (λ r. b ∷ (take n bs ++ (r ++ bytes rest))) (sym e)
          ∙ ap (λ r. b ∷ r) (sym (append_assoc (take n bs) (drop n bs) (bytes rest)))
          ∙ ap (λ r. b ∷ (r ++ bytes rest)) (take-drop n bs);
      short = omega (arith, take_short n bs);
      ended = λ f. cc;
      prompt = p;
    }

take_append :
    (n : ℕ) (xs ys : List ℕ) → length xs ≤ n → take n (xs ++ ys) ≡ xs ++ take (n - length xs) ys
take_append n [] ys h = ap (λ k. take k ys) (omega arith)
take_append zero (x ∷ xs) ys h = absurd (no_fuel (length xs) h)
take_append (suc n) (x ∷ xs) ys h =
    ap (λ r. x ∷ r)
      (take_append n xs ys (omega (arith, h)) ∙ ap (λ k. xs ++ take k ys) (omega arith))

take_all : (n : ℕ) (xs : List ℕ) → length xs ≤ n → take n xs ≡ xs
take_all zero [] h = refl
take_all zero (x ∷ xs) h = absurd (no_fuel (length xs) h)
take_all (suc n) [] h = refl
take_all (suc n) (x ∷ xs) h = ap (λ r. x ∷ r) (take_all n xs (omega (arith, h)))

chunk_of : Outcome (List ℕ) → List ℕ
chunk_of (done chunk) = chunk
chunk_of (failed f) = []

done_inj : {a b : List ℕ} → done a ≡ done b → a ≡ b
unfolding chunk_of
done_inj e = ap chunk_of e

-- The loop ends with the bytes asked for, or with all that there are.
pub record Collected (n : ℕ) (total : List ℕ) (out : Outcome (List ℕ) × List Incoming)
    : Type 0 where
  pub is_done : out.0 ≡ done (take n total)
  pub rest : take n total ++ bytes out.1 ≡ total
  pub prompt : IsPrompt out.1

full_Collected :
    (buffer : List ℕ) (n : ℕ) (stream : List Incoming)
    → IsPrompt stream
    → length buffer ≡ n
    → Collected n (buffer ++ bytes stream) (done buffer, stream)
full_Collected buffer n stream p e =
    let all : buffer ≡ take n (buffer ++ bytes stream) = sym (
      take_append n buffer (bytes stream) (omega (arith, e))
      ∙ ap (λ k. buffer ++ take k (bytes stream)) {x = n - length buffer} {y = 0} (omega (arith, e))
      ∙ append-nil buffer) in
    record { is_done = ap done all; rest = ap (λ r. r ++ bytes stream) (sym all); prompt = p }

empty_Collected :
    (buffer : List ℕ) (n : ℕ) (stream : List Incoming) (total : List ℕ)
    → IsPrompt stream
    → length buffer ≤ n
    → bytes stream ≡ []
    → buffer ≡ total
    → Collected n total (done buffer, stream)
empty_Collected buffer n stream total p h e same =
    let all : buffer ≡ take n total = sym (take_all n buffer h) ∙ ap (take n) same in
    record {
      is_done = ap done all;
      rest = ap₂ ◌++◌ (sym all) e ∙ append-nil buffer ∙ same;
      prompt = p;
    }

recv_some :
    (m : ℕ) (stream : List Incoming) → 0 < m → IsPrompt stream → Received m stream (recv m stream)
recv_some zero stream h p = absurd (omega (arith, h))
recv_some (suc m) stream h p = recv-Received m stream p

-- The bytes asked for are fuel enough.
pub recv_more-Collected :
    (fuel : ℕ) (buffer : List ℕ) (n : ℕ) (stream : List Incoming)
    → IsPrompt stream
    → length buffer ≤ n
    → n ≤ length buffer + fuel
    → Collected n (buffer ++ bytes stream) (recv_more fuel buffer n stream)
unfolding recv_more
recv_more-Collected zero buffer n stream p h enough =
    full_Collected buffer n stream p (omega (arith, h, enough))
recv_more-Collected (suc fuel) buffer n stream p h enough =
    elim (Bool-cases (ltb (length buffer) n)) [
      | inr e ↦
          rw e (full_Collected buffer n stream p (omega (arith, h, ltb-ge (length buffer) n e)))
      | inl e ↦
          let lt : length buffer < n = ltb→lt (length buffer) n e in
          rw e (
            more (recv (n - length buffer) stream) lt
              (recv_some (n - length buffer) stream (omega (arith, lt)) p)
              (λ b rest. recv_more-Collected fuel b n rest))
    ]
  where
    more :
        (out : Outcome (List ℕ) × List Incoming)
        → length buffer < n
        → Received (n - length buffer) stream out
        → ((b : List ℕ) (rest : List Incoming)
            → IsPrompt rest
            → length b ≤ n
            → n ≤ length b + fuel
            → Collected n (b ++ bytes rest) (recv_more fuel b n rest))
        → Collected n
            (buffer ++ bytes stream)
            (elim out.0 as (λ _. Outcome (List ℕ) × List Incoming) [
              | failed f ↦ (failed f, out.1)
              | done chunk ↦ elim chunk as (λ _. Outcome (List ℕ) × List Incoming) [
                | [] ↦ (done buffer, out.1)
                | b ∷ bs ↦ recv_more fuel (buffer ++ (b ∷ bs)) n out.1
              ]
            ])
    more (failed f, rest) lt r again = cc (r.is_done)
    more (done [], rest) lt r again =
        let none_left : bytes stream ≡ [] = r.ended (sym (done_inj r.is_done)) in
        empty_Collected buffer n rest (buffer ++ bytes stream) r.prompt h
          (ap (λ c. c ++ bytes rest) (done_inj r.is_done) ∙ r.whole ∙ none_left)
          (sym (append-nil buffer) ∙ ap (λ b. buffer ++ b) (sym none_left))
    more (done (b ∷ bs), rest) lt r again =
        let is : b ∷ bs ≡ r.chunk = done_inj r.is_done in
        let longer : length (buffer ++ (b ∷ bs)) ≡ length buffer + suc (length bs) =
          length-append buffer (b ∷ bs) in
        subst (λ total. Collected n total (recv_more fuel (buffer ++ (b ∷ bs)) n rest))
          (append_assoc buffer (b ∷ bs) (bytes rest)
            ∙ ap (λ c. buffer ++ c) (ap (λ c. c ++ bytes rest) is ∙ r.whole))
          (again (buffer ++ (b ∷ bs)) rest r.prompt
            (omega (arith, longer, lt, r.short, ap length is)) (omega (arith, longer, enough)))

-- However the network cuts the bytes, `_recv_exact` reads the first `n` of them, or all if there
-- are fewer, and leaves the others in order.
pub recv_exact-Collected :
    (n : ℕ) (stream : List Incoming)
    → IsPrompt stream
    → Collected n (bytes stream) (recv_exact n stream)
unfolding recv_exact
recv_exact-Collected n stream p = recv_more-Collected n [] n stream p (omega arith) (omega arith)
