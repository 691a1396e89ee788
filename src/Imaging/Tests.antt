-- ===== src/Imaging/Tests.antt =====
-- A small frame (atemwire/imaging.py).
use bmdwire.Prelude.{ℕ, ◌≡◌, List, [], ◌∷◌, ◌++◌}
use bmdwire.Imaging.{header, rle_decode}
use bmdwire.Imaging.Words.{frame_of, rle_decode-eq-frame_of}

-- Two words: a literal one with bytes of 0xfe in it, and one that is repeated twice.
abbrev two_words : List ℕ
two_words =
    (1 ∷ 2 ∷ 3 ∷ 4 ∷ 5 ∷ 6 ∷ 254 ∷ 254 ∷ [])
    ++ header
    ++ (0 ∷ 0 ∷ 0 ∷ 0 ∷ 0 ∷ 0 ∷ 0 ∷ 2 ∷ [])
    ++ (9 ∷ 8 ∷ 7 ∷ 6 ∷ 5 ∷ 4 ∷ 3 ∷ 2 ∷ [])

rle_decode-eq-frame_of_example : rle_decode two_words ≡ frame_of two_words
rle_decode-eq-frame_of_example = rle_decode-eq-frame_of two_words
