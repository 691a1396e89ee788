-- ===== src/Transport/Seen.antt =====
-- `_SeenWindow` of atemwire/transport.py: the last `maxlen` sequence numbers received.
pub mod Laws
use bmdwire.Prelude.{
  ℕ, zero, suc, ◌+◌, Bool, List, [], ◌∷◌, length, ltb, if◌then◌else◌, contains, remove,
}

-- The insertion-ordered keys of `_seen`, newest first.
pub record SeenWindow : Type 0 where
  pub maxlen : ℕ
  pub seen : List ℕ

-- `del self._seen[next(iter(self._seen))]`: the oldest key goes.
unfoldable pub drop_oldest : List ℕ → List ℕ
drop_oldest [] = []
drop_oldest (x ∷ []) = []
drop_oldest (x ∷ y ∷ xs) = x ∷ drop_oldest (y ∷ xs)

-- `append`
unfoldable pub append : SeenWindow → ℕ → SeenWindow
append w seq =
    let seen = seq ∷ remove seq w.seen in
    record w { seen = if ltb w.maxlen (length seen) then drop_oldest seen else seen }

-- `clear`
unfoldable pub clear : SeenWindow → SeenWindow
clear w = record w { seen = [] }

-- `__contains__`
unfoldable pub has : SeenWindow → ℕ → Bool
has w seq = contains w.seen seq
