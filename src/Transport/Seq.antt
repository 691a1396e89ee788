-- ===== src/Transport/Seq.antt =====
-- The 15-bit sequence space of the transport: `& 0x7FFF` on differences and successors.
use bmdwire.Prelude.{ℕ, ◌+◌, ◌-◌, ◌%◌, ◌<◌, ◌≤◌, ◌≡◌, ◌≢◌, arith}

-- `(a + 1) & 0x7FFF`, and `(a + 1) % 0x8000`
abbrev pub next : ℕ → ℕ
next a = (a + 1) % 32768

-- `(a - b) & 0x7FFF`, on Python's unbounded integers
abbrev pub distance : ℕ → ℕ → ℕ
distance a b = (a + (32768 - b % 32768)) % 32768

-- The distance is the way forward from the second to the first.
pub add-distance : (a b : ℕ) → (b + distance a b) % 32768 ≡ a % 32768
add-distance a b = omega arith

pub distance_pos : (k b : ℕ) → k < 32768 → k ≢ b % 32768 → 1 ≤ distance k b
distance_pos k b h ne = omega arith

pub distance-suc : (k b : ℕ) → 1 ≤ distance k b → distance k (b + 1) + 1 ≡ distance k b
distance-suc k b h = omega arith
