-- ===== src/Pool/Run.antt =====
-- A run of the pool (atemwire/pool.py) with its holders, and the balance of the two.
use bmdwire.Prelude.{
  ℕ, ◌+◌, ◌<◌, ◌≡◌, Bool, Option, none, some, List, [], ◌∷◌, ◌==◌, if◌then◌else◌, contains, remove,
  All,
}
use bmdwire.Pool.{
  Lifecycle, Entry, Pool, empty_pool, get_instance, release_instance, delayed_disconnect,
  on_connection_died,
}

-- The references that were taken and not yet released, by connection.
pub record World : Type 0 where
  pub pool : Pool
  pub held : List ℕ

abbrev pub start : World
start = record { pool = empty_pool; held = [] }

-- What happens at the address: someone takes a reference, or gives back one that it holds; a timer's
-- callback runs; the worker of a connection dies.
pub data Event : Type 0 where
  taken : Bool → Event
  released : ℕ → Event
  fired : Event
  died : ℕ → Event

-- The connection of the pool's entry joins those held.
abbrev pub hold : Pool → List ℕ → List ℕ
hold p held = elim p.instance_now [ none ↦ held | some e ↦ e.connection ∷ held ]

unfoldable pub step : Event → World → World
step (taken worker_dead) w =
    let p = get_instance worker_dead w.pool in record { pool = p; held = hold p w.held }
step (released c) w =
    if contains w.held c
    then record { pool = release_instance (some c) w.pool; held = remove c w.held }
    else w
step fired w = record w { pool = delayed_disconnect w.pool }
step (died c) w = record w { pool = on_connection_died c w.pool }

unfoldable pub run : List Event → World → World
run [] w = w
run (e ∷ es) w = run es (step e w)

unfoldable pub count : ℕ → List ℕ → ℕ
count c [] = 0
count c (x ∷ xs) = if x == c then count c xs + 1 else count c xs

-- What an entry says of its holders: it counts them, and its timer is set just when there are none.
abbrev pub IsFair : Entry → List ℕ → Type 0
IsFair e held =
    (e.ref_count ≡ count e.connection held)
    × (e.disconnect_timer ≡ (e.ref_count == 0))
    × (e.state ≡ (if e.ref_count == 0 then Lifecycle.draining else Lifecycle.active))

abbrev pub IsFairPool : Option Entry → ℕ → List ℕ → Type 0
IsFairPool none created held = Unit
IsFairPool (some e) created held = (e.connection < created) × IsFair e held

pub record IsBalanced (w : World) : Type 0 where
  pub fair : IsFairPool w.pool.instance_now w.pool.created w.held
  pub known : All (λ c. c < w.pool.created) w.held
