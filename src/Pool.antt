-- ===== src/Pool.antt =====
-- The connection pool (atemwire/pool.py): `ATEMInstanceManager` at one address. Every method works
-- on `_instances[ip_address]` alone and under `_instance_lock`, so the entries of several addresses
-- are as many copies of this state, and a run is a sequence of whole methods.
pub mod Run
pub mod Steps
pub mod Balance
mod Tests
use bmdwire.Prelude.{
  ℕ, zero, suc, ◌+◌, ◌-◌, Bool, true, false, not, ◌&&◌, Option, none, some, List, [], ◌∷◌, ltb,
  ◌==◌, if◌then◌else◌,
}

-- The `_STATE_` constants.
pub data Lifecycle : Type 0 where
  active draining tearing_down : Lifecycle

-- An entry: a connection is the number of its creation, and `disconnect_timer` is whether one is set.
pub record Entry : Type 0 where
  pub connection : ℕ
  pub ref_count : ℕ
  pub disconnect_timer : Bool
  pub state : Lifecycle

-- The entry of the address, the number of connections made for it, and those that the pool has
-- called `disconnect` on.
pub record Pool : Type 0 where
  pub instance_now : Option Entry
  pub created : ℕ
  pub disconnected : List ℕ

abbrev pub empty_pool : Pool
empty_pool = record { instance_now = none; created = 0; disconnected = [] }

abbrev pub is_active : Lifecycle → Bool
is_active Lifecycle.active = true
is_active _ = false

-- `_evict_dead_locked`
unfoldable pub evict_dead : Pool → Pool
evict_dead p = elim p.instance_now [
  | none ↦ p
  | some e ↦ record p { instance_now = none; disconnected = e.connection ∷ p.disconnected }
]

-- The test of `_get_instance_locked` for a worker that died.
unfoldable pub evict_if_dead : Bool → Pool → Pool
evict_if_dead worker_dead p = elim p.instance_now [
  | none ↦ p
  | some e ↦ if worker_dead && is_active e.state then evict_dead p else p
]

-- A pending disconnect is cancelled.
unfoldable pub revive : Entry → Entry
revive e =
    if e.disconnect_timer
    then record e { disconnect_timer = false; state = Lifecycle.active }
    else e

-- The entry that is there, or a fresh one, with one more reference.
unfoldable pub join : Pool → Pool
unfolding revive
join p = elim p.instance_now [
  | some e ↦
      (let e' = revive e in
        record p { instance_now = some (record e' { ref_count = e'.ref_count + 1 }) })
  | none ↦ record p {
    instance_now = some (record {
      connection = p.created;
      ref_count = 1;
      disconnect_timer = false;
      state = Lifecycle.active;
    });
    created = p.created + 1;
  }
]

-- `get_instance`, where `worker_dead` is that the connection has a worker which is not alive
unfoldable pub get_instance : Bool → Pool → Pool
unfolding evict_if_dead join
get_instance worker_dead p = join (evict_if_dead worker_dead p)

-- One reference less; the last one arms the timer.
unfoldable pub drop_reference : Entry → Entry
drop_reference e =
    let count = e.ref_count - 1 in
    if ltb 0 count
    then record e { ref_count = count }
    else record e { ref_count = count; disconnect_timer = true; state = Lifecycle.draining }

-- `instance is not None and instance_now is not instance`
abbrev pub is_replaced : Option ℕ → Entry → Bool
is_replaced none e = false
is_replaced (some c) e = not (e.connection == c)

-- `release_instance`, where `instance` is the connection of the entry that is handed in, if any
unfoldable pub release_instance : Option ℕ → Pool → Pool
unfolding drop_reference
release_instance instance_given p = elim p.instance_now [
  | none ↦ p
  | some e ↦
      if is_replaced instance_given e
      then p
      else if e.ref_count == 0
      then p
      else record p { instance_now = some (drop_reference e) }
]

abbrev pub is_tearing_down : Lifecycle → Bool
is_tearing_down Lifecycle.tearing_down = true
is_tearing_down _ = false

-- `_delayed_disconnect`, the timer's callback; it may run after the timer was cancelled
unfoldable pub delayed_disconnect : Pool → Pool
delayed_disconnect p = elim p.instance_now [
  | none ↦ p
  | some e ↦
      if ltb 0 e.ref_count
      then p
      else if is_tearing_down e.state
      then p
      else record p { instance_now = none; disconnected = e.connection ∷ p.disconnected }
]

-- `_on_connection_died`, for a connection that has its address
unfoldable pub on_connection_died : ℕ → Pool → Pool
on_connection_died conn p = elim p.instance_now [
  | none ↦ p
  | some e ↦ if e.connection == conn then record p { instance_now = none } else p
]

-- `peek_connection`; `is_connected` is the connection's own answer
unfoldable pub peek_connection : (ℕ → Bool) → Pool → Option ℕ
peek_connection is_connected p = elim p.instance_now [
  | none ↦ none
  | some e ↦ if is_connected e.connection then some e.connection else none
]

-- The address's row of `list_instances`: connected, references, state.
unfoldable pub list_instances : (ℕ → Bool) → Pool → Option (Bool × ℕ × Lifecycle)
list_instances is_connected p = elim p.instance_now [
  | none ↦ none
  | some e ↦ some (is_connected e.connection, e.ref_count, e.state)
]

-- What the connection answers to `acquire_connection`: connected to the address already, the outcome
-- of `connect`, whether the switcher had no room, whether `wait_until_ready` succeeds, and whether
-- it is connected after that.
pub record Answers : Type 0 where
  pub is_connected : Bool
  pub connects : Bool
  pub connect_refused : Bool
  pub becomes_ready : Bool
  pub stays_connected : Bool

-- How `acquire_connection` goes: the connection is yielded, or `NoFreeConnection`, `RuntimeError`, or
-- one of the two `ConnectionDeadError`s.
pub data Acquired : Type 0 where
  yielded : ℕ → Acquired
  no_free_connection connect_failed not_ready lost : Acquired

unfoldable pub acquired : Answers → ℕ → Acquired
acquired a connection =
    if not a.is_connected && not a.connects
    then (if a.connect_refused then no_free_connection else connect_failed)
    else if a.becomes_ready
    then yielded connection
    else if a.stays_connected
    then not_ready
    else lost

abbrev pub connection_of : Pool → Option ℕ
connection_of p = elim p.instance_now [ none ↦ none | some e ↦ some e.connection ]

-- `acquire_connection`: `meanwhile` is what others do with the pool before its `finally`, which
-- hands in the entry that it got.
unfoldable pub acquire_connection : Bool → Answers → (Pool → Pool) → Pool → Option Acquired × Pool
acquire_connection worker_dead a meanwhile p =
    let p' = get_instance worker_dead p in
    let mine = connection_of p' in
    (
      elim mine [ none ↦ none | some connection ↦ some (acquired a connection) ],
      release_instance mine (meanwhile p'),
    )
