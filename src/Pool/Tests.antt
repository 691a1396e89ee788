-- ===== src/Pool/Tests.antt =====
-- The pool at a concrete run (atemwire/pool.py).
use bmdwire.Prelude.{◌≡◌, refl, true, false, List, [], ◌∷◌, contains, remove}
use bmdwire.Pool.{
  Answers, acquire_connection, Lifecycle, Entry, get_instance, release_instance, delayed_disconnect,
  on_connection_died,
}
use bmdwire.Pool.Run.{Event, taken, released, died, start, step, run, IsBalanced}
use bmdwire.Pool.Balance.{
  run-IsBalanced, delayed_disconnect-spares_held, acquire_connection-IsBalanced,
}

-- Two holders; the worker dies under them, one takes a fresh connection, and the other gives back
-- what it had.
abbrev replaced : List Event
replaced = taken false ∷ taken false ∷ died 0 ∷ taken false ∷ released 0 ∷ []

run-IsBalanced_example : IsBalanced (run replaced start)
run-IsBalanced_example = run-IsBalanced replaced

abbrev replacement : Entry
replacement = record {
  connection = 1;
  ref_count = 1;
  disconnect_timer = false;
  state = Lifecycle.active;
}

delayed_disconnect-spares_held_example :
    delayed_disconnect (run replaced start).pool ≡ (run replaced start).pool
unfolding run step contains get_instance release_instance on_connection_died remove
delayed_disconnect-spares_held_example =
    delayed_disconnect-spares_held replaced replacement refl refl

-- The switcher has no room; another holder comes meanwhile.
abbrev refusing : Answers
refusing = record {
  is_connected = false;
  connects = false;
  connect_refused = true;
  becomes_ready = false;
  stays_connected = false;
}

acquire_connection-IsBalanced_example : IsBalanced (record {
  pool =
      (acquire_connection false refusing
        (λ p. (run (taken false ∷ []) (step (taken false) start)).pool)
        start.pool).1;
  held = remove 0 (run (taken false ∷ []) (step (taken false) start)).held;
})
unfolding run step contains get_instance
acquire_connection-IsBalanced_example =
    acquire_connection-IsBalanced false refusing (taken false ∷ []) start 0
      (record { fair = tt; known = tt }) refl refl
