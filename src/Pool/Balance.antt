-- ===== src/Pool/Balance.antt =====
-- The references of the pool (atemwire/pool.py) against those who hold them.
use mathlib.Core.Path.{subst}
use mathlib.Core.Option.{some_inj}
use bmdwire.Prelude.{
  ℕ, ◌≡◌, refl, sym, ◌∙◌, ap, Bool, true, Option, none, some, List, [], ◌∷◌, contains, remove,
  arith,
}
use bmdwire.Pool.{
  Entry, Pool, get_instance, release_instance, delayed_disconnect, connection_of, Answers,
  acquire_connection,
}
use bmdwire.Pool.Run.{World, start, Event, taken, released, step, run, IsFairPool, IsBalanced}
use bmdwire.Pool.Steps.{count-remove_self, taken-IsBalanced, step-IsBalanced}

run-IsBalanced_from : (es : List Event) (w : World) → IsBalanced w → IsBalanced (run es w)
unfolding run
run-IsBalanced_from [] w b = b
run-IsBalanced_from (e ∷ es) w b = run-IsBalanced_from es (step e w) (step-IsBalanced e w b)

-- From an empty pool, whatever holders take and give back, each handing in the entry it took,
-- whenever timers fire and workers die: the pool's entry counts exactly the references to its
-- connection that are still held, its timer is set and it is draining just when there are none, and
-- no reference is to a connection that was not made yet.
pub run-IsBalanced : (es : List Event) → IsBalanced (run es start)
run-IsBalanced es = run-IsBalanced_from es start (record { fair = tt; known = tt })

fired-spares :
    (o : Option Entry) (p : Pool) (held : List ℕ) (e : Entry)
    → IsFairPool o p.created held
    → o ≡ some e
    → contains held e.connection ≡ true
    → delayed_disconnect (record p { instance_now = o }) ≡ record p { instance_now = o }
unfolding delayed_disconnect
fired-spares none p held e fair at here = cc
fired-spares (some e') p held e (known, fair) at here =
    let same : e' ≡ e = some_inj.0 at in
    ground (
      arith,
      fair.0,
      count-remove_self e'.connection held (ap (λ x. contains held x.connection) same ∙ here),
    )

-- In a pool that was reached in such a run, the timer's callback changes nothing while anyone holds
-- a reference to the connection of the pool's entry: it never disconnects under a holder's feet.
pub delayed_disconnect-spares_held :
    (es : List Event) (e : Entry)
    → (run es start).pool.instance_now ≡ some e
    → contains (run es start).held e.connection ≡ true
    → delayed_disconnect (run es start).pool ≡ (run es start).pool
delayed_disconnect-spares_held es e at here =
    let w = run es start in
    fired-spares w.pool.instance_now w.pool w.held e (run-IsBalanced es).fair at here

step-released :
    (c : ℕ) (w : World)
    → contains w.held c ≡ true
    → step (released c) w
      ≡ record { pool = release_instance (some c) w.pool; held = remove c w.held }
unfolding step
step-released c w here = rw here refl

-- A use of `acquire_connection` from a pool in balance, however it ends (with the connection yielded
-- or with any of its errors), whatever others do with the pool meanwhile: if they leave its holder the
-- reference it took, the pool is in balance again once that reference is given back.
pub acquire_connection-IsBalanced :
    (worker_dead : Bool) (a : Answers) (meanwhile : List Event) (w : World) (c : ℕ)
    → IsBalanced w
    → connection_of (get_instance worker_dead w.pool) ≡ some c
    → contains (run meanwhile (step (taken worker_dead) w)).held c ≡ true
    → IsBalanced (record {
      pool =
          (acquire_connection worker_dead a
            (λ p. (run meanwhile (step (taken worker_dead) w)).pool)
            w.pool).1;
      held = remove c (run meanwhile (step (taken worker_dead) w)).held;
    })
unfolding acquire_connection
acquire_connection-IsBalanced worker_dead a meanwhile w c b mine here =
    let later = run meanwhile (step (taken worker_dead) w) in
    let balanced =
      run-IsBalanced_from meanwhile (step (taken worker_dead) w)
        (taken-IsBalanced worker_dead w b) in
    subst
      (λ m.
        IsBalanced (record { pool = release_instance m later.pool; held = remove c later.held }))
      (sym mine)
      (subst IsBalanced (step-released c later here) (step-IsBalanced (released c) later balanced))
