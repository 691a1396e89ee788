-- ===== src/Transport/Reader/Kept.antt =====
-- What one turn of `receive_packet` (atemwire/transport.py) keeps.
use bmdwire.Prelude.{
  ◌≡◌, refl, sym, ◌∙◌, ap, Bool, true, false, Option, none, some, List, [], ◌∷◌, ◌++◌, ◌==◌,
  if◌then◌else◌, arith,
}
use bmdwire.Transport.Packet.{Packet}
use bmdwire.Transport.Udp.{Udp, Connection, Item, Result, ok}
use bmdwire.Transport.Send.{post}
use bmdwire.Transport.Queue.{queue_trigger}
use bmdwire.Transport.Queue.Order.{triggered, queue_trigger-moves_queue}
use bmdwire.Transport.Reader.{Returned, data_packet, start_acking}

-- The data packets among the items, in order: those longer than the header.
abbrev pub data_packets : List Item → List Packet
data_packets [] = []
data_packets (Item.packet p ∷ items) =
    if p.length == 12 then data_packets items else p ∷ data_packets items
data_packets (_ ∷ items) = data_packets items

-- The stashed packet, and after it what the UDP thread has put.
abbrev pub pending_from : Option Packet → List Item → List Item
pending_from none items = items
pending_from (some p) items = Item.packet p ∷ items

abbrev pub pending : Udp → List Item
pending u = pending_from u.stashed_packet u.thread_recv_queue

-- The data packet that a call hands up, if it hands one up.
abbrev pub handed : Result (Option Returned) → List Packet
handed (ok (some (data_packet p))) = p ∷ []
handed _ = []

abbrev pub goes_on : Result (Option Returned) → Bool
goes_on (ok none) = true
goes_on _ = false

abbrev pub is_ok : Result (Option Returned) → Bool
is_ok (ok _) = true
is_ok _ = false

-- The outcome of a turn on the item, from a state with nothing stashed and the items left.
pub record Kept (item : Item) (items : List Item) (out : Result (Option Returned) × Udp)
    : Type 0 where
  pub returns : is_ok out.0 ≡ true
  pub state : out.1.state ≡ Connection.established
  pub conserved : handed out.0 ++ data_packets (pending out.1) ≡ data_packets (item ∷ items)
  pub rest : goes_on out.0 ≡ true → pending out.1 ≡ items

-- `queue_trigger` leaves the session, the stash and the received items alone.
pub record Same (u v : Udp) : Type 0 where
  pub state : v.state ≡ u.state
  pub stash : v.stashed_packet ≡ u.stashed_packet
  pub items : v.thread_recv_queue ≡ u.thread_recv_queue

triggered-Same :
    (a : Bool) (queue : List Packet) (u : Udp)
    → Same u ((triggered a (record u { send_queue = queue })).1)
triggered-Same a [] u = record { state = refl; stash = refl; items = refl }
triggered-Same true (p ∷ rest) u = record { state = refl; stash = refl; items = refl }
triggered-Same false (p ∷ rest) u = record { state = refl; stash = refl; items = refl }

pub queue_trigger-Same : (a : Bool) (u : Udp) → Same u ((queue_trigger a u).1)
queue_trigger-Same a u = rw (queue_trigger-moves_queue a u) (triggered-Same a u.send_queue u)

pub start_acking-Same : (u : Udp) → Same u (start_acking u)
unfolding start_acking post
start_acking-Same u = record { state = ground arith; stash = ground arith; items = ground arith }

-- What waits, from the stash and the items.
pub pending_eq :
    (v : Udp) (stash : Option Packet) (items : List Item)
    → v.stashed_packet ≡ stash
    → v.thread_recv_queue ≡ items
    → pending v ≡ pending_from stash items
pending_eq v stash items s q = rw (s, q)

pub control_packets :
    (p : Packet) (items : List Item)
    → (p.length == 12) ≡ true
    → data_packets (Item.packet p ∷ items) ≡ data_packets items
control_packets p items h = rw h

-- An outcome that hands nothing up, for an item that is no data packet.
pub unmoved-Kept :
    (item : Item) (items : List Item) (r : Result (Option Returned)) (v : Udp)
    → is_ok r ≡ true
    → handed r ≡ []
    → v.state ≡ Connection.established
    → v.stashed_packet ≡ none
    → v.thread_recv_queue ≡ items
    → data_packets (item ∷ items) ≡ data_packets items
    → Kept item items (r, v)
unmoved-Kept item items r v o h e s q d = record {
  returns = o;
  state = e;
  conserved =
      ap (λ l. l ++ data_packets (pending v)) h
      ∙ ap data_packets (pending_eq v none items s q)
      ∙ sym d;
  rest = λ g. pending_eq v none items s q;
}

-- Both branches of a test.
pub either {ℓ κ} :
    {A : Type ℓ} (P : A → Type κ) (b : Bool) (x y : A) → P x → P y → P (if b then x else y)
either P true x y h k = h
either P false x y h k = k
