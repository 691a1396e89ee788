-- ===== src/Transport/Udp.antt =====
-- The state of `UdpProtocol` (atemwire/transport.py), and the world that it runs in: the socket's
-- answers to `sendto`. A method is a function of the state; one that may raise is an `Action`.
use bmdwire.Prelude.{◌≡◌, ℕ, Bool, true, false, Option, List}
use bmdwire.Transport.Packet.{Packet}
use bmdwire.Transport.Acknowledge.{Acks}
use bmdwire.Transport.Delivery.{Delivery}

-- The `STATE_` constants.
pub data Connection : Type 0 where
  closed syn_sent syn_received established : Connection

-- The error numbers that the send path tells apart.
pub data Errno : Type 0 where
  net_unreachable host_unreachable connection_refused no_buffers try_again not_permitted
        interrupted :
      Errno
  other : ℕ → Errno

-- `errno in TRANSIENT_SEND_ERRNOS`
abbrev pub is_transient : Errno → Bool
is_transient (Errno.other n) = false
is_transient _ = true

-- `errno in SEND_RETRY_ERRNOS`
abbrev pub is_retried : Errno → Bool
is_retried Errno.no_buffers = true
is_retried Errno.try_again = true
is_retried _ = false

-- What the kernel answers to one `sock.sendto`: the bytes sent, or an `OSError`.
pub data Answer : Type 0 where
  accepted : ℕ → Answer
  refused : Errno → Answer

-- What the UDP thread puts on `thread_recv_queue`.
pub data Item : Type 0 where
  disconnected : Item
  wakeup : Item
  packet : Packet → Item

-- `send_calls` counts the calls of `sendto`, whose answers are a function of that count, and
-- `wire` holds the datagrams that the kernel accepted, in order.
pub record Socket : Type 0 where
  pub send_calls : ℕ
  pub wire : List (List ℕ)

-- `local_sequence_number` is `none` where the source has -1.
pub record Udp : Type 0 where
  pub local_sequence_number : Option ℕ
  pub retransmission_buffer : List (ℕ × Packet)
  pub acked_through : Option ℕ
  pub resend_due : Option ℕ
  pub state : Connection
  pub session_id : Option ℕ
  pub prev_session_id : Option ℕ
  pub enable_ack : Bool
  pub had_traffic : Bool
  pub is_refused : Bool
  pub remote_sequence_number : ℕ
  pub acks : Acks
  pub delivery : Delivery
  pub batching : Bool
  pub acks_owed : ℕ
  pub mark_next_connected : Bool
  pub stashed_packet : Option Packet
  pub send_queue : List Packet
  pub queue_enabled : Bool
  pub thread_queue : List (Option Packet)
  pub thread_recv_queue : List Item
  pub wake_due : Option ℕ
  pub last_heard : ℕ
  pub last_rx_monotonic : ℕ
  pub packet_success : ℕ
  pub packet_errors : ℕ
  pub retrans_burst : ℕ
  pub retrans_last_log : ℕ
  pub rx_packet_count : ℕ
  pub tx_packet_count : ℕ
  pub socket : Socket

-- The exceptions that a method lets through: an `OSError`, the `struct.error` of a packet that
-- does not serialise, the `RuntimeError` of a connect that finds a connection open, and the
-- `IndexError` of an empty SYN reply.
pub data Failure : Type 0 where
  os_error : Errno → Failure
  struct_error already_open index_error : Failure

-- An exception that is no `OSError` is not transient.
abbrev pub is_momentary : Failure → Bool
is_momentary (os_error e) = is_transient e
is_momentary _ = false

-- A method's outcome: its value, or the exception that it raised.
pub data Result {ℓ} (A : Type ℓ) : Type ℓ where
  ok : A → Result A
  raised : Failure → Result A

-- What a raise had changed before it stays changed.
abbrev pub Action {ℓ} : Type ℓ → Type ℓ
Action A = Udp → Result A × Udp

infixl 5 ◌>>=◌ ◌>>◌
abbrev pub ◌>>=◌ {ℓ κ} : {A : Type ℓ} {B : Type κ} → Action A → (A → Action B) → Action B
◌>>=◌ m f u = elim (m u).0 [ ok a ↦ f a (m u).1 | raised e ↦ (raised e, (m u).1) ]

abbrev pub ◌>>◌ {ℓ κ} : {A : Type ℓ} {B : Type κ} → Action A → Action B → Action B
m >> k = m >>= λ _. k

abbrev pub pure {ℓ} : {A : Type ℓ} → A → Action A
pure a u = (ok a, u)

abbrev pub modify : (Udp → Udp) → Action (Unit {0})
modify f u = (ok tt, f u)

-- A step that returns hands its value to the next.
pub bind-ok {ℓ κ} :
    {A : Type ℓ} {B : Type κ} (m : Action A) (f : A → Action B) (u : Udp) {a : A}
    → (m u).0 ≡ ok a
    → (m >>= f) u ≡ f a (m u).1
bind-ok m f u e = rw (e, ◌>>=◌)
