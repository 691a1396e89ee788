-- ===== src/Lib.antt =====
-- bmdwire: a model of the repository's protocol code.
--
-- atemwire/transport.py speaks the switcher's UDP protocol. `UdpProtocol` runs two threads: the UDP
-- thread reads and writes the socket, numbers and keeps what is sent, acknowledges and orders what
-- is received; the protocol's thread takes packets from it with `receive_packet` and hands it
-- packets over `thread_queue`. The files below Transport model it:
--
--   Transport/Packet        `Packet`, `from_bytes`, `to_bytes`
--   Transport/Seq           the sequence space of 15 bits: `next`, `distance`
--   Transport/Seen          `_SeenWindow`
--   Transport/Acknowledge   `_update_ack_number` and the state that it reads
--   Transport/Delivery      the in-order gate at the end of `_receive_packet_low`
--   Transport/Udp           the state of `UdpProtocol`, the socket, and the outcomes of a method
--   Transport/Send          `_sendto`, `_send_packet_low`, `_send_on_udp_thread`, `_send_packet`
--   Transport/Retransmit    `_retransmit_from`, `_on_ack`, `_resend_unacked`
--   Transport/Session       `connect`, `_handshake`, `close_session`
--   Transport/Receive       `_receive_packet_low`, `_ack_owed`, `_flush_ack`, `_drain_socket`
--   Transport/Queue         `queue_packet`, `queue_trigger`, `drain_queue`
--   Transport/Reader        `receive_packet`
--   Transport/Thread        `_udp_thread_loop` turn by turn, `_udp_thread`, `wake_at`, `_fire_wake`
--   Transport/Samples       a state and a network to evaluate the definitions on
--   Transport/Tests         the properties at concrete inputs
--
-- ultimattewire/_protocol.py is the binary channel of an Ultimatte, a TCP connection for each call:
--
--   Ultimatte               `_recv_exact`, `_connect_with_retry`, `binary_request`, `upload_one`
--   Ultimatte/Stream        reading a number of bytes, however they are cut
--   Ultimatte/Request       the calls against the format of the frames
--   Ultimatte/Tests         the same at concrete inputs
--
-- The unit is an argument: which attempts to connect it answers, whether `sendall` returns, and the
-- chunks and silences that reach the socket. The loops have the bytes asked for as fuel.
--
-- atemwire/pool.py shares connections between their users, with a count of references:
--
--   Pool                    `ATEMInstanceManager` at one address, and `acquire_connection`
--   Pool/Run                runs of the pool with its holders
--   Pool/Balance            the references against those who hold them
--   Pool/Tests              the same at concrete runs
--
-- Every method of the pool holds `_instance_lock` and works on one address, so a run is a sequence
-- of whole methods, in any order. A connection is the number of its creation, and stands for
-- its entry's identity, since an entry is made with its connection. The timer's callback may run at
-- any time, a cancelled timer's too.
--
-- atemwire/protocol.py and atemwire/_transfer.py: `AtemProtocol` takes packets from the transport and
-- shares the stores of the switcher, under their locks, with other clients:
--
--   Transfers               the lane of locks and transfers, its modules in their order:
--   Transfers/Lane          its state, `TransferTask`, and the changes that the methods share
--   Transfers/Waiting       `_yield_due`, `_end_yield`, `_someone_at_work`, and the windows of time
--   Transfers/Trigger       `_transfer_trigger` and `_release_then_continue`
--   Transfers/Chunks        `_queue_chunks`, `_send_file_metadata`, `_queue_flushed`, and FTCD
--   Transfers/Locks         LKOB and LKST in `save_field_data`
--   Transfers/Fields        FTDa, FTDE and FTDC in `save_field_data`, `_fail_transfer`, `_end_drain`
--   Transfers/Requests      `download`, `queue_clear`, `dequeue_clear`, `upload`
--   Transfers/Abort         `abort_transfers`, `_reset_transfer_lane`, `release_locks_now`
--   Transfers/Service       `_service_drain`, `_service_yields`
--   Transfers/Run           every event in any order; Filed, Sound, Handled, Ended and Asked serve it
--   Transfers/Polite, Sent  what the trigger may send
--   Transfers/Enough        the fuel of the trigger
--   Transfers/Cut           the chunks of an upload
--   Transfers/Drained       the end of an abandoned download
--   Transfers/Retry         the pauses after a refusal
--   Transfers/Tests         the same at concrete inputs
--   Protocol                `decode_packet`, `_save_field_guarded`, the turn of `loop` for a packet
--   Protocol/Framing, Turn  the fields of a packet, and what becomes of them
--   Protocol/Dump           `_check_dump_complete`
--   Protocol/Commands       a command of atemwire/messages as a packet
--   Protocol/Tests          the same at concrete inputs
--
-- The lane is the record `Lane`, and a method is a function of it that also appends the commands
-- sent, the events raised and the calls of `wake_at`. Times are in milliseconds, and a method reads
-- the clock once. `wake_at` is there, as on the only transport shipped. A task is told from another
-- by the number `ident`, where the source compares objects. The chunks of an upload count as sent when
-- they are queued, since `drain_queue` sends them at the end of the same call. An entry that the
-- source expects in a dict, and would raise a KeyError for, is there or counts as empty. The
-- trigger and the release that may follow it call each other, with one more than the number of
-- tasks queued as fuel.
--
-- atemwire/messages holds the commands and fields, most of them declared by a layout:
--
--   Messages                `Field` and its subclasses, `Send.get_command`, `Recv`
--   Messages/Layouts        the classes that are a layout and nothing else, a module for each file,
--                           two for the largest
--   Messages/Bytes, Values, Fields, Texts, Mask, RoundTrip, Commands, Received, Registry
--                           what is packed against what is read
--   Messages/Tests          the same at concrete inputs
--
-- A command's values stand in a list in the order of its fields, the constants that its `__init__`
-- adds among them. The values are those of Python, of the modules
--
--   Python                  integers, finite floats with product, quotient and rounding
--   Python/Utf8             `encode('utf-8')` and `decode('utf-8', errors='replace')`
--   Python/Steps, Chars, Decoded
--                           the decoder on what `encode` wrote
--   Python/Tests            the codec and the floats at concrete values
--
-- where a float is a numerator over a power of two, and the search for its binary places has the
-- 1074 of the smallest double as fuel. The factor of a scaled field is a whole number, as every one
-- in the layouts is. The mask and the buffer, which `get_command` fills in one loop, are two
-- functions here.
--
-- atemwire/imaging.py decodes the stills:
--
--   Imaging                 `rle_decode`; an offset is dropped from the data, and the loops have the
--                           length of the data as fuel, the search for a header one more
--   Imaging/Headers, Words  the search for a header, and the format read word by word
--   Imaging/Tests           the same for a small frame
--
-- atemwire/connection.py sends what its callers queued:
--
--   Connection              the batches of `_drain_cmd_queue`
--   Connection/Batches      the batches against the commands that can be sent
--   Connection/Tests        the same at concrete inputs
--
-- In Transport the state is the record `Udp`; a method is a function of it, and one that may raise is an
-- `Action`, whose result carries the state as the raise left it. Names follow the source without
-- the leading underscore. `local_sequence_number`, -1 before the first packet, is an Option, and so
-- are the other fields that hold None. A dict is an association list, the keys of `_seen` a list,
-- newest first. A byte is a number, a packet's data a list of them; header fields that do not fit
-- their width are the `struct.error` of the source. Sequence arithmetic is written with its `% 32768`.
-- A packet object that is in a dict and is changed there is changed by writing the dict again.
--
-- What the kernel answers to `sendto` is a parameter, a function of the number of calls so far.
-- The datagrams that `recvfrom` gives and what `select` finds ready are arguments. A method reads
-- the clock once, as `now`, in milliseconds, where the source reads it a few times in a call.
--
-- Loops: the window walk of `_update_ack_number` has fuel of the window's size and one more, which
-- Acknowledge/Loop shows to be enough; the drain of the parked packets has their number as fuel; the
-- resend and drain loops are bounded in the source; the aggressive drain has the queue's length
-- as fuel, and `receive_packet` a turn for each item that waits, where the source would go on to
-- wait for the next.
--
-- Not modelled: logging and packet traces, starting threads, sleeps, `queue_callback`, socket options
-- and `_check_rcvbuf`, `Packet.to_usb`, `close_all_sessions_at_exit`; the TCP relay
-- (*XFC), the progress events, the digest of an upload, and the callers' handlers of events; `tail`
-- fields, and the messages that are packed or parsed by hand; the
-- tree of the switcher's state; and the rest of the packages, which no file here is about.
mod Prelude
pub mod Python
pub mod Transport
pub mod Ultimatte
pub mod Pool
pub mod Imaging
pub mod Messages
pub mod Connection
pub mod Transfers
pub mod Protocol
