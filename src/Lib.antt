-- ===== src/Lib.antt =====
-- ringfire: a ring buffer in shared memory with one producer and many consumers, and the components
-- around it. A region starts with a `RingHeader`; slots, an optional registry of readers and an optional
-- payload arena follow. The producer marks a slot, copies the payload and stores its sequence; a
-- consumer copies between two loads of the sequence. A lossless producer reads the registry, in which
-- the readers store their cursors, before it takes a slot again.
--
-- - Prelude: words with their wrap-around, Boolean tests, lists, bit masks, powers of two, remainders.
-- - Constants, Errors, Header (src/header.rs, src/error.rs): the header's fields, `initialize`,
--   `publish`, `validate_ring` check by check; Header.Validate says what is accepted.
-- - Slot (src/spmc.rs `write_slot`, `read_slot`): Slot.Protocol is the writer one access at a time, a
--   step relation on `SlotState`; Slot.Torn is the reader against any interleaving with it.
-- - Window (src/spmc.rs `oldest_retained`).
-- - Consumer (src/spmc.rs `RingConsumer`): shared memory is a family of snapshots, one for each moment,
--   which the other processes choose. Consumer.Account counts, Consumer.Progress is about the loop's end,
--   Consumer.Order about what is delivered, Consumer.Memory joins it to the slot protocol.
-- - Producer (src/spmc.rs `RingProducer`): Producer.Log is the ring as a window on the log, Producer.Gate
--   the flow control, Producer.Lossless what a registered reader can rely on, Producer.Wait when the
--   calls return. The registry is a table for each moment.
-- - Delivery joins them: what a lossy producer pushes (Producer.Lossy) is what a consumer at a resting ring
--   reads (Consumer.Rest, Consumer.Drain).
-- - Create (src/spmc.rs `create_with_options`): the new region, which Create.Accepted shows valid.
-- - Checkpoint (src/checkpoint.rs) and Attach (src/spmc.rs `attach_with_options`, `commit_offset`): where a
--   consumer starts, and that it goes on where one that committed stopped.
-- - Registry (src/registry.rs), Names (its name buffers and those of src/checkpoint.rs).
-- - Blackboard (src/blackboard.rs): the table; Blackboard.Protocol is the writer one access at a time,
--   Blackboard.Torn the reader against it, Blackboard.Table the whole calls.
-- - Arena (src/arena.rs): Arena.Reserve is where reservations lie, Arena.Blobs and Arena.Life how long
--   payloads last.
-- - BlobRing (src/blob.rs): descriptors in a ring over an arena. BlobRing.Received is about each result of
--   `next_blob` while the producer goes on (BlobRing.Delivered its skips), BlobRing.Delivery about one
--   message from `push` to `recv_status`.
-- - Multiplexer (src/multiplexer.rs): one reader of many rings in turn; Multiplexer.Fair is its fairness.
-- - Signature (src/signature.rs): the fingerprint of a type that `check_schema` compares.
-- - Mpmc (src/mpmc.rs): workers that compete for messages; Mpmc.Queue is the shared
--   `read_seq`, a step relation. Mpmc.Push is the producers at the slots, one access at a time, and Mpmc.Exclusive
--   what no interleaving breaks; Mpmc.Create and Mpmc.Accepted are about `create` and `attach`.
-- - Replication (src/replication.rs): Replication.Bytes, Frame and Geometry are the wire; Source and Serve what
--   the source reads and sends, Ring and Mirror the mirror's ring and its handlers, Mirror.Step the TCP
--   side. Mirror.Apply, Session and Control are about datagrams and control frames, Mirror.Stream about a
--   TCP stream, and Copy joins the two ends. Methods that fail keep what they changed (Action).
--
-- Integers are natural numbers with the wrap-around of their width written out, as in a release build.
-- Loops that wait for other processes are on fuel: `next_item` needs `newest + 2` rounds, with `newest`
-- the last message that is published while it runs, and so does `next_blob`; `wait_for_headroom` needs one round more than the
-- scans that find no room. Memory is sequentially consistent, one access at a time; fences and memory
-- orders are not modelled. A scan of the registry by `min_cursor` takes one moment. `kill(2)` is a
-- parameter. What sockets deliver is an argument, and `run` ends within as many rounds as the stream has
-- bytes, and one more. Files, mappings, sockets, futexes and sleeping are not modelled, nor are
-- the handshake and the UDP sender of replication, the async ring and the bindings.
pub mod Prelude
pub mod Constants
pub mod Errors
pub mod Header
pub mod Slot
pub mod Window
pub mod Consumer
pub mod Names
pub mod Registry
pub mod Producer
pub mod Arena
pub mod Delivery
pub mod Create
pub mod Mpmc
pub mod Checkpoint
pub mod Attach
pub mod Blackboard
pub mod Replication
pub mod BlobRing
pub mod Multiplexer
pub mod Signature
pub mod Wait
