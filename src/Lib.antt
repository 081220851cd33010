-- ===== src/Lib.antt =====
-- rAMQP: an AMQP 1.0 engine (ramqp-core), a client (ramqp) and a broker (ramqp-broker) in Rust.
--
-- The engine turns bytes into frames (transport/frame.rs) and values (codec/value.rs), negotiates a
-- connection (connection/negotiate.rs), and keeps the state of sessions and links (session/, link/):
-- what may be sent under the windows and the credit, how a message is split into transfer frames and
-- put together again, what is unsettled and who waits for it. The client and the broker drive that
-- state from one task for each connection. A queue of the broker is an actor of its own (queue.rs)
-- that stores messages, bounds its depth, hands messages to consumers with demand, and settles them.
-- A durable queue (durable.rs) keeps its bodies in the store of the node (store.rs), whose writer
-- commits what many queues sent it in one batch; a publish is confirmed after its commit.
--
-- Files and what they model; a name of the code in camel or snake case keeps its words.
-- Common: lists, association lists for maps, 32- and 64-bit words with their wrapping and saturating
--   operations written out, and Boolean tests on the numbers.
-- Core/Codec: ramqp-core/src/codec. Reading is the checked reads of decode.rs on the list of the bytes
--   left, Utf8 the checks of the standard library, Primitives the scalar encodings of encode.rs, Value
--   the data type and the encoder of value.rs, Value/Decode its decoder. Value/Encodable says which
--   values are encoded without loss; Scalars, Bodies, Arrays, RoundTrip and DescribedArray are proofs.
-- Core/Transport: ramqp-core/src/transport/frame.rs. Frame is the frame codec over any two
--   functions that write and read the bodies; Writing is the write side of FramedTransport,
--   Reading its read loop on the reads of the stream; Gather, Wire, Heads, Splitting and
--   Delivery are proofs.
-- Core/Performatives: the frame bodies and delivery states that a session reads, of
--   ramqp-core/src/types. Core/Outcomes lists the outcomes among the delivery states.
-- Core/Window, Credit, Unsettled, Resume, Allocator, Negotiate, Heartbeat: session/window.rs,
--   link/credit.rs, link/settlement.rs, link/resume.rs, session/registry.rs with connection/mux.rs,
--   connection/negotiate.rs and connection/heartbeat.rs of ramqp-core/src, with their proofs.
-- Core/Session: ramqp-core/src/session/state.rs with link/sender.rs and link/receiver.rs. State holds
--   the data; Names, Links, Accepting, Sending, Receiving, Inbound, Settling and Flowing the
--   operations; the other children are proofs. An operation takes the session and returns it with the
--   frames, answers and events it emits, an error of the connection, or a panic.
-- Broker/Policy, Dispatch, Queue: policy.rs, dispatch.rs and queue.rs of ramqp-broker/src. A turn of the
--   actor takes one message with the clock and the channels that are closed.
-- Broker/Store, Durable: store.rs and durable.rs of ramqp-broker/src. Store holds the tables, the
--   operations and a commit of the writer; Durable/State the actor with the channel of the writer, the
--   removals that wait for the dead-letter router and the tables; Handle, Dispatching and Run its
--   turns, the events of the node in any order, crashes among them, and recovery. The other children
--   follow one message through these: Sound is the invariant, Losses what it gives.
-- Broker/Cluster/Paging: cluster/paging.rs of ramqp-broker/src, the segment files that the bodies of a
--   deep queue are spilled to. Reading makes its calls, with the references that the queue holds.
-- Broker/Cluster/QueueGroup: cluster/queue_group.rs of ramqp-broker/src, the state that the replicas of
--   a quorum queue agree on. Ledger is the queue as if all bodies stayed in memory; Pairs relates the
--   messages to it, Refinement follows one command, Replicas and Returning whole runs. Snapshots holds
--   the portable form of a state and Foreign where it may go.
--
-- Bounds and fuel. Numbers are natural numbers with the width of the source written where it wraps or
-- saturates; a session's ids and windows have 32 bits, the queue's counters 64, usize 64. The chunks of
-- a message take as many rounds as it has bytes, since a chunk has at least one. A value is decoded on
-- 65 levels, the depths 0 to 64 that the source allows. The dispatch of a queue has one round more than
-- there is demand, since a round that goes on takes one unit of it. A UTF-8 check takes a round for
-- each byte. All other loops recur on what they consume.
--
-- Not modelled: sockets, timers, tasks and channels, which stand as arguments and results; the typed
-- codecs of the composites, of which the theorems on frames ask what they state; the driver, the client's API and resilience, SASL, the broker's
-- connections, the consensus of quorum queues, the rest of the cluster and its administration. Metrics,
-- the text of errors and the capacities of buffers change no result and are left out.
pub mod Common
pub mod Core
pub mod Broker
