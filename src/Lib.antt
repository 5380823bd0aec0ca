-- ===== src/Lib.antt =====
-- floki: a message queue on disk, with channels that read it at their own pace.
--
-- The program (`Cargo.toml`, sources in `src/`) keeps each queue as a log of segment files.
-- Clients push messages, and get and acknowledge them through channels.
--
-- Bytes, Message: a mapped file as a function from offsets to bytes, the packed header of
--   `src/queue_backend.rs` and the writes and reads that the program makes by pointers.
-- OffsetIndex: `src/offset_index.rs`.
-- Segment: `Segment` of `src/queue_backend.rs`, one function for each method. `Segment.open_file` is
--   `Segment::open`, and `Segment.recover_round` is one turn of the loop in `Segment::recover`.
--   Segment.Chain relates the bytes of a file to the fields of a segment.
-- Backend: `QueueBackend` of the same file, with `recover`, `checkpoint` and `gc` in Backend.Upkeep;
--   Backend.Search is about `find_id_for_timestamp`.
-- Rev, Heap: `src/rev.rs` and the heap of a channel.
-- Collections: the map of messages in flight, an interface that its crate has to meet.
-- Channel, Queue: `Channel` and `InnerQueue` of `src/queue.rs`. What `InnerQueue::get`, `ack` and
--   `seek_channel_to_id` do with the channel that they find is in Channel.
--   Queue.Access has which state of the lock each method of `Queue` takes.
-- Config: the settings of a queue, and the parsing of sizes and durations, of `src/config.rs`;
--   Config.Reading has `ServerConfig::read` and the settings of the queues on disk.
-- Atom, Directories: `src/atom.rs`, and the functions of `src/utils.rs`; the attempts to make a
--   directory may go on for ever, and so are bounded by any number that is asked for.
-- TristateLock, Cookie: `src/tristate_lock.rs` and `src/cookie.rs`.
-- Decimal: numbers as the standard library writes and parses them.
-- Protocol: `src/protocol.rs`, one function for each method of `Parser`, but `parse_array`, which
--   is in `parse_value` and `parse_items`. Protocol.Requests is `RequestBuffer`, Protocol.Responses is
--   `ResponseBuffer`.
-- Server: `src/server.rs`. Server has the tables of waiting clients, Server.Clients `Client` and
--   `ServerHandler`, Server.Clients.Ready what happens on a socket's events, and the modules of
--   Server.Commands the commands of `Dispatch`: Messages, Meta and Settings. A worker's notices to
--   the event loop are a list, and the event loop takes them one at a time by `handle_notify`.
--   Server.Start is `Server::new` from the settings and the disk, with the turns of the threads of
--   maintenance and monitoring, and `Server::info` and `config_set`. Server.Deletion has the meta
--   lock and the `Arc`s of `create_queue`, `delete_queue`, `create_channel` and `delete_channel`.
-- System: the parts of `src/server.rs` together. System.Steps has the steps of the workers, of the
--   two threads and of the event loop on the queues, the notices on their way and the event loop's
--   tables; what a holder of the meta lock has still to send or to store is in System.Locking.
--   System.Shape and System.Commands forget all but the names of queues and channels.
-- Prelude: names of the library, Boolean tests, lists on the native numbers, and `Outcome`, which has
--   a panic as a value.
-- Tests: runs of the theorems at concrete logs, channels, requests and clients.
--
-- A push, a get or a recovery works on the whole state that it is given and returns the new one. A
-- failed `assert!`, an `unwrap` of nothing and a read past a mapped file are `panic`. Fixed-width
-- arithmetic wraps, as in the release profile. A loop that needs fuel gives itself that fuel: the
-- loop of a recovery the length of the file, since each message takes 20 bytes at least, and the
-- search for a timestamp the width of its window. A parse gets twice the number of its bytes and
-- one more, for each value takes a byte at least and each turn over an array's values a unit more.
-- Running out of fuel is a result of its own, `done none`, and of a parse `exhausted`.
--
-- Parameters, since their code is not in this repository: xxHash as `xxhash`, the crate linked-
-- hash-map as a record of operations with the laws of its documentation, the file that is opened
-- as an argument of `create`, `open_file`, `push` and `recover`, a random ticket as an argument
-- of `get`, the lowercasing of a text, the check for UTF-8, the greatest allocation that is
-- granted, the time, the TOML crate, paths, what the disk holds, mio's timers and the bytes on
-- its sockets, the tendril crate, what the file system answers, and JSON texts. A ticket that is
-- not in use is a hypothesis where it matters. The JSON files are taken to give back what was
-- written.
--
-- Not modelled: the thread pool, the sockets and timers of the event loop, the logging, and the order in
-- which a crash loses writes. They are input and output, or are left for an extension of this library.
pub mod Prelude
pub mod OffsetIndex
pub mod Bytes
pub mod Message
pub mod Config
pub mod Segment
pub mod Backend
pub mod Rev
pub mod Collections
pub mod Heap
pub mod Channel
pub mod Queue
pub mod Atom
pub mod Directories
pub mod System
pub mod Tests
pub mod Cookie
pub mod TristateLock
pub mod Decimal
pub mod Protocol
pub mod Server
