-- ===== src/Lib.antt =====
-- iridium_stomp: an asynchronous client library for STOMP 1.2 (src/, a crate in Rust).
--
-- The program. A byte stream is cut into frames by a codec (src/codec.rs) over a slice parser
-- (src/parser.rs); a frame is a command, headers and a body (src/frame.rs). `Connection::connect`
-- (src/connection.rs) performs the handshake, negotiates heart-beats and starts a background task.
-- The application's calls (send, subscribe, ack, receipts) change state that is shared behind locks
-- and put items on a bounded channel; the task writes them to the broker, dispatches what the
-- broker sends to the subscriptions' bounded channels, parks what does not fit, tracks what is to be
-- acknowledged, gives up failing subscriptions, and reconnects with a back-off.
--
-- Which file models what.
--   Base             shared names, results, lists on native numbers, association lists for the
--                    `HashMap`s (in the order of iteration), and strings as lists of UTF-8 bytes
--                    with the functions of Rust's standard library that the code calls
--   Frame            src/frame.rs
--   Parser           src/parser.rs; a position in the slice is the position and the bytes behind it
--   Codec            src/codec.rs; a `BytesMut` is the list of its unread bytes
--   Heartbeat        src/connection.rs: Heartbeat, parse_heartbeat_header, negotiate_heartbeats
--   Channel          the interface of tokio's bounded channels and of a framed sink, which are not
--                    part of the repository: operations with the laws that the proofs use, filled by
--                    Channel/Bounded for the tests
--   Subscription     src/subscription.rs: options, modes, reasons for an end
--   Delivery         src/connection.rs: Overflow, drain_overflow, park, deliver_and_keep
--   ServerError      src/connection.rs: ServerError, ConnError, ReceivedFrame
--   Outbound         src/connection.rs: Outbound, writable_in
--   Pending          src/connection.rs: PendingMessage and the middle part of `acknowledge`
--   Registry         src/connection.rs: the map of subscriptions
--   Client           src/connection.rs and src/subscription.rs: the calls of the application, on the
--                    state that the handles share
--   Handshake        src/connection.rs: ConnectOptions, build_connect_frame,
--                    await_connected_response, and the retries of connect_with_options
--   Task             src/connection.rs: the task spawned by connect_with_options. Task/Message,
--                    Delivering, Dispatch and Errors have the handling of a frame, Lifecycle the other
--                    branches, the start and the end of a connection; Steps puts the branches, the
--                    calls and the reconnects together as a step relation. Keeping is the interface
--                    of what all events but `subscribe` keep of the registry; Queues and Registered
--                    fill it
--   Cli              src/bin/cli, the command line client. Cli/State, History, Text and Summary have
--                    state.rs; Cli/Commands commands.rs; Cli/Keys the handling of keys in tui.rs, Panes
--                    and Bars what it shows, Tasks what its tasks do, and Keys/Screens its run;
--                    Cli/Plain plain.rs, with its run in Plain/Loop; Cli/Startup what both runs share;
--                    and Cli/Plain/Oneshot oneshot.rs with the exit code of stomp.rs
--   Tests            runs at concrete inputs, and each theorem at one
--
-- State and errors. A stateful call is a function from the state to the state and a result. A lock
-- is held for a whole call or branch where the code holds it for the reads and writes that matter,
-- and what interleaves are calls and branches. A failure is a constructor with the values that its
-- message prints. A panic of a slice out of bounds is a result of its own.
--
-- Numbers. All are native naturals. A `usize` and a `u64` have 64 bits: `checked_add`, the counters'
-- `fetch_add` and `parse` keep that bound. The session number and the warning marks are taken not
-- to reach it.
--
-- Fuel. The doubling of a warning mark runs on fuel, one more round than the queue is deep,
-- which `double_past_lem` shows to be enough; the chunks of a text on its number of characters, which
-- `char_wrap_lem` shows to be enough. The other loops are structural.
--
-- Parameters. The full Unicode `str::to_lowercase`, where the code indexes by it, is an argument
-- (`lowercase`); comparisons with an ASCII name in lower case are written out.
--
-- Of the command line client the clock, the formats of dates, the file system's answer, and the kind
-- of an I/O error are arguments; what is printed is kept as lines. Its counters wrap, as in a release
-- build, and its clock is taken not to run backwards. A panic of `String::insert`, `String::remove` or
-- an index is `none`.
--
-- Not modelled: log output, TCP and timers (what they answer is an argument), the broadcast channel
-- of the shutdown (the task's end is a step of its own), the receiving ends of the channels, and of
-- the command line client the parsing of arguments and the drawing on the terminal. What its tasks
-- do comes, with what is typed, in a sequence of events.
pub mod Base
pub mod Frame
pub mod Parser
pub mod Codec
pub mod Heartbeat
pub mod Channel
pub mod Subscription
pub mod Delivery
pub mod ServerError
pub mod Outbound
pub mod Pending
pub mod Registry
pub mod Client
pub mod Task
pub mod Handshake
pub mod Cli
pub mod Tests
