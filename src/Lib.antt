-- ===== src/Lib.antt =====
-- The HTTP library hyper of this repository, modelled and verified: the framing of HTTP/1
-- messages, the buffers and bodies they run through, the state of an HTTP/1 connection and the
-- dispatcher that drives it, the channel of a client's requests, the pings of an HTTP/2 connection and
-- the pool of a client.
--
-- A connection (src/proto/h1/conn.rs) reads heads and bodies through a buffer (src/proto/h1/io.rs)
-- and writes them to it. A head is parsed by the connection's role, client or server
-- (src/proto/h1/role.rs), which finds the body's length in the header values (src/headers.rs) as a
-- DecodedLength (src/body/length.rs). The body then runs through a Decoder
-- (src/proto/h1/decode.rs); a body that is sent runs through an Encoder (src/proto/h1/encode.rs).
--
-- A dispatcher (src/proto/h1/dispatch.rs) drives a connection: it hands the heads that are read to a
-- Dispatch, which calls a server's service or answers the request that a client took from its channel
-- (src/client/dispatch.rs), asks it for the messages to write, and moves the bytes of the bodies
-- (src/body/body.rs).
--
--   Body.antt             src/body/length.rs, a length in one u64 with two reserved values;
--                         Body/Stream and Body/Sender for src/body/body.rs, Common/Watch for the
--                         src/common/watch.rs below it
--   Http.antt             what the code sees of the http crate: methods, versions, header lines
--   Headers.antt          src/headers.rs
--   H1/MemRead.antt       the trait MemRead of src/proto/h1/io.rs with the laws a reader keeps
--   Common.antt           src/common/buf.rs with the interface of a buffer that it calls, and
--                         src/common/io/rewind.rs; Common/Drain for src/common/drain.rs
--   H1/Io.antt            src/proto/h1/io.rs: its reading half, which fills the interface of a reader;
--                         Io/Parse for parse and the timer for a head, Io/Write for what waits
--                         to be written, Io/Flush for poll_flush
--   H1/Decode.antt        src/proto/h1/decode.rs, one function for each state of a chunked body
--   H1/Encode.antt        src/proto/h1/encode.rs; a Buf stands as the bytes it holds
--   H1/Error.antt         the errors of src/error.rs that the others look at
--   H1/Role.antt          src/proto/h1/role.rs: Role/Server for Server::parse, Role/Client for
--                         Client::decoder and Client::set_length, Role/Responses for
--                         Client::parse, Role/Reply for Server::encode
--   H1/Conn.antt          src/proto/h1/conn.rs: Conn/State for its State, Conn/Write and Conn/Read
--                         for its operations, Conn/Steps for the runs that
--                         src/proto/h1/dispatch.rs can make of them
--   H1/Dispatch.antt      src/proto/h1/dispatch.rs, what drives a connection: Dispatch/Read,
--                         Dispatch/Write and Dispatch/Poll for the Dispatcher, Dispatch/Client and
--                         Dispatch/Server for the two dispatches; the others relate its polls to
--                         the steps of Conn/Steps
--   Client.antt           src/client/dispatch.rs, the channel from a handle to the connection's task
--   H2.antt               src/proto/h2/ping.rs: the pings of an HTTP/2 connection
--   Pool.antt             src/client/pool.rs: the state a client's pool shares behind its lock, and what
--                         is done to it
--   Examples.antt         tests, and the theorems at concrete inputs
--
-- A function's name is its Rust name. `&mut self` is a state passed and returned; `Poll`, `Result` and
-- `Option` are data, with `none` also where the code panics, as a comment says at each place. An
-- operation of several matches has one helper for each, which takes the value that is matched on.
--
-- Numbers are natural numbers. A u64 wraps or is checked where the code does so; the number of bits
-- of a usize is a parameter of the decoder of a body, and the chunk size is printed with at most 16
-- digits. Five loops run on fuel, each on one more than a number that is proved to be enough: the loop
-- of a chunked body on the unread bytes, a flush on the bytes that wait, the copy of a buffer on its
-- bytes, parse on the bytes that the read buffer may still take, and a client's parse on the bytes of
-- the buffer. The two loops of a dispatcher run on fuel too, which is left open: whether they end is
-- up to the transport and the bodies, and a call whose fuel is spent gives the state that it has
-- reached. The other loops recurse on a list.
--
-- What is not under src/ is a parameter: the transport below the buffer and the room that BytesMut
-- makes, the buffers of a body, the parser httparse, `HeaderValue::to_str` and the URI parser of the
-- http crate, the channels of a pool's waiters, of a body and of a client's requests, the demand
-- signal of the crate want, the user's service and bodies, the clock, the pings of the h2 crate and
-- the operations on floating point numbers. A connection takes the calls it makes of its buffer and
-- its role as the record Transport. Debug assertions are left out.
--
-- Not modelled: the HTTP/2 connections but for their pings; what the client and the server put around
-- their connections, such as retries, accept loops and builders; sockets and DNS, the C interface, the
-- casing of header names and upgrades.
pub mod Base
pub mod Poll
pub mod Common
pub mod Body
pub mod Http
pub mod Headers
pub mod H1
pub mod H2
pub mod Pool
pub mod Client
pub mod Examples
