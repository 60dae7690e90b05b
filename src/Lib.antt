-- ===== src/Lib.antt =====
-- Orbit Transfer: a file goes from a sender to a receiver as symbols of a rateless fountain code,
-- over relays and, where possible, a direct channel. This library models the code of the crates
-- and proves what each part promises.
--
-- The parts, with the files of crates/ that they model:
--   Wire       orbit-protocol/src/wire.rs: the binary frames (encode, decode, parse_frame).
--   Simd       orbit-fountain/src/simd.rs: exclusive or of blocks, word by word.
--   Precode    orbit-fountain/src/precode.rs: the LDPC and HDPC checks.
--   Soliton    orbit-fountain/src/soliton.rs: degree and neighbours of a symbol.
--   Encoder    orbit-fountain/src/encoder.rs: FountainEncoder.
--   Decoder    orbit-fountain/src/decoder.rs: FountainDecoder, its graph and its ripple.
--   Transfer   an encoder's symbols fed to a decoder, with no file of its own in the code.
--   Relay      orbit-relay/src/lib.rs: Room, RelayCore::route, leave_room and handle_conn.
--   Crypto     orbit-crypto/src/lib.rs: SessionCipher.
--   Scheduler  orbit-transport/src/scheduler.rs: MultiPathScheduler.
--   Client     orbit-transport/src/client.rs: RelaySink and RelayStream.
--   Pipeline   orbit-transport/src/session.rs and direct.rs: the bounded queue of a path and the task
--              that drains it.
--   Direct     orbit-transport/src/direct.rs: recv_frames, the task that calls it, and
--              DirectWriter::try_send; Direct/Peer the
--              choice of TCP or QUIC by P2pChannel::connect and P2pListener::bind.
--   Session    orbit-transport/src/session.rs: SenderSession::dispatch, and the messages that
--              reach ReceiverSession::run; Session/Readers the tasks that read them.
--   Sender     orbit-transport/src/session.rs: the loop of SenderSession::run, turn by turn;
--              Sender/Watch the tasks that SenderSession::connect starts.
--   Receiver   orbit-transport/src/session.rs: ReceiverSession::run as a whole, with its statistics
--              and what follows its loop.
--   Connect    orbit-transport/src/session.rs: SenderSession::connect and ReceiverSession::connect.
--   Cli        orbit-cli/src/main.rs: the address that `orbit receive` listens on.
--   Wasm       orbit-wasm/src/lib.rs: the classes Fountain and Decoder of the browser.
--   Platform   what the crates take from others and from the machine: f64, ChaCha8, xxh3.
--   Prelude    tests, lists, little-endian bytes, exclusive or, sorted lists.
--   Examples   runs on concrete inputs.
--
-- How they meet: the encoder and the decoder both take their checks from Precode and their
-- neighbours from Soliton, so the decoder's equations speak of the encoder's inputs. The relay and
-- the sessions exchange the messages of Wire. The sender's loop asks the encoder for a symbol, seals
-- it with Crypto, and gives it to the path that Scheduler and `dispatch` choose; the relay carries it
-- (Relay/Carry), Client reads it, and the receiver hands what it opened to the decoder.
-- Receiver/FromSender puts the sender's and the receiver's `run` together, Receiver/OverRelay puts the
-- relay's routing and the frames in between, and Receiver/OverPaths the queues, several relays and the
-- frames of a direct link, in any interleaving. Connect/Whole starts from the two `connect`, and from relays that do not know the session.
-- Relay/Reach interleaves the relay's connections. Decoder/Peeling says which inputs
-- equations give at all; Transfer/Peeled compares the decoder with it.
--
-- Conventions. Bytes and machine integers are natural numbers; where the code may wrap around the
-- model writes the remainder. A panic is `none` in the fountain crate, `panic` in Wire and
-- `panicked` in Session. A hash map is an association list or a function, a hash set a list. The
-- random generator is a function of its seed and of the number of earlier draws. Queues and slots
-- keep the code's order. The reads of the `bytes` crate (`get_u64_le`, `split_to`) are written out
-- by their documented behaviour, a read past the end being a panic.
--
-- Bounds and fuel. The loops that draw until enough indices are new have no bound in the code; the
-- model gives them `Platform.rounds` draws and returns `none` when these are used up, so that a
-- theorem about a symbol has as a hypothesis that its draws ended. The ripple has as fuel one more
-- than the number of inputs, which the results below show to be enough. All other loops recurse on
-- their data or on a counter that the code itself has.
--
-- The environment. A turn of the sender's loop is a record of what it observes: the events that wait,
-- which paths are alive and have room, the direct link. The receiver is given the sequence of what
-- its `select!` yields. The watching tasks are given the sequence of what they observe, interleaved in
-- any order. The sockets of a direct link are functions, its byte stream the list of
-- what its reads return. Whether a Pong is still taken comes with its Ping.
--
-- Not modelled: sockets, TLS, timers and elapsed time, the parser of the command line and its output,
-- which are calls of other crates, and with them the relay's rate limiter, which sleeps for a time
-- computed in f64 from elapsed time, and the tasks that only wait on sockets and timers: the relay's
-- task that moves messages from a queue to a socket, the one that accepts direct links, the one that
-- advertises an address again. Handlers of one relay run one after the other, each whole.
pub mod Prelude
pub mod Wire
pub mod Simd
pub mod Pipeline
pub mod Connect
pub mod Platform
pub mod Precode
pub mod Soliton
pub mod Encoder
pub mod Decoder
pub mod Transfer
pub mod Examples
pub mod Relay
pub mod Crypto
pub mod Scheduler
pub mod Session
pub mod Direct
pub mod Client
pub mod Sender
pub mod Receiver
pub mod Wasm
pub mod Cli
