-- ===== src/Lib.antt =====
-- Remote screen capture: clients that send PNG images of their screens, and a server that saves them.
--
-- The program has three parts. common/ holds the command line, a logger and an owner of system
-- resources. client/ connects, sends an authentication request, waits for one byte of answer, and
-- then sends an image each period until its flag is set. server/ is one thread around epoll: it
-- accepts connections, keeps a session for each, and each session receives bytes, cuts them into
-- messages, checks requests, and saves images. The protocol is that of server/src/server/server.h:
-- a kind ('A' or 'I'), a length of four bytes with the highest first, and the payload.
--
--   Base            numbers, Boolean tests, lists, bytes, tables and decimal texts, which all share
--   Session         server/src/server/session/session.h and session.cc: State (Message, Session),
--                   Buffer (Peek and Pop functions), Parser (ParseMessage), Socket (TryRecv,
--                   TrySend, SendAuthResponse), Auth (HandleAuthRequest), Files (SaveScreen);
--                   Framing is the protocol as a specification, and its children, Chunks and
--                   Halting are about the parser against it; AuthLaws, AuthSound, AuthDecides,
--                   Keeps, Transfer, Sending, Handled, Paths and Escapes are about the other
--                   functions
--   Server          server/src/server/server.h and server.cc: State, Handlers (the handlers of an
--                   event), Connections (AcceptNewConnections), Run (set-up, EventLoop, Run);
--                   Invariant, Events, Service and History are about what every step keeps,
--                   Isolation about what it leaves alone; Loops, Starts and Stopping are about
--                   EventLoop and Run; Arrivals and Fronts are about an event that brings frames,
--                   and Images, Answers and Unnamed about what it then handles; Interleaving has
--                   one client's events among those of all others, and Gallery, Requests and Stuck
--                   follow a client's messages through it
--   Client          client/src/client/client.h and client.cc: State, Setup, Messages
--                   (CreateAuthenticationRequest, CreateImgMessage), Socket (SendAll, RecvAll),
--                   Loop (TryAuthenticate, WaitLoop, SendLoop, Run); Transfer, Traffic, Whole and
--                   Runs are about what a client puts on its connection, Stopping about the end
--                   of SendLoop; Lines has the texts of what is printed, as in Session and Server
--   Conversation    a client and the server together: its child Agreement is about the answer at
--                   both sides, and Delivery about what the client's SendLoop then sends
--   Signals         `signal_handler` and `stop_flag` of server.cc and client.cc; Delivery is about
--                   the flag after a list of signals
--   InputParser     common/src/input_parser.cc, and what main makes of it; Bounds,
--                   ClientInvariant and ClientOptions are about a client's options, Decimals and
--                   ServerOptions about numbers and a server's port
--   ScreenGrabber   client/src/client/screen_grabber/screen_grabber.cc; Rows is about the array
--                   filled by index, Colours has the colours of an X image as a specification,
--                   and Pixels is about the pixels and the whole of GrabAsPNG; Scoped is
--                   GrabAsPNG with its owners of the display and the image, and Releases is about
--                   what they free
--   UniqueResource  common/include/unique_resource.h and common/src/resource_factory.cc
--   Logger          common/src/logger.cc; Timestamp is GetCurrentTimestamp, and Stamps is about the
--                   names of files
--   Tests           the theorems at concrete inputs
--
-- State is passed explicitly. A session carries traces of what it does outside: the bytes that
-- `send` has taken, the lines printed, the files written. What the system answers is an argument:
-- a list for the calls of one loop (`recv`, `send`, `accept`), a value for single calls. Where such
-- a list ends, a non-blocking socket has nothing more to give (EAGAIN), and a call on a blocking
-- one has not returned. What a function throws is a value, and so are a parser that does not end
-- and the front of an empty queue, which the source would read without a check.
--
-- The loop of `ParseMessage` is on fuel: `parse` gives a round to each byte of the request and one
-- more, since a round that goes on takes a whole frame, and Session/Halting says when no fuel
-- would do. Every other loop is structural in the answers of the system.
--
-- A `uint8_t` is a number, and a theorem that needs one below 256 says so; `uint16_t` and
-- `uint32_t` values are written out with their wrap-around where the source converts. An
-- `unordered_map` is an association list, so the order of the missing options in an error is fixed
-- here. `std::filesystem::path` is its text on a POSIX system, and `std::stoi` is as documented.
--
-- The sizes of a screen are numbers; where a product of them is beyond `int`, the source is
-- undefined. The theorems about the pixels therefore have a hypothesis, `IsImageOf`: the count of
-- all bytes is an `int`, and the image is as X11 documents it, rows of bytes with room for their
-- pixels.
--
-- server.h says that `Run` throws on an error of initialisation, and SetupServerSocket on any option
-- that cannot be set; the model follows server.cc, where `Run` catches and prints the error, and
-- only SO_REUSEADDR is required.
--
-- Not modelled: X11 and the third-party PNG encoder, whose results are values here; the clock and
-- the time zone, whose result is a `Tm`; the texts of `strerror`, which are a parameter. A line that
-- is printed is a value by the place that prints it, and the modules Lines give its text.
pub mod Base
pub mod Session
pub mod Signals
pub mod Client
pub mod Server
pub mod UniqueResource
pub mod Logger
pub mod InputParser
pub mod Conversation
pub mod ScreenGrabber
pub mod Tests
