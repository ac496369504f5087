-- ===== src/Lib.antt =====
-- stugan is an IRC bouncer in Go. The process that talks to people's clients is restarted for
-- every upgrade; a second, small process, the engine, holds the sockets to the IRC servers, so
-- that a restart loses no connection and no line. The two speak a protocol of JSON frames over a
-- link. The engine numbers and buffers every line that a server sends until the application
-- acknowledges it, answers pings itself, and remembers enough of the registration that a new
-- process can take the connection over.
--
-- The parts and their files:
--   EngineProto        internal/engineproto/proto.go: the frame and how a line is carried in it.
--   Engine.IrcLine     internal/engine/ircline.go: `parseLine`, `fold`, `rewriteTarget`.
--   Engine.Buffer      internal/engine/buffer.go: `lineBuffer`, the backlog of one connection.
--   Engine.Session     internal/engine/session.go: a held connection. State is the record and its
--                      life (`newSession`, `dial`, `shutdown`, `enqueueWrite`); Track is `track`;
--                      Stream is `ingest`, `pull` and `ack`; Attach is `attachLocked` and
--                      `detachLocked`; Steps is what may happen to a session, in any order,
--                      with a log of the lines that went out; Steps.Accounts says what became of each.
--   Engine.Server      internal/engine/server.go: the registry, `handleFrame` and its handlers,
--                      `reap`; and `reclaim` of buffer.go.
--   EngineLink.Tags    internal/enginelink/tags.go: the tags that the relay adds to a line.
--   EngineLink.Session internal/enginelink/session.go: a connection as the IRC client sees it. Write is
--                      `Write` and `isPong`; Read is one round of the loop of `Read`. A frame that
--                      the link takes is in `sent`. Acks is on `Ack` and `flushAcks` of link.go;
--                      Read.Events is what may happen to a session that is read from.
--   IrcServer          internal/ircserver/parse.go: lines from people's clients and to them, tag
--                      values, logins and credentials; Caps is isupport.go beside it.
--                      Login.Bound is on the logins that Core.Bouncer makes.
--   IrcServer.Client   internal/ircserver/session.go: a client until it is registered. Caps is
--                      `handleCap`; Sasl is `handleSasl` and `finishSaslPlain`; Register is
--                      `authenticate` and `completeAttach`, with `handlePreRegistration` in
--                      Register.Commands; Vouched.Serve is the loop of `serve`; Reassembly joins the two ends
--                      of a SASL response. BouncerAllowed of internal/server/prefs.go is here too.
--   Irc.Sasl           internal/irc/sasl.go: `sendChunked` and the PLAIN response.
--   Core.Bouncer       internal/core/bouncer.go: the networks of a bouncer, their attributes, and the
--                      commands on them; Core.Network is the settings of a network and
--                      `AddNetworkLive` of internal/core/engine.go.
--   Core.ChatHistory   internal/core/chathistory.go: catching up after an absence (`onHistoryBatch` and
--                      `catchUpBuffer`), and the command /chathistory. Core.Names is `FoldIRC` of
--                      internal/core/sink.go and the tests on buffer names of engine.go.
--   Core.Autojoin      internal/core/types.go: the channels that a network joins by itself, and their keys.
--   Web.RateLimit      internal/server/ratelimit.go: the limiter of failed logins.
--   Web.ClientIp       the same file's `clientIP`, the address that a request is counted under.
--   Go                 what the code uses of Go's standard library: strings, bytes, sort.Search.
--   Base               shared names, tests, words and lists.
--
-- A text is a list of bytes. Code that holds a lock is a function of the state behind the lock;
-- what it does outside is in its result: frames for the link, or effects (`notify`, the reclaim of
-- the shared budget, a closed socket). The clock and the choice of a `select` are arguments. Machine
-- words wrap where the code adds or subtracts (Base.Words); a theorem that needs a number not to
-- wrap says so. A Go map is a function or, where its order shows, a list.
--
-- Fuel: a loop over a text has the text's length, which every round shortens; shedding has the
-- backlog's length, and every round drops a line; `drain` has the number of rounds as an argument,
-- and one more than the lines owed is enough.
--
-- A handler is one step. Reaping is one too, though the code frees the lock of the registry between finding
-- the sessions to end and ending them; what may happen in between is not modelled.
--
-- Not modelled: sockets, goroutines and their scheduling beyond the order of the steps, JSON, and
-- the rest of the application process (most of core, plugins, store, web server, terminal), which uses
-- the engine through the link. What stands for code outside the repository is a parameter: `ToUpper` of
-- a text that is not ASCII, the check of an address, decimal numbers and formatted times, base64, the
-- password hash and the user store. Of a client session, what the bursts, the playback and the
-- heartbeat say is not modelled, nor the pauses and the log; that a burst is due is an item of the output.
pub mod Base
pub mod Core
pub mod Engine
pub mod EngineLink
pub mod EngineProto
pub mod Go
pub mod Irc
pub mod IrcServer
pub mod Web
