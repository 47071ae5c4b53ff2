-- ===== src/Lib.antt =====
-- Verification of the tunnel agent.
--
-- The agent keeps one TCP connection to a core server, which multiplexes the
-- requests of remote users over it as streams.  It forwards each request to an
-- HTTP service near it and sends the response back over the stream.
--
-- Parts, and the files that model them (paths from the repository's root):
--   * client/stream.go, StreamManager and Stream: Stream and its children.  The
--     manager's map is an association list from ids to store indices, as the
--     Go map holds pointers; the store keeps every stream ever made, so that a
--     goroutine that holds a pointer to a removed stream can still reach it.
--   * client/connector.go, Connector: Connector, Connector.Dialing
--     (Connect, connectWithRetry, Reconnect) and Connector.Writing (writeLoop).
--     The channel of outgoing frames is a list with a capacity; the channel of
--     a stream is that of Base.Channels, which can also be closed.
--   * client/dispatcher.go, Dispatcher: Dispatcher, over a host state that the
--     registered handlers change, with bytes as values; Dispatcher.Buffers is
--     the same loop on memory cells, with the buffers of the pool.
--   * client/auth.go, Authenticator: Auth.
--   * client/heartbeat.go, Heartbeat: Heartbeat.
--   * client/local_forward.go, LocalForwarder: Forwarder (the table, routing,
--     parsing, URLs and response texts) and Forwarder.Forwarding
--     (ForwardRequest).
--   * client/errors.go: Errors.
--   * internal/metrics/metrics.go: Metrics, on the words of Base.Words.
--   * internal/health/health.go: Health.
--   * internal/logger/logger.go: Logger.
--   * cmd/agent/main.go: Settings (flags, environment variables, the token),
--     Services (the lists of services) and Services.Remote (fetchRemoteConfig),
--     Monitoring (the answers of /metrics and /health), Globals (what the
--     packages keep in variables) and Agent: the state that main wires
--     together, Agent.Streams (handleStreamFrame), Agent.Forwarding (the
--     goroutine that forwards), Agent.Control (the control handler, the
--     callbacks of the connection, the first connection, reconnects and the
--     shutdown), Agent.Runs (runs of all of these on frames) and Agent.Network
--     (the agent as the host of the read loop, on the bytes of connections).
--
-- How they interact: Dispatcher.read_loop takes frames off the connection and
-- calls Agent's handlers; a stream frame changes the manager through
-- create_stream, deliver and close_stream, whose callbacks move the counters of
-- Metrics; a forwarding goroutine reads its stream, asks Forwarder for the URL
-- and answers through Connector.send_frame, whose queue the write loop empties.
--
-- Conventions:
--   * An operation takes the state and returns the new state with its result.
--     A mutex makes each call one step, so interleavings are lists of calls or
--     of events.  A panic of the Go runtime (a send on a closed channel, a
--     second close) is a value of the result.
--   * A goroutine that is started is an entry of the state. Agent.Network has
--     one read loop: a read loop that a later Start begins ends in its first
--     round, since the context stays cancelled.  The loop of the heartbeat is
--     Heartbeat.beat, a tick at a time, and no step of Agent.  The handler of
--     the read loop may wait in a select on a stream, which it holds
--     meanwhile.  A forwarding goroutine runs as one step, except that the
--     connector may change before each of its writes; a write loop is an event
--     at a time.
--   * The choice of a select with several ready cases, the order in which a
--     map is ranged over, and the results of network and clock are arguments,
--     so a statement for all of them is about every run.
--   * A frame is its fields.  Its payload is a slice, of which Frame has the
--     bytes and the number of the array behind them, when that is written to
--     again: only io.Copy's buffer is, and Stream.Writer writes it through to
--     the frames in the queue.  Elsewhere a frame that waits is as it was
--     handed over.
--   * An int64 counter is its bit pattern, with the wrap-around of % 2 ^ 64.
--     A duration is a number of nanoseconds.
--   * A text is a list of bytes, and the functions of Go's strings and bytes
--     that the agent uses are in Text, with white space and case of ASCII.
--   * A callback that its function calls last is returned as a call, which the
--     caller runs; other callbacks are called where the code calls them.
--
-- Bounds and fuel: the loops of connectWithRetry and readLoop have no bound in
-- the code.  The first runs over the list of its rounds, which may be too short
-- for it to end, and the second on fuel: a round for each frame, and one more for
-- the end of the connection.  strings.Split runs on the length of its text, as
-- every separator has a byte.  All other loops are structural.
--
-- Examples holds concrete values, tests of definitions, and for each result an
-- instance of it.
--
-- Not modelled: the encoding of frames (the package tunnel-protocol is a
-- parameter, Protocol, and its buffer pool is one of Dispatcher.Buffers),
-- encoding/json (a parameter of Auth and Services.Remote) and net/http (a
-- parameter of Forwarder.Forwarding, which reads a request's body through
-- Stream.Read, and of Services.Remote; Monitoring has no routing), since their
-- code is elsewhere; the parsing of the command line and of durations, which are
-- parameters of Settings; the layout that log/slog gives a record; and deadlines,
-- which are an outcome of reading.  The calls of the logger are left out of the
-- other parts, as nothing reads what they print.  The floating-point products of
-- the backoff are exact below 2 ^ 53 nanoseconds.
pub mod Base
pub mod Errors
pub mod Protocol
pub mod Logger
pub mod Metrics
pub mod Monitoring
pub mod Health
pub mod Globals
pub mod Stream
pub mod Connector
pub mod Auth
pub mod Heartbeat
pub mod Text
pub mod Dispatcher
pub mod Forwarder
pub mod Services
pub mod Settings
pub mod Agent
pub mod Examples
