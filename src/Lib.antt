-- ===== src/Lib.antt =====
-- kratos-transport-rpc: requests and responses over an MQTT broker, a websocket-like connection that
-- carries bytes, and the generator of the bindings that register handlers.
--
-- How the parts interact. A client's Invoke (server/mqtt/client.go) writes a request as text into a
-- bytes.Writer and publishes it on a topic; the handler that RegRoute (server/mqtt/server.go)
-- subscribes reads it by ReadRequest (server/mqtt/request.go) over a bufio.Reader, and publishes a
-- response of the same form. Both publish and subscribe through the transport server, which keeps
-- the subscriptions and restores them when the broker's client connects. Conn
-- (server/mqtt/conn.go) is the connection of frames, over a bufio.Reader and a bufio.Writer.
--
-- Files:
--   Prelude     helpers on numbers, lists, slices, tests, texts and maps of association lists
--   Io          io.Reader and io.Writer as step functions on a state of their own, the contracts that
--               the Go documentation gives for them, errors, and Outcome: a result with the states
--               behind it, a panic, or a loop whose fuel has run out
--   Io.Memory   a reader (strings.NewReader) and a writer in memory, which keep the contracts
--   Bufio       server/mqtt/bufio/bufio.go: Reader is its type Reader (fill, Peek, Pop, Discard, Read,
--               ReadByte), Lines its ReadSlice and ReadLine, Writer its type Writer
--   Conn        server/mqtt/conn.go: headers, bodies, masks and frames; Conn.Message is ReadMessage
--   Pool        server/mqtt/bytes/buffer.go: the free list of buffers, a heap of nodes with addresses
--   ByteWriter  server/mqtt/bytes/writer.go
--   Wire        the messages of server/mqtt/server.go and server/mqtt/client.go as text
--   Request     server/mqtt/request.go
--   Rpc         the handler of RegRoute in server/mqtt/server.go with server/mqtt/route.go, the
--               response callback of Send in server/mqtt/client.go, and Marshal of broker/encoding.go;
--               Rpc.Setup is NewServer, Start and Stop with server/mqtt/options.go, and InitServer of
--               transport/mqtt/server.go; Rpc.Signals is the callback when nobody receives
--   Context     server/mqtt/context.go: Params.Get, Params.ByName, HandlersChain.Last
--   Clock       appendTime of server/mqtt/server.go
--   Broker      broker/mqtt/cache.go, broker/mqtt/utils.go, and FindHeader of broker/mqtt/mqtt.go
--   Settings    broker/options.go and broker/mqtt/options.go; Settings.Client is newClient, newBroker and
--               Init of broker/mqtt/mqtt.go, Settings.Messages its Publish and Subscribe with their
--               options, Settings.Server transport/mqtt/options.go with NewServer and Endpoint
--   Reuse       the pools of readers and writers of server/mqtt/server.go
--   Transport   transport/mqtt/server.go over Connect, Disconnect, publish and Subscribe of
--               broker/mqtt/mqtt.go; Transport.Tokens is its ConnectRetry and loopConnect
--   Generator   cmd/protoc-gen-go-mqtt/mqtt.go and template.go; Generator.Paths is its buildPathVars and
--               replacePath, with the regular expressions of Generator.Regexp; NameChars is on the names that the
--               first gives to the second
--   Stubs       cmd/protoc-gen-go-mqt/mqt.go: the lines of a generated file, by method (ClientText,
--               ServerText), service (ServiceText) and file (FileText), and the indices of its stubs
-- Each file opens with the code that it is about. A definition has the name of its Go function in
-- snake case; a method takes its receiver as an argument and returns it changed.
--
-- Numbers and bytes are natural numbers; where Go's width matters, in the headers of Conn, the
-- remainder that a conversion takes is written out. A slice is a list, an array that is overwritten in
-- place is a list of its full length, and an index out of range is a panic.
--
-- Fuel. A loop of bufio takes as many rounds as the buffer has bytes, plus two: each round but the last
-- takes a byte or fills the buffer further. fill makes the 100 tries of its source. ReadMessage takes
-- 102 rounds, for it stops with an error after 100 continuation frames; reading one frame takes as many
-- rounds as pings may come, which the theorems take from the input. ReadRequest takes as many rounds
-- as the text has bytes, plus one, since a round takes a byte or is the last; four are enough for the
-- messages of Invoke. A loop that connects has a round for each attempt.
--
-- Parameters, for code outside the repository: the io.Reader and io.Writer that a client gives, the
-- MQTT client library (whether it connects, publishes and subscribes), the codecs, the handlers that
-- the generated code registers, the clock, and the operating system's connection.
--
-- Not modelled: goroutines but that of ConnectRetry, and channels (the lock of Pool makes its
-- operations single steps; the channel of Send is the number of values in it, where its callback
-- waits when it is full, and the wait of Send itself is left out), timers, logging, TLS, the text that
-- the template of the generator prints, replacePath for a name with characters that the pattern of
-- buildPathVars does not take, server/mqtt/internal (copies of packages of Go's net/http that nothing
-- calls), cmd/kratos (a copy of the command line of go-kratos) and generated code.
pub mod Prelude
pub mod Io
pub mod Bufio
pub mod Conn
pub mod Pool
pub mod ByteWriter
pub mod Wire
pub mod Request
pub mod Broker
pub mod Transport
pub mod Generator
pub mod Rpc
pub mod Context
pub mod Clock
pub mod Stubs
pub mod Settings
pub mod Reuse
