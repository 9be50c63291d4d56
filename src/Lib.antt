-- ===== src/Lib.antt =====
-- Tentacle, an industrial IoT gateway: modules that scan devices, run PLC programs and publish
-- Sparkplug B exchange messages over a bus. This library models the parts with logic of their own,
-- translated from the Go code, and proves what they are to do.
--
-- The parts and the files
--
-- Prelude holds what all share: Boolean tests on numbers (Tests), lists measured by native numbers
-- (Lists), Go maps as association lists or total functions (Maps), integers (Int), bytes (Bytes).
--
-- Bus is internal/bus/channel.go, the bus of a process that holds all modules. Bus.Subject is
-- matchSubject; Subject.Matching has the rules of NATS subjects as a relation. Bus.Pubsub is Publish,
-- subscribe, removeSub and the choice of responders of Request: an operation returns the
-- subscriptions whose handlers it starts. Pubsub.Groups and Pubsub.Delivery are about who receives a
-- message, and Pubsub.Lifetime about unsubscribing and a request's inbox. Bus.Kv has the operations
-- on a bucket (KVGet, KVPut, KVDelete, KVKeys, KVWatch, Unsubscribe, expireTTL, save, load, KVCreate), with the
-- callbacks that they start as a list of events; Kv.Store has the operations of the bus on its
-- buckets and their snapshots. Kv.Reads is about reads after writes, Kv.Views, Kv.Following and
-- Kv.Watching about what a watcher knows, Kv.Lasting and Kv.Restart about persistence.
--
-- Mqtt.StoreForward is internal/mqtt/storeforward.go, the buffer that keeps Sparkplug messages while
-- the host is away, with reconcileSFState and drainLoop of internal/mqtt/bridge.go. Its state is the
-- record Buffer; each method is the function of its name, and a call that may panic returns none.
-- Its children are about bounds (Safety), what is held and counted (Held), order (Queue), the drain's end (Drain) and the
-- state's timeline (Timeline); Status is the snapshot that the API shows.
--
-- Modbus is the client of internal/modbus: Protocol the framing of protocol.go, Client one exchange
-- of client.go on a connection that is a list of chunks, Blocks the read plan of scanner.go
-- (buildReadBlocks), with Blocks.Cover and Blocks.Fit about which tags it reads, Decode the byte orders
-- of decode.go (arrangeBytes). ModbusServer is internal/modbusserver:
-- Store the register spaces of store.go, Words its byte orders (arrangeWords), with Words.Involution
-- and Words.Client about undoing them, Pdu the request handlers of server.go, Session its
-- connection loop. The proofs are under Protocol/RoundTrip, Client/Reads, Pdu/Words, Pdu/Bits,
-- Pdu/WriteBits and Session, with Loop about the fuel; Session.Client and Session.Coils put the server and the client together.
--
-- Ladder is plc/ladder: Timer, Counter and State are state.go with the instructions of ladder.go,
-- Element the elements of a rung and a program's scan. Timer.Delay and Counter.Edges say what
-- timers and counters promise, Element.Contacts and Element.Effects what rungs compute and write.
--
-- Rbe is internal/rbe/rbe.go, report by exception, with what it promises in Rbe.Reports; Rbe.Plc is
-- plc/rbe.go, the PLC library's own filter, with Plc.Glob about the patterns of its rules and
-- Plc.Filter about its comparison of maps. Go's float64 is the record Floats that the definitions
-- take: a number type with the conversions, tests and parsing that the code uses; the hypothesis made
-- of them is that no number differs from itself by more than a deadband. What fmt prints of a value
-- is a parameter too.
--
-- St is internal/plc/st, the compiler of structured text to Starlark. Token, Ast and Lexer are the
-- files of those names; Parser holds the parser's moves and its expressions, Parser.Statements and
-- Parser.Program the rest of parser.go, one function for each method and one for each loop inside a
-- method; Literals and Codegen are codegen.go, Transpile puts the stages together. Where a method
-- calls parseExpression or parseStatement again, the function takes that parser with one unit of fuel
-- less. Lexer.Total and the Termination modules are about the fuel, Grammar is a grammar of the
-- language that does not mention the parser, with the proofs in its children, of which Grammar.Clauses
-- is about a CASE of several clauses, and Codegen.Blocks has the grammar of Starlark's blocks that the output is to follow.
--
-- Profinet is the discovery protocol of internal/profinet. Dcp is dcp.go: the frames, their blocks and
-- the filter of an Identify request; Responder is dcp_responder.go, a device whose operations return
-- the device, the frame that they send and the callbacks that they call, which are taken to be set.
-- Dcp.RoundTrip is about the bytes of frames, Dcp.Filter about the filter, Responder.Answers about Set
-- requests, and Responder.Configured puts the layers together, from bytes to an answer. An IPv4 address
-- is its four bytes. Blocks are parsed with a round for each byte. Submodules is the reading of expected
-- submodules in pnio_blocks.go, and Subscription their writing in internal/profinetcontroller's
-- rpc_client.go; its children Subslots, Expected and Lost put the two together. Relation has the block that opens
-- an application relation, from the same two files, and Relation.Opening its proofs.
--
-- Every Examples module runs its component at concrete inputs.
--
-- How the code is read
--
-- Times are nanoseconds; each reading of the clock is an argument, or comes from a clock that the
-- state holds. Bytes are numbers below 256 and words below 65536, by hypothesis where it matters;
-- what Go cuts to a byte or a word is written out. The 64-bit counters of statistics, revisions and
-- ladder counters do not wrap: they would after 2 ^ 63 steps. Floats elsewhere are fractions or bit
-- patterns. A mutex is held for a whole operation, so operations are atomic and a run is a list of them; the
-- order in which goroutines run is not modelled, and callbacks are listed in the order in which they
-- are started. A map is an association list, read in its own order where Go's order is open. Errors
-- are values.
--
-- Fuel: the connection loop of the server runs on the length of its buffer, and the client's receive
-- loop on the list of chunks. Each turn of the first takes seven bytes at least, so that the length is
-- enough. The lexer of St has a round for each byte of its source and one more, and its parser two
-- units of fuel more than there are tokens: each round of a loop and each nested call comes after a
-- token that was consumed. All else is structural recursion.
--
-- Not modelled: I/O, third-party protocol libraries, the file system and the JSON of snapshots, HTTP
-- handlers, generated protobuf code, the browser client. Of the parts with logic that are not yet here,
-- the register codecs, the Sparkplug payload, the rest of PROFINET and manifests are next. In St,
-- strings.ToUpper and strconv.Quote are those of ASCII text; the bytes of other characters pass
-- unchanged, which the keyword table does not see.
pub mod Prelude
pub mod Mqtt
pub mod Modbus
pub mod ModbusServer
pub mod Ladder
pub mod Bus
pub mod Rbe
pub mod St
pub mod Profinet
