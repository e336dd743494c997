-- ===== src/Lib.antt =====
-- A verification library for grpc_cb, the callback style C++ binding of gRPC.
--
-- The program has two halves. src/compiler is a plugin of protoc that writes, for each service of
-- a proto file, a stub class and a service class. include/grpc_cb and src/cpp_cb are the classes
-- that this generated code uses: they turn messages into bytes and back around grpc_cb_core,
-- which holds the calls and the queues and is not part of the repository.
--
-- Base: byte strings, lists over native numbers, Boolean tests.
-- Helpers: src/compiler/generator_helpers.h and cpp_generator_helpers.h. A string is the list of
-- its bytes; a function that changes its argument returns the new value. Strip has StripSuffix,
-- StripPrefix and StripProto, Tokenize has tokenize, Replace has StringReplace, DotsToColons and
-- DotsToUnderscores, Camel the upper camel case names, ClassNames has ClassName, Comments the
-- comment functions, Descriptors GetMethodType. Identifier is FilenameIdentifier of
-- cpp_cb_generator.cc.
-- Generator: src/compiler/cpp_cb_generator.cc. A function that is given a Printer is the list of
-- its actions: assignments to the variables, Print calls with their templates, Indent and
-- Outdent. Header and Source have the Get functions, Stub, Server and Service the Print
-- functions, Kinds a split of methods by kind. Variables, Defined, Indentation, Namespaces,
-- Dispatch and Decimal read such lists. Sample has the descriptors of the files in
-- examples/protos, and a renderer for runs.
-- Plugin: src/compiler/cpp_cb_plugin.cc, with the files that it writes as the result.
-- ProtoUtils: src/cpp_cb/common/proto_utils.cc. Writer and Reader are GrpcBufferWriter and
-- GrpcBufferReader, their members as fields; Unread, Skip and InputStream are about the reader,
-- Filling, with Sent and Lost below it, about the writer with a caller that writes to the slices
-- it is handed, Carried about both; Messages has Serialize and Deserialize, Serialized the
-- messages that Serialize writes to a stream.
-- Messages, Client, Server: the classes of include/grpc_cb and src/cpp_cb/server/service.cc over
-- parameters for protobuf's messages and the objects of grpc_cb_core. Client.Opening has the
-- constructors of the client's streams, Server.Streamed what a stream brings to a reader.
-- Example: the programs of examples/cpp_cb. Dispatch has CallMethod of route_guide.grpc_cb.pb.cc
-- and what it calls, with the effects of a call as a list; Calls reads such lists; Stub has the
-- stubs. Points has the messages of route_guide.proto, Wire what protobuf generates for a
-- message, and what comes of a writer. Db is helper.cc: Numbers std::stol, Parser the class
-- Parser and ParseDb, File GetDbFileContent, Print a printer of the form that the parser asks
-- for. Features, Distance, Route and Chat are the handlers of route_guide_cb_server.cc, Visit is
-- route_guide_cb_client.cc, Greeter the program of helloworld. Served says what grpc_cb_core does
-- between a client and a service. Talk, below Visit, is SyncRouteChat, whose threads go on in any
-- order with the server, as a relation of steps. Awaited has what the asynchronous clients rely
-- on in Run, Async (below Visit) those of the route guide, and Waits (below Greeter) the
-- greeter's. The modules below these (Cursor, Entries, RoundTrip, Steps and Returns of Db, Found
-- and Listed of Features, Board and Heard of Chat, Summary of Route, Opens of Stub, Asked,
-- Dispatched, Travelled, Routed and Searched of Visit, Handling, Invariant, Reached, Heard and
-- Ending of Talk, Answers, Found and Closed of Async, Greeting and Dispatched of Greeter) are
-- about them.
-- Tests: runs, and the theorems at concrete inputs. Tests.Golden runs the generator on the files
-- of examples/protos, against those that are generated in examples/cpp_cb.
--
-- Loops that are not structural run on fuel: tokenize and StringReplace have one round more than
-- the input has bytes, Skip one for the bytes backed up, one for each slice and one that finds
-- the end; ParseDb has one round more than the text has bytes; `none` stands for a loop that has
-- not returned. Each round moves past a delimiter, an occurrence, a slice or a feature, so there
-- are no more rounds than that. A client's reading loop takes its fuel as an argument.
--
-- Parameters are protobuf's descriptors, printer, messages and coded streams, gRPC's slices and
-- readers, and the core objects of grpc_cb_core; records of the models state what is relied on. A
-- message whose strings are not UTF-8 is serialized, but the generated parsers refuse it. Counts
-- of bytes are natural numbers: the limits of int and int64_t are not modelled, since a slice
-- that does not fit an int is excluded by an assert. Freeing of slices and the queues of
-- grpc_cb_core are not modelled, nor are the build scripts, the callbacks of RouteChatAsync, what
-- the examples print, and their test of a timeout. A long has 64 bits; floating-point numbers and
-- the clock of the examples are parameters, and so are their files and random numbers. An int
-- that overflows is undefined: `none`. An assert that fails is `none`; a read outside a vector is
-- the plugin's result `fault`.
pub mod Base
pub mod Client
pub mod Example
pub mod Generator
pub mod Helpers
pub mod Messages
pub mod Plugin
pub mod ProtoUtils
pub mod Server
pub mod Tests
