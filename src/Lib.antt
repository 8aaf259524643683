-- ===== src/Lib.antt =====
-- zqrpc: remote procedure calls with protobuf messages over ZeroMQ. A client calls ZSendMethod
-- and ZRecvMethod of a channel; a server binds a ROUTER socket, and a proxy hands each request
-- to one of its worker threads, which calls the service and sends the reply back the same way.
--
-- Errors models include/zqrpc/ZError.hpp and Controller include/zqrpc/ZController.hpp. Exec is
-- the state with exceptions in which the stateful code is written: what was written before a
-- throw stays written.
-- Socket models include/zqrpc/ZSocket.hpp: Send, BlockingRecv, NonBlockingRecv, Poll and the
-- calls that change endpoints and options (Socket.Framing, Socket.Outcomes, Socket.Endpoints).
-- ZeroMQ is not modelled: its answers are scripts in the state, and theorems are about every
-- script unless they say otherwise.
-- Channel models src/RpcChannel.cc: z_send_method is ZSendMethod, z_recv_method is ZRecvMethod,
-- and recv_loop is its loop over the readings of the clock, one for each round.
-- Channel.Tracking is about the list of pending requests, Channel.Waits about how long the
-- polls wait, Channel.Reuse about a controller that asks again while it waits. A run whose
-- readings are used up is `blocked`; Channel.Deadline shows that it is not when a reading is
-- past the deadline. World is the channel with the controllers that the caller owns, by
-- address.
-- Worker models src/RpcWorker.cc: work is the loop, on fuel, and one more than the number of
-- ZeroMQ's answers is enough (Worker.Rounds); Worker.Spins is about receives that fail;
-- Worker.Serving and Worker.Runs are about one message and a run of them; Worker.Lifecycle is
-- about the whole thread, from connect to close. Worker.Answer is the specification of what a
-- request is owed. Protobuf messages, prototypes and the services are the parameter Services.
-- Server models src/RpcServer.cc: the registry (Server.Registry, Server.Lookup, Server.Removal)
-- with the heap that its pointers point into, Start (Server.Binding, Server.Starting,
-- Server.Spawning, Server.Sharing) and Close (Server.Shutdown, Server.Orders, Server.Stopping,
-- Server.Joining). A worker has a copy of the map with the same pointers, and reads through
-- them what stands there when its thread is made; through a pointer to what was deleted it
-- reads anything, the field freed. Making a thread may throw. EndToEnd puts client, router and
-- worker together; what the router does is a parameter with the documented behaviour as its
-- hypothesis. System puts any number of clients and workers together: a Step is one call of
-- ZSendMethod or ZRecvMethod, one round of a worker, or a message that arrives or is lost, in
-- any order; ZSendMethod does not look whether its controller already waits, so the runs in
-- which the clients take care that it does not are the predicate IsCareful. Each client has an
-- identity of its own, which the code does not see to. System.Log says what was asked and what
-- an answer to it is, System.Member and System.Asking what a client keeps, System.Flight what
-- is under way; System.Sound, System.Steps and System.Safety put them together,
-- System.Stability is about a controller that has its answer, and System.Progress about what
-- can still happen. A round of a worker is one step, so calls of the services do not overlap.
-- Session models the loop of examples/EchoClient.cc that sends every request before it fetches
-- an answer, and Session.Receive and Session.Ends the loops that fetch the answers; what the
-- clock reads during each call is a parameter. Echo models examples/EchoServer.cc,
-- EchoEndpoint.hh and echo.proto and the main of EchoClient.cc: Echo.Registering and Echo.Stops
-- are about the server's main, Echo.Client and Echo.Returns about the client's, and Echo.Proto
-- and Echo.Calls about a call that goes from the stub to EchoServiceImpl and back, and
-- Echo.Interleaved about the service among many clients; protobuf's code for the two messages
-- and the generated CallMethod are the parameter EchoProto. A main ends with an exit code,
-- hangs, or is terminated by a destructor that throws, since the build asks for C++11. PubSub
-- models simple/Server.cc and simple/Client.cc, a publisher and a subscriber over bare sockets;
-- their loops have no end, and the number of rounds is a parameter.
-- Plugin models plugin/ServiceGenerator.cc (Plugin.Interface, Plugin.Implementation,
-- Plugin.Definitions), plugin/FileGenerator.cc (Plugin.Objects and Plugin.Ownership for the
-- constructor and the destructor on a heap, Plugin.File, Plugin.Namespace, Plugin.Embedding),
-- plugin/ZqrpcCppGenerator.cc (Plugin.Generator, Plugin.Suffix) and plugin/ZqrpcCppMain.cc
-- (Plugin.Generator). A generator is the list of the calls it makes of Printer; Plugin.Printing
-- is what Printer asks of them. The loop over the embedded descriptor is on fuel, for which the
-- number of bytes is enough.
-- Lexical is boost::lexical_cast as a parameter with its round trip as hypothesis, an instance
-- in Lexical.Decimal, and atoi.
--
-- Numbers are natural numbers; std::size_t is 64 bits wide, and nextreply_ wraps. The order of
-- a std::map is not modelled, since nothing iterates over one. Not modelled: logging, what
-- deleting the context at the end of a main waits for, the code of ZeroMQ, protobuf and boost,
-- and the generated code. Threads share nothing that changes but their services; what
-- RegisterService and RemoveService do to the methods of a running worker is not modelled.
pub mod Prelude
pub mod Errors
pub mod Exec
pub mod Lexical
pub mod Socket
pub mod Controller
pub mod Channel
pub mod Worker
pub mod Server
pub mod EndToEnd
pub mod Session
pub mod PubSub
pub mod Echo
pub mod System
pub mod Plugin
