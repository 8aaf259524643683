-- ===== src/Echo.antt =====
-- examples/EchoServer.cc, EchoEndpoint.hh and echo.proto: the echo service and its server.
pub mod Registering
pub mod Proto
pub mod Calls
pub mod Interleaved
pub mod Stops
pub mod Client
pub mod Returns
mod Tests
use zqrpc.Exec.{Result, ok, Exec, Exit, exited, main_with, modify, ◌>>=◌, ◌>>◌}
use zqrpc.Errors.{zerror_of, zerror, method_not_implemented}
use zqrpc.Socket.{Socket}
use zqrpc.Worker.{Services}
use zqrpc.Server.{ServiceBase, RpcServer, new_server, end_point, register_service, start}
use zqrpc.Server.Shutdown
use zqrpc.Prelude.{
  ℕ, ◌≡◌, Bytes, codes, bytes_eq, Bool, false, Option, none, some, List, [], ◌∷◌, ◌++◌, ◌==◌,
  if◌then◌else◌,
}

-- The two messages of echo.proto.
pub record EchoRequest : Type 0 where
  pub message : Bytes

pub record EchoResponse : Type 0 where
  pub response : Bytes

-- EchoServiceImpl: what it prints and its sleep are left out.
unfoldable pub echo1 : EchoRequest → EchoResponse → EchoResponse
echo1 request response = record { response = codes "You sent1: " ++ request.message }

unfoldable pub echo2 : EchoRequest → EchoResponse → EchoResponse
echo2 request response = record { response = codes "You sent2: " ++ request.message }

-- The methods of the service.
pub data EchoMethod : Type 0 where
  first second : EchoMethod

-- The virtual functions that EchoServiceImpl overrides.
unfoldable pub echo_service_impl : EchoMethod → EchoRequest → EchoResponse → EchoResponse
unfolding echo1 echo2
echo_service_impl first request response = echo1 request response
echo_service_impl second request response = echo2 request response

abbrev pub full_name : EchoMethod → Bytes
full_name first = codes "echo.EchoService.Echo1"
full_name second = codes "echo.EchoService.Echo2"

-- The default instances of the two messages, by their addresses.
abbrev pub request_instance : ℕ
request_instance = 0

abbrev pub response_instance : ℕ
response_instance = 1

-- What the generated code of the service tells RegisterService, for an object at `address`.
abbrev pub echo_service : ℕ → ServiceBase
echo_service address = record {
  address = address;
  full_names = full_name first ∷ full_name second ∷ [];
  request_prototype = λ name. request_instance;
  response_prototype = λ name. response_instance;
}

-- ECHO_ENDPOINT_PORT
abbrev pub echo_endpoint_port : Bytes
echo_endpoint_port = codes "tcp://127.0.0.1:9089"

-- The try block of main up to Start, with the service at `address`.
unfoldable pub set_up : ℕ → RpcServer → RpcServer
set_up address s = register_service (echo_service address) (end_point echo_endpoint_port s)

unfoldable pub serve_echo : ℕ → Exec RpcServer (Unit {0})
unfolding set_up
serve_echo address = do modify (set_up address); start 5

-- The destructor of the server
abbrev pub delete_server : Result Socket → Result Socket → Exec RpcServer (Unit {0})
delete_server wstop termin = Shutdown.close wstop termin

-- main. `made` is the server when the context and its sockets could be made, `wstop` and `termin`
-- are what comes of making the sockets for its destructor.
unfoldable pub server_main :
    ℕ → Result Socket → Result Socket → Option RpcServer → Exit × Option RpcServer
server_main address wstop termin none = (exited 0, none)
server_main address wstop termin (some s) =
    let (e, s') = main_with (serve_echo address s) (delete_server wstop termin) in (e, some s')
