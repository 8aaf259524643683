-- ===== src/Server/Tests.antt =====
-- Runs of the server with one service of two methods.
use zqrpc.Exec.{ok}
use zqrpc.Socket.{bind, answer_control}
use zqrpc.Socket.Tests.{quiet}
use zqrpc.Server.{
  ServiceBase, RpcServer, router, method_of, register_one, register_all, register_service,
  remove_all, remove_service, delete_found, start, launch, make_threads, make_thread,
  bind_endpoints, bind_all, on_start_exception, allocate, enter,
}
use zqrpc.Server.{worker_of}
use zqrpc.Server.Orders.{IsNew}
use zqrpc.Worker.Tests.{echo_worker}
use zqrpc.Server.Registry.{IsLive, lookup}
use zqrpc.Server.Lookup.{
  or_else, listed, empty-IsLive, register_service-IsLive, lookup-register_service,
}
use zqrpc.Server.Sharing.{AllFind, start-AllFind}
use zqrpc.Server.Removal.{remove_service_dangles}
use zqrpc.Prelude.{
  ◌≡◌, refl, nat_eq, codes, bytes_eq, bytes_key, true, false, some, none, [], ◌∷◌, if◌then◌else◌,
}
use zqrpc.Prelude.Assoc.{find, insert, erase}

abbrev echo_service : ServiceBase
echo_service = record {
  address = 9;
  full_names = codes "Echo.a" ∷ codes "Echo.b" ∷ [];
  request_prototype = λ name. 1;
  response_prototype = λ name. 2;
}

abbrev pub fresh_server : RpcServer
fresh_server = record {
  suffix = codes ".default";
  frontend = quiet;
  frontend_type = router;
  backend = quiet;
  control = quiet;
  rpc_method_map = [];
  rpc_bind_vec = codes "tcp://*:5555" ∷ [];
  threads = [];
  started = false;
  noreply = false;
  heap = [];
  next_address = 0;
  freed = λ p. record { service = 0; request = 0; response = 0; method = [] };
  spawns = [];
  joins = [];
  proxy = ok tt;
  to_workers = [];
  to_proxy = [];
}

pub fresh_server-IsLive : IsLive fresh_server
fresh_server-IsLive = empty-IsLive fresh_server refl refl

register_service-IsLive_example : IsLive (register_service echo_service fresh_server)
register_service-IsLive_example =
    register_service-IsLive echo_service fresh_server fresh_server-IsLive

lookup-register_service_example :
    lookup (codes "Echo.b") (register_service echo_service fresh_server)
    ≡ or_else (lookup (codes "Echo.b") fresh_server) (
        if listed (codes "Echo.b") echo_service.full_names
        then some (method_of echo_service (codes "Echo.b"))
        else none)
lookup-register_service_example =
    lookup-register_service echo_service fresh_server (codes "Echo.b") fresh_server-IsLive

-- The server that has the service.
abbrev registered : RpcServer
registered = record fresh_server {
  rpc_method_map = (codes "Echo.a", 0) ∷ (codes "Echo.b", 1) ∷ [];
  heap =
      (0, method_of echo_service (codes "Echo.a"))
      ∷ (1, method_of echo_service (codes "Echo.b"))
      ∷ [];
  next_address = 2;
}

registers : register_service echo_service fresh_server ≡ registered
unfolding register_service register_all register_one allocate enter find insert bytes_eq
registers = refl

registered-IsLive : IsLive registered
registered-IsLive =
    rw (← registers) (register_service-IsLive echo_service fresh_server fresh_server-IsLive)

abbrev removed : RpcServer
removed = record registered { heap = [] }

removes : remove_service echo_service registered ≡ some removed
unfolding remove_service remove_all delete_found find erase bytes_eq
removes = refl

remove_service_dangles_example :
    (find (codes "Echo.b") removed.rpc_method_map ≡ some 1) × (find 1 removed.heap ≡ none)
remove_service_dangles_example =
    remove_service_dangles echo_service registered removed (codes "Echo.b") 1 removes
      (unfold bytes_eq in refl) (unfold find bytes_eq in refl)

pub quiet-IsNew : IsNew (ok quiet)
quiet-IsNew = record {
  socket = quiet;
  is_made = refl;
  takes = refl;
  changes = refl;
  nothing_sent = refl;
}

-- A server with two threads, of which the first does not end.
abbrev pair : RpcServer
pair = record fresh_server {
  threads = echo_worker ∷ echo_worker ∷ [];
  started = true;
  joins = false ∷ [];
}

-- ZeroMQ refuses the second endpoint.
abbrev refused_server : RpcServer
refused_server = record registered { frontend = record quiet { controls = true ∷ false ∷ [] } }

-- There are resources for one thread.
abbrev poor_server : RpcServer
poor_server = record registered { spawns = true ∷ false ∷ [] }

one_of_four : (start 4 poor_server).1.threads ≡ worker_of poor_server ∷ []
unfolding start launch make_threads make_thread bind_endpoints bind_all bind answer_control
    on_start_exception worker_of
one_of_four = refl

-- The three threads find the second method.
start-AllFind_example : AllFind (codes "Echo.b") registered (start 3 registered).1.threads
start-AllFind_example = start-AllFind (codes "Echo.b") registered registered-IsLive tt 3
