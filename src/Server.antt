-- ===== src/Server.antt =====
-- src/RpcServer.cc, include/zqrpc/RpcServer.hh and ServiceBase.hpp: the server's side.
pub mod Shutdown
pub mod Registry
pub mod Lookup
pub mod Removal
pub mod Tests
pub mod Binding
pub mod Starting
pub mod Spawning
pub mod Sharing
pub mod Orders
pub mod Joining
pub mod Stopping
use zqrpc.Errors.{Exception, zmq_error, std_error, proxy_exception}
use zqrpc.Exec.{
  Result, ok, raised, blocked, Exec, pure, throw, try, and_then, modify, zoom, ◌>>=◌, ◌>>◌,
}
use zqrpc.Socket
use zqrpc.Socket.{Part, Socket}
use zqrpc.Worker.{RpcMethod, RpcWorker, inproc_worker, new_worker}
use zqrpc.Prelude.{
  ℕ, zero, suc, ◌+◌, nat_eq, Bytes, codes, bytes_key, Bool, true, false, Option, none, some, List,
  [], ◌∷◌, ◌++◌, if◌then◌else◌, length, replicate,
}
use zqrpc.Prelude.Assoc.{Assoc, find, insert, erase}

-- ServiceBase: the full names of the methods that the descriptor lists, in order, and the addresses
-- of the service and of its prototypes.
pub record ServiceBase : Type 0 where
  pub address : ℕ
  pub full_names : List Bytes
  pub request_prototype : Bytes → ℕ
  pub response_prototype : Bytes → ℕ

-- The type of the front socket
pub data SocketType : Type 0 where
  router publisher : SocketType

-- RpcServer, with what its pointers point to: `heap` holds the RpcMethods that were made by new and
-- not deleted, under their addresses, and `next_address` is where the next one goes; `freed` is what is
-- read at an address that holds none of them, of which nothing is known.
-- A thread is the RpcWorker that it runs. `spawns` is whether there are resources for the
-- threads to make, `joins` is whether the threads to join come to their end, `proxy` is how the proxy
-- will end.
pub record RpcServer : Type 0 where
  pub suffix : Bytes
  pub frontend : Socket
  pub frontend_type : SocketType
  pub backend : Socket
  pub control : Socket
  pub rpc_method_map : Assoc Bytes ℕ
  pub rpc_bind_vec : List Bytes
  pub threads : List RpcWorker
  pub started : Bool
  pub noreply : Bool
  pub heap : Assoc ℕ RpcMethod
  pub next_address : ℕ
  pub freed : ℕ → RpcMethod
  pub spawns : List Bool
  pub joins : List Bool
  pub proxy : Result (Unit {0})
  -- What WorkerStop and ProxyStop have sent.
  pub to_workers : List Part
  pub to_proxy : List Part

-- ZQRPC_INPROC_WORKIL, ZQRPC_INPROC_PCONTROL
abbrev pub inproc_workil : Bytes
inproc_workil = codes "inproc://zqrpc.workil"

abbrev pub inproc_pcontrol : Bytes
inproc_pcontrol = codes "inproc://zqrpc.pcontrol"

-- Both constructors: the second one is the first with `noreply` false. The three arguments before it
-- are the constructor of ZSocket for the three sockets, which may throw. `freed` and `spawns` are what
-- the machine will do.
unfoldable pub new_server :
    (Bytes → Result Socket)
    → (Bytes → Result Socket)
    → (Bytes → Result Socket)
    → (ℕ → RpcMethod)
    → List Bool
    → Bool
    → Bytes
    → Result RpcServer
new_server make_front make_back make_control freed spawns noreply suffix =
    Socket.with_made (make_front (codes "ROUTER")) λ front.
      Socket.with_made (make_back (codes "DEALER")) λ back.
        Socket.with_made (make_control (codes "CONTROL")) λ control. ok (record {
          suffix = suffix;
          frontend = front;
          frontend_type = if noreply then publisher else router;
          backend = back;
          control = control;
          freed = freed;
          spawns = spawns;
          rpc_method_map = [];
          rpc_bind_vec = [];
          threads = [];
          started = false;
          noreply = noreply;
          heap = [];
          next_address = 0;
          joins = [];
          proxy = ok tt;
          to_workers = [];
          to_proxy = [];
        })

unfoldable pub end_point : Bytes → RpcServer → RpcServer
end_point url s = record s { rpc_bind_vec = s.rpc_bind_vec ++ url ∷ [] }

-- RpcMethod(service, request, response, method)
abbrev pub method_of : ServiceBase → Bytes → RpcMethod
method_of service opcode = record {
  service = service.address;
  request = service.request_prototype opcode;
  response = service.response_prototype opcode;
  method = opcode;
}

-- new
unfoldable pub allocate : RpcMethod → RpcServer → RpcServer
allocate m s = record s { heap = insert s.next_address m s.heap; next_address = s.next_address + 1 }

-- The body of the loop of RegisterService: the new RpcMethod is only kept for a name that is new.
unfoldable pub enter : Bytes → ℕ → Option ℕ → RpcServer → RpcServer
enter opcode address none s = record s { rpc_method_map = insert opcode address s.rpc_method_map }
enter opcode address (some old) s = s

unfoldable pub register_one : ServiceBase → Bytes → RpcServer → RpcServer
unfolding allocate enter
register_one service opcode s =
    enter opcode s.next_address (find opcode s.rpc_method_map)
      (allocate (method_of service opcode) s)

unfoldable pub register_all : ServiceBase → List Bytes → RpcServer → RpcServer
register_all service [] s = s
register_all service (opcode ∷ names) s = register_all service names (register_one service opcode s)

unfoldable pub register_service : ServiceBase → RpcServer → RpcServer
unfolding register_all
register_service service s = register_all service service.full_names s

-- delete iter->second. To delete what is not there is undefined behaviour: `none`.
abbrev pub delete_held : ℕ → Option RpcMethod → RpcServer → Option RpcServer
delete_held p none s = none
delete_held p (some m) s = some (record s { heap = erase p s.heap })

unfoldable pub delete_found : Option ℕ → RpcServer → Option RpcServer
delete_found none s = some s
delete_found (some p) s = delete_held p (find p s.heap) s

abbrev pub if_defined : Option RpcServer → (RpcServer → Option RpcServer) → Option RpcServer
if_defined none rest = none
if_defined (some s) rest = rest s

-- The loop of RemoveService. The map keeps its entries.
unfoldable pub remove_all : List Bytes → RpcServer → Option RpcServer
unfolding delete_found
remove_all [] s = some s
remove_all (opcode ∷ names) s =
    if_defined (delete_found (find opcode s.rpc_method_map) s) (remove_all names)

unfoldable pub remove_service : ServiceBase → RpcServer → Option RpcServer
remove_service service s = remove_all service.full_names s

abbrev pub on_frontend : Exec Socket (Unit {0}) → Exec RpcServer (Unit {0})
on_frontend m = zoom (λ (s : RpcServer). s.frontend) (λ k s. record s { frontend = k }) m

abbrev pub on_backend : Exec Socket (Unit {0}) → Exec RpcServer (Unit {0})
on_backend m = zoom (λ (s : RpcServer). s.backend) (λ k s. record s { backend = k }) m

abbrev pub on_control : Exec Socket (Unit {0}) → Exec RpcServer (Unit {0})
on_control m = zoom (λ (s : RpcServer). s.control) (λ k s. record s { control = k }) m

unfoldable pub bind_all : List Bytes → Exec Socket (Unit {0})
bind_all [] = pure tt
bind_all (url ∷ urls) = do Socket.bind url; bind_all urls

unfoldable pub unbind_all : List Bytes → Exec Socket (Unit {0})
unbind_all [] = pure tt
unbind_all (url ∷ urls) = do Socket.unbind url; unbind_all urls

abbrev pub held_or : Option RpcMethod → RpcMethod → RpcMethod
held_or none freed = freed
held_or (some m) freed = m

-- What is read through a pointer: the RpcMethod that it points to, or, through a pointer to what was
-- deleted, whatever stands there.
abbrev pub pointee : RpcServer → ℕ → RpcMethod
pointee s p = held_or (find p s.heap) (s.freed p)

-- The worker that a thread runs: it has a copy of the map, with the same pointers.
unfoldable pub worker_of : RpcServer → RpcWorker
worker_of s = new_worker s.rpc_method_map (pointee s) s.noreply s.suffix

-- threads_.push_back(new boost::thread(...)), which throws thread_resource_error when no thread can
-- be made
unfoldable pub make_thread : List Bool → Exec RpcServer (Unit {0})
unfolding worker_of
make_thread [] s = (ok tt, record s { threads = s.threads ++ worker_of s ∷ [] })
make_thread (true ∷ r) s = (ok tt, record s { threads = s.threads ++ worker_of s ∷ []; spawns = r })
make_thread (false ∷ r) s = (raised std_error, record s { spawns = r })

unfoldable pub make_threads : ℕ → Exec RpcServer (Unit {0})
unfolding make_thread
make_threads zero = pure tt
make_threads (suc n) = do λ s. make_thread s.spawns s; make_threads n

-- started_=true; and the loop that makes the threads
unfoldable pub launch : ℕ → Exec RpcServer (Unit {0})
unfolding make_threads
launch n = do modify (λ s. record s { started = true }); make_threads n

-- zmq::proxy_steerable
abbrev pub proxy_start : Exec RpcServer (Unit {0})
proxy_start s = (s.proxy, s)

unfoldable pub bind_endpoints : Exec RpcServer (Unit {0})
bind_endpoints s =
    (do
      on_frontend (bind_all s.rpc_bind_vec)
      on_frontend (Socket.bind (inproc_workil ++ s.suffix))
      on_backend (Socket.bind (inproc_worker ++ s.suffix))
      on_control (Socket.bind (inproc_pcontrol ++ s.suffix)))
      s

unfoldable pub on_start_exception : Exception → Exec RpcServer (Unit {0})
on_start_exception proxy_exception = pure tt
on_start_exception zmq_error = pure tt
on_start_exception e = throw e

unfoldable pub start : ℕ → Exec RpcServer (Unit {0})
start n = try (bind_endpoints >>= λ _. launch n >>= λ _. proxy_start) on_start_exception
