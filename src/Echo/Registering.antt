-- ===== src/Echo/Registering.antt =====
-- examples/EchoServer.cc: what main does before Start changes nothing but the registry and the
-- endpoints to bind.
use zqrpc.Worker.{RpcMethod}
use zqrpc.Server.{
  RpcServer, ServiceBase, method_of, end_point, register_all, register_one, enter, allocate,
  register_service,
}
use zqrpc.Echo.{echo_service, set_up}
use zqrpc.Prelude.{ℕ, ◌≡◌, nat_eq, bytes_key, refl, Bytes, Option, some, none, List, [], ◌∷◌}
use zqrpc.Prelude.Assoc.{find}

-- What registering leaves alone.
pub record IsUnstarted (s s' : RpcServer) : Type 0 where
  pub same_front : s'.frontend ≡ s.frontend
  pub same_back : s'.backend ≡ s.backend
  pub same_control : s'.control ≡ s.control
  pub same_threads : s'.threads ≡ s.threads
  pub same_joins : s'.joins ≡ s.joins
  pub same_spawns : s'.spawns ≡ s.spawns
  pub same_workers : s'.to_workers ≡ s.to_workers
  pub same_to_proxy : s'.to_proxy ≡ s.to_proxy
  pub same_proxy : s'.proxy ≡ s.proxy
  pub same_noreply : s'.noreply ≡ s.noreply

enter-IsUnstarted :
    (opcode : Bytes) (address : ℕ) (o : Option ℕ) (s s' : RpcServer)
    → IsUnstarted s s'
    → IsUnstarted s (enter opcode address o s')
unfolding enter
enter-IsUnstarted opcode address none s s' i = record {
  same_front = i.same_front;
  same_back = i.same_back;
  same_control = i.same_control;
  same_threads = i.same_threads;
  same_joins = i.same_joins;
  same_spawns = i.same_spawns;
  same_workers = i.same_workers;
  same_to_proxy = i.same_to_proxy;
  same_proxy = i.same_proxy;
  same_noreply = i.same_noreply;
}
enter-IsUnstarted opcode address (some p) s s' i = i

allocate-IsUnstarted :
    (m : RpcMethod) (s s' : RpcServer) → IsUnstarted s s' → IsUnstarted s (allocate m s')
unfolding allocate
allocate-IsUnstarted m s s' i = record {
  same_front = i.same_front;
  same_back = i.same_back;
  same_control = i.same_control;
  same_threads = i.same_threads;
  same_joins = i.same_joins;
  same_spawns = i.same_spawns;
  same_workers = i.same_workers;
  same_to_proxy = i.same_to_proxy;
  same_proxy = i.same_proxy;
  same_noreply = i.same_noreply;
}

register_all-IsUnstarted :
    (service : ServiceBase) (names : List Bytes) (s s' : RpcServer)
    → IsUnstarted s s'
    → IsUnstarted s (register_all service names s')
unfolding register_all register_one
register_all-IsUnstarted service [] s s' i = i
register_all-IsUnstarted service (opcode ∷ names) s s' i =
    register_all-IsUnstarted service names s (register_one service opcode s') (
      enter-IsUnstarted opcode s'.next_address (find opcode s'.rpc_method_map) s _
        (allocate-IsUnstarted (method_of service opcode) s s' i))

pub set_up-IsUnstarted : (address : ℕ) (s : RpcServer) → IsUnstarted s (set_up address s)
unfolding set_up register_service end_point
set_up-IsUnstarted address s =
    register_all-IsUnstarted (echo_service address) (echo_service address).full_names s _ (record {
      same_front = refl;
      same_back = refl;
      same_control = refl;
      same_threads = refl;
      same_joins = refl;
      same_spawns = refl;
      same_workers = refl;
      same_to_proxy = refl;
      same_proxy = refl;
      same_noreply = refl;
    })
