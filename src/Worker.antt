-- ===== src/Worker.antt =====
-- src/RpcWorker.cc, include/zqrpc/RpcWorker.hh and RpcMethod.hpp: a thread that serves requests.
pub mod Dispatch
pub mod Answer
pub mod Serving
pub mod Runs
pub mod Replies
pub mod Lifecycle
pub mod Keeps
pub mod Rounds
pub mod Spins
pub mod Tests
use zqrpc.Errors.{
  ErrorCode, success, no_such_method, data_corrupted, ZError, zerror_of, icode, Exception, zerror,
  retry_exception, exit_exception, zmq_error, timeout_exception, fatal_exception, proxy_exception,
  std_error,
}
use zqrpc.Exec.{
  Result, ok, raised, blocked, Exec, pure, throw, or_throw, try, and_then, modify, zoom, ◌>>=◌,
  ◌>>◌,
}
use zqrpc.Lexical.{Lexical}
use zqrpc.Socket
use zqrpc.Socket.{Socket}
use zqrpc.Prelude.{
  ℕ, zero, suc, ◌+◌, Bytes, codes, bytes_eq, bytes_key, Bool, true, false, ◌&&◌, Option, none, some,
  List, [], ◌∷◌, ◌++◌, ◌==◌, if◌then◌else◌, length, get_elem?, take,
}
use zqrpc.Prelude.Assoc.{Assoc, find}
use zqrpc.Prelude.Int.{pos}

-- What the program asks of protobuf and of the services. A service and a prototype are what the
-- pointers of the struct below point to; `S` is the state the services keep.
pub record Services (M S : Type 0) : Type 1 where
  -- New, which makes an empty message of the prototype's type
  pub make : ℕ → M
  -- ParseFromString into the message; `none` is false.
  pub parse : M → Bytes → Option M
  -- SerializeToString; `none` is false.
  pub serialize : M → Option Bytes
  -- CallMethod(method, request, response) of the service, with the response as it leaves it
  pub call_method : ℕ → Bytes → M → M → Exec S M

-- RpcMethod; the descriptor of the method is its full name.
pub record RpcMethod : Type 0 where
  pub service : ℕ
  pub request : ℕ
  pub response : ℕ
  pub method : Bytes

-- RpcWorker, its fields that the thread reads.
pub record RpcWorker : Type 0 where
  pub rpc_method_map : Assoc Bytes ℕ
  -- What the worker reads at an address. The objects belong to the server.
  pub memory : ℕ → RpcMethod
  pub noreply : Bool
  pub use_inproc_worker : Bytes

-- What the thread changes: its locals, the services' state, and how many messages it has made and
-- not deleted.
pub record Thread (S : Type 0) : Type 0 where
  pub socket : Socket
  pub services : S
  pub frames : List Bytes
  pub isrunning : Bool
  pub allocated : ℕ

-- ZQRPC_INPROC_WORKER
abbrev pub inproc_worker : Bytes
inproc_worker = codes "inproc://zqrpc.workers"

unfoldable pub new_worker : Assoc Bytes ℕ → (ℕ → RpcMethod) → Bool → Bytes → RpcWorker
new_worker rpc_method_map memory noreply suffix = record {
  rpc_method_map = rpc_method_map;
  memory = memory;
  noreply = noreply;
  use_inproc_worker = inproc_worker ++ suffix;
}

-- What a pointer points to, where there is one
abbrev pub follow : (ℕ → RpcMethod) → Option ℕ → Option RpcMethod
follow memory none = none
follow memory (some p) = some (memory p)

-- rpc_method_map_.find(opcode), and *iter->second
unfoldable pub resolved : RpcWorker → Bytes → Option RpcMethod
resolved worker opcode = follow worker.memory (find opcode worker.rpc_method_map)

abbrev pub terminate : Bytes
terminate = codes "TERMINATE"

-- (frames.size() == 2) && (frames.at(1) == "TERMINATE")
unfoldable pub is_terminate : List Bytes → Bool
unfolding bytes_eq
is_terminate (a ∷ b ∷ []) = bytes_eq b terminate
is_terminate _ = false

module _ {M S : Type 0} (l : Lexical) (services : Services M S) (worker : RpcWorker) where
  abbrev pub set_frames : List Bytes → Thread S → Thread S
  set_frames frames t = record t { frames = frames }

  abbrev pub on_socket : {A : Type 0} → Exec Socket A → Exec (Thread S) A
  on_socket m = zoom (λ (t : Thread S). t.socket) (λ s t. record t { socket = s }) m

  abbrev pub on_services : {A : Type 0} → Exec S A → Exec (Thread S) A
  on_services m = zoom (λ (t : Thread S). t.services) (λ s t. record t { services = s }) m

  -- request_->New(), response_->New()
  abbrev pub allocate_two : Thread S → Thread S
  allocate_two t = record t { allocated = t.allocated + 2 }

  -- From the look at the map to the response's bytes.
  unfoldable pub dispatch : Bytes → Bytes → Exec (Thread S) Bytes
  dispatch opcode buffer = do
    m ← or_throw (resolved worker opcode) (zerror (zerror_of no_such_method))
    modify allocate_two
    request ←
        or_throw (services.parse (services.make m.request) buffer)
          (zerror (zerror_of data_corrupted))
    response ←
        on_services (services.call_method m.service m.method request (services.make m.response))
    or_throw (services.serialize response) (zerror (zerror_of data_corrupted))

  -- frames.push_back twice, and the send unless there is no reply
  unfoldable pub send_reply : Bytes → Bytes → Exec (Thread S) (Unit {0})
  send_reply code text = do
    modify (λ t. set_frames (t.frames ++ code ∷ text ∷ []) t)
    λ t. if worker.noreply then (ok tt, t) else on_socket (Socket.send t.frames >>= λ _. pure tt) t

  -- The inner try, on a request of five frames: the first three are kept for the reply.
  unfoldable pub serve : Bytes → Bytes → Exec (Thread S) (Unit {0})
  serve opcode buffer = do
    modify (λ t. set_frames (take 3 t.frames) t)
    body ← dispatch opcode buffer
    send_reply (codes "0") body

  -- catch(const zqrpc::ZError& e)
  unfoldable pub on_error : Exception → Exec (Thread S) (Unit {0})
  on_error (zerror e) = send_reply (l.print (icode e.ecode)) e.emesg
  on_error x = throw x

  -- A message: TERMINATE stops the loop by an exception, a message that is no request is skipped.
  unfoldable pub handle : List Bytes → Exec (Thread S) (Unit {0})
  unfolding is_terminate
  handle (blank ∷ word ∷ []) =
      if is_terminate (blank ∷ word ∷ [])
      then (do modify (λ t. record t { isrunning = false }); throw exit_exception)
      else pure tt
  handle (identity ∷ blank ∷ nextid ∷ opcode ∷ buffer ∷ []) = try (serve opcode buffer) on_error
  handle _ = pure tt

  -- The outer catch clauses. The thread has none for what they do not name.
  unfoldable pub on_exception : Exception → Exec (Thread S) (Unit {0})
  on_exception zmq_error = pure tt
  on_exception retry_exception = pure tt
  on_exception exit_exception = pure tt
  on_exception x = throw x

  -- frames.clear(); frames = socket.BlockingRecv(); and the message
  unfoldable pub receive_and_handle : Exec (Thread S) (Unit {0})
  receive_and_handle = do
    modify (set_frames [])
    frames ← on_socket Socket.blocking_recv
    modify (set_frames frames)
    handle frames

  unfoldable pub iteration : Exec (Thread S) (Unit {0})
  iteration = try receive_and_handle on_exception

  -- while (isrunning). Every round takes an answer from ZeroMQ's script or waits, so the script's
  -- length bounds them.
  unfoldable pub work : ℕ → Exec (Thread S) (Unit {0})
  work zero t = (blocked, t)
  work (suc fuel) t =
      let go = (iteration >>= λ _. work fuel) t in if t.isrunning then go else (ok tt, t)

  abbrev pub leave : Exec (Thread S) (Unit {0})
  leave = do
    on_socket (Socket.disconnect worker.use_inproc_worker)
    modify (λ t. record t { socket = Socket.close t.socket })

  -- operator(), on a socket that has its identity. The two deletes at the end are of null pointers.
  unfoldable pub run : Exec (Thread S) (Unit {0})
  run = do
    on_socket (Socket.connect worker.use_inproc_worker)
    on_socket (Socket.set_linger (pos 0))
    λ t. work (length t.socket.incoming + 1) t
    leave
