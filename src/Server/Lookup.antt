-- ===== src/Server/Lookup.antt =====
-- RegisterService: which method a name stands for, in the server and in its workers.
use zqrpc.Worker.{RpcMethod, follow, resolved, new_worker}
use zqrpc.Server.{
  worker_of, pointee, ServiceBase, RpcServer, method_of, allocate, register_one, register_all,
  register_service,
}
use zqrpc.Prelude.{
  ℕ, ◌≡◌, ◌≢◌, refl, sym, ◌∙◌, inl, inr, nat_eq, Bytes, bytes_eq, bytes_eq_iff, bytes_key, Bool,
  true, false, ◌||◌, Option, none, some, List, [], ◌∷◌, arith, if◌then◌else◌, Option-cases,
  Bool-cases,
}
use zqrpc.Prelude.Assoc.{find, insert, find-insert, find-insert_ne, find-insert_self}
use zqrpc.Server.Registry.{
  IsLive, at_pointer, lookup, find_allocated, new_pointer, old_pointer, register_one-IsLive,
}

abbrev pub or_else : Option RpcMethod → Option RpcMethod → Option RpcMethod
or_else none n = n
or_else (some m) n = some m

abbrev pub listed : Bytes → List Bytes → Bool
listed opcode [] = false
listed opcode (name ∷ names) = bytes_eq name opcode || listed opcode names

module _ (service : ServiceBase) (name : Bytes) (s : RpcServer) (l : IsLive s)
    (opcode : Bytes) where
  -- A name that the map has keeps its method, whatever is registered.
  lookup_kept :
      (p : ℕ)
      → find opcode s.rpc_method_map ≡ some p
      → lookup opcode (register_one service name s) ≡ lookup opcode s
  unfolding lookup allocate
  lookup_kept p f = elim (Option-cases (find name s.rpc_method_map)) [
    | inl e ↦
        let (m, g) = l.live opcode p f in
        let kept : find opcode (insert name s.next_address s.rpc_method_map) ≡ some p = ground (
          arith,
          find-insert name opcode s.next_address s.rpc_method_map,
          bytes_eq_iff name opcode,
        ) in
        rw (new_pointer service name s l e)
          (rw (kept, f) (find_allocated s (method_of service name) p m l g ∙ sym g))
    | inr (q, e) ↦
        let (m, g) = l.live opcode p f in
        rw (old_pointer service name s l q e)
          (rw f (find_allocated s (method_of service name) p m l g ∙ sym g))
  ]

  lookup_same :
      find opcode s.rpc_method_map ≡ none
      → name ≡ opcode
      → lookup opcode (register_one service name s) ≡ some (method_of service opcode)
  unfolding lookup allocate
  lookup_same f same = rw same (
      rw (new_pointer service opcode s l f) (
        rw (find-insert_self opcode s.next_address s.rpc_method_map)
          (find-insert_self s.next_address (method_of service opcode) s.heap)))

  lookup_other :
      find opcode s.rpc_method_map ≡ none
      → name ≢ opcode
      → lookup opcode (register_one service name s) ≡ none
  unfolding lookup allocate
  lookup_other f n = elim (Option-cases (find name s.rpc_method_map)) [
    | inl e ↦
        rw (new_pointer service name s l e)
          (rw (find-insert_ne name opcode s.next_address s.rpc_method_map n, f) refl)
    | inr (q, e) ↦ rw (old_pointer service name s l q e) (rw f refl)
  ]

  lookup_absent : find opcode s.rpc_method_map ≡ none → lookup opcode s ≡ none
  unfolding lookup
  lookup_absent f = rw f refl

  lookup_present :
      (p : ℕ) → find opcode s.rpc_method_map ≡ some p → (m : RpcMethod) × (lookup opcode s ≡ some m)
  unfolding lookup
  lookup_present p f = let (m, g) = l.live opcode p f in (m, rw f g)

  lookup-register_one :
      lookup opcode (register_one service name s)
      ≡ or_else
          (lookup opcode s)
          (if bytes_eq name opcode then some (method_of service opcode) else none)
  lookup-register_one = elim (Option-cases (find opcode s.rpc_method_map)) [
    | inr (p, f) ↦ let (m, g) = lookup_present p f in rw (lookup_kept p f, g) refl
    | inl f ↦ elim (Bool-cases (bytes_eq name opcode)) [
      | inl e ↦ rw (lookup_same f ((bytes_eq_iff name opcode).0 e), lookup_absent f, e) refl
      | inr e ↦
          rw (lookup_other f (λ h. ground (arith, bytes_eq_iff name opcode)), lookup_absent f, e)
            refl
    ]
  ]

or_else-none : (m : Option RpcMethod) → m ≡ or_else m none
or_else-none none = refl
or_else-none (some m) = refl

or_else_twice :
    (m : Option RpcMethod) (n : RpcMethod) (b c : Bool)
    → or_else (or_else m (if b then some n else none)) (if c then some n else none)
      ≡ or_else m (if b || c then some n else none)
or_else_twice none n true c = refl
or_else_twice none n false c = refl
or_else_twice (some m) n b c = refl

register_all-lookup :
    (service : ServiceBase) (names : List Bytes) (s : RpcServer) (opcode : Bytes)
    → IsLive s
    → IsLive (register_all service names s)
      × (lookup opcode (register_all service names s)
          ≡ or_else
              (lookup opcode s)
              (if listed opcode names then some (method_of service opcode) else none))
unfolding register_all
register_all-lookup service [] s opcode l = (l, or_else-none (lookup opcode s))
register_all-lookup service (name ∷ names) s opcode l =
    let (l', e) =
      register_all-lookup service names (register_one service name s) opcode
        (register_one-IsLive service name s l) in
    (
      l',
      e
          ∙ rw (lookup-register_one service name s l opcode)
              (or_else_twice (lookup opcode s) _ (bytes_eq name opcode) (listed opcode names)),
    )

-- A server that has just been made is well-formed.
pub empty-IsLive : (s : RpcServer) → s.rpc_method_map ≡ [] → s.heap ≡ [] → IsLive s
unfolding find
empty-IsLive s e h = record {
  live = λ opcode p f. absurd (ground arith);
  low = λ p m f. absurd (ground arith);
}

-- Registering a service keeps every pointer of the map valid and every new address new.
pub register_service-IsLive :
    (service : ServiceBase) (s : RpcServer) → IsLive s → IsLive (register_service service s)
unfolding register_service
register_service-IsLive service s l = (register_all-lookup service service.full_names s [] l).0

-- Where every pointer of the map is valid and new addresses are new: afterwards a name stands for the
-- method that was registered for it first, and a new name of the service for the service's own
-- method.
pub lookup-register_service :
    (service : ServiceBase) (s : RpcServer) (opcode : Bytes)
    → IsLive s
    → lookup opcode (register_service service s)
      ≡ or_else
          (lookup opcode s)
          (if listed opcode service.full_names then some (method_of service opcode) else none)
unfolding register_service
lookup-register_service service s opcode l =
    (register_all-lookup service service.full_names s opcode l).1

followed :
    (o : Option ℕ) (s : RpcServer)
    → ((p : ℕ) → o ≡ some p → (m : RpcMethod) × (find p s.heap ≡ some m))
    → follow (pointee s) o ≡ at_pointer s.heap o
followed none s l = refl
followed (some p) s l = let (m, e) = l p refl in rw e refl

-- A worker finds the methods that the server has, where every pointer is valid.
pub resolved-lookup :
    (opcode : Bytes) (s : RpcServer) → IsLive s → resolved (worker_of s) opcode ≡ lookup opcode s
unfolding lookup resolved worker_of new_worker
resolved-lookup opcode s l = followed (find opcode s.rpc_method_map) s (l.live opcode)
