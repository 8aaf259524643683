-- ===== src/Server/Removal.antt =====
-- RemoveService: what it leaves behind.
use zqrpc.Worker.{RpcMethod}
use zqrpc.Server.{
  ServiceBase, RpcServer, delete_held, if_defined, delete_found, remove_all, remove_service,
}
use zqrpc.Prelude.{
  ℕ, ◌≡◌, refl, ap, ◌∙◌, inl, inr, nat_eq, Bytes, bytes_eq, bytes_eq_iff, bytes_key, true, Option,
  none, some, List, [], ◌∷◌, arith, Option-cases, Bool-cases,
}
use zqrpc.Prelude.Assoc.{find, erase, find-erase, find-erase_self}
use zqrpc.Server.Lookup.{listed}

-- What a removal keeps: the map of names, and that what was deleted is gone.
record IsErased (s s' : RpcServer) : Type 0 where
  same_map : s'.rpc_method_map ≡ s.rpc_method_map
  gone : (p : ℕ) → find p s.heap ≡ none → find p s'.heap ≡ none

delete_held-IsErased :
    (p : ℕ) (m : Option RpcMethod) (s s' : RpcServer)
    → delete_held p m s ≡ some s'
    → IsErased s s' × (find p s'.heap ≡ none)
delete_held-IsErased p none s s' e = absurd (ground arith)
delete_held-IsErased p (some m) s s' e =
    let same : record s { heap = erase p s.heap } ≡ s' = ground arith in
    rw (← same) (
      record { same_map = refl; gone = λ q g. ground (arith, find-erase p q s.heap) },
      find-erase_self p s.heap,
    )

delete_found-IsErased :
    (f : Option ℕ) (s s' : RpcServer) → delete_found f s ≡ some s' → IsErased s s'
unfolding delete_found
delete_found-IsErased none s s' e =
    let same : s ≡ s' = ground arith in rw (← same) (record { same_map = refl; gone = λ p g. g })
delete_found-IsErased (some p) s s' e = (delete_held-IsErased p (find p s.heap) s s' e).0

deleted : (p : ℕ) (s s' : RpcServer) → delete_found (some p) s ≡ some s' → find p s'.heap ≡ none
unfolding delete_found
deleted p s s' e = (delete_held-IsErased p (find p s.heap) s s' e).1

split_defined :
    (d : Option RpcServer) (rest : RpcServer → Option RpcServer) (s' : RpcServer)
    → if_defined d rest ≡ some s'
    → (t : RpcServer) × (d ≡ some t) × (rest t ≡ some s')
split_defined none rest s' e = absurd (ground arith)
split_defined (some t) rest s' e = (t, refl, e)

twice-IsErased : (s t u : RpcServer) → IsErased s t → IsErased t u → IsErased s u
twice-IsErased s t u a b = record {
  same_map = b.same_map ∙ a.same_map;
  gone = λ p g. b.gone p (a.gone p g);
}

remove_all-IsErased :
    (names : List Bytes) (s s' : RpcServer) → remove_all names s ≡ some s' → IsErased s s'
unfolding remove_all
remove_all-IsErased [] s s' e =
    let same : s ≡ s' = ground arith in rw (← same) (record { same_map = refl; gone = λ p g. g })
remove_all-IsErased (name ∷ names) s s' e =
    let (t, d, r) = split_defined _ (remove_all names) s' e in
    twice-IsErased s t s' (delete_found-IsErased _ s t d) (remove_all-IsErased names t s' r)

remove_all_dangles :
    (names : List Bytes) (s s' : RpcServer) (opcode : Bytes) (p : ℕ)
    → remove_all names s ≡ some s'
    → listed opcode names ≡ true
    → find opcode s.rpc_method_map ≡ some p
    → find p s'.heap ≡ none
unfolding remove_all
remove_all_dangles [] s s' opcode p e h f = absurd (ground arith)
remove_all_dangles (name ∷ names) s s' opcode p e h f =
    let (t, d, r) = split_defined _ (remove_all names) s' e in
    elim (Bool-cases (bytes_eq name opcode)) [
      | inl same ↦
          let here : find name s.rpc_method_map ≡ some p =
            ground (arith, bytes_eq_iff name opcode) in
          (remove_all-IsErased names t s' r).gone p (deleted p s t (rw here at d))
      | inr differ ↦
          remove_all_dangles names t s' opcode p r (rw differ at h)
            (ap (find opcode) (delete_found-IsErased _ s t d).same_map ∙ f)
    ]

-- RemoveService deletes the RpcMethod of each name of the service, and leaves the name in the map
-- with a pointer to what was deleted.
pub remove_service_dangles :
    (service : ServiceBase) (s s' : RpcServer) (opcode : Bytes) (p : ℕ)
    → remove_service service s ≡ some s'
    → listed opcode service.full_names ≡ true
    → find opcode s.rpc_method_map ≡ some p
    → (find opcode s'.rpc_method_map ≡ some p) × (find p s'.heap ≡ none)
unfolding remove_service
remove_service_dangles service s s' opcode p e h f = (
  ap (find opcode) (remove_all-IsErased _ s s' e).same_map ∙ f,
  remove_all_dangles _ s s' opcode p e h f,
)

undefined_on :
    (names : List Bytes) (s : RpcServer) (opcode : Bytes) (p : ℕ)
    → listed opcode names ≡ true
    → find opcode s.rpc_method_map ≡ some p
    → find p s.heap ≡ none
    → remove_all names s ≡ none
unfolding remove_all
undefined_on [] s opcode p h f g = absurd (ground arith)
undefined_on (name ∷ names) s opcode p h f g = elim (Bool-cases (bytes_eq name opcode)) [
  | inl same ↦
      let here : find name s.rpc_method_map ≡ some p = ground (arith, bytes_eq_iff name opcode) in
      rw here (unfold delete_found in rw g refl)
  | inr differ ↦ elim (Option-cases (delete_found (find name s.rpc_method_map) s)) [
    | inl d ↦ rw d refl
    | inr (t, d) ↦
        let i = delete_found-IsErased _ s t d in
        rw d (
          undefined_on names t opcode p (rw differ at h) (ap (find opcode) i.same_map ∙ f)
            (i.gone p g))
  ]
]

-- So to remove the service a second time deletes what was deleted: undefined behaviour.
pub remove_service_twice :
    (service : ServiceBase) (s s' : RpcServer) (opcode : Bytes) (p : ℕ)
    → remove_service service s ≡ some s'
    → listed opcode service.full_names ≡ true
    → find opcode s.rpc_method_map ≡ some p
    → remove_service service s' ≡ none
remove_service_twice service s s' opcode p e h f =
    let (f', g) = remove_service_dangles service s s' opcode p e h f in
    unfold remove_service in undefined_on service.full_names s' opcode p h f' g
