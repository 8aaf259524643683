-- ===== src/Server/Registry.antt =====
-- RegisterService: the map of methods, and the RpcMethods that it points to.
use zqrpc.Worker.{RpcMethod}
use zqrpc.Server.{ServiceBase, RpcServer, method_of, allocate, enter, register_one}
use zqrpc.Prelude.{
  ℕ, ◌+◌, ◌<◌, ◌≡◌, refl, ◌∙◌, inl, inr, nat_eq, Bytes, bytes_eq, bytes_key, Option, none, some,
  arith, Option-cases, Bool-cases,
}
use zqrpc.Prelude.Assoc.{Assoc, find, insert, find-insert, find-insert_ne, find-insert_self}

-- Every pointer in the map points to an RpcMethod, and new addresses are new.
pub record IsLive (s : RpcServer) : Type 0 where
  pub live :
      (opcode : Bytes) (p : ℕ)
      → find opcode s.rpc_method_map ≡ some p
      → (m : RpcMethod) × (find p s.heap ≡ some m)
  pub low : (p : ℕ) (m : RpcMethod) → find p s.heap ≡ some m → p < s.next_address

abbrev pub at_pointer : Assoc ℕ RpcMethod → Option ℕ → Option RpcMethod
at_pointer heap none = none
at_pointer heap (some p) = find p heap

-- The method that the server has for a name.
unfoldable pub lookup : Bytes → RpcServer → Option RpcMethod
lookup opcode s = at_pointer s.heap (find opcode s.rpc_method_map)

-- A new RpcMethod hides no old one.
pub find_allocated :
    (s : RpcServer) (new : RpcMethod) (p : ℕ) (m : RpcMethod)
    → IsLive s
    → find p s.heap ≡ some m
    → find p (insert s.next_address new s.heap) ≡ some m
find_allocated s new p m l e =
    find-insert_ne s.next_address p new s.heap (λ same. ground (arith, l.low p m e)) ∙ e

module _ (service : ServiceBase) (opcode : Bytes) (s : RpcServer) (l : IsLive s) where
  pub new_pointer :
      find opcode s.rpc_method_map ≡ none
      → register_one service opcode s ≡ record (allocate (method_of service opcode) s) {
        rpc_method_map = insert opcode s.next_address s.rpc_method_map;
      }
  unfolding register_one enter allocate
  new_pointer e = rw e refl

  pub old_pointer :
      (p : ℕ)
      → find opcode s.rpc_method_map ≡ some p
      → register_one service opcode s ≡ allocate (method_of service opcode) s
  unfolding register_one enter allocate
  old_pointer p e = rw e refl

  allocated-low :
      (p : ℕ) (m : RpcMethod)
      → find p (insert s.next_address (method_of service opcode) s.heap) ≡ some m
      → p < s.next_address + 1
  allocated-low p m e =
      ground (arith, find-insert s.next_address p (method_of service opcode) s.heap, l.low p m)

  new_live :
      find opcode s.rpc_method_map ≡ none
      → (op : Bytes) (p : ℕ) → find op (insert opcode s.next_address s.rpc_method_map) ≡ some p
      → (m : RpcMethod) × (find p (insert s.next_address (method_of service opcode) s.heap)
          ≡ some m)
  new_live e op p f = elim (Bool-cases (bytes_eq opcode op)) [
    | inl same ↦ (
      method_of service opcode,
      let q : s.next_address ≡ p =
            ground (arith, find-insert opcode op s.next_address s.rpc_method_map) in
          rw (← q) (find-insert_self s.next_address (method_of service opcode) s.heap),
    )
    | inr differ ↦
        let g : find op s.rpc_method_map ≡ some p =
          ground (arith, find-insert opcode op s.next_address s.rpc_method_map) in
        let (m, h) = l.live op p g in (m, find_allocated s (method_of service opcode) p m l h)
  ]

  pub register_one-IsLive : IsLive (register_one service opcode s)
  unfolding allocate
  register_one-IsLive = elim (Option-cases (find opcode s.rpc_method_map)) [
    | inl e ↦
        rw (new_pointer e) (record { live = λ op p f. new_live e op p f; low = allocated-low })
    | inr (q, e) ↦ rw (old_pointer q e) (record {
      live = λ op p f.
          let (m, g) = l.live op p f in (m, find_allocated s (method_of service opcode) p m l g);
      low = allocated-low;
    })
  ]
