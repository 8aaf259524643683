-- ===== src/Server/Sharing.antt =====
-- src/RpcServer.cc and src/RpcWorker.cc: what the threads that Start makes find in their maps.
use zqrpc.Worker.{RpcWorker, resolved}
use zqrpc.Server.{RpcServer, worker_of, start}
use zqrpc.Server.Registry.{IsLive, lookup}
use zqrpc.Server.Lookup.{resolved-lookup}
use zqrpc.Server.Spawning.{start-StartEnds}
use zqrpc.Prelude.{
  ℕ, zero, suc, ◌≡◌, sym, subst, inl, inr, nat_eq, Bytes, bytes_key, List, ◌++◌, All, All-append,
  replicate,
}

-- The workers all find the server's method of a name, or none where it has none.
abbrev pub AllFind : Bytes → RpcServer → List RpcWorker → Type 0
AllFind opcode s ts = All (λ worker. resolved worker opcode ≡ lookup opcode s) ts

All-replicate :
    (P : RpcWorker → Type 0) (n : ℕ) (worker : RpcWorker) → P worker → All P (replicate n worker)
All-replicate P zero worker p = tt
All-replicate P (suc n) worker p = (p, All-replicate P n worker p)

module _ (opcode : Bytes) (s : RpcServer) (live : IsLive s)
    (before : AllFind opcode s s.threads) where
  some_more :
      (n : ℕ) (ts : List RpcWorker)
      → ts ≡ s.threads ++ replicate n (worker_of s)
      → AllFind opcode s ts
  some_more n ts e = subst (AllFind opcode s) (sym e) (
      All-append _ s.threads (replicate n (worker_of s)) before
        (All-replicate _ n (worker_of s) (resolved-lookup opcode s live)))

  -- However Start ends, each of the server's threads finds under a name the method that the server
  -- has for it, and none where the server has none. Every pointer of the server's map is valid, and
  -- the threads of before do so already.
  pub start-AllFind : (n : ℕ) → AllFind opcode s (start n s).1.threads
  start-AllFind n = elim (start-StartEnds n s) [
    | inl (ends, is_started, e) ↦ some_more n _ e
    | inr (inl (returns, mark, e)) ↦ subst (AllFind opcode s) (sym e) before
    | inr (inr (throws, mark, (k, few, e))) ↦ some_more k _ e
  ]
