-- ===== src/System.antt =====
-- Clients, the proxy and the workers together: src/RpcChannel.cc, src/RpcServer.cc and
-- src/RpcWorker.cc as one system that moves step by step, in any order.
pub mod Log
pub mod Member
pub mod Asking
pub mod Flight
pub mod Sound
pub mod Steps
pub mod Safety
pub mod Progress
pub mod Stability
mod Tests
use zqrpc.Exec.{Result}
use zqrpc.Lexical.{Lexical}
use zqrpc.Socket.{Socket, RecvAnswer, nothing, recv_failed, PollAnswer}
use zqrpc.Socket.Framing.{parts, wire}
use zqrpc.Channel.{World, Timeval, next_id, set_socket, z_send_method, z_recv_method}
use zqrpc.Worker.{Services, RpcWorker, Thread, iteration}
use zqrpc.EndToEnd.{Router}
use zqrpc.Prelude.{
  ℕ, ◌+◌, ◌^◌, ◌<◌, ◌≡◌, ◌≢◌, nat_eq, Bytes, bytes_eq, Option, some, none, List, [], ◌∷◌, ◌++◌,
  if◌then◌else◌, ◌⊎◌,
}
use zqrpc.Prelude.Assoc.{Assoc, find, insert}
use zqrpc.Prelude.Int.{ℤ}

-- What a client asked.
pub record Asked : Type 0 where
  pub controller : ℕ
  pub opcode : Bytes
  pub buffer : Bytes

-- A client with its channel, and what it has asked under each id.
pub record Party : Type 0 where
  pub world : World
  pub asked : Assoc ℕ Asked

-- The clients by identity, the messages that are under way to the workers and back, and what the
-- services keep. ZeroMQ gives each socket of a router an identity of its own.
pub record System (S : Type 0) : Type 0 where
  pub parties : Bytes → Party
  pub requests : List (List Bytes)
  pub replies : List (List Bytes)
  pub services : S

abbrev pub update {ℓ} : {A : Type ℓ} → Bytes → A → (Bytes → A) → Bytes → A
update i a h j = if bytes_eq i j then a else h j

-- What ZeroMQ has taken from the socket is gone from it.
abbrev pub flushed : World → World
flushed w = set_socket (record w.socket { sent = [] }) w

abbrev pub arrived : List RecvAnswer → World → World
arrived q w = set_socket (record w.socket { incoming = w.socket.incoming ++ q }) w

abbrev pub polls_to_come : List PollAnswer → World → World
polls_to_come ps w = set_socket (record w.socket { polls = ps }) w

module _ (l : Lexical) (router : Router) {R A M S : Type 0} (serialize : R → Option Bytes)
    (parse : Bytes → A) (services : Services M S) (worker : RpcWorker) where
  abbrev pub sent_by : Bytes → ℕ → R → World → World
  sent_by opcode c request w = (z_send_method l serialize opcode c request w).1

  abbrev pub after_asking : Bytes → ℕ → R → Bytes → Party → Party
  after_asking opcode c request buffer p = record {
    world = flushed (sent_by opcode c request p.world);
    asked =
        insert (next_id p.world.nextreply)
          (record { controller = c; opcode = opcode; buffer = buffer }) p.asked;
  }

  abbrev pub after_refusal : Bytes → ℕ → R → Party → Party
  after_refusal opcode c request p = record p { world = sent_by opcode c request p.world }

  abbrev pub after_arrival : List RecvAnswer → Party → Party
  after_arrival q p = record p { world = arrived q p.world }

  abbrev pub after_receiving : ℕ → ℤ → List Timeval → List PollAnswer → Party → Party
  after_receiving c timeout clock ps p = record p {
    world = (z_recv_method l parse c timeout clock (polls_to_come ps p.world)).1;
  }

  -- The steps. A worker takes any request that is under way, a reply reaches its client at any time,
  -- and what is under way may be lost.
  pub data Step (s : System S) : System S → Type 0 where
    asks :
        (i : Bytes) (c : ℕ) (opcode : Bytes) (request : R) (buffer : Bytes) (m : List Bytes)
        → serialize request ≡ some buffer
        → (sent_by opcode c request (s.parties i).world).socket.sent ≡ parts m
        → Step s (record s {
          parties = update i (after_asking opcode c request buffer (s.parties i)) s.parties;
          requests = s.requests ++ router.to_worker i m ∷ [];
        })
    refuses :
        (i : Bytes) (c : ℕ) (opcode : Bytes) (request : R)
        → serialize request ≡ none
        → Step s (record s {
          parties = update i (after_refusal opcode c request (s.parties i)) s.parties;
        })
    serves :
        (before after : List (List Bytes)) (m reply : List Bytes) (t : Thread S)
        → s.requests ≡ before ++ m ∷ after
        → t.socket.incoming ≡ wire m
        → t.socket.sending ≡ []
        → t.socket.sent ≡ []
        → t.services ≡ s.services
        → (iteration l services worker t).1.socket.sent ≡ parts reply
        → Step s (record s {
          requests = before ++ after;
          replies = s.replies ++ reply ∷ [];
          services = (iteration l services worker t).1.services;
        })
    delivers :
        (before after : List (List Bytes)) (i : Bytes) (m : List Bytes)
        → s.replies ≡ before ++ (i ∷ m) ∷ after
        → Step s (record s {
          parties =
              update i (after_arrival (wire (router.to_client (i ∷ m))) (s.parties i)) s.parties;
          replies = before ++ after;
        })
    interrupts :
        (i : Bytes) (a : RecvAnswer)
        → (a ≡ nothing) ⊎ (a ≡ recv_failed)
        → Step s (record s { parties = update i (after_arrival (a ∷ []) (s.parties i)) s.parties })
    receives :
        (i : Bytes) (c : ℕ) (timeout : ℤ) (clock : List Timeval) (ps : List PollAnswer)
        → Step s (record s {
          parties = update i (after_receiving c timeout clock ps (s.parties i)) s.parties;
        })
    loses_request :
        (before after : List (List Bytes)) (m : List Bytes)
        → s.requests ≡ before ++ m ∷ after
        → Step s (record s { requests = before ++ after })
    loses_reply :
        (before after : List (List Bytes)) (m : List Bytes)
        → s.replies ≡ before ++ m ∷ after
        → Step s (record s { replies = before ++ after })

  -- The systems that `start` comes to.
  pub data Reach (start : System S) : System S → Type 0 where
    here : Reach start start
    later : {s t : System S} → Reach start s → Step s t → Reach start t

  -- The controller `c` of the client `i` waits under no id.
  abbrev pub IsIdle : System S → Bytes → ℕ → Type 0
  IsIdle s i c = (j : ℕ) → find j (s.parties i).world.replylist ≢ some c

  -- ZSendMethod does not look whether the controller already waits. A step is careful when it is no
  -- call of ZSendMethod, or one for a controller that waits under no id, when there is an id for it.
  abbrev pub IsCarefulStep : (s t : System S) → Step s t → Type 0
  IsCarefulStep s t (asks i c opcode request buffer m e out) =
      IsIdle s i c × ((s.parties i).world.nextreply + 1 < 2 ^ 64)
  IsCarefulStep s t (refuses i c opcode request e) = IsIdle s i c
  IsCarefulStep s t step = Unit

  -- A run all of whose steps are careful.
  abbrev pub IsCareful : (start s : System S) → Reach start s → Type 0
  IsCareful start s here = Unit
  IsCareful start s (later {s = t} reach step) = IsCareful start t reach × IsCarefulStep t s step
