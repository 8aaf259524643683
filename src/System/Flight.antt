-- ===== src/System/Flight.antt =====
-- The messages that are under way: requests to the workers, replies to the clients.
use zqrpc.Lexical.{Lexical}
use zqrpc.Socket.Framing.{parts, wire}
use zqrpc.Channel.{request_frames}
use zqrpc.Worker.{Services, RpcWorker, Thread, iteration}
use zqrpc.Worker.Answer.{IsPolite}
use zqrpc.Worker.Replies.{iteration-replies}
use zqrpc.System.{Asked, Party}
use zqrpc.System.Log.{Extends, IsReply, Extends-IsReply}
use zqrpc.Prelude.{
  ℕ, ◌≡◌, refl, sym, ap, ◌∙◌, nat_eq, Bytes, Option, some, false, List, [], ◌∷◌, append-nil,
}
use zqrpc.Prelude.Assoc.{find}

-- Nobody forgets what was asked.
abbrev pub Grows : (Bytes → Party) → (Bytes → Party) → Type 0
Grows old new = (i : Bytes) → Extends (old i).asked (new i).asked

module _ (l : Lexical) {M S R : Type 0} (serialize : R → Option Bytes) (services : Services M S)
    (worker : RpcWorker) where
  -- A request that one of the clients has asked, with its identity in front.
  pub record IsRequest (parties : Bytes → Party) (m : List Bytes) : Type 0 where
    pub from : Bytes
    pub id : ℕ
    pub entry : Asked
    pub in_log : find id (parties from).asked ≡ some entry
    pub frames : m ≡ from ∷ request_frames l serialize id entry.opcode entry.buffer

  -- A reply to a request of the client whose identity stands in front.
  pub record IsReplyTo (parties : Bytes → Party) (m : List Bytes) : Type 0 where
    pub to : Bytes
    pub rest : List Bytes
    pub addressed : m ≡ to ∷ rest
    pub is_reply : IsReply l services worker (parties to).asked rest

  pub Grows-IsRequest :
      (old new : Bytes → Party) (m : List Bytes) → Grows old new → IsRequest old m → IsRequest new m
  Grows-IsRequest old new m up r = record {
    from = r.from;
    id = r.id;
    entry = r.entry;
    in_log = up r.from r.id r.entry r.in_log;
    frames = r.frames;
  }

  pub Grows-IsReplyTo :
      (old new : Bytes → Party) (m : List Bytes) → Grows old new → IsReplyTo old m → IsReplyTo new m
  Grows-IsReplyTo old new m up r = record {
    to = r.to;
    rest = r.rest;
    addressed = r.addressed;
    is_reply = Extends-IsReply l services worker _ _ r.rest (up r.to) r.is_reply;
  }

  -- A worker that is given a request sends a reply to it.
  pub serving-IsReplyTo :
      (parties : Bytes → Party) (m reply : List Bytes) (t : Thread S)
      → IsPolite services
      → worker.noreply ≡ false
      → IsRequest parties m
      → t.socket.incoming ≡ wire m
      → t.socket.sending ≡ []
      → t.socket.sent ≡ []
      → (iteration l services worker t).1.socket.sent ≡ parts reply
      → IsReplyTo parties reply
  serving-IsReplyTo parties m reply t polite n r i open' quiet e = record {
    to = r.from;
    rest = _;
    addressed =
        iteration-replies l services worker r.from [] (l.print r.id) r.entry.opcode r.entry.buffer
          [] t polite (i ∙ ap wire r.frames ∙ sym (append-nil _)) open' reply n quiet e;
    is_reply = record {
      id = r.id;
      entry = r.entry;
      code = _;
      text = _;
      in_log = r.in_log;
      frames = refl;
      answers = (t.services, refl);
    };
  }
