-- ===== src/System/Steps.antt =====
-- Every step keeps the system sound.
use zqrpc.Lexical.{Lexical, IsLexical}
use zqrpc.Socket.{RecvAnswer, nothing, recv_failed}
use zqrpc.Socket.Framing.{parts, wire, parts_injective}
use zqrpc.Channel.{World, next_id, request_frames}
use zqrpc.Channel.Arrivals.{Stream, ended, message, pause, failure}
use zqrpc.Worker.{Services, RpcWorker}
use zqrpc.Worker.Answer.{IsPolite}
use zqrpc.EndToEnd.{Router, IsRouter}
use zqrpc.System.{
  Asked, Party, System, update, Step, IsCarefulStep, asks, refuses, serves, delivers, interrupts,
  receives, loses_request, loses_reply, after_asking, sent_by,
}
use zqrpc.System.Sound.{IsSound, one_moves, update_self}
use zqrpc.System.Log.{IsReply}
use zqrpc.System.Member.{arrived-IsMember, polls_to_come-IsMember, z_recv_method-IsMember}
use zqrpc.System.Asking.{asking-Extends, asking-sent, asking-IsMember, refusal-IsMember}
use zqrpc.System.Flight.{IsRequest, IsReplyTo, serving-IsReplyTo}
use zqrpc.Prelude.{
  ℕ, ◌≡◌, ◌≢◌, sym, ap, ◌∙◌, subst, ◌⊎◌, ◌+◌, inl, inr, nat_eq, Bytes, Option, some, false, ◌<◌,
  ◌^◌, List, [], ◌∷◌, ◌++◌, append-nil, All, All-append, All-around, arith,
}
use zqrpc.Prelude.Assoc.{Assoc, find, find-insert_self}

module _ (l : Lexical) (lex : IsLexical l) (router : Router) (routes : IsRouter router)
    {R A M S : Type 0} (serialize : R → Option Bytes) (parse : Bytes → A) (services : Services M S)
    (worker : RpcWorker) where
  interruption :
      (a : RecvAnswer) (asked : Assoc ℕ Asked)
      → (a ≡ nothing) ⊎ (a ≡ recv_failed)
      → Stream (IsReply l services worker asked) (a ∷ [])
  interruption a asked (inl e) = rw e (pause ended)
  interruption a asked (inr e) = rw e (failure ended)

  -- A reply that comes alone.
  reply_stream :
      (asked : Assoc ℕ Asked) (m : List Bytes)
      → IsReply l services worker asked m
      → Stream (IsReply l services worker asked) (wire m)
  reply_stream asked m r =
      message (subst (IsReply l services worker asked) r.frames r)
        (ap wire r.frames ∙ sym (append-nil _)) ended

  delivered :
      (s : System S) (i : Bytes) (m : List Bytes)
      → IsReplyTo l serialize services worker s.parties (i ∷ m)
      → IsReply l services worker (s.parties i).asked (router.to_client (i ∷ m))
  delivered s i m r =
      let to_here : r.to ≡ i = ground (arith, r.addressed) in
      let same_rest : r.rest ≡ router.to_client (i ∷ m) =
        ground (arith, r.addressed) ∙ sym (routes.strips i m) in
      subst (λ j. IsReply l services worker (s.parties j).asked (router.to_client (i ∷ m))) to_here
        (subst (IsReply l services worker (s.parties r.to).asked) same_rest r.is_reply)

  asked_now :
      (s : System S) (i : Bytes) (c : ℕ) (opcode : Bytes) (request : R) (buffer : Bytes)
      (m : List Bytes)
      → IsSound l serialize services worker s
      → serialize request ≡ some buffer
      → ((j : ℕ) → find j (s.parties i).world.replylist ≢ some c)
      → (s.parties i).world.nextreply + 1 < 2 ^ 64
      → (sent_by l router serialize parse services worker opcode c request
          (s.parties i).world).socket.sent
        ≡ parts m
      → let p =
          after_asking l router serialize parse services worker opcode c request buffer
            (s.parties i) in
        IsSound l serialize services worker (record s {
          parties = update i p s.parties;
          requests = s.requests ++ router.to_worker i m ∷ [];
        })
  asked_now s i c opcode request buffer m sound e idle room out = record {
    members = moved.members;
    requested = All-append _ s.requests (_ ∷ []) moved.requested (is_request, tt);
    replied = moved.replied;
  }
    where
      w : World
      w = (s.parties i).world

      p : Party
      p =
          after_asking l router serialize parse services worker opcode c request buffer
            (s.parties i)

      moved : IsSound l serialize services worker (record s { parties = update i p s.parties })
      moved =
          one_moves l serialize services worker s i p sound
            (asking-IsMember l services worker serialize opcode c request (s.parties i).asked w
              (sound.members i) buffer e idle room)
            (asking-Extends l services worker serialize opcode c request (s.parties i).asked w
              (sound.members i) buffer e idle room)

      says : m ≡ request_frames l serialize (next_id w.nextreply) opcode buffer
      says = parts_injective _ _ (
          sym out
          ∙ asking-sent l services worker serialize opcode c request (s.parties i).asked w
              (sound.members i) buffer e idle room)

      is_request :
          IsRequest l serialize services worker (update i p s.parties) (router.to_worker i m)
      is_request = record {
        from = i;
        id = next_id w.nextreply;
        entry = record { controller = c; opcode = opcode; buffer = buffer };
        in_log =
            ap (λ (q : Party). find (next_id w.nextreply) q.asked) (update_self i p s.parties)
            ∙ find-insert_self (next_id w.nextreply) _ (s.parties i).asked;
        frames = routes.adds i m ∙ ap (λ k. i ∷ k) says;
      }

  pub Step-IsSound :
      (s t : System S)
      → IsPolite services
      → worker.noreply ≡ false
      → IsSound l serialize services worker s
      → (step : Step l router serialize parse services worker s t)
      → IsCarefulStep l router serialize parse services worker s t step
      → IsSound l serialize services worker t
  Step-IsSound s t polite n sound (asks i c opcode request buffer m e out) (idle, room) =
      asked_now s i c opcode request buffer m sound e idle room out
  Step-IsSound s t polite n sound (refuses i c opcode request e) idle =
      one_moves l serialize services worker s i _ sound
        (refusal-IsMember l services worker serialize opcode c request (s.parties i).asked
          (s.parties i).world (sound.members i) e idle)
        (λ id a h. h)
  Step-IsSound s t polite n sound (serves before after m reply u r i open' quiet same e) careful =
      let (is_request, rest) =
        All-around (IsRequest l serialize services worker s.parties) before m after
          (subst (All (IsRequest l serialize services worker s.parties)) r sound.requested) in
      record {
        members = sound.members;
        requested = rest;
        replied = All-append _ s.replies (reply ∷ []) sound.replied (
          serving-IsReplyTo l serialize services worker s.parties m reply u polite n is_request i
              open' quiet e,
          tt,
        );
      }
  Step-IsSound s t polite n sound (delivers before after i m r) careful =
      let (is_reply, rest) =
        All-around (IsReplyTo l serialize services worker s.parties) before (i ∷ m) after
          (subst (All (IsReplyTo l serialize services worker s.parties)) r sound.replied) in
      one_moves l serialize services worker (record s { replies = before ++ after }) i _
        (record { members = sound.members; requested = sound.requested; replied = rest })
        (arrived-IsMember l services worker (s.parties i).asked (s.parties i).world _
          (sound.members i)
          (reply_stream (s.parties i).asked (router.to_client (i ∷ m)) (delivered s i m is_reply)))
        (λ id b h. h)
  Step-IsSound s t polite n sound (interrupts i a e) careful =
      one_moves l serialize services worker s i _ sound
        (arrived-IsMember l services worker (s.parties i).asked (s.parties i).world (a ∷ [])
          (sound.members i) (interruption a (s.parties i).asked e))
        (λ id b h. h)
  Step-IsSound s t polite n sound (receives i c timeout clock ps) careful =
      one_moves l serialize services worker s i _ sound
        (z_recv_method-IsMember l services worker lex parse (s.parties i).asked _ c timeout clock (
          polls_to_come-IsMember l services worker (s.parties i).asked (s.parties i).world ps
            (sound.members i)))
        (λ id b h. h)
  Step-IsSound s t polite n sound (loses_request before after m r) careful = record {
    members = sound.members;
    requested =
        (All-around _ before m after
          (subst (All (IsRequest l serialize services worker s.parties)) r sound.requested)).1;
    replied = sound.replied;
  }
  Step-IsSound s t polite n sound (loses_reply before after m r) careful = record {
    members = sound.members;
    requested = sound.requested;
    replied =
        (All-around _ before m after
          (subst (All (IsReplyTo l serialize services worker s.parties)) r sound.replied)).1;
  }
