-- ===== src/Socket/Tests.antt =====
-- Runs of the socket at concrete messages.
use zqrpc.Socket.{Socket}
use zqrpc.Socket.Framing.{wire}
use zqrpc.Prelude.{true, codes, [], ◌∷◌, ◌++◌}

-- A socket on which nothing has happened.
abbrev pub quiet : Socket
quiet = record {
  incoming = [];
  sending = [];
  polls = [];
  sent = [];
  waits = [];
  controls = [];
  settings = [];
  endpoints = [];
  is_open = true;
}

abbrev two_waiting : Socket
two_waiting = record quiet { incoming = wire (codes "a" ∷ codes "b" ∷ []) ++ wire (codes "c" ∷ []) }
