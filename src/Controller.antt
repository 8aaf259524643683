-- ===== src/Controller.antt =====
-- include/zqrpc/ZController.hpp: the client's handle of one request.
use zqrpc.Errors.{ZError, success, zerror_of}
use zqrpc.Prelude.{ℕ, ◌-◌, ◌^◌, Bytes, Bool, true, false, []}

pub data RespCode : Type 0 where
  unset working ready error timed_out : RespCode

pub record ZController : Type 0 where
  pub reqno : ℕ
  pub rcode : RespCode
  pub zerror : ZError
  pub payload : Bytes

-- MAX_SIZET, of a 64-bit std::size_t
abbrev pub max_sizet : ℕ
max_sizet = 2 ^ 64 - 1

-- The constructor
abbrev pub fresh : ZController
fresh = record { reqno = max_sizet; rcode = unset; zerror = zerror_of success; payload = [] }

abbrev pub is_working : RespCode → Bool
is_working working = true
is_working _ = false

abbrev pub is_ready : RespCode → Bool
is_ready ready = true
is_ready _ = false

unfoldable pub ok : ZController → Bool
ok c = is_ready c.rcode
