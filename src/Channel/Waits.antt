-- ===== src/Channel/Waits.antt =====
-- src/RpcChannel.cc: how long the polls of ZRecvMethod wait.
use zqrpc.Lexical.{Lexical}
use zqrpc.Channel.{World, Timeval, mstime}
use zqrpc.Prelude.{ℕ, zero, suc, ◌+◌, ◌≡◌, ◌⊎◌, List, [], ◌∷◌, ◌++◌, All}
use zqrpc.Prelude.Int.{ℤ, pos, negsuc}

-- How many milliseconds a call may take: the timeout where it is positive, and a minute otherwise.
pub data IsLimit : ℤ → ℕ → Type 0 where
  positive : (n : ℕ) → IsLimit (pos (suc n)) (suc n)
  zero_means : IsLimit (pos zero) 60000
  negative_means : (n : ℕ) → IsLimit (negsuc n) 60000

-- A wait of `t` milliseconds that begins at some reading of the clock ends exactly at the deadline.
abbrev pub EndsAt : ℕ → List Timeval → ℕ → Type 0
EndsAt deadline [] t = ⊥
EndsAt deadline (tv ∷ clock) t = (t + mstime tv ≡ deadline) ⊎ EndsAt deadline clock t

-- What the polls of a call have waited for, in the order of the polls.
pub record WaitsUntil (deadline : ℕ) (clock : List Timeval) (before : List ℕ) (w : World)
    : Type 0 where
  pub new : List ℕ
  pub waited : w.socket.waits ≡ before ++ new
  pub on_time : All (EndsAt deadline clock) new
