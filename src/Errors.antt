-- ===== src/Errors.antt =====
-- include/zqrpc/ZError.hpp: the error codes and what the program throws.
use zqrpc.Prelude.{ℕ, Bytes, [], ◌≡◌, arith}

pub data ErrorCode : Type 0 where
  success invalid_header no_such_service no_such_method : ErrorCode
  method_not_implemented connection_error data_corrupted client_error unknown_error : ErrorCode

-- (int) ecode
unfoldable pub icode : ErrorCode → ℕ
icode success = 0
icode invalid_header = 1
icode no_such_service = 2
icode no_such_method = 3
icode method_not_implemented = 4
icode connection_error = 5
icode data_corrupted = 6
icode client_error = 7
icode unknown_error = 8

pub record ZError : Type 0 where
  pub ecode : ErrorCode
  pub emesg : Bytes

-- ZError(ecode), with the default message "".
abbrev pub zerror_of : ErrorCode → ZError
zerror_of c = record { ecode = c; emesg = [] }

-- ZError::reset
unfoldable pub reset : ZError → ErrorCode → Bytes → ZError
reset e c m = record { ecode = c; emesg = m }

-- What a call may throw. `zmq_error` is zmq::error_t, `std_error` any other std::exception.
pub data Exception : Type 0 where
  zerror : ZError → Exception
  retry_exception timeout_exception fatal_exception proxy_exception exit_exception : Exception
  zmq_error std_error : Exception

-- Different codes have different numbers, so the number that goes over the wire names the error.
pub icode_injective : (c d : ErrorCode) → icode c ≡ icode d → c ≡ d
unfolding icode
icode_injective c d h = ground arith
