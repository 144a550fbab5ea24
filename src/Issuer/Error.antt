-- ===== src/Issuer/Error.antt =====
-- crates/lluma-issuer/src/error.rs: the errors, their codes and their HTTP statuses.
use lluma.Common.{ℕ, String}

pub data IssuerError : Type 0 where
  insufficient_credits unauthorized token_invalid double_spend request_id_conflict bad_request
        internal concurrent :
      IssuerError

unfoldable pub code : IssuerError → String
code insufficient_credits = "insufficient_credits"
code unauthorized = "unauthorized"
code token_invalid = "token_invalid"
code double_spend = "double_spend"
code request_id_conflict = "request_id_conflict"
code bad_request = "bad_request"
code internal = "internal"
code concurrent = "concurrent_request"

unfoldable pub status : IssuerError → ℕ
status insufficient_credits = 402
status unauthorized = 403
status token_invalid = 422
status double_spend = 409
status request_id_conflict = 409
status bad_request = 422
status internal = 500
status concurrent = 503
