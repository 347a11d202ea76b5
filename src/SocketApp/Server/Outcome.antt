-- ===== src/SocketApp/Server/Outcome.antt =====
-- Which operations are known, and how the outcome of a request is logged.

use mcp_log_server.Prelude.{
  All, Bool, Bool-cases, List, String, [], arith, contains, false, inl, inr, nat_eq, option_eq,
  refl, string_eq, ◌==◌, ◌||◌, ◌↔◌, ◌∷◌, ◌≡◌, ◌≢◌,
}
use mcp_log_server.Prelude.Int.{int_eq}
use mcp_log_server.Prelude.Json.{Fields, Json, get_or_null, null, obj, str}
use mcp_log_server.Prelude.Result.{Result, err}
use mcp_log_server.SocketApp.Registry.{
  Call, as_operation, dispatch, dispatch_request, operation_missing, unsupported_operation,
}
use mcp_log_server.SocketApp.Registry.Known.{dispatch-Accepts}
use mcp_log_server.SocketApp.Server.{
  BackendError, build_response, failed_unsupported_operation, invalid_label, log_request_outcome,
  operation_log_label, protocol_error, supported_operations, value,
}
use mcp_log_server.SocketApp.Spool.{path_eq}

or-false : {a b : Bool} → (a || b) ≡ false → (a ≡ false) × (b ≡ false)
or-false {a} {b} h = ground arith

-- Each test against a list that lacks the text fails.
tests_fail :
    (names : List String) (x : String)
    → contains names x ≡ false
    → All (λ name. (x == name) ≡ false) names
tests_fail [] x h = tt
tests_fail (name ∷ names) x h =
    let (a, b) = or-false {a = x == name} {b = contains names x} h in (a, tests_fail names x b)

-- An operation outside the list of the log labels is refused by the dispatch, whatever the
-- parameters.
dispatch_unsupported :
    (operation : String) (params : Fields)
    → contains supported_operations operation ≡ false
    → dispatch operation params ≡ err (unsupported_operation operation)
unfolding dispatch
dispatch_unsupported operation params h =
    let t = tests_fail supported_operations operation h in
    rw (
      t.0, t.1.0, t.1.1.0, t.1.1.1.0, t.1.1.1.1.0, t.1.1.1.1.1.0, t.1.1.1.1.1.1.0,
      t.1.1.1.1.1.1.1.0, t.1.1.1.1.1.1.1.1.0, t.1.1.1.1.1.1.1.1.1.0, t.1.1.1.1.1.1.1.1.1.1.0,
      t.1.1.1.1.1.1.1.1.1.1.1.0, t.1.1.1.1.1.1.1.1.1.1.1.1.0, t.1.1.1.1.1.1.1.1.1.1.1.1.1.0,
    )

-- The registry refuses an operation as unsupported exactly when the server's list of supported
-- operations lacks it, whatever the parameters.
pub dispatch-unsupported_iff :
    (operation : String) (params : Fields)
    → (dispatch operation params ≡ err (unsupported_operation operation))
      ↔ (contains supported_operations operation ≡ false)
dispatch-unsupported_iff operation params = (
  λ refused. elim (Bool-cases (contains supported_operations operation)) [
    | inl known ↦ absurd ((dispatch-Accepts operation params known).never operation refused)
    | inr unknown ↦ unknown
  ],
  dispatch_unsupported operation params,
)

as_operation-no_text :
    (j : Json) → ((t : String) → j ≢ str t) → as_operation j ≡ err operation_missing
unfolding as_operation
as_operation-no_text (str t) h = absurd (h t refl)
as_operation-no_text null h = refl
as_operation-no_text _ h = refl

operation_log_label-no_text :
    (j : Json) → ((t : String) → j ≢ str t) → operation_log_label j ≡ (invalid_label, false)
unfolding operation_log_label
operation_log_label-no_text (str t) h = absurd (h t refl)
operation_log_label-no_text null h = refl
operation_log_label-no_text _ h = refl

module _ {S : Type 0} (run : Call → S → Result BackendError Fields × S) where
  -- A request object whose operation is missing or no text is answered with the error of a missing
  -- operation, leaves the backend's state as it was, and is logged as an unsupported operation.
  pub build_response-no_operation :
      (request : Fields) (s : S)
      → ((t : String) → get_or_null request "operation" ≢ str t)
      → build_response run (value (obj request)) s
        ≡ ((err (protocol_error operation_missing), failed_unsupported_operation), s)
  unfolding build_response dispatch_request log_request_outcome
  build_response-no_operation request s h =
      let j = get_or_null request "operation" in
      rw (as_operation-no_text j h, operation_log_label-no_text j h)
