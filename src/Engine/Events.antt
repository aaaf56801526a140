-- ===== src/Engine/Events.antt =====
-- app/engine/events.py: the events of a run, and the errors that are shown to clients. Token counts
-- of `Done` are natural numbers.
use agentstrata.Json.{Fields}
use agentstrata.Prelude.{
  Bool-cases, List, Option, String, [], any, if◌then◌else◌, inl, inr, none, refl, some, str_eq, ℕ,
  ◌∷◌, ◌≡◌,
}
use agentstrata.Prelude.Dict.{Dict}
use agentstrata.Storage.Model.{codes}
use agentstrata.Text.{Text, occurs}

-- The classes of `AgentEvent`.
pub data AgentEvent : Type 0 where
  text_delta : Text → AgentEvent
  tool_call : String → String → Fields → AgentEvent
  tool_result : String → Option String → Option String → AgentEvent
  agent_transfer : String → String → AgentEvent
  iteration : ℕ → AgentEvent
  approval_required : String → String → String → String → Option String → AgentEvent
  rag_degraded : AgentEvent
  done : String → Option String → Dict String ℕ → AgentEvent
  run_error : String → String → AgentEvent

abbrev pub public_error_codes : List String
public_error_codes =
    "invalid_session_id" ∷ "session_busy" ∷ "storage_unavailable" ∷ "storage_capacity"
    ∷ "auth_unavailable" ∷ "rate_limited" ∷ "overloaded" ∷ "provider_auth" ∷ "provider_unavailable"
    ∷ "provider_error" ∷ "context_length_exceeded" ∷ "agent_timeout" ∷ "budget_exceeded"
    ∷ "iteration_limit" ∷ "tool_outcome_unknown" ∷ "invalid_request" ∷ "idempotency_in_progress"
    ∷ "internal_error" ∷ []

pub record PublicError : Type 0 where
  pub code : String
  pub message : String

-- PublicError(code, message), which raises for an unknown code
unfoldable pub public_error : String → String → Option PublicError
unfolding any
public_error code message =
    if any (str_eq code) public_error_codes
    then some (record { code = code; message = message })
    else none

-- The exceptions that `sanitize_error` tells apart; a `ValueError` with its text.
pub data Failure : Type 0 where
  public_failure : PublicError → Failure
  cancelled_error : Failure
  timeout_error : Failure
  value_error : Text → Failure
  other_failure : Failure

unfoldable pub sanitize_error : Failure → Option PublicError
unfolding public_error occurs codes
sanitize_error (public_failure e) = some e
sanitize_error cancelled_error =
    public_error "agent_timeout" "The request was cancelled by timeout or disconnect."
sanitize_error timeout_error = public_error "agent_timeout" "The request exceeded its deadline."
sanitize_error (value_error text) =
    if occurs (codes "Transfer target agent") text
    then public_error "provider_error" "The requested transfer target agent is unavailable."
    else public_error "internal_error" "An internal error occurred; see correlated logs."
sanitize_error other_failure =
    public_error "internal_error" "An internal error occurred; see correlated logs."

-- Every exception gets a public error: the codes that `sanitize_error` uses are all known.
pub sanitize_error_total : (f : Failure) → (e : PublicError) × (sanitize_error f ≡ some e)
unfolding sanitize_error
sanitize_error_total (public_failure e) = (e, refl)
sanitize_error_total cancelled_error = (_, refl)
sanitize_error_total timeout_error = (_, refl)
sanitize_error_total (value_error text) =
    elim (Bool-cases (occurs (codes "Transfer target agent") text)) [
      | inl e ↦ (
        record {
          code = "provider_error";
          message = "The requested transfer target agent is unavailable.";
        },
        rw (sanitize_error, e) refl,
      )
      | inr e ↦ (
        record {
          code = "internal_error";
          message = "An internal error occurred; see correlated logs.";
        },
        rw (sanitize_error, e) refl,
      )
    ]
sanitize_error_total other_failure = (_, refl)
