-- ===== src/Mcp/Gateway/Recording.antt =====
-- What a call of a tool leaves in the records of the gateway.
use Prim.Native.String.append
use agent_verification_proto.Base.{
  String, Bool, true, false, not, ◌||◌, Option, none, some, [], ◌∷◌, ◌++◌, ◌≡◌, refl, ap,
  if◌then◌else◌, ◌⊎◌, inl, inr, Result, ok, raise, ◌>>=◌, IsOk, arith,
}
use agent_verification_proto.Base.Text.{is_empty}
use agent_verification_proto.Base.Integers.{ℤ}
use agent_verification_proto.Base.Json.{Value, obj, Fields, get}
use agent_verification_proto.Mcp.Values.{
  McpError, upstream_error, transport_error, protocol_error, permission_denied, schema_drift_error,
  value_error, type_error, encoding_error, validator_error, CallOutcome, success, upstream_failure,
  CallRecord, new_call_record,
}
use agent_verification_proto.Mcp.Gateway.{
  Gateway, check_structured, call_record, append_record, check_result, digest_of_result,
  accept_normalized, accept_result, settle,
}
use agent_verification_proto.Mcp.Calls.{
  Call, ReadyCall, correlation_or, is_complete, has_bad_flag, normalize_call_result, outcome_of,
}

-- The gateway with one more record.
abbrev pub recorded : CallRecord → Gateway → Gateway
recorded made g = record g { records = g.records ++ made ∷ [] }

-- No record, or one for the tool that was called.
abbrev pub IsLogged : Call → Gateway → Gateway → Type 0
IsLogged c g after =
    (after ≡ g) ⊎ ((made : CallRecord) × (after ≡ recorded made g) × (made.tool_name ≡ c.name))

new_call_record-cases :
    (r : CallRecord) → (new_call_record r ≡ ok r) ⊎ (new_call_record r ≡ raise value_error)
unfolding new_call_record
new_call_record-cases r = ground arith

module _ (digest : Value → Result McpError String) (is_schema : Value → Bool)
    (conforms : Value → Value → Result McpError Bool) (integer_of : String → Option ℤ)
    (base64_utf8 : String → String) where
  abbrev record_for :
      Call → ReadyCall → Result McpError (Option String) → CallOutcome → Result McpError CallRecord
  record_for = call_record digest is_schema conforms integer_of base64_utf8

  -- Why structured content is refused, if it is.
  abbrev conformity : Result McpError Bool → Option McpError
  conformity (ok true) = none
  conformity (ok false) = some protocol_error
  conformity (raise e) = some e

  abbrev structure_refusal : Option Value → Option Value → Option McpError
  structure_refusal none content = none
  structure_refusal (some schema) none = some protocol_error
  structure_refusal (some schema) (some content) = conformity (conforms schema content)

  abbrev is_success : CallOutcome → Bool
  is_success success = true
  is_success _ = false

  -- Why an answer to a call is refused, if it is.
  abbrev pub refusal : ReadyCall → Fields → Option McpError
  refusal ready result =
      if not (is_complete (get "resultType" result)) || has_bad_flag (get "isError" result)
      then some protocol_error
      else if is_success (outcome_of (get "isError" result))
      then structure_refusal ready.baseline.output_schema (get "structuredContent" result)
      else none

  -- The result with the record, where the record can be made, and the raise of a digest without it.
  abbrev recorded_or :
      Result McpError CallRecord
      → Result McpError Fields
      → Gateway
      → Result McpError Fields × Gateway
  recorded_or (ok made) outcome g = (outcome, recorded made g)
  recorded_or (raise e) outcome g = (raise e, g)

  abbrev unless_refused :
      Option McpError → Call → ReadyCall → Fields → Gateway → Result McpError Fields × Gateway
  unless_refused (some e) c ready result g = (raise e, g)
  unless_refused none c ready result g =
      recorded_or
        (record_for c ready (digest (obj result) >>= λ d. ok (some d))
          (outcome_of (get "isError" result)))
        (ok result) g

  -- The answer to a call, by cases.
  abbrev pub settled :
      Call → ReadyCall → Result McpError Fields → Gateway → Result McpError Fields × Gateway
  settled c ready (raise upstream_error) g =
      recorded_or (record_for c ready (ok none) upstream_failure) (raise upstream_error) g
  settled c ready (raise e) g = (raise e, g)
  settled c ready (ok result) g = unless_refused (refusal ready result) c ready result g

  correlation_or-filled :
      (fresh : String) (given : Option String) → is_empty (correlation_or fresh given) ≡ false
  correlation_or-filled fresh none = ap is_empty (append.cons "m" "cp_" fresh)
  correlation_or-filled fresh (some String.[]) = ap is_empty (append.cons "m" "cp_" fresh)
  correlation_or-filled fresh (some (String.◌∷◌ c s)) = refl

  -- Behind the request of a call of a tool whose name is not empty: an upstream error is recorded and
  -- raised again; any other raise and an answer that is refused leave no record. An answer is refused if
  -- it is not complete, its flag `isError` is no Boolean, or it is a success without the structured
  -- content that the output schema asks for; what the validator raises is raised. An answer that is not
  -- refused is returned, and recorded with its outcome. Where a digest of the record raises, that is
  -- raised instead of either, and nothing is recorded.
  pub settle-settled :
      (c : Call) (ready : ReadyCall) (answer : Result McpError Fields) (g : Gateway)
      → is_empty c.name ≡ false
      → settle digest is_schema conforms integer_of base64_utf8 c ready answer g
        ≡ settled c ready answer g
  unfolding settle accept_result normalize_call_result check_structured new_call_record outcome_of
  settle-settled c ready (raise upstream_error) g named =
      ground (arith, named, correlation_or-filled c.fresh c.correlation_id)
  settle-settled c ready (raise transport_error) g named = refl
  settle-settled c ready (raise protocol_error) g named = refl
  settle-settled c ready (raise permission_denied) g named = refl
  settle-settled c ready (raise schema_drift_error) g named = refl
  settle-settled c ready (raise value_error) g named = refl
  settle-settled c ready (raise type_error) g named = refl
  settle-settled c ready (raise encoding_error) g named = refl
  settle-settled c ready (raise validator_error) g named = refl
  settle-settled c ready (ok result) g named =
      ground (arith, named, correlation_or-filled c.fresh c.correlation_id)

  -- A record that can be made is for the tool that was called.
  call_record-IsNamed :
      (c : Call) (ready : ReadyCall) (digested : Result McpError (Option String))
      (outcome : CallOutcome)
      → IsOk (λ made. made.tool_name ≡ c.name) (record_for c ready digested outcome)
  call_record-IsNamed c ready digested outcome = ground arith

  append_record-IsLogged :
      (c : Call) (record_of : Result McpError CallRecord) (outcome : Result McpError Fields)
      (g : Gateway)
      → IsOk (λ made. made.tool_name ≡ c.name) record_of
      → IsLogged c g
          (append_record digest is_schema conforms integer_of base64_utf8 record_of outcome g).1
  append_record-IsLogged c (raise e) outcome g named = inl refl
  append_record-IsLogged c (ok made) outcome g named = elim (new_call_record-cases made) [
    | inl kept ↦ rw (append_record, kept) (inr (made, refl, named))
    | inr refused ↦ rw (append_record, refused) (inl refl)
  ]

  accepted-IsLogged :
      (c : Call) (ready : ReadyCall) (normalized : Result McpError Fields) (g : Gateway)
      → IsLogged c g
          (accept_normalized digest is_schema conforms integer_of base64_utf8 c ready normalized
            g).1
  accepted-IsLogged c ready (raise e) g = inl refl
  accepted-IsLogged c ready (ok normalized) g =
      append_record-IsLogged c
        (record_for c ready
          (digest_of_result digest is_schema conforms integer_of base64_utf8 normalized)
          (outcome_of (get "isError" normalized)))
        (ok normalized) g (call_record-IsNamed c ready _ _)

  pub settle-IsLogged :
      (c : Call) (ready : ReadyCall) (answer : Result McpError Fields) (g : Gateway)
      → IsLogged c g (settle digest is_schema conforms integer_of base64_utf8 c ready answer g).1
  unfolding settle accept_result
  settle-IsLogged c ready (raise upstream_error) g =
      append_record-IsLogged c (record_for c ready (ok none) upstream_failure)
        (raise upstream_error) g (call_record-IsNamed c ready (ok none) upstream_failure)
  settle-IsLogged c ready (raise transport_error) g = inl refl
  settle-IsLogged c ready (raise protocol_error) g = inl refl
  settle-IsLogged c ready (raise permission_denied) g = inl refl
  settle-IsLogged c ready (raise schema_drift_error) g = inl refl
  settle-IsLogged c ready (raise value_error) g = inl refl
  settle-IsLogged c ready (raise type_error) g = inl refl
  settle-IsLogged c ready (raise encoding_error) g = inl refl
  settle-IsLogged c ready (raise validator_error) g = inl refl
  settle-IsLogged c ready (ok result) g =
      accepted-IsLogged c ready
        (check_result digest is_schema conforms integer_of base64_utf8 ready result) g
