-- ===== src/Subject/InProcess.antt =====
-- subject/in_process.py. The callable is a parameter, with the state of the gateway that it uses: it
-- reports a text or raises.
pub mod Handles
use agent_verification_proto.Base.{
  String, Bool, true, false, not, Option, none, some, [], ◌&&◌, ◌==◌, if◌then◌else◌, Result, ok,
  raise, Method, ◌>>◌, ◌>>>◌, raise_if,
}
use agent_verification_proto.Base.Dict.{Dict, lookup, insert, erase}
use agent_verification_proto.Base.Json.{Fields, field, end, string}
use agent_verification_proto.Base.Text.{◌<>◌, is_empty}
use agent_verification_proto.Subject.Values.{
  SubjectError, invalid_value, subject_transport, subject_execution, completed, SubjectDescription,
  check_description, SubjectHandle, SubjectResult,
}

-- What the callable raises.
pub data Raised : Type 0 where
  execution_error other_exception : Raised

pub record InProcessSubjectAdapter : Type 0 where
  pub handles : Dict String
  pub description : SubjectDescription

-- getattr(subject, "__name__", "in-process-subject")
abbrev callable_name : Option String → String
callable_name none = "in-process-subject"
callable_name (some name) = name

-- `name or getattr(...)`
abbrev subject_name : Option String → Option String → String
subject_name none function_name = callable_name function_name
subject_name (some name) function_name = if is_empty name then callable_name function_name else name

-- __init__
unfoldable pub new_adapter :
    Option String → Option String → Result SubjectError InProcessSubjectAdapter
new_adapter name function_name =
    let described : SubjectDescription = record {
      name = subject_name name function_name;
      version = "0.1.0";
      adapter = "in-process";
      transport = "python-callable";
      protocol_version = "avp.subject/v0.1";
      metadata = field "isolation" (string "none") end;
    } in
    do check_description described; ok (record { handles = []; description = described })

-- open, with the identifier that is drawn and the digest of the Agent System
unfoldable pub open_subject :
    String → String → InProcessSubjectAdapter → SubjectHandle × InProcessSubjectAdapter
open_subject drawn identity_digest a =
    let handle : SubjectHandle = record {
      handle_id = "subj_" <> drawn;
      adapter_name = a.description.name;
      adapter_version = a.description.version;
      agent_system_digest = identity_digest;
    } in
    (handle, record a { handles = insert handle.handle_id identity_digest a.handles })

abbrev pub owner_matches : SubjectHandle → SubjectDescription → Bool
owner_matches handle described =
    (handle.adapter_name == described.name) && (handle.adapter_version == described.version)

abbrev pub is_known : Option String → SubjectHandle → SubjectDescription → Bool
is_known none handle described = false
is_known (some agent_digest) handle described =
    (agent_digest == handle.agent_system_digest) && owner_matches handle described

-- _assert_handle
unfoldable pub assert_handle :
    SubjectHandle → InProcessSubjectAdapter → Result SubjectError (Unit {0})
assert_handle handle a =
    raise_if (not (is_known (lookup handle.handle_id a.handles) handle a.description))
      subject_transport

unfoldable pub release_subject :
    SubjectHandle → Method SubjectError InProcessSubjectAdapter (Unit {0})
release_subject handle a = (assert_handle handle a, a) >>> λ _.
    λ b. (ok tt, record b { handles = erase handle.handle_id b.handles })

abbrev pub reported : Result Raised String → Result SubjectError SubjectResult
reported (raise execution_error) = raise subject_execution
reported (raise other_exception) = raise subject_execution
reported (ok report) = ok (record {
  status = completed;
  report = some report;
  steps = 1;
  metadata = field "adapter" (string "in-process") end;
})

module _ {G : Type 0} (subject : Fields → Method Raised G String) where
  abbrev pub invoke_if :
      Result SubjectError (Unit {0}) → Fields → Method SubjectError G SubjectResult
  invoke_if (raise e) task g = (raise e, g)
  invoke_if (ok _) task g = let (result, after) = subject task g in (reported result, after)

  -- invoke, on the gateway's state
  unfoldable pub invoke :
      SubjectHandle → Fields → InProcessSubjectAdapter → Method SubjectError G SubjectResult
  invoke handle task a g = invoke_if (assert_handle handle a) task g
