-- ===== src/Subject/Values.antt =====
-- subject/models.py and errors.py: the values that pass through an adapter. The freezing of mappings
-- changes no value, and the steps of a result are not negative.
use agent_verification_proto.Base.{String, Option, ◌||◌, ℕ, Result, raise_if}
use agent_verification_proto.Base.Json.{Fields}
use agent_verification_proto.Base.Text.{is_empty}

pub data SubjectError : Type 0 where
  invalid_value subject_transport subject_execution : SubjectError

pub data SubjectStatus : Type 0 where
  completed : SubjectStatus

pub record SubjectDescription : Type 0 where
  pub name : String
  pub version : String
  pub adapter : String
  pub transport : String
  pub protocol_version : String
  pub metadata : Fields

-- SubjectDescription.__post_init__
abbrev pub check_description : SubjectDescription → Result SubjectError (Unit {0})
check_description d =
    raise_if (is_empty d.name || is_empty d.version || is_empty d.adapter || is_empty d.transport)
      invalid_value

pub record SubjectHandle : Type 0 where
  pub handle_id : String
  pub adapter_name : String
  pub adapter_version : String
  pub agent_system_digest : String

pub record SubjectResult : Type 0 where
  pub status : SubjectStatus
  pub report : Option String
  pub steps : ℕ
  pub metadata : Fields

-- SubjectInvocation; the timeout stands as the text of the float.
pub record SubjectInvocation : Type 0 where
  pub episode_id : String
  pub task : Fields
  pub max_steps : ℕ
  pub timeout_seconds : String
