-- ===== src/Subject/InProcess/Handles.antt =====
-- Which handles an adapter of subject/in_process.py accepts
use agent_verification_proto.Base.{
  String, ◌≡◌, ◌≢◌, ◌&&◌, ◌==◌, if◌then◌else◌, raise, Method, arith, is_ok, eq_iff,
}
use agent_verification_proto.Base.Dict.{lookup-insert, lookup-insert_self, lookup-erase}
use agent_verification_proto.Base.Json.{Fields}
use agent_verification_proto.Subject.Values.{subject_transport, SubjectHandle}
use agent_verification_proto.Subject.InProcess.{
  Raised, InProcessSubjectAdapter, open_subject, assert_handle, release_subject, reported, invoke,
}
use text.Mathlib.TextPositions.{eq_refl}

-- A handle that was just opened runs the subject, whose report or failure is what `invoke` gives.
invoke-open_subject :
    {G : Type 0} (subject : Fields → Method Raised G String) (drawn identity_digest : String)
    (task : Fields) (a : InProcessSubjectAdapter) (g : G)
    → invoke subject
        (open_subject drawn identity_digest a).0
        task
        (open_subject drawn identity_digest a).1
        g
      ≡ (reported (subject task g).0, (subject task g).1)
unfolding invoke open_subject assert_handle
invoke-open_subject subject drawn identity_digest task a g = simp (lookup-insert_self, eq_refl)

-- Opening a handle with a new identifier changes no other handle's standing.
assert_handle-open_subject :
    (drawn identity_digest : String) (a : InProcessSubjectAdapter) (other : SubjectHandle)
    → (open_subject drawn identity_digest a).0.handle_id ≢ other.handle_id
    → assert_handle other (open_subject drawn identity_digest a).1 ≡ assert_handle other a
unfolding open_subject assert_handle
assert_handle-open_subject drawn identity_digest a other apart = ground (
  arith,
  lookup-insert (open_subject drawn identity_digest a).0.handle_id other.handle_id identity_digest
      a.handles,
  eq_iff (open_subject drawn identity_digest a).0.handle_id other.handle_id,
  apart,
)

-- A release that succeeds ends every handle with the identifier, and no other. One that raises changes
-- nothing.
assert_handle-release_subject :
    (handle other : SubjectHandle) (a : InProcessSubjectAdapter)
    → assert_handle other (release_subject handle a).1 ≡ (
        if is_ok (assert_handle handle a) && (handle.handle_id == other.handle_id)
        then raise subject_transport
        else assert_handle other a)
unfolding release_subject assert_handle
assert_handle-release_subject handle other a =
    ground (arith, lookup-erase handle.handle_id other.handle_id a.handles)
