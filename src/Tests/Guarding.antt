-- ===== src/Tests/Guarding.antt =====
-- A guard with one Episode bound.
use agent_verification_proto.Base.{ℕ, ◌+◌, String, ◌≡◌, refl, true, false, [], ◌∷◌, ok, Method}
use agent_verification_proto.Base.Dict.{Dict, lookup, insert}
use agent_verification_proto.Security.Policy.{
  SubjectCapabilityRequest, PolicyError, Compiled, CapabilityGuardPolicy, bind, new_policy,
  authorize, guarded_call,
}
use agent_verification_proto.Security.Policy.Denial.{
  IsDecided, authorize-IsDecided, is_granted, IsRouted, guarded_call-IsRouted,
}

abbrev constant_digest : Compiled → String
constant_digest compiled = "sha256:0"

abbrev bound : CapabilityGuardPolicy
bound = (bind "ep_1" (("subject", "mcp://commerce/order.get" ∷ []) ∷ []) new_policy).1

abbrev request : SubjectCapabilityRequest
request = record { episode_id = "ep_1"; actor_id = "subject"; capability = "refund.create" }

authorize-IsDecided_example :
    IsDecided request (lookup "ep_1" bound.allowed) bound (authorize constant_digest request bound)
authorize-IsDecided_example = authorize-IsDecided constant_digest request bound

abbrev counting : String → Dict String → Method PolicyError ℕ String
counting name arguments calls = (ok name, calls + 1)

guarded_call-IsRouted_example :
    IsRouted constant_digest counting
      (is_granted constant_digest (lookup "ep_1" bound.allowed) "order.get")
      "ep_1"
      "order.get"
      []
      bound
      0
      (guarded_call constant_digest counting "ep_1" "order.get" [] (bound, 0))
guarded_call-IsRouted_example =
    guarded_call-IsRouted constant_digest counting "ep_1" "order.get" [] bound 0

-- That call is granted, and one of another tool is not.
granted : is_granted constant_digest (lookup "ep_1" bound.allowed) "order.get" ≡ true
unfolding bind new_policy lookup insert
granted = refl

refused : is_granted constant_digest (lookup "ep_1" bound.allowed) "refund.create" ≡ false
unfolding bind new_policy lookup insert
refused = refl
