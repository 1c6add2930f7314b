-- ===== src/Resource/Vouched.antt =====
-- When the validator consents.
use ani_session_gateway.Prelude.{
  ◌≡◌, refl, Bool, true, false, not, ◌||◌, ◌==◌, if-both, Option, none, some, Str, Result, ok, err,
}
use ani_session_gateway.Session.Model.{InstanceBinding}
use ani_session_gateway.Resource.{
  Code, precondition, missing, denied, other_code, TerminalTarget, Validator, terminal_target,
  answered, asked, validate,
}

-- The validator consents only if the service answered that exactly this target is valid.
pub record IsVouched (v : Validator) (tenant id : Str) (b : InstanceBinding) : Type 0 where
  pub client : TerminalTarget → Result Code (Option Bool)
  pub has_client : v.client ≡ some client
  pub says_valid : client (terminal_target tenant id b) ≡ ok (some true)

answered-eq-none : (r : Result Code (Option Bool)) → answered r ≡ none → r ≡ ok (some true)
unfolding answered
answered-eq-none (err precondition) h = cc
answered-eq-none (err missing) h = cc
answered-eq-none (err denied) h = cc
answered-eq-none (err other_code) h = cc
answered-eq-none (ok none) h = cc
answered-eq-none (ok (some true)) h = refl
answered-eq-none (ok (some false)) h = cc

pub validate-IsVouched :
    (v : Validator) (tenant id : Str) (b : InstanceBinding)
    → validate v tenant id b ≡ none
    → IsVouched v tenant id b
unfolding validate
validate-IsVouched v tenant id b =
    if-both (λ x. x ≡ none → IsVouched v tenant id b) (v.request_timeout == 0 || not b.enabled)
      (λ e h. cc) (λ e. vouched v.client refl)
  where
    vouched :
        (o : Option (TerminalTarget → Result Code (Option Bool)))
        → v.client ≡ o
        → asked o (terminal_target tenant id b) answered ≡ none
        → IsVouched v tenant id b
    vouched none e h = cc
    vouched (some client) e h = record {
      client = client;
      has_client = e;
      says_valid = answered-eq-none _ h;
    }
