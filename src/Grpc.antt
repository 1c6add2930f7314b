-- ===== src/Grpc.antt =====
pub mod Messages
pub mod Requests
pub mod Sessions
-- internal/transport/grpc/server.go and internal/transport/grpc/instance_identity.go: the calls that
-- create a session and that hand an earlier one out again.
use ani_session_gateway.Prelude.{
  ℕ, leb, Bool, true, false, not, ◌&&◌, ◌||◌, if◌then◌else◌, Option, none, some, List, [], ◌∷◌, Str,
  str, str_eq, is_empty, Result, ok, err, and_then, map_err, Op,
}
use ani_session_gateway.Session.Model.{Time, Request, Issued, ReplayRequest}
use ani_session_gateway.Session.Errors.{
  Error, invalid_request, conflict, failed_precondition, invalid_ticket, capacity, not_found,
  unavailable, other,
}
use ani_session_gateway.Session.Contract.{SessionStore}
use ani_session_gateway.Manager.Config.{Primitives, ManagerConfig}
use ani_session_gateway.Manager.Calls.{World, issue, replay}
use ani_session_gateway.Grpc.Messages.{
  CreateSessionRequest, TargetMessage, GetSessionReplayRequest, Principal,
}
use ani_session_gateway.Grpc.Requests.{map_request}

-- The status codes that the calls answer with.
pub data Code : Type 0 where
  invalid_argument missing already_exists permission_denied resource_exhausted failed : Code
  unimplemented internal unreachable : Code

-- `mapError`.
abbrev pub map_error : Error → Code
map_error invalid_request = invalid_argument
map_error not_found = missing
map_error conflict = already_exists
map_error failed_precondition = failed
map_error capacity = resource_exhausted
map_error unavailable = unreachable
map_error _ = internal

-- What TLS says of a peer: how many chains were verified, and the URIs of each certificate.
pub record TlsInfo : Type 0 where
  pub verified_chains : ℕ
  pub peer_certificates : List (List Str)

abbrev pub governance_uri : Str
governance_uri = str "spiffe://ani.internal/service/ani-governance"

abbrev pub is_governance : List (List Str) → Bool
is_governance ((uri ∷ []) ∷ rest) = str_eq uri governance_uri
is_governance _ = false

-- `authenticatedGovernance`, where none is a peer without TLS.
unfoldable pub authenticated_governance : Option TlsInfo → Bool
authenticated_governance none = false
authenticated_governance (some tls) =
    leb 1 tls.verified_chains && is_governance tls.peer_certificates

-- What an answer is made of; its connect URL is a function of what was issued.
pub record Response : Type 0 where
  pub issued : Issued
  pub replayed : Bool

abbrev pub answer : Result Error Issued → Result Code Response
answer (ok i) = ok (record { issued = i; replayed = i.replayed })
answer (err e) = err (map_error e)

abbrev pub answer_again : Result Error Issued → Result Code Response
answer_again (ok i) = ok (record { issued = i; replayed = true })
answer_again (err e) = err (map_error e)

abbrev pub is_present {ℓ} : {A : Type ℓ} → Option A → Bool
is_present none = false
is_present (some a) = true

abbrev pub has_binding : Option TargetMessage → Bool
has_binding none = false
has_binding (some target) = is_present target.instance_binding || is_present target.vm_binding

abbrev pub is_managed : Option CreateSessionRequest → Bool
is_managed none = false
is_managed (some request) = has_binding request.target

module _ (S : SessionStore) (p : Primitives) (c : ManagerConfig) where
  abbrev pub issue_mapped :
      Option Request → Time → World S.Data → Result Code Response × World S.Data
  issue_mapped none now w = (err invalid_argument, w)
  issue_mapped (some mapped) now w =
      let (issued, v) = issue S p c mapped now w in (answer issued, v)

  -- `CreateSession`; the manager is there, since `main` builds one.
  unfoldable pub create_session :
      Option TlsInfo
      → Option CreateSessionRequest
      → Time
      → World S.Data
      → Result Code Response × World S.Data
  create_session peer request now w =
      if is_managed request && not (authenticated_governance peer)
      then (err permission_denied, w)
      else issue_mapped (map_request request) now w

  abbrev pub replay_request : GetSessionReplayRequest → Principal → ReplayRequest
  replay_request request principal = record {
    idempotency_key = request.idempotency_key;
    tenant_id = principal.tenant_id;
    subject_id = principal.subject_id;
    instance_id = request.instance_id;
    expected_version = request.expected_version;
  }

  abbrev pub replay_for :
      GetSessionReplayRequest
      → Option Principal
      → Time
      → Time
      → World S.Data
      → Result Code Response × World S.Data
  replay_for request none now later w = (err invalid_argument, w)
  replay_for request (some principal) now later w =
      let (issued, v) = replay S p c (replay_request request principal) now later w in
      (answer_again issued, v)

  abbrev pub replay_named :
      Option GetSessionReplayRequest
      → Time
      → Time
      → World S.Data
      → Result Code Response × World S.Data
  replay_named none now later w = (err invalid_argument, w)
  replay_named (some request) now later w = replay_for request request.principal now later w

  -- `GetSessionReplay`.
  unfoldable pub get_session_replay :
      Option TlsInfo
      → Option GetSessionReplayRequest
      → Time
      → Time
      → World S.Data
      → Result Code Response × World S.Data
  get_session_replay peer request now later w =
      if not (authenticated_governance peer)
      then (err permission_denied, w)
      else replay_named request now later w
