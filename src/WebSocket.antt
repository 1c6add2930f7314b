-- ===== src/WebSocket.antt =====
pub mod Headers
pub mod Admission
-- internal/transport/websocket/handler.go: the admission of a WebSocket client.
use ani_session_gateway.Prelude.{
  ℕ, Bool, true, false, not, ◌&&◌, if◌then◌else◌, Option, none, some, List, [], ◌∷◌, Str, str,
  str_eq, is_empty, Result, ok, err,
}
use ani_session_gateway.Session.Model.{Time, Mode, ClaimedAccess, is_vnc}
use ani_session_gateway.Session.Errors.{
  Error, invalid_request, conflict, failed_precondition, invalid_ticket, capacity, not_found,
  unavailable, other,
}
use ani_session_gateway.Session.Contract.{SessionStore}
use ani_session_gateway.Manager.Config.{Primitives, ManagerConfig}
use ani_session_gateway.Manager.Calls.{World, claim, close}
use ani_session_gateway.Connected.{Policy, Accepted, terminal_subprotocol, vnc_subprotocol}
use ani_session_gateway.Connected.Frames.{Json}
use ani_session_gateway.Connected.Running.{Environment, Report}
use ani_session_gateway.Connected.Running
use ani_session_gateway.WebSocket.Headers.{offers_subprotocol}

-- The parts of the request that the handler reads, and whether `websocket.Accept` upgrades it.
pub record HttpRequest : Type 0 where
  pub origin : Str
  pub protocols : Str
  pub ticket : Str
  pub session_id : Str
  pub upgrades : Bool

-- When the clock is read for the claim and for a release.
pub record Clock : Type 0 where
  pub claimed_at : Time
  pub released_at : Time

-- An answer with a status, the answer of a failed `websocket.Accept`, or a session that has been
-- connected, with its report once it has ended.
pub data Reply : Type 0 where
  status : ℕ → Reply
  upgrade_failed : Reply
  ran : Option Report → Reply

abbrev pub member : Str → List Str → Bool
member x [] = false
member x (y ∷ ys) = if str_eq x y then true else member x ys

unfoldable pub origin_allowed : List Str → Str → Bool
origin_allowed allowed origin = member origin allowed && not (is_empty origin)

unfoldable pub offers_known_subprotocol : Str → Bool
offers_known_subprotocol raw =
    if offers_subprotocol raw terminal_subprotocol
    then true
    else offers_subprotocol raw vnc_subprotocol

-- `writeClaimError`.
abbrev pub claim_status : Error → ℕ
claim_status not_found = 404
claim_status invalid_ticket = 403
claim_status capacity = 429
claim_status unavailable = 503
claim_status _ = 422

abbrev pub expected_subprotocol : Mode → Str
expected_subprotocol mode = if is_vnc mode then vnc_subprotocol else terminal_subprotocol

module _ (S : SessionStore) (p : Primitives) (c : ManagerConfig) (json : Json) (policy : Policy)
    (env : Environment) (allowed : List Str) (times : Clock) where
  -- The deferred release, for a session that was claimed and is not handed on.
  abbrev pub release : ClaimedAccess → Str → Reply → World S.Data → Reply × World S.Data
  release access reason reply w =
      let (_, v) = close S p c access.session_id access.lease_id reason times.released_at w in
      (reply, v)

  abbrev pub connect : HttpRequest → ClaimedAccess → World S.Data → Reply × World S.Data
  connect r access w =
      let accepted : Accepted = record {
        access = access;
        subprotocol = some (expected_subprotocol access.mode);
      } in
      let (report, v) = Running.run S p c json policy env accepted w in (ran report, v)

  unfoldable pub after_claim :
      HttpRequest → Result Error ClaimedAccess → World S.Data → Reply × World S.Data
  after_claim r (err e) w = (status (claim_status e), w)
  after_claim r (ok access) w =
      if not (offers_subprotocol r.protocols (expected_subprotocol access.mode))
      then release access (str "subprotocol_rejected") (status 400) w
      else if r.upgrades
      then connect r access w
      else release access (str "upgrade_failed") upgrade_failed w

  abbrev pub admitted : HttpRequest → World S.Data → Reply × World S.Data
  admitted r w =
      let (answer, v) = claim S p c r.session_id r.ticket times.claimed_at w in
      after_claim r answer v

  unfoldable pub serve : HttpRequest → World S.Data → Reply × World S.Data
  serve r w =
      if not (origin_allowed allowed r.origin)
      then (status 403, w)
      else if not (offers_known_subprotocol r.protocols)
      then (status 400, w)
      else if is_empty r.ticket
      then (status 401, w)
      else admitted r w
