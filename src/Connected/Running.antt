-- ===== src/Connected/Running.antt =====
-- `Run` of internal/transport/websocket/connectedsession/module.go, from the start of a session to
-- the release of its lease.
use ani_session_gateway.Prelude.{
  ℕ, ◌-◌, ◌≡◌, refl, subst, Bool, true, false, if◌then◌else◌, if-both, Option, none, some, List,
  arith,
}
use ani_session_gateway.Session.Model.{
  Time, Mode, serial, vnc, ClaimedAccess, ExecOptions, TerminalSize, is_exec,
}
use ani_session_gateway.Session.Contract.{SessionStore}
use ani_session_gateway.Manager.Config.{Primitives, ManagerConfig}
use ani_session_gateway.Manager.Calls.{World, close}
use ani_session_gateway.Runtime.{RuntimeError, unavailable, invalid_target, ExecTarget, VmTarget}
use ani_session_gateway.Connected.{
  Outcome, outcome_str, runtime_unavailable, invalid_start, Finish, SafeFacts, safe_facts, Policy,
  Accepted, valid_start,
}
use ani_session_gateway.Connected.Frames.{Json}
use ani_session_gateway.Connected.Closing.{FinalWrite, write_final}
use ani_session_gateway.Connected.Consoles
use ani_session_gateway.Connected.Terminals

-- What the two runtimes answer (none is a stream), what then happens to the session, and what the
-- clock shows at each reading.
pub record Environment : Type 0 where
  pub open_exec : ExecTarget → TerminalSize → Option RuntimeError
  pub open_serial : VmTarget → Option RuntimeError
  pub open_vnc : VmTarget → Option RuntimeError
  pub terminal_events : List Terminals.Event
  pub console_events : List Consoles.Event
  pub cancelled : Bool
  pub connected_at : Time
  pub carried_at : Time
  pub closed_at : Time
  pub finished_at : Time

-- What the client was told last, and what the observer was.
pub record Report : Type 0 where
  pub facts : SafeFacts
  pub final : Option FinalWrite
  pub finish : Finish

abbrev pub vm_target : ClaimedAccess → VmTarget
vm_target access = record {
  tenant_id = access.identity.tenant_id;
  instance_id = access.identity.instance_id;
  workload_name = access.target.workload_name;
  binding = access.target.vm_binding;
}

abbrev pub open_byte_stream : Environment → ClaimedAccess → Mode → Option RuntimeError
open_byte_stream env access serial = env.open_serial (vm_target access)
open_byte_stream env access vnc = env.open_vnc (vm_target access)
open_byte_stream env access mode = some unavailable

abbrev pub exec_target : ClaimedAccess → ExecOptions → ExecTarget
exec_target access options = record {
  instance_id = access.identity.instance_id;
  instance_binding = access.target.instance_binding;
  tenant_id = access.identity.tenant_id;
  workload_name = access.target.workload_name;
  workload_kind = access.target.workload_kind;
  container = options.container;
  command = options.command;
  tty = options.tty;
}

abbrev pub open_exec_stream : Environment → ClaimedAccess → Option ExecOptions → Option RuntimeError
open_exec_stream env access none = some invalid_target
open_exec_stream env access (some options) = env.open_exec (exec_target access options) options.size

abbrev pub has_tty : Option ExecOptions → Bool
has_tty none = true
has_tty (some options) = options.tty

abbrev pub open_failure : RuntimeError → Outcome
open_failure RuntimeError.target_changed = Outcome.target_changed
open_failure _ = runtime_unavailable

-- How a loop was left, with its counts; none while it runs.
abbrev pub Carried : Type 0
Carried = Option (Outcome × ℕ × ℕ)

abbrev pub left_terminal : Terminals.Phase → ℕ → ℕ → Carried
left_terminal (Terminals.left o) bytes_in bytes_out = some (o, bytes_in, bytes_out)
left_terminal _ bytes_in bytes_out = none

abbrev pub left_console : Option Outcome → ℕ → ℕ → Carried
left_console (some o) bytes_in bytes_out = some (o, bytes_in, bytes_out)
left_console none bytes_in bytes_out = none

module _ (S : SessionStore) (p : Primitives) (c : ManagerConfig) (json : Json) (policy : Policy)
    (env : Environment) where
  -- `complete`, with the final write that `carryExecStream` and `carryByteStream` make before it.
  unfoldable pub complete :
      Accepted
      → (connected_at : Option Time) → Outcome × ℕ × ℕ
      → World S.Data
      → Report × World S.Data
  complete accepted connected_at (outcome, bytes_in, bytes_out) w =
      let (_, v) =
        close S p c accepted.access.session_id accepted.access.lease_id (outcome_str outcome)
          env.closed_at w in
      (
        record {
          facts = safe_facts accepted.access;
          final = write_final accepted.subprotocol accepted.access.mode outcome;
          finish = record {
            outcome = outcome;
            connected = elim connected_at [ none ↦ false | some at ↦ true ];
            duration = elim connected_at [ none ↦ 0 | some at ↦ env.finished_at - at ];
            bytes_in = bytes_in;
            bytes_out = bytes_out;
          };
        },
        v,
      )

  abbrev pub failed_start : Accepted → Outcome → World S.Data → Option Report × World S.Data
  failed_start accepted outcome w =
      let (report, v) = complete accepted none (outcome, 0, 0) w in (some report, v)

  -- After the loop; a session whose loop still runs has not been closed.
  abbrev pub after_loop : Accepted → Carried → World S.Data → Option Report × World S.Data
  after_loop accepted none w = (none, w)
  after_loop accepted (some end) w =
      let (report, v) = complete accepted (some env.connected_at) end w in (some report, v)

  unfoldable pub carry_exec_stream : Accepted → Carried
  carry_exec_stream accepted =
      let s = Terminals.run json policy env.terminal_events (
        Terminals.start json policy (has_tty accepted.access.exec) env.carried_at
          accepted.access.expires_at env.cancelled) in
      left_terminal s.phase s.bytes_in s.bytes_out

  unfoldable pub carry_byte_stream : Accepted → Carried
  carry_byte_stream accepted =
      let s = Consoles.run json policy accepted.access.mode env.console_events (
        Consoles.start json policy accepted.access.mode env.carried_at accepted.access.expires_at
          env.cancelled) in
      left_console s.outcome s.bytes_in s.bytes_out

  abbrev pub run_exec : Accepted → Option RuntimeError → World S.Data → Option Report × World S.Data
  run_exec accepted none w = after_loop accepted (carry_exec_stream accepted) w
  run_exec accepted (some e) w = failed_start accepted runtime_unavailable w

  abbrev pub run_console :
      Accepted → Option RuntimeError → World S.Data → Option Report × World S.Data
  run_console accepted none w = after_loop accepted (carry_byte_stream accepted) w
  run_console accepted (some e) w = failed_start accepted (open_failure e) w

  unfoldable pub run : Accepted → World S.Data → Option Report × World S.Data
  run accepted w =
      if valid_start accepted
      then (if is_exec accepted.access.mode
          then run_exec accepted (open_exec_stream env accepted.access accepted.access.exec) w
          else run_console accepted (open_byte_stream env accepted.access accepted.access.mode) w)
      else failed_start accepted invalid_start w

  -- What a run leaves behind when it ends.
  pub record IsReport (accepted : Accepted) (w v : World S.Data) (report : Report) : Type 0 where
    pub store :
        v.store
        ≡ (S.close_and_release accepted.access.session_id accepted.access.lease_id
            (outcome_str report.finish.outcome)
            env.closed_at
            w.store).1
    pub random : v.random ≡ w.random
    pub final :
        report.final ≡ write_final accepted.subprotocol accepted.access.mode report.finish.outcome
    pub idle :
        report.finish.connected ≡ false
        → (report.finish.bytes_in ≡ 0) × (report.finish.bytes_out ≡ 0)

  abbrev Ends : Accepted → World S.Data → Option Report × World S.Data → Type 0
  Ends accepted w (none, v) = v ≡ w
  Ends accepted w (some report, v) = IsReport accepted w v report

  failed_start-Ends :
      (accepted : Accepted) (outcome : Outcome) (w : World S.Data)
      → Ends accepted w (failed_start accepted outcome w)
  unfolding complete close
  failed_start-Ends accepted outcome w = record {
    store = refl;
    random = refl;
    final = refl;
    idle = λ _. (refl, refl);
  }

  after_loop-Ends :
      (accepted : Accepted) (end : Carried) (w : World S.Data)
      → Ends accepted w (after_loop accepted end w)
  unfolding complete close
  after_loop-Ends accepted none w = refl
  after_loop-Ends accepted (some (outcome, bytes_in, bytes_out)) w = record {
    store = refl;
    random = refl;
    final = refl;
    idle = λ h. cc;
  }

  exec-Ends :
      (accepted : Accepted) (opened : Option RuntimeError) (w : World S.Data)
      → Ends accepted w (run_exec accepted opened w)
  exec-Ends accepted none w = after_loop-Ends accepted _ w
  exec-Ends accepted (some e) w = failed_start-Ends accepted runtime_unavailable w

  console-Ends :
      (accepted : Accepted) (opened : Option RuntimeError) (w : World S.Data)
      → Ends accepted w (run_console accepted opened w)
  console-Ends accepted none w = after_loop-Ends accepted _ w
  console-Ends accepted (some e) w = failed_start-Ends accepted (open_failure e) w

  run-Ends : (accepted : Accepted) (w : World S.Data) → Ends accepted w (run accepted w)
  unfolding run
  run-Ends accepted w =
      if-both (Ends accepted w) (valid_start accepted)
        (λ _.
          if-both (Ends accepted w) (is_exec accepted.access.mode) (λ _. exec-Ends accepted _ w)
            (λ _. console-Ends accepted _ w))
        (λ _. failed_start-Ends accepted invalid_start w)

  report_of :
      (accepted : Accepted) (w v : World S.Data) (o : Option Report) {report : Report}
      → o ≡ some report
      → Ends accepted w (o, v)
      → IsReport accepted w v report
  report_of accepted w v none h e = cc
  report_of accepted w v (some r) h e = subst (IsReport accepted w v) (ground arith) e

  pub run-IsReport :
      (accepted : Accepted) (w : World S.Data) {report : Report}
      → (run accepted w).0 ≡ some report
      → IsReport accepted w (run accepted w).1 report
  run-IsReport accepted w h =
      report_of accepted w (run accepted w).1 (run accepted w).0 h (run-Ends accepted w)
