-- ===== src/Exec.antt =====
pub mod Guarded
pub mod Sizes
-- internal/runtime/kubernetes/exec.go: how an exec session is opened, and the stream that it uses.
use ani_session_gateway.Prelude.{
  ℕ, suc, Bool, true, false, not, ◌&&◌, ◌||◌, ◌==◌, ltb, if◌then◌else◌, Option, none, some, List,
  [], ◌∷◌, ◌++◌, Str, str, str_eq, is_empty, length, Result, ok, err,
}
use ani_session_gateway.Session.Errors.{Error}
use ani_session_gateway.Session.Model.{Duration, InstanceBinding, TerminalSize}
use ani_session_gateway.Runtime.{
  RuntimeError, invalid_target, target_not_ready, backpressure, unavailable, other, ExecTarget,
}
use ani_session_gateway.Pods.{Cluster, ResolvedPod, resolve}

-- The adapter, and whether an executor can be made for a call.
pub record ExecAdapter : Type 0 where
  pub request_timeout : Duration
  pub instance_validator : Option (Str → Str → InstanceBinding → Option Error)
  pub instance_cluster_id : Str
  pub cluster : Cluster

-- The call that goes to the cluster: the pod and its `PodExecOptions`.
pub record ExecCall : Type 0 where
  pub pod : ResolvedPod
  pub command : List Str
  pub stdin : Bool
  pub stdout : Bool
  pub stderr : Bool
  pub tty : Bool

abbrev pub uid_guard : Str
uid_guard = str "[ \"$ANI_INSTANCE_POD_UID\" = \"$1\" ] || exit 126; shift; exec \"$@\""

abbrev pub or_shell : List Str → List Str
or_shell [] = str "/bin/sh" ∷ []
or_shell (word ∷ words) = word ∷ words

-- The command, behind the guard of the pod's UID where the instance is bound.
unfoldable pub command_of : ExecTarget → List Str
command_of target =
    if target.instance_binding.enabled
    then target.instance_binding.shell
      ∷ str "-c"
      ∷ uid_guard
      ∷ str "instance-uid-guard"
      ∷ target.instance_binding.pod_uid
      ∷ or_shell target.command
    else or_shell target.command

abbrev pub call_of : ExecTarget → ResolvedPod → ExecCall
call_of target pod = record {
  pod = pod;
  command = command_of target;
  stdin = true;
  stdout = true;
  stderr = not target.tty;
  tty = target.tty;
}

-- The tests on the binding: why the session is refused, if it is.
abbrev pub consent : Option Error → Option RuntimeError
consent none = none
consent (some e) = some target_not_ready

abbrev pub asked :
    Option (Str → Str → InstanceBinding → Option Error) → ExecTarget → Option RuntimeError
asked none target = some invalid_target
asked (some validate) target =
    consent (validate target.tenant_id target.instance_id target.instance_binding)

unfoldable pub binding_error : ExecAdapter → ExecTarget → Option RuntimeError
binding_error a target =
    if not target.instance_binding.enabled
    then none
    else if is_empty a.instance_cluster_id
        || not (str_eq a.instance_cluster_id target.instance_binding.cluster_id)
    then some invalid_target
    else asked a.instance_validator target

abbrev pub executed :
    Bool → ExecTarget → Result RuntimeError ResolvedPod → Result RuntimeError ExecCall
executed made target (err e) = err e
executed made target (ok pod) = if made then ok (call_of target pod) else err unavailable

abbrev pub resolved :
    ExecAdapter → Bool → ExecTarget → Option RuntimeError → Result RuntimeError ExecCall
resolved a made target (some e) = err e
resolved a made target none = executed made target (resolve a.cluster target)

-- `made` is whether the executor could be made. What comes back is the call that the stream runs.
unfoldable pub open_exec : ExecAdapter → Bool → ExecTarget → Result RuntimeError ExecCall
unfolding binding_error command_of resolve
open_exec a made target =
    if a.request_timeout == 0
    then err unavailable
    else resolved a made target (binding_error a target)

-- The stream between its calls: the sizes that wait, whether it was terminated, and what the executor
-- left behind.
pub record ExecStream : Type 0 where
  pub sizes : List TerminalSize
  pub terminated : Bool
  pub result : Option (ℕ × Option RuntimeError)

-- An initial size that is set waits from the start.
unfoldable pub new_exec_stream : TerminalSize → ExecStream
new_exec_stream initial = record {
  sizes = if ltb 0 initial.rows && ltb 0 initial.cols then initial ∷ [] else [];
  terminated = false;
  result = none;
}

-- The select of `Resize`: a stream that has ended refuses, and so does a queue of eight. Where both
-- a place is free and the context is done, Go takes either case; here the context wins.
unfoldable pub resize : TerminalSize → ExecStream → Option RuntimeError × ExecStream
resize size s =
    if size.rows == 0 || size.cols == 0
    then (some invalid_target, s)
    else if s.terminated
    then (some other, s)
    else if ltb (length s.sizes) 8
    then (none, record s { sizes = s.sizes ++ (size ∷ []) })
    else (some backpressure, s)

-- `terminate` runs once.
unfoldable pub terminate : ExecStream → ExecStream
terminate s = record s { terminated = true }

abbrev pub first_size : List TerminalSize → ExecStream → Option TerminalSize × ExecStream
first_size [] s = (none, s)
first_size (size ∷ rest) s = (some size, record s { sizes = rest })

-- `Next` when it does not wait: nothing for a stream that has ended.
unfoldable pub next_size : ExecStream → Option TerminalSize × ExecStream
next_size s = if s.terminated then (none, s) else first_size s.sizes s

-- How the executor ended: with no error, with the exit status of the command, or with an error.
pub data Ended : Type 0 where
  clean : Ended
  exit_status : ℕ → Ended
  broken : RuntimeError → Ended

abbrev result_of : Ended → ℕ × Option RuntimeError
result_of clean = (0, none)
result_of (exit_status code) = (code, none)
result_of (broken e) = (0, some e)

-- The end of the goroutine.
unfoldable pub finish : Ended → ExecStream → ExecStream
unfolding terminate
finish how s = terminate (record s { result = some (result_of how) })
