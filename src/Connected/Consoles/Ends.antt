-- ===== src/Connected/Consoles/Ends.antt =====
-- The select loop of a console session is left once, and in time.
use ani_session_gateway.Prelude.{
  ◌≡◌, ◌≤◌, refl, Bool, false, ◌&&◌, leb, if-both, Option, none, some, List, [], ◌∷◌, ◌++◌, Bytes,
  Result, ok, err, is_empty, arith,
}
use ani_session_gateway.Session.Model.{Time, Mode}
use ani_session_gateway.Runtime.{RuntimeError}
use ani_session_gateway.Connected.{Outcome, max_duration, Policy}
use ani_session_gateway.Connected.Frames.{Json, SocketError}
use ani_session_gateway.Connected.Consoles.{
  StreamEnd, finished, failed, Carry, Event, message, read_failed, chunk, take_outcome,
  take_activity, idle_fires, max_fires, cancel, context_done, is_none, on_message, on_chunk,
  received, stream_ended, sent, sent_or_failed, taken, step, run, start,
}
use ani_session_gateway.Connected.Consoles.Causes.{deadline}

module _ (json : Json) (policy : Policy) (mode : Mode) (outcome : Option Outcome) (at : Time) where
  -- The loop has come to this, with this deadline.
  abbrev pub Stands : Carry → Type 0
  Stands s = (s.outcome ≡ outcome) × (s.max_at ≡ at)

  received-Stands :
      (r : Result Outcome Bytes) (answer : Option RuntimeError) (s : Carry)
      → Stands s
      → Stands (received json policy mode r answer s)
  received-Stands (err o) answer s h = h
  received-Stands (ok payload) none s h = h
  received-Stands (ok payload) (some e) s h = h

  ended-Stands :
      (end : Option StreamEnd) (s : Carry) → Stands s → Stands (stream_ended json policy mode end s)
  ended-Stands none s h = h
  ended-Stands (some finished) s h = h
  ended-Stands (some failed) s h = if-both Stands s.cancelled (λ _. h) (λ _. h)

  sent-Stands :
      (raw : Bytes) (failure : Option SocketError) (end : Option StreamEnd) (s : Carry)
      → Stands s
      → Stands (sent_or_failed json policy mode raw failure end s)
  sent-Stands raw none end s h = ended-Stands end (sent json policy mode raw s) h
  sent-Stands raw (some e) end s h = h

  -- Events of the pumps leave the loop as it is, and so do all events once it is left.
  abbrev Passes : Event → Carry → Type 0
  Passes (message type raw answer) s = Unit
  Passes (read_failed e) s = Unit
  Passes (chunk raw failure end) s = Unit
  Passes e s = is_none s.outcome ≡ false

  left-Passes : (e : Event) (s : Carry) → is_none s.outcome ≡ false → Passes e s
  left-Passes (message type raw answer) s h = tt
  left-Passes (read_failed e) s h = tt
  left-Passes (chunk raw failure end) s h = tt
  left-Passes take_outcome s h = h
  left-Passes (take_activity now) s h = h
  left-Passes (idle_fires now) s h = h
  left-Passes (max_fires now) s h = h
  left-Passes cancel s h = h
  left-Passes context_done s h = h

  pump-Stands : (e : Event) (s : Carry) → Passes e s → Stands s → Stands (step json policy mode e s)
  unfolding step on_message on_chunk
  pump-Stands (message type raw answer) s left h =
      if-both Stands s.reading (λ _. received-Stands _ answer s h) (λ _. h)
  pump-Stands (read_failed e) s left h = if-both Stands s.reading (λ _. h) (λ _. h)
  pump-Stands (chunk raw failure end) s left h =
      if-both Stands s.writing
        (λ _.
          if-both Stands (is_empty raw) (λ _. ended-Stands end s h)
            (λ _. sent-Stands raw failure end s h))
        (λ _. h)
  pump-Stands take_outcome s left h = rw left h
  pump-Stands (take_activity now) s left h = rw left h
  pump-Stands (idle_fires now) s left h = rw left h
  pump-Stands (max_fires now) s left h = rw left h
  pump-Stands cancel s left h = h
  pump-Stands context_done s left h = rw left h

module _ (json : Json) (policy : Policy) (mode : Mode) where
  -- Once the loop is left, no later event changes the outcome.
  pub run-outcome :
      (es : List Event) (s : Carry) (o : Outcome)
      → s.outcome ≡ some o
      → (run json policy mode es s).outcome ≡ some o
  unfolding run
  run-outcome [] s o h = h
  run-outcome (e ∷ es) s o h =
      run-outcome es (step json policy mode e s) o
        (pump-Stands json policy mode (some o) s.max_at e s
          (left-Passes json policy mode (some o) s.max_at e s (rw h)) (h, refl)).0

  module _ (at : Time) where
    abbrev HasDeadline : Carry → Type 0
    HasDeadline s = s.max_at ≡ at

    taken-HasDeadline :
        (queued : Option Outcome) (s : Carry)
        → HasDeadline s
        → HasDeadline (taken json policy mode queued s)
    taken-HasDeadline none s h = h
    taken-HasDeadline (some o) s h = h

    step-HasDeadline :
        (e : Event) (s : Carry) → HasDeadline s → HasDeadline (step json policy mode e s)
    unfolding step
    step-HasDeadline take_outcome s h =
        if-both HasDeadline (is_none s.outcome) (λ _. taken-HasDeadline s.outcomes s h) (λ _. h)
    step-HasDeadline (take_activity now) s h =
        if-both HasDeadline (is_none s.outcome && s.activity) (λ _. h) (λ _. h)
    step-HasDeadline (idle_fires now) s h =
        if-both HasDeadline (is_none s.outcome && leb s.idle_at now) (λ _. h) (λ _. h)
    step-HasDeadline (max_fires now) s h =
        if-both HasDeadline (is_none s.outcome && leb s.max_at now) (λ _. h) (λ _. h)
    step-HasDeadline cancel s h = h
    step-HasDeadline context_done s h =
        if-both HasDeadline (is_none s.outcome && s.cancelled) (λ _. h) (λ _. h)
    step-HasDeadline (message type raw answer) s h =
        (pump-Stands json policy mode s.outcome at (message type raw answer) s tt (refl, h)).1
    step-HasDeadline (read_failed e) s h =
        (pump-Stands json policy mode s.outcome at (read_failed e) s tt (refl, h)).1
    step-HasDeadline (chunk raw failure end) s h =
        (pump-Stands json policy mode s.outcome at (chunk raw failure end) s tt (refl, h)).1

    run-HasDeadline :
        (es : List Event) (s : Carry) → HasDeadline s → HasDeadline (run json policy mode es s)
    unfolding run
    run-HasDeadline [] s h = h
    run-HasDeadline (e ∷ es) s h =
        run-HasDeadline es (step json policy mode e s) (step-HasDeadline e s h)

  max_fires_leaves :
      (now : Time) (s : Carry) (o : Option Outcome)
      → s.outcome ≡ o
      → s.max_at ≤ now
      → (x : Outcome) × ((step json policy mode (max_fires now) s).outcome ≡ some x)
  unfolding step
  max_fires_leaves now s none e past = (max_duration, ground arith)
  max_fires_leaves now s (some x) e past = (x, ground arith)

  run-append :
      (es fs : List Event) (s : Carry)
      → run json policy mode (es ++ fs) s ≡ run json policy mode fs (run json policy mode es s)
  unfolding run
  run-append [] fs s = refl
  run-append (e ∷ es) fs s = run-append es fs (step json policy mode e s)

  -- Whatever the client, the runtime and the context do, a session's loop is left once the timer of
  -- its access fires at or after the deadline.
  pub run-leaves :
      (now expires_at at : Time) (cancelled : Bool) (es fs : List Event)
      → deadline now expires_at ≤ at
      → (o : Outcome) × ((run json policy mode
            (es ++ (max_fires at ∷ fs))
            (start json policy mode now expires_at cancelled)).outcome
          ≡ some o)
  run-leaves now expires_at at cancelled es fs past =
      let s = run json policy mode es (start json policy mode now expires_at cancelled) in
      let due : s.max_at ≡ deadline now expires_at =
        run-HasDeadline (deadline now expires_at) es
          (start json policy mode now expires_at cancelled) refl in
      let (o, left) = max_fires_leaves at s _ refl (rw due past) in
      (
        o,
        rw (run-append es (max_fires at ∷ fs))
            (unfold run in (run-outcome fs (step json policy mode (max_fires at) s) o left)),
      )
