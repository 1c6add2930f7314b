-- ===== src/Connected/Terminals/Order.antt =====
-- The outputs of a terminal reach the client in order, and before its exit code.
use ani_session_gateway.Prelude.{
  ◌≡◌, ◌≢◌, refl, sym, ap, ◌∙◌, subst, Bool, true, not, ◌&&◌, ◌||◌, leb, ltb, if-both, Option, none,
  some, List, [], ◌∷◌, ◌++◌, Bytes, length, Result, ok, err,
}
use ani_session_gateway.Session.Model.{Time}
use ani_session_gateway.Runtime.{RuntimeError}
use ani_session_gateway.Connected.{
  Outcome, normal, idle_timeout, max_duration, invalid_terminal_frame, backpressure, runtime_failed,
  shutdown, Policy,
}
use ani_session_gateway.Connected.Frames.{
  Json, MessageType, text, binary, SocketError, ClientFrame, ServerFrame, FrameError,
  decode_client_frame,
}
use ani_session_gateway.Connected.Terminals.{
  Outbound, ExecResult, Phase, selecting, waiting, left, Carry, Event, message, read_failed, feed,
  write, output, exit, take_outcome, take_completed, take_ack, take_activity, idle_fires, max_fires,
  cancel, context_done, signalled, is_selecting, is_left, is_waiting, is_open, exit_frame, enqueue,
  accept, received, on_message, feed_from, on_feed, exit_enqueued, on_completed, on_ack, taken,
  step, run, start,
}
use ani_session_gateway.Connected.Terminals.Phases.{
  Awaits-append, IsComplete, IsOrdered, PhaseOk, Sent-enqueue, WaitOk, classified_other, cons_nil,
  leave-IsOrdered, refused_other, signalled-IsOrdered,
}
use ani_session_gateway.Connected.Terminals.Writing.{write-IsOrdered}
use ani_session_gateway.Connected.Terminals.Outputs.{output-IsOrdered, exit-IsOrdered}

module _ (json : Json) (policy : Policy) where
  abbrev Announced : Bool × Carry → Type 0
  Announced x = IsOrdered (exit_enqueued json policy x)

  completed-IsOrdered :
      (completed : Option ExecResult) (yields : Bool) (s : Carry)
      → s.completed ≡ completed
      → s.phase ≡ selecting
      → IsOrdered s
      → IsOrdered (on_completed json policy completed yields s)
  unfolding enqueue
  completed-IsOrdered none yields s e at g = g
  completed-IsOrdered (some none) yields s e at (sent, phase, queued, done) =
      leave-IsOrdered runtime_failed (record s { completed = none }) (λ h. cc)
        (sent, phase, queued, λ h. absurd (h refl))
  completed-IsOrdered (some (some code)) yields s e at (sent, phase, queued, done) =
      let item : Outbound = record { frame = exit_frame code; acked = true } in
      let t : Carry = record s { completed = none } in
      let g : IsOrdered t = (sent, phase, queued, λ h. absurd (h refl)) in
      let (no_ack, unacked) =
        subst (λ x. PhaseOk x s.ack s.outbound s.produced s.to_socket s.stdout_open s.stderr_open)
          at phase in
      if-both Announced (s.cancelled && yields) (λ _. leave-IsOrdered backpressure t (λ h. cc) g)
        (λ _.
          if-both Announced (ltb (length s.outbound) policy.outbound_queue)
            (λ _. (
              Sent-enqueue s.writing s.outbound s.produced s.to_socket item sent,
              (
                done (λ h. cc),
                (s.produced, code, refl),
                subst
                    (λ a.
                      WaitOk a (s.outbound ++ (item ∷ [])) (s.produced ++ (item ∷ [])) s.to_socket)
                    (sym no_ack) (Awaits-append s.outbound item unacked refl),
              ),
              queued,
              λ h. absurd (h refl),
            ))
            (λ _.
              if-both Announced s.cancelled (λ _. leave-IsOrdered backpressure t (λ h. cc) g)
                (λ _.
                  leave-IsOrdered backpressure (signalled backpressure t) (λ h. cc)
                    (signalled-IsOrdered backpressure t (λ h. cc) g))))

  ack-IsOrdered :
      (ack : Option (Option SocketError)) (s : Carry)
      → s.ack ≡ ack
      → s.phase ≡ waiting
      → IsOrdered s
      → IsOrdered (on_ack json policy ack s)
  ack-IsOrdered none s e at g = g
  ack-IsOrdered (some none) s e at (sent, phase, queued, done) =
      let (closed, (before, code, ends), (nothing_left, all_sent)) =
        subst
          (λ x. PhaseOk x (some none) s.outbound s.produced s.to_socket s.stdout_open s.stderr_open)
          at
          (subst
            (λ a. PhaseOk s.phase a s.outbound s.produced s.to_socket s.stdout_open s.stderr_open) e
            phase) in
      (
        sent,
        λ _. (
          closed,
          record {
            before = before;
            code = code;
            ends = ends;
            nothing_left = nothing_left;
            all_sent = all_sent;
          },
        ),
        queued,
        done,
      )
  ack-IsOrdered (some (some x)) s e at g = leave-IsOrdered _ s (classified_other s.cancelled x) g

  taken-IsOrdered :
      (outcomes : Option Outcome) (s : Carry)
      → s.outcomes ≡ outcomes
      → IsOrdered s
      → IsOrdered (taken json policy outcomes s)
  taken-IsOrdered none s e g = g
  taken-IsOrdered (some o) s e (sent, phase, queued, done) =
      (sent, λ same. absurd (queued (e ∙ ap some same)), λ h. cc, done)

  message-IsOrdered :
      (type : MessageType) (raw : Bytes) (yields : Bool) (s : Carry)
      → IsOrdered s
      → IsOrdered (on_message json policy type raw yields s)
  unfolding on_message accept
  message-IsOrdered binary raw yields s g = signalled-IsOrdered invalid_terminal_frame s (λ h. cc) g
  message-IsOrdered text raw yields s g =
      received-IsOrdered (decode_client_frame json raw policy.max_message_bytes)
    where
      received-IsOrdered :
          (r : Result FrameError ClientFrame) → IsOrdered (received json policy r yields s)
      received-IsOrdered (err e) = signalled-IsOrdered invalid_terminal_frame s (λ h. cc) g
      received-IsOrdered (ok frame) =
          if-both IsOrdered (s.cancelled && yields) (λ _. g)
            (λ _.
              if-both IsOrdered (ltb (length s.inputs) policy.inbound_queue) (λ _. g)
                (λ _.
                  if-both IsOrdered s.cancelled (λ _. g)
                    (λ _. signalled-IsOrdered backpressure s (λ h. cc) g)))

  feed-IsOrdered :
      (inputs : List ClientFrame) (answer : Option RuntimeError) (s : Carry)
      → IsOrdered s
      → IsOrdered (feed_from json policy inputs answer s)
  feed-IsOrdered [] answer s g = g
  feed-IsOrdered (frame ∷ rest) none s g = g
  feed-IsOrdered (frame ∷ rest) (some e) s g = signalled-IsOrdered _ s (refused_other e) g

  at_waiting : (p : Phase) → is_waiting json policy p ≡ true → p ≡ waiting
  at_waiting selecting h = cc
  at_waiting waiting h = refl
  at_waiting (left o) h = cc

  is_now_selecting : (p : Phase) → is_selecting p ≡ true → p ≡ selecting
  is_now_selecting selecting h = refl
  is_now_selecting waiting h = cc
  is_now_selecting (left o) h = cc

  step-IsOrdered : (e : Event) (s : Carry) → IsOrdered s → IsOrdered (step json policy e s)
  unfolding step on_feed
  step-IsOrdered (message type raw yields) s g =
      if-both IsOrdered s.reading (λ _. message-IsOrdered type raw yields s g) (λ _. g)
  step-IsOrdered (read_failed e) s g =
      if-both IsOrdered s.reading (λ _. signalled-IsOrdered _ s (classified_other s.cancelled e) g)
        (λ _. g)
  step-IsOrdered (feed answer yields) s g =
      if-both IsOrdered s.feeding
        (λ _.
          if-both IsOrdered (s.cancelled && yields) (λ _. g)
            (λ _. feed-IsOrdered s.inputs answer s g))
        (λ _. g)
  step-IsOrdered (write answer yields) s g =
      if-both IsOrdered s.writing (λ w. write-IsOrdered json policy answer yields s w g) (λ _. g)
  step-IsOrdered (output kind raw end yields) s g =
      if-both IsOrdered (is_open kind s)
        (λ o. output-IsOrdered json policy kind raw end yields s o g) (λ _. g)
  step-IsOrdered (exit result yields) s g =
      if-both IsOrdered (s.running && not (s.stdout_open || s.stderr_open))
        (λ h. exit-IsOrdered json policy result yields s h g) (λ _. g)
  step-IsOrdered take_outcome s g =
      if-both IsOrdered (is_left s.phase) (λ _. g) (λ _. taken-IsOrdered s.outcomes s refl g)
  step-IsOrdered (take_completed yields) s g =
      if-both IsOrdered (is_selecting s.phase)
        (λ h. completed-IsOrdered s.completed yields s refl (is_now_selecting s.phase h) g) (λ _. g)
  step-IsOrdered take_ack s g =
      if-both IsOrdered (is_waiting json policy s.phase)
        (λ h. ack-IsOrdered s.ack s refl (at_waiting s.phase h) g) (λ _. g)
  step-IsOrdered (take_activity now) s g =
      if-both IsOrdered (is_selecting s.phase && s.activity) (λ _. g) (λ _. g)
  step-IsOrdered (idle_fires now) s g =
      if-both IsOrdered (is_selecting s.phase && leb s.idle_at now)
        (λ _. leave-IsOrdered idle_timeout s (λ h. cc) g) (λ _. g)
  step-IsOrdered (max_fires now) s g =
      if-both IsOrdered (is_selecting s.phase && leb s.max_at now)
        (λ _. leave-IsOrdered max_duration s (λ h. cc) g) (λ _. g)
  step-IsOrdered cancel s g = g
  step-IsOrdered context_done s g =
      if-both IsOrdered (not (is_left s.phase) && s.cancelled)
        (λ _. leave-IsOrdered shutdown s (λ h. cc) g) (λ _. g)

  pub run-IsOrdered : (es : List Event) (s : Carry) → IsOrdered s → IsOrdered (run json policy es s)
  unfolding run
  run-IsOrdered [] s g = g
  run-IsOrdered (e ∷ es) s g = run-IsOrdered es (step json policy e s) (step-IsOrdered e s g)

  pub start-IsOrdered :
      (tty : Bool) (now expires_at : Time) (cancelled : Bool)
      → IsOrdered (start json policy tty now expires_at cancelled)
  start-IsOrdered tty now expires_at cancelled =
      (λ h. refl, (refl, tt), λ h. cc, λ h. absurd (h refl))

  awaited :
      (ack : Option (Option SocketError)) (outbound produced : List Outbound)
      (socket : List ServerFrame)
      → WaitOk ack outbound produced socket
      → ack ≡ none
      → outbound ≢ []
  awaited none [] produced socket w e h = w
  awaited none (x ∷ rest) produced socket w e h = cons_nil h
  awaited (some a) outbound produced socket w e h = cc

  -- While the exit frame is waited for, it is still to be written.
  pub waits : (s : Carry) → s.phase ≡ waiting → IsOrdered s → s.ack ≡ none → s.outbound ≢ []
  waits s at (sent, phase, queued, done) no_ack =
      let (closed, exits, w) =
        subst (λ x. PhaseOk x s.ack s.outbound s.produced s.to_socket s.stdout_open s.stderr_open)
          at phase in
      awaited s.ack s.outbound s.produced s.to_socket w no_ack

  IsComplete-at :
      (s : Carry)
      → s.phase ≡ left normal
      → IsOrdered s
      → IsComplete s.outbound s.produced s.to_socket
  IsComplete-at s at (sent, phase, queued, done) =
      (subst (λ x. PhaseOk x s.ack s.outbound s.produced s.to_socket s.stdout_open s.stderr_open) at
        phase refl).1

  -- A terminal session ends as normal only when every frame that its outputs queued was sent to the
  -- client in the order in which it was queued, the frame with the exit code last, and none is left.
  pub run-IsComplete :
      (tty : Bool) (now expires_at : Time) (cancelled : Bool) (es : List Event)
      → (run json policy es (start json policy tty now expires_at cancelled)).phase ≡ left normal
      → IsComplete
          (run json policy es (start json policy tty now expires_at cancelled)).outbound
          (run json policy es (start json policy tty now expires_at cancelled)).produced
          (run json policy es (start json policy tty now expires_at cancelled)).to_socket
  run-IsComplete tty now expires_at cancelled es h =
      IsComplete-at (run json policy es (start json policy tty now expires_at cancelled)) h
        (run-IsOrdered es _ (start-IsOrdered tty now expires_at cancelled))
