-- ===== src/Connected/Terminals/Progress.antt =====
-- The wait for the exit frame of a terminal session always has an end in sight.
use ani_session_gateway.Prelude.{
  ◌≡◌, ◌≢◌, refl, subst, ◌⊎◌, inl, inr, Bool, true, false, not, ◌&&◌, ◌||◌, leb, ltb, if-both,
  Option, none, some, List, [], ◌∷◌, length, Bytes, Result, ok, err, is_empty, arith,
}
use ani_session_gateway.Session.Model.{Time}
use ani_session_gateway.Runtime.{RuntimeError}
use ani_session_gateway.Connected.{
  Outcome, backpressure, runtime_failed, invalid_terminal_frame, Policy,
}
use ani_session_gateway.Connected.Frames.{
  Json, MessageType, text, binary, SocketError, ClientFrame, FrameError, classify_runtime_error,
  classify_transport_read,
}
use ani_session_gateway.Connected.Terminals.Order.{run-IsOrdered, start-IsOrdered, waits}
use ani_session_gateway.Connected.Terminals.{
  Outbound, ExecResult, Stream, stdout, stderr, OutputEnd, finished, failed, Phase, selecting,
  waiting, left, Carry, Event, message, read_failed, feed, write, output, exit, take_outcome,
  take_completed, take_ack, take_activity, idle_fires, max_fires, cancel, context_done, signal,
  signalled, is_selecting, is_left, is_waiting, is_open, close_output, enqueue, accept, received,
  on_message, feed_from, on_feed, write_from, on_write, output_ended, after_enqueue, on_output,
  on_exit, exit_enqueued, on_completed, on_ack, taken, step, run, start,
}

module _ (json : Json) (policy : Policy) where
  -- A writer that has stopped has left an outcome behind, or was stopped by the context.
  abbrev Answers : Phase → Bool → Option Outcome → Bool → Type 0
  Answers (left o) writing outcomes cancelled = Unit
  Answers selecting true outcomes cancelled = Unit
  Answers waiting true outcomes cancelled = Unit
  Answers selecting false outcomes cancelled = (outcomes ≢ none) ⊎ (cancelled ≡ true)
  Answers waiting false outcomes cancelled = (outcomes ≢ none) ⊎ (cancelled ≡ true)

  abbrev IsAnswered : Carry → Type 0
  IsAnswered s = Answers s.phase s.writing s.outcomes s.cancelled

  signal_some : (o : Outcome) (queued : Option Outcome) → signal o queued ≢ none
  signal_some o none h = cc
  signal_some o (some first) h = cc

  Answers-intro :
      (phase : Phase) (writing : Bool) (outcomes : Option Outcome) (cancelled : Bool)
      → (outcomes ≢ none) ⊎ (cancelled ≡ true)
      → Answers phase writing outcomes cancelled
  Answers-intro (left o) writing outcomes cancelled h = tt
  Answers-intro selecting true outcomes cancelled h = tt
  Answers-intro waiting true outcomes cancelled h = tt
  Answers-intro selecting false outcomes cancelled h = h
  Answers-intro waiting false outcomes cancelled h = h

  signalled-IsAnswered : (o : Outcome) (s : Carry) → IsAnswered (signalled o s)
  signalled-IsAnswered o s =
      Answers-intro s.phase s.writing (signal o s.outcomes) s.cancelled
        (inl (signal_some o s.outcomes))

  Answers-waiting :
      (phase : Phase) (writing : Bool) (outcomes : Option Outcome) (cancelled : Bool)
      → is_selecting phase ≡ true
      → Answers phase writing outcomes cancelled
      → Answers waiting writing outcomes cancelled
  Answers-waiting selecting true outcomes cancelled h a = tt
  Answers-waiting selecting false outcomes cancelled h a = a
  Answers-waiting waiting writing outcomes cancelled h a = cc
  Answers-waiting (left o) writing outcomes cancelled h a = cc

  received-IsAnswered :
      (r : Result FrameError ClientFrame) (yields : Bool) (s : Carry)
      → IsAnswered s
      → IsAnswered (received json policy r yields s)
  unfolding accept
  received-IsAnswered (err e) yields s g = signalled-IsAnswered invalid_terminal_frame s
  received-IsAnswered (ok frame) yields s g =
      if-both IsAnswered (s.cancelled && yields) (λ _. g)
        (λ _.
          if-both IsAnswered (ltb (length s.inputs) policy.inbound_queue) (λ _. g)
            (λ _.
              if-both IsAnswered s.cancelled (λ _. g) (λ _. signalled-IsAnswered backpressure s)))

  message-IsAnswered :
      (type : MessageType) (raw : Bytes) (yields : Bool) (s : Carry)
      → IsAnswered s
      → IsAnswered (on_message json policy type raw yields s)
  unfolding on_message
  message-IsAnswered binary raw yields s g = signalled-IsAnswered invalid_terminal_frame s
  message-IsAnswered text raw yields s g = received-IsAnswered _ yields s g

  feed-IsAnswered :
      (inputs : List ClientFrame) (answer : Option RuntimeError) (s : Carry)
      → IsAnswered s
      → IsAnswered (feed_from json policy inputs answer s)
  feed-IsAnswered [] answer s g = g
  feed-IsAnswered (frame ∷ rest) none s g = g
  feed-IsAnswered (frame ∷ rest) (some e) s g = signalled-IsAnswered (classify_runtime_error e) s

  write_from-IsAnswered :
      (outbound : List Outbound) (answer : Option SocketError) (s : Carry)
      → IsAnswered s
      → IsAnswered (write_from json policy outbound answer s)
  write_from-IsAnswered [] answer s g = g
  write_from-IsAnswered (item ∷ rest) none s g = g
  write_from-IsAnswered (item ∷ rest) (some x) s g =
      Answers-intro s.phase false (signal (classify_transport_read s.cancelled x) s.outcomes)
        s.cancelled (inl (signal_some _ s.outcomes))

  write-IsAnswered :
      (answer : Option SocketError) (yields : Bool) (s : Carry)
      → IsAnswered s
      → IsAnswered (on_write json policy answer yields s)
  unfolding on_write
  write-IsAnswered answer yields s g =
      if-both IsAnswered (s.cancelled && yields)
        (λ h. Answers-intro s.phase false s.outcomes s.cancelled (inr (ground arith)))
        (λ _. write_from-IsAnswered s.outbound answer s g)

  closes-IsAnswered : (kind : Stream) (s : Carry) → IsAnswered s → IsAnswered (close_output kind s)
  closes-IsAnswered stdout s g = g
  closes-IsAnswered stderr s g = g

  ended-IsAnswered :
      (kind : Stream) (end : Option OutputEnd) (s : Carry)
      → IsAnswered s
      → IsAnswered (output_ended json policy kind end s)
  ended-IsAnswered kind none s g = g
  ended-IsAnswered kind (some finished) s g = closes-IsAnswered kind s g
  ended-IsAnswered kind (some failed) s g =
      if-both (λ t. IsAnswered (close_output kind t)) s.cancelled (λ _. closes-IsAnswered kind s g)
        (λ _.
          closes-IsAnswered kind (signalled runtime_failed s)
            (signalled-IsAnswered runtime_failed s))

  enqueue-IsAnswered :
      (item : Outbound) (yields : Bool) (s : Carry)
      → IsAnswered s
      → IsAnswered (enqueue json policy item yields s).1
  unfolding enqueue
  enqueue-IsAnswered item yields s g =
      let Fine : Bool × Carry → Type 0 = λ x. IsAnswered x.1 in
      if-both Fine (s.cancelled && yields) (λ _. g)
        (λ _.
          if-both Fine (ltb (length s.outbound) policy.outbound_queue) (λ _. g)
            (λ _. if-both Fine s.cancelled (λ _. g) (λ _. signalled-IsAnswered backpressure s)))

  after-IsAnswered :
      (kind : Stream) (end : Option OutputEnd) (x : Bool × Carry)
      → IsAnswered x.1
      → IsAnswered (after_enqueue json policy kind end x)
  after-IsAnswered kind end (true, s) g = ended-IsAnswered kind end s g
  after-IsAnswered kind end (false, s) g = closes-IsAnswered kind s g

  completed-IsAnswered :
      (completed : Option ExecResult) (yields : Bool) (s : Carry)
      → is_selecting s.phase ≡ true
      → IsAnswered s
      → IsAnswered (on_completed json policy completed yields s)
  unfolding enqueue
  completed-IsAnswered none yields s at g = g
  completed-IsAnswered (some none) yields s at g = tt
  completed-IsAnswered (some (some code)) yields s at g =
      let Announced : Bool × Carry → Type 0 = λ x. IsAnswered (exit_enqueued json policy x) in
      if-both Announced (s.cancelled && yields) (λ _. tt)
        (λ _.
          if-both Announced (ltb (length s.outbound) policy.outbound_queue)
            (λ _. Answers-waiting s.phase s.writing s.outcomes s.cancelled at g)
            (λ _. if-both Announced s.cancelled (λ _. tt) (λ _. tt)))

  ack-IsAnswered :
      (ack : Option (Option SocketError)) (s : Carry)
      → IsAnswered s
      → IsAnswered (on_ack json policy ack s)
  ack-IsAnswered none s g = g
  ack-IsAnswered (some none) s g = tt
  ack-IsAnswered (some (some x)) s g = tt

  taken-IsAnswered :
      (outcomes : Option Outcome) (s : Carry)
      → IsAnswered s
      → IsAnswered (taken json policy outcomes s)
  taken-IsAnswered none s g = g
  taken-IsAnswered (some o) s g = tt

  step-IsAnswered : (e : Event) (s : Carry) → IsAnswered s → IsAnswered (step json policy e s)
  unfolding step on_feed on_output on_exit
  step-IsAnswered (message type raw yields) s g =
      if-both IsAnswered s.reading (λ _. message-IsAnswered type raw yields s g) (λ _. g)
  step-IsAnswered (read_failed e) s g =
      if-both IsAnswered s.reading
        (λ _. signalled-IsAnswered (classify_transport_read s.cancelled e) s) (λ _. g)
  step-IsAnswered (feed answer yields) s g =
      if-both IsAnswered s.feeding
        (λ _.
          if-both IsAnswered (s.cancelled && yields) (λ _. g)
            (λ _. feed-IsAnswered s.inputs answer s g))
        (λ _. g)
  step-IsAnswered (write answer yields) s g =
      if-both IsAnswered s.writing (λ _. write-IsAnswered answer yields s g) (λ _. g)
  step-IsAnswered (output kind raw end yields) s g =
      if-both IsAnswered (is_open kind s)
        (λ _.
          if-both IsAnswered (is_empty raw) (λ _. ended-IsAnswered kind end s g)
            (λ _. after-IsAnswered kind end _ (enqueue-IsAnswered _ yields s g)))
        (λ _. g)
  step-IsAnswered (exit result yields) s g =
      if-both IsAnswered (s.running && not (s.stdout_open || s.stderr_open))
        (λ _. if-both IsAnswered (s.cancelled && yields) (λ _. g) (λ _. g)) (λ _. g)
  step-IsAnswered take_outcome s g =
      if-both IsAnswered (is_left s.phase) (λ _. g) (λ _. taken-IsAnswered s.outcomes s g)
  step-IsAnswered (take_completed yields) s g =
      if-both IsAnswered (is_selecting s.phase) (λ h. completed-IsAnswered s.completed yields s h g)
        (λ _. g)
  step-IsAnswered take_ack s g =
      if-both IsAnswered (is_waiting json policy s.phase) (λ _. ack-IsAnswered s.ack s g) (λ _. g)
  step-IsAnswered (take_activity now) s g =
      if-both IsAnswered (is_selecting s.phase && s.activity) (λ _. g) (λ _. g)
  step-IsAnswered (idle_fires now) s g =
      if-both IsAnswered (is_selecting s.phase && leb s.idle_at now) (λ _. tt) (λ _. g)
  step-IsAnswered (max_fires now) s g =
      if-both IsAnswered (is_selecting s.phase && leb s.max_at now) (λ _. tt) (λ _. g)
  step-IsAnswered cancel s g = Answers-intro s.phase s.writing s.outcomes true (inr refl)
  step-IsAnswered context_done s g =
      if-both IsAnswered (not (is_left s.phase) && s.cancelled) (λ _. tt) (λ _. g)

  run-IsAnswered : (es : List Event) (s : Carry) → IsAnswered s → IsAnswered (run json policy es s)
  unfolding run
  run-IsAnswered [] s g = g
  run-IsAnswered (e ∷ es) s g = run-IsAnswered es (step json policy e s) (step-IsAnswered e s g)

  -- What ends the wait: an acknowledgement, an outcome, the context, or a turn of the writer.
  abbrev pub HasEnd : Carry → Type 0
  HasEnd s =
      (s.ack ≢ none)
      ⊎ ((s.outcomes ≢ none) ⊎ ((s.cancelled ≡ true) ⊎ ((s.writing ≡ true) × (s.outbound ≢ []))))

  waiting-HasEnd :
      (s : Carry) (ack : Option (Option SocketError)) (writing : Bool)
      → s.ack ≡ ack
      → s.writing ≡ writing
      → Answers waiting writing s.outcomes s.cancelled
      → (s.ack ≡ none → s.outbound ≢ [])
      → HasEnd s
  waiting-HasEnd s (some x) writing e w a queued = inl (λ h. cc)
  waiting-HasEnd s none true e w a queued = inr (inr (inr (w, queued e)))
  waiting-HasEnd s none false e w (inl pending) queued = inr (inl pending)
  waiting-HasEnd s none false e w (inr stopped) queued = inr (inr (inl stopped))

  -- While a terminal session waits for its exit frame to be written, the frame has been written or
  -- refused, or another outcome waits, or the context is cancelled, or the writer still runs and has
  -- a frame to write: the wait, which no timer ends, never hangs.
  pub run-HasEnd :
      (tty : Bool) (now expires_at : Time) (cancelled : Bool) (es : List Event)
      → (run json policy es (start json policy tty now expires_at cancelled)).phase ≡ waiting
      → HasEnd (run json policy es (start json policy tty now expires_at cancelled))
  run-HasEnd tty now expires_at cancelled es h =
      let s = run json policy es (start json policy tty now expires_at cancelled) in
      waiting-HasEnd s s.ack s.writing refl refl
        (subst (λ x. Answers x s.writing s.outcomes s.cancelled) h (run-IsAnswered es _ tt))
        (waits json policy s h (
          run-IsOrdered json policy es _
            (start-IsOrdered json policy tty now expires_at cancelled)))
