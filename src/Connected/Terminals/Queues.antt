-- ===== src/Connected/Terminals/Queues.antt =====
-- The two queues of a terminal session are bounded, and its input reaches the stream in order.
use ani_session_gateway.Prelude.{
  ℕ, ◌≡◌, ◌≤◌, refl, sym, ap, ◌∙◌, Bool, true, false, not, ◌&&◌, ◌||◌, leb, ltb, ltb→lt, if-both,
  Option, none, some, List, [], ◌∷◌, ◌++◌, map, map-append, append_assoc, length, length-append,
  Bytes, Result, ok, err, is_empty, arith,
}
use ani_session_gateway.Session.Model.{Time}
use ani_session_gateway.Runtime.{RuntimeError}
use ani_session_gateway.Connected.{Outcome, runtime_failed, Policy}
use ani_session_gateway.Connected.Frames.{
  Json, MessageType, text, binary, SocketError, ClientFrame, FrameError,
}
use ani_session_gateway.Connected.Terminals.{
  Outbound, ExecResult, Stream, stdout, stderr, OutputEnd, finished, failed, StreamCall, Carry,
  Event, message, read_failed, feed, write, output, exit, take_outcome, take_completed, take_ack,
  take_activity, idle_fires, max_fires, cancel, context_done, signalled, is_selecting, is_left,
  is_waiting, is_open, close_output, call_of, enqueue, accept, received, on_message, fed, feed_from,
  on_feed, write_from, on_write, output_ended, after_enqueue, on_output, on_exit, exit_enqueued,
  on_completed, on_ack, taken, step, run, start,
}

abbrev calls : List ClientFrame → List StreamCall
calls = map (λ (x : ClientFrame). call_of x)

module _ (json : Json) (policy : Policy) where
  -- Every frame that was accepted has become a call of the stream or waits in the queue, in order;
  -- no queue is longer than the policy says.
  abbrev pub IsQueued : Carry → Type 0
  IsQueued s =
      (calls s.accepted ≡ s.to_stream ++ calls s.inputs)
      × (length s.inputs ≤ policy.inbound_queue)
      × (length s.outbound ≤ policy.outbound_queue)

  length-snoc-le :
      {A : Type 0} (xs : List A) (x : A) (n : ℕ)
      → ltb (length xs) n ≡ true
      → length (xs ++ (x ∷ [])) ≤ n
  length-snoc-le xs x n h = omega (arith, length-append xs (x ∷ []), ltb→lt (length xs) n h)

  accepted-IsQueued :
      (frame : ClientFrame) (accepted inputs : List ClientFrame) (stream : List StreamCall)
      → calls accepted ≡ stream ++ calls inputs
      → calls (accepted ++ (frame ∷ [])) ≡ stream ++ calls (inputs ++ (frame ∷ []))
  accepted-IsQueued frame accepted inputs stream h =
      map-append (λ (x : ClientFrame). call_of x) accepted (frame ∷ [])
      ∙ ap (λ c. c ++ (call_of frame ∷ [])) h
      ∙ append_assoc stream (calls inputs) (call_of frame ∷ [])
      ∙ ap (λ c. stream ++ c)
          (sym (map-append (λ (x : ClientFrame). call_of x) inputs (frame ∷ [])))

  received-IsQueued :
      (r : Result FrameError ClientFrame) (yields : Bool) (s : Carry)
      → IsQueued s
      → IsQueued (received json policy r yields s)
  unfolding accept
  received-IsQueued (err e) yields s g = g
  received-IsQueued (ok frame) yields s (order, short, sent) =
      if-both IsQueued (s.cancelled && yields) (λ _. (order, short, sent))
        (λ _.
          if-both IsQueued (ltb (length s.inputs) policy.inbound_queue)
            (λ room. (
              accepted-IsQueued frame s.accepted s.inputs s.to_stream order,
              length-snoc-le s.inputs frame policy.inbound_queue room,
              sent,
            ))
            (λ _.
              if-both IsQueued s.cancelled (λ _. (order, short, sent)) (λ _. (order, short, sent))))

  message-IsQueued :
      (type : MessageType) (raw : Bytes) (yields : Bool) (s : Carry)
      → IsQueued s
      → IsQueued (on_message json policy type raw yields s)
  unfolding on_message
  message-IsQueued binary raw yields s g = g
  message-IsQueued text raw yields s g = received-IsQueued _ yields s g

  feed-IsQueued :
      (inputs : List ClientFrame) (answer : Option RuntimeError) (s : Carry)
      → s.inputs ≡ inputs
      → IsQueued s
      → IsQueued (feed_from json policy inputs answer s)
  feed-IsQueued [] answer s e g = g
  feed-IsQueued (frame ∷ rest) answer s e (order, short, sent) =
      let moved : calls s.accepted ≡ (s.to_stream ++ (call_of frame ∷ [])) ++ calls rest =
        order
        ∙ ap (λ (i : List ClientFrame). s.to_stream ++ calls i) e
        ∙ sym (append_assoc s.to_stream (call_of frame ∷ []) (calls rest)) in
      let shorter : length rest ≤ policy.inbound_queue =
        omega (arith, ap (λ (i : List ClientFrame). length i) e) in
      fed_either answer moved shorter
    where
      fed_either :
          (a : Option RuntimeError)
          → calls s.accepted ≡ (s.to_stream ++ (call_of frame ∷ [])) ++ calls rest
          → length rest ≤ policy.inbound_queue
          → IsQueued (fed json policy frame rest a s)
      fed_either none moved shorter = (moved, shorter, sent)
      fed_either (some x) moved shorter = (moved, shorter, sent)

  write_from-IsQueued :
      (outbound : List Outbound) (answer : Option SocketError) (s : Carry)
      → s.outbound ≡ outbound
      → IsQueued s
      → IsQueued (write_from json policy outbound answer s)
  write_from-IsQueued [] answer s e g = g
  write_from-IsQueued (item ∷ rest) none s e (order, short, sent) =
      (order, short, omega (arith, ap (λ (i : List Outbound). length i) e))
  write_from-IsQueued (item ∷ rest) (some x) s e (order, short, sent) =
      (order, short, omega (arith, ap (λ (i : List Outbound). length i) e))

  closes-IsQueued : (kind : Stream) (s : Carry) → IsQueued s → IsQueued (close_output kind s)
  closes-IsQueued stdout s g = g
  closes-IsQueued stderr s g = g

  ended-IsQueued :
      (kind : Stream) (end : Option OutputEnd) (s : Carry)
      → IsQueued s
      → IsQueued (output_ended json policy kind end s)
  ended-IsQueued kind none s g = g
  ended-IsQueued kind (some finished) s g = closes-IsQueued kind s g
  ended-IsQueued kind (some failed) s g =
      if-both (λ t. IsQueued (close_output kind t)) s.cancelled (λ _. closes-IsQueued kind s g)
        (λ _. closes-IsQueued kind (signalled runtime_failed s) g)

  enqueue-IsQueued :
      (item : Outbound) (yields : Bool) (s : Carry)
      → IsQueued s
      → IsQueued (enqueue json policy item yields s).1
  unfolding enqueue
  enqueue-IsQueued item yields s (order, short, sent) =
      let Fine : Bool × Carry → Type 0 = λ x. IsQueued x.1 in
      if-both Fine (s.cancelled && yields) (λ _. (order, short, sent))
        (λ _.
          if-both Fine (ltb (length s.outbound) policy.outbound_queue)
            (λ room. (order, short, length-snoc-le s.outbound item policy.outbound_queue room))
            (λ _. if-both Fine s.cancelled (λ _. (order, short, sent)) (λ _. (order, short, sent))))

  after-IsQueued :
      (kind : Stream) (end : Option OutputEnd) (x : Bool × Carry)
      → IsQueued x.1
      → IsQueued (after_enqueue json policy kind end x)
  after-IsQueued kind end (true, s) g = ended-IsQueued kind end s g
  after-IsQueued kind end (false, s) g = closes-IsQueued kind s g

  exit-IsQueued : (x : Bool × Carry) → IsQueued x.1 → IsQueued (exit_enqueued json policy x)
  exit-IsQueued (true, s) g = g
  exit-IsQueued (false, s) g = g

  completed-IsQueued :
      (completed : Option ExecResult) (yields : Bool) (s : Carry)
      → IsQueued s
      → IsQueued (on_completed json policy completed yields s)
  completed-IsQueued none yields s g = g
  completed-IsQueued (some none) yields s g = g
  completed-IsQueued (some (some code)) yields s g =
      exit-IsQueued _ (enqueue-IsQueued _ yields (record s { completed = none }) g)

  ack-IsQueued :
      (ack : Option (Option SocketError)) (s : Carry)
      → IsQueued s
      → IsQueued (on_ack json policy ack s)
  ack-IsQueued none s g = g
  ack-IsQueued (some none) s g = g
  ack-IsQueued (some (some x)) s g = g

  taken-IsQueued :
      (outcomes : Option Outcome) (s : Carry) → IsQueued s → IsQueued (taken json policy outcomes s)
  taken-IsQueued none s g = g
  taken-IsQueued (some o) s g = g

  step-IsQueued : (e : Event) (s : Carry) → IsQueued s → IsQueued (step json policy e s)
  unfolding step on_feed on_write on_output on_exit
  step-IsQueued (message type raw yields) s g =
      if-both IsQueued s.reading (λ _. message-IsQueued type raw yields s g) (λ _. g)
  step-IsQueued (read_failed e) s g = if-both IsQueued s.reading (λ _. g) (λ _. g)
  step-IsQueued (feed answer yields) s g =
      if-both IsQueued s.feeding
        (λ _.
          if-both IsQueued (s.cancelled && yields) (λ _. g)
            (λ _. feed-IsQueued s.inputs answer s refl g))
        (λ _. g)
  step-IsQueued (write answer yields) s g =
      if-both IsQueued s.writing
        (λ _.
          if-both IsQueued (s.cancelled && yields) (λ _. g)
            (λ _. write_from-IsQueued s.outbound answer s refl g))
        (λ _. g)
  step-IsQueued (output kind raw end yields) s g =
      if-both IsQueued (is_open kind s)
        (λ _.
          if-both IsQueued (is_empty raw) (λ _. ended-IsQueued kind end s g)
            (λ _. after-IsQueued kind end _ (enqueue-IsQueued _ yields s g)))
        (λ _. g)
  step-IsQueued (exit result yields) s g =
      if-both IsQueued (s.running && not (s.stdout_open || s.stderr_open))
        (λ _. if-both IsQueued (s.cancelled && yields) (λ _. g) (λ _. g)) (λ _. g)
  step-IsQueued take_outcome s g =
      if-both IsQueued (is_left s.phase) (λ _. g) (λ _. taken-IsQueued s.outcomes s g)
  step-IsQueued (take_completed yields) s g =
      if-both IsQueued (is_selecting s.phase) (λ _. completed-IsQueued s.completed yields s g)
        (λ _. g)
  step-IsQueued take_ack s g =
      if-both IsQueued (is_waiting json policy s.phase) (λ _. ack-IsQueued s.ack s g) (λ _. g)
  step-IsQueued (take_activity now) s g =
      if-both IsQueued (is_selecting s.phase && s.activity) (λ _. g) (λ _. g)
  step-IsQueued (idle_fires now) s g =
      if-both IsQueued (is_selecting s.phase && leb s.idle_at now) (λ _. g) (λ _. g)
  step-IsQueued (max_fires now) s g =
      if-both IsQueued (is_selecting s.phase && leb s.max_at now) (λ _. g) (λ _. g)
  step-IsQueued cancel s g = g
  step-IsQueued context_done s g =
      if-both IsQueued (not (is_left s.phase) && s.cancelled) (λ _. g) (λ _. g)

  -- After any run of a terminal session, the calls of the stream are those that the accepted frames
  -- ask for, in the order of the frames, but for the frames that still wait in the input queue; and
  -- neither queue is longer than the policy says.
  pub run-IsQueued : (es : List Event) (s : Carry) → IsQueued s → IsQueued (run json policy es s)
  unfolding run
  run-IsQueued [] s g = g
  run-IsQueued (e ∷ es) s g = run-IsQueued es (step json policy e s) (step-IsQueued e s g)

  pub start-IsQueued :
      (tty : Bool) (now expires_at : Time) (cancelled : Bool)
      → IsQueued (start json policy tty now expires_at cancelled)
  start-IsQueued tty now expires_at cancelled = (refl, omega arith, omega arith)
