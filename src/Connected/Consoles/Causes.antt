-- ===== src/Connected/Consoles/Causes.antt =====
-- Why a console session ends as it does.
use ani_session_gateway.Prelude.{
  ℕ, ◌≡◌, ◌≢◌, ◌≤◌, refl, subst, ◌⊎◌, inl, inr, Bool, true, false, ◌&&◌, ◌||◌, ◌==◌, leb, ==_iff,
  if◌then◌else◌, if-both, Bool-cases, Option, none, some, List, [], ◌∷◌, Bytes, str, str_eq, All,
  Occurs, All-Occurs, Result, ok, err, is_empty, arith,
}
use ani_session_gateway.Session.Model.{Time, Mode, is_vnc}
use ani_session_gateway.Runtime.{RuntimeError}
use ani_session_gateway.Connected.{
  Outcome, normal, client_closed, idle_timeout, max_duration, message_too_big,
  invalid_terminal_frame, invalid_vnc_frame, backpressure, runtime_failed, transport_failed,
  shutdown, Policy,
}
use ani_session_gateway.Connected.Frames.{
  Json, MessageType, text, binary, SocketError, FrameError, ClientFrame, stdin_data, closed_with,
  broken, classify_transport_read, classify_runtime_error, decode_byte_payload,
}
use ani_session_gateway.Connected.Consoles.{
  StreamEnd, finished, failed, Carry, Event, message, read_failed, chunk, take_outcome,
  take_activity, idle_fires, max_fires, cancel, context_done, signal, is_none, received,
  stream_ended, sent, sent_or_failed, taken, select, on_message, on_chunk, step, run, start,
}

pub data Reports : Event → SocketError → Type 0 where
  on_read : {e : SocketError} → Reports (read_failed e) e
  on_write :
      {raw : Bytes} {e : SocketError} {end : Option StreamEnd} → Reports (chunk raw (some e) end) e

module _ (json : Json) (policy : Policy) (mode : Mode) (max_at : Time) where
  -- What an outcome says of the event that led to it.
  pub data Cause : Outcome → Event → Type 0 where
    ended :
        {raw : Bytes} {failure : Option SocketError}
        → Cause normal (chunk raw failure (some finished))
    broke :
        {raw : Bytes} {failure : Option SocketError}
        → Cause runtime_failed (chunk raw failure (some failed))
    refused :
        {type : MessageType} {raw : Bytes} {e : RuntimeError}
        → e ≢ RuntimeError.backpressure
        → Cause runtime_failed (message type raw (some e))
    congested :
        {type : MessageType} {raw : Bytes}
        → Cause backpressure (message type raw (some RuntimeError.backpressure))
    not_binary :
        {raw : Bytes} {answer : Option RuntimeError}
        → is_vnc mode ≡ true
        → Cause invalid_vnc_frame (message text raw answer)
    not_input :
        {type : MessageType} {raw : Bytes} {answer : Option RuntimeError}
        → is_vnc mode ≡ false
        → Cause invalid_terminal_frame (message type raw answer)
    left :
        {event : Event} {status : ℕ}
        → (status ≡ 1000) ⊎ (status ≡ 1001)
        → Reports event (closed_with status)
        → Cause client_closed event
    too_big : {event : Event} → Reports event (closed_with 1009) → Cause message_too_big event
    lost : {event : Event} {e : SocketError} → Reports event e → Cause transport_failed event
    idle : {now : Time} → Cause idle_timeout (idle_fires now)
    expired : {now : Time} → max_at ≤ now → Cause max_duration (max_fires now)
    stopped : Cause shutdown cancel

  module _ (O : Event → Type 0) where
    abbrev Caused : Outcome → Type 0
    Caused o = (e : Event) × O e × Cause o e

    abbrev Known : Option Outcome → Option Outcome → Bool → Type 0
    Known (some o) queued cancelled = Caused o
    Known none queued cancelled =
        ((o : Outcome) → queued ≡ some o → Caused o) × (cancelled ≡ true → Caused shutdown)

    abbrev Good : Carry → Type 0
    Good s = Known s.outcome s.outcomes s.cancelled × (s.max_at ≡ max_at)

    signal-Known :
        (out queued : Option Outcome) (cancelled : Bool) (o : Outcome)
        → Known out queued cancelled
        → ((cancelled ≡ true → Caused shutdown) → Caused o)
        → Known out (signal o queued) cancelled
    signal-Known (some x) queued cancelled o k c = k
    signal-Known none none cancelled o k c = (λ x e. subst Caused (ground arith) (c k.1), k.1)
    signal-Known none (some first) cancelled o k c = k

    classified-Caused :
        (event : Event) (e : SocketError) (cancelled : Bool)
        → O event
        → Reports event e
        → (cancelled ≡ true → Caused shutdown)
        → Caused (classify_transport_read cancelled e)
    unfolding classify_transport_read
    classified-Caused event (closed_with status) true occurs reports c = c refl
    classified-Caused event broken true occurs reports c = c refl
    classified-Caused event broken false occurs reports c = (event, occurs, lost reports)
    classified-Caused event (closed_with status) false occurs reports c =
        if-both Caused (status == 1000 || status == 1001)
          (λ h. (event, occurs, left (ground arith) reports))
          (λ h.
            if-both Caused (status == 1009)
              (λ same. (
                event,
                occurs,
                too_big (
                    subst (λ x. Reports event (closed_with x)) ((==_iff status 1009).0 same)
                      reports),
              ))
              (λ _. (event, occurs, lost reports)))

    refused-Caused :
        (type : MessageType) (raw : Bytes) (e : RuntimeError)
        → O (message type raw (some e))
        → Caused (classify_runtime_error e)
    refused-Caused type raw RuntimeError.invalid_target occurs = (_, occurs, refused (λ h. cc))
    refused-Caused type raw RuntimeError.target_not_found occurs = (_, occurs, refused (λ h. cc))
    refused-Caused type raw RuntimeError.target_not_ready occurs = (_, occurs, refused (λ h. cc))
    refused-Caused type raw RuntimeError.target_changed occurs = (_, occurs, refused (λ h. cc))
    refused-Caused type raw RuntimeError.ambiguous_container occurs = (_, occurs, refused (λ h. cc))
    refused-Caused type raw RuntimeError.backpressure occurs = (_, occurs, congested)
    refused-Caused type raw RuntimeError.unavailable occurs = (_, occurs, refused (λ h. cc))
    refused-Caused type raw RuntimeError.other occurs = (_, occurs, refused (λ h. cc))

    stdin-Caused :
        (type : MessageType) (raw : Bytes) (answer : Option RuntimeError) (o : Outcome)
        (r : Result FrameError ClientFrame)
        → O (message type raw answer)
        → is_vnc mode ≡ false
        → stdin_data json r ≡ err o
        → Caused o
    stdin-Caused type raw answer o (err e) occurs other h =
        subst Caused (ground arith) (message type raw answer, occurs, not_input other)
    stdin-Caused type raw answer o (ok frame) occurs other h =
        elim (Bool-cases (str_eq frame.type (str "stdin"))) [
          | inl stdin ↦ ground arith
          | inr resize ↦
              subst Caused (ground arith) (message type raw answer, occurs, not_input other)
        ]

    undecoded-Caused :
        (type : MessageType) (raw : Bytes) (answer : Option RuntimeError) (o : Outcome)
        → O (message type raw answer)
        → decode_byte_payload json mode type raw policy.max_message_bytes ≡ err o
        → Caused o
    unfolding decode_byte_payload
    undecoded-Caused binary raw answer o occurs h = elim (Bool-cases (is_vnc mode)) [
      | inl console ↦ ground arith
      | inr other ↦ subst Caused (ground arith) (message binary raw answer, occurs, not_input other)
    ]
    undecoded-Caused text raw answer o occurs h = elim (Bool-cases (is_vnc mode)) [
      | inl console ↦
          subst Caused (ground arith) (message text raw answer, occurs, not_binary console)
      | inr other ↦ stdin-Caused text raw answer o _ occurs other (rw other at h)
    ]

    answered-Good :
        (type : MessageType) (raw : Bytes) (answer : Option RuntimeError) (r : Result Outcome Bytes)
        (s : Carry)
        → decode_byte_payload json mode type raw policy.max_message_bytes ≡ r
        → O (message type raw answer)
        → Good s
        → Good (received json policy mode r answer s)
    answered-Good type raw answer (err o) s e occurs g = (
      signal-Known s.outcome s.outcomes s.cancelled o g.0
          (λ _. undecoded-Caused type raw answer o occurs e),
      g.1,
    )
    answered-Good type raw none (ok payload) s e occurs g = g
    answered-Good type raw (some x) (ok payload) s e occurs g = (
      signal-Known s.outcome s.outcomes s.cancelled _ g.0 (λ _. refused-Caused type raw x occurs),
      g.1,
    )

    received-Good :
        (type : MessageType) (raw : Bytes) (answer : Option RuntimeError) (s : Carry)
        → O (message type raw answer)
        → Good s
        → Good (on_message json policy mode type raw answer s)
    unfolding on_message
    received-Good type raw answer s occurs g = answered-Good type raw answer _ s refl occurs g

    ended-Good :
        (raw : Bytes) (failure : Option SocketError) (end : Option StreamEnd) (s : Carry)
        → O (chunk raw failure end)
        → Good s
        → Good (stream_ended json policy mode end s)
    ended-Good raw failure none s occurs g = g
    ended-Good raw failure (some finished) s occurs g =
        (signal-Known s.outcome s.outcomes s.cancelled normal g.0 (λ _. (_, occurs, ended)), g.1)
    ended-Good raw failure (some failed) s occurs g =
        if-both Good s.cancelled (λ _. g)
          (λ _. (
            signal-Known s.outcome s.outcomes s.cancelled runtime_failed g.0
                (λ _. (_, occurs, broke)),
            g.1,
          ))

    sent-Good :
        (raw : Bytes) (failure : Option SocketError) (end : Option StreamEnd) (s : Carry)
        → O (chunk raw failure end)
        → Good s
        → Good (sent_or_failed json policy mode raw failure end s)
    sent-Good raw none end s occurs g =
        ended-Good raw none end (sent json policy mode raw s) occurs g
    sent-Good raw (some e) end s occurs g = (
      signal-Known s.outcome s.outcomes s.cancelled _ g.0
          (classified-Caused _ e s.cancelled occurs on_write),
      g.1,
    )

    chunk-Good :
        (raw : Bytes) (failure : Option SocketError) (end : Option StreamEnd) (s : Carry)
        → O (chunk raw failure end)
        → Good s
        → Good (on_chunk json policy mode raw failure end s)
    unfolding on_chunk
    chunk-Good raw failure end s occurs g =
        if-both Good (is_empty raw) (λ _. ended-Good raw failure end s occurs g)
          (λ _. sent-Good raw failure end s occurs g)

    taken-Good :
        (s : Carry) (queued : Option Outcome)
        → s.outcomes ≡ queued
        → s.outcome ≡ none
        → Good s
        → Good (taken json policy mode queued s)
    taken-Good s none e open_still g = g
    taken-Good s (some o) e open_still g =
        ((subst (λ x. Known x s.outcomes s.cancelled) open_still g.0).0 o e, g.1)

    select-Good : (s : Carry) (o : Outcome) → Caused o → Good s → Good (select o s)
    select-Good s o c g = (c, g.1)

    open_loop : (o : Option Outcome) (b : Bool) → (is_none o && b) ≡ true → (o ≡ none) × (b ≡ true)
    open_loop none b h = (refl, h)
    open_loop (some o) b h = cc

    none_of : (o : Option Outcome) → is_none o ≡ true → o ≡ none
    none_of none h = refl
    none_of (some o) h = cc

    reached :
        (o : Option Outcome) (at now : Time)
        → (is_none o && leb at now) ≡ true
        → at ≡ max_at
        → max_at ≤ now
    reached o at now h e = let (_, past) = open_loop o (leb at now) h in ground arith

    cancelled-Known :
        (out queued : Option Outcome) (cancelled : Bool)
        → O cancel
        → Known out queued cancelled
        → Known out queued true
    cancelled-Known (some o) queued cancelled occurs k = k
    cancelled-Known none queued cancelled occurs k = (k.0, λ _. (cancel, occurs, stopped))

    step-Good : (e : Event) (s : Carry) → O e → Good s → Good (step json policy mode e s)
    unfolding step
    step-Good (message type raw answer) s occurs g =
        if-both Good s.reading (λ _. received-Good type raw answer s occurs g) (λ _. g)
    step-Good (read_failed e) s occurs g =
        if-both Good s.reading
          (λ _. (
            signal-Known s.outcome s.outcomes s.cancelled _ g.0
                (classified-Caused _ e s.cancelled occurs on_read),
            g.1,
          ))
          (λ _. g)
    step-Good (chunk raw failure end) s occurs g =
        if-both Good s.writing (λ _. chunk-Good raw failure end s occurs g) (λ _. g)
    step-Good take_outcome s occurs g =
        if-both Good (is_none s.outcome) (λ h. taken-Good s s.outcomes refl (none_of s.outcome h) g)
          (λ _. g)
    step-Good (take_activity now) s occurs g =
        if-both Good (is_none s.outcome && s.activity) (λ _. g) (λ _. g)
    step-Good (idle_fires now) s occurs g =
        if-both Good (is_none s.outcome && leb s.idle_at now)
          (λ _. select-Good s idle_timeout (_, occurs, idle) g) (λ _. g)
    step-Good (max_fires now) s occurs g =
        if-both Good (is_none s.outcome && leb s.max_at now)
          (λ h.
            select-Good s max_duration (_, occurs, expired (reached s.outcome s.max_at now h g.1))
              g)
          (λ _. g)
    step-Good cancel s occurs g = (cancelled-Known s.outcome s.outcomes s.cancelled occurs g.0, g.1)
    step-Good context_done s occurs g =
        if-both Good (is_none s.outcome && s.cancelled)
          (λ h.
            let (o, c) = open_loop s.outcome s.cancelled h in
            select-Good s shutdown ((subst (λ x. Known x s.outcomes s.cancelled) o g.0).1 c) g)
          (λ _. g)

    run-Good : (es : List Event) (s : Carry) → All O es → Good s → Good (run json policy mode es s)
    unfolding run
    run-Good [] s all g = g
    run-Good (e ∷ es) s (o, all) g = run-Good es (step json policy mode e s) all (step-Good e s o g)

-- The deadline of a session: when its access runs out, or at once if it has.
abbrev pub deadline : Time → Time → Time
deadline now expires_at = if leb now expires_at then expires_at else now

caused :
    (json : Json) (policy : Policy) (mode : Mode) (max_at : Time) (O : Event → Type 0) (s : Carry)
    {o : Outcome}
    → Known json policy mode max_at O s.outcome s.outcomes s.cancelled
    → s.outcome ≡ some o
    → Caused json policy mode max_at O o
caused json policy mode max_at O s {o} k e =
    subst (λ x. Known json policy mode max_at O x s.outcomes s.cancelled) e k

-- The outcome of a console session was caused by an event of its run: it ends as normal only when
-- the runtime's stream ended, as closed by the client only when the socket reported that, as expired
-- only when the timer of the access fired at or after its deadline, as shut down only when its
-- context was cancelled, and so on for each outcome; the others never come out of the loop.
pub run-Cause :
    (json : Json) (policy : Policy) (mode : Mode) (now expires_at : Time) (es : List Event)
    {o : Outcome}
    → (run json policy mode es (start json policy mode now expires_at false)).outcome ≡ some o
    → (e : Event) × Occurs e es × Cause json policy mode (deadline now expires_at) o e
run-Cause json policy mode now expires_at es h =
    let O : Event → Type 0 = λ e. Occurs e es in
    caused json policy mode (deadline now expires_at) O
      (run json policy mode es (start json policy mode now expires_at false))
      (run-Good json policy mode (deadline now expires_at) O es
        (start json policy mode now expires_at false) (All-Occurs es)
        ((λ o e. cc, λ e. cc), refl)).0
      h
