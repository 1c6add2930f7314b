-- ===== src/Connected/Terminals/Phases.antt =====
-- What holds of a terminal session in each phase of `carryExecStream`.
use ani_session_gateway.Prelude.{
  ℤ, ◌≡◌, ◌≢◌, sym, ap, ◌∙◌, Bool, true, false, Option, none, some, List, [], ◌∷◌, ◌++◌, map,
  map-append, append_assoc, All, arith,
}
use ani_session_gateway.Runtime.{RuntimeError}
use ani_session_gateway.Connected.{Outcome, normal}
use ani_session_gateway.Connected.Frames.{
  SocketError, closed_with, broken, ServerFrame, classify_transport_read, classify_runtime_error,
}
use ani_session_gateway.Connected.Terminals.{
  Outbound, ExecResult, Phase, selecting, waiting, left, Carry, signal, signalled, leave,
  exit_frame,
}

abbrev pub frames : List Outbound → List ServerFrame
frames = map (λ (x : Outbound). x.frame)

abbrev pub Unacked : List Outbound → Type 0
Unacked = All (λ (x : Outbound). x.acked ≡ false)

-- The last frame, and no other, is to be acknowledged.
abbrev pub Awaits : List Outbound → Type 0
Awaits [] = ⊥
Awaits (x ∷ []) = x.acked ≡ true
Awaits (x ∷ y ∷ rest) = (x.acked ≡ false) × Awaits (y ∷ rest)

-- All that the outputs gave was sent, and an exit frame after it.
pub record IsComplete (outbound produced : List Outbound) (socket : List ServerFrame) : Type 0 where
  pub before : List Outbound
  pub code : ℤ
  pub ends : produced ≡ before ++ (record { frame = exit_frame code; acked = true } ∷ [])
  pub nothing_left : outbound ≡ []
  pub all_sent : socket ≡ frames produced

abbrev pub Exits : List Outbound → Type 0
Exits produced =
    (before : List Outbound) × (code : ℤ) × (produced
      ≡ before ++ (record { frame = exit_frame code; acked = true } ∷ []))

abbrev pub WaitOk :
    Option (Option SocketError) → List Outbound → List Outbound → List ServerFrame → Type 0
WaitOk none outbound produced socket = Awaits outbound
WaitOk (some none) outbound produced socket = (outbound ≡ []) × (socket ≡ frames produced)
WaitOk (some (some e)) outbound produced socket = outbound ≡ []

abbrev pub PhaseOk :
    Phase
    → Option (Option SocketError)
    → List Outbound
    → List Outbound
    → List ServerFrame
    → Bool
    → Bool
    → Type 0
PhaseOk selecting ack outbound produced socket o1 o2 = (ack ≡ none) × Unacked outbound
PhaseOk waiting ack outbound produced socket o1 o2 =
    ((o1 ≡ false) × (o2 ≡ false)) × Exits produced × WaitOk ack outbound produced socket
PhaseOk (left o) ack outbound produced socket o1 o2 =
    o ≡ normal → ((o1 ≡ false) × (o2 ≡ false)) × IsComplete outbound produced socket

abbrev pub Sent : Bool → List Outbound → List Outbound → List ServerFrame → Type 0
Sent writing outbound produced socket = writing ≡ true → frames produced ≡ socket ++ frames outbound

abbrev pub Done : Option ExecResult → Bool → Bool → Type 0
Done completed o1 o2 = completed ≢ none → (o1 ≡ false) × (o2 ≡ false)

abbrev pub IsOrdered : Carry → Type 0
IsOrdered s =
    Sent s.writing s.outbound s.produced s.to_socket
    × PhaseOk s.phase s.ack s.outbound s.produced s.to_socket s.stdout_open s.stderr_open
    × (s.outcomes ≢ some normal)
    × Done s.completed s.stdout_open s.stderr_open

pub signal_other :
    (o : Outcome) (queued : Option Outcome)
    → o ≢ normal
    → queued ≢ some normal
    → signal o queued ≢ some normal
signal_other o none other q h = other (ground arith)
signal_other o (some first) other q h = q h

pub signalled-IsOrdered :
    (o : Outcome) (s : Carry) → o ≢ normal → IsOrdered s → IsOrdered (signalled o s)
signalled-IsOrdered o s other (sent, phase, queued, done) =
    (sent, phase, signal_other o s.outcomes other queued, done)

pub leave-IsOrdered : (o : Outcome) (s : Carry) → o ≢ normal → IsOrdered s → IsOrdered (leave o s)
leave-IsOrdered o s other (sent, phase, queued, done) = (sent, λ e. absurd (other e), queued, done)

pub classified_other :
    (cancelled : Bool) (e : SocketError) → classify_transport_read cancelled e ≢ normal
unfolding classify_transport_read
classified_other cancelled (closed_with status) h = ground arith
classified_other cancelled broken h = ground arith

pub refused_other : (e : RuntimeError) → classify_runtime_error e ≢ normal
refused_other RuntimeError.invalid_target h = cc
refused_other RuntimeError.target_not_found h = cc
refused_other RuntimeError.target_not_ready h = cc
refused_other RuntimeError.target_changed h = cc
refused_other RuntimeError.ambiguous_container h = cc
refused_other RuntimeError.backpressure h = cc
refused_other RuntimeError.unavailable h = cc
refused_other RuntimeError.other h = cc

pub Awaits-append :
    (us : List Outbound) (item : Outbound)
    → Unacked us
    → item.acked ≡ true
    → Awaits (us ++ (item ∷ []))
Awaits-append [] item u h = h
Awaits-append (x ∷ []) item (u, us) h = (u, h)
Awaits-append (x ∷ y ∷ rest) item (u, us) h = (u, Awaits-append (y ∷ rest) item us h)

pub Unacked-append :
    (us : List Outbound) (item : Outbound)
    → Unacked us
    → item.acked ≡ false
    → Unacked (us ++ (item ∷ []))
Unacked-append [] item u h = (h, tt)
Unacked-append (x ∷ rest) item (u, us) h = (u, Unacked-append rest item us h)

pub frames-append : (xs ys : List Outbound) → frames (xs ++ ys) ≡ frames xs ++ frames ys
frames-append xs ys = map-append (λ (x : Outbound). x.frame) xs ys

pub Sent-enqueue :
    (writing : Bool) (outbound produced : List Outbound) (socket : List ServerFrame)
    (item : Outbound)
    → Sent writing outbound produced socket
    → Sent writing (outbound ++ (item ∷ [])) (produced ++ (item ∷ [])) socket
Sent-enqueue writing outbound produced socket item sent h =
    frames-append produced (item ∷ [])
    ∙ ap (λ fs. fs ++ (item.frame ∷ [])) (sent h)
    ∙ append_assoc socket (frames outbound) (item.frame ∷ [])
    ∙ ap (λ fs. socket ++ fs) (sym (frames-append outbound (item ∷ [])))

pub cons_nil : {x : Outbound} {xs : List Outbound} → (x ∷ xs) ≢ []
cons_nil h = cc

pub clash : {b : Bool} → b ≡ true → b ≡ false → ⊥
clash h k = cc
