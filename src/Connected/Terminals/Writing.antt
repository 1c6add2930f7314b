-- ===== src/Connected/Terminals/Writing.antt =====
-- The writer of a terminal session keeps its order.
use ani_session_gateway.Prelude.{
  ◌≡◌, refl, sym, ap, ◌∙◌, subst, Bool, true, ◌&&◌, if-both, Option, none, some, List, [], ◌∷◌,
  ◌++◌, append_assoc,
}
use ani_session_gateway.Connected.{Policy}
use ani_session_gateway.Connected.Frames.{Json, SocketError, ServerFrame}
use ani_session_gateway.Connected.Terminals.{
  Outbound, Phase, selecting, waiting, left, Carry, acknowledged, write_from, on_write,
}
use ani_session_gateway.Connected.Terminals.Phases.{
  IsOrdered, PhaseOk, classified_other, cons_nil, frames, signal_other,
}

module _ (json : Json) (policy : Policy) where
  -- The phase after the first frame was written.
  pub PhaseOk-write :
      (phase : Phase) (ack : Option (Option SocketError)) (item : Outbound)
      (rest produced : List Outbound) (socket : List ServerFrame) (o1 o2 : Bool) (s : Carry)
      → s.ack ≡ ack
      → frames produced ≡ socket ++ (item.frame ∷ frames rest)
      → PhaseOk phase ack (item ∷ rest) produced socket o1 o2
      → PhaseOk phase
          (acknowledged json policy item.acked none s).ack
          rest
          produced
          (socket ++ (item.frame ∷ []))
          o1
          o2
  PhaseOk-write selecting ack item rest produced socket o1 o2 s e sent (no_ack, (unacked, others)) =
      rw unacked (e ∙ no_ack, others)
  PhaseOk-write waiting none item [] produced socket o1 o2 s e sent (closed, exits, acked) =
      rw acked (closed, exits, (refl, sym sent))
  PhaseOk-write waiting none item (y ∷ rest) produced socket o1 o2 s e sent
        (closed, exits, (unacked, others)) =
      rw (unacked, e) (closed, exits, others)
  PhaseOk-write waiting (some none) item rest produced socket o1 o2 s e sent
        (closed, exits, (empty, all)) =
      absurd (cons_nil empty)
  PhaseOk-write waiting (some (some x)) item rest produced socket o1 o2 s e sent
        (closed, exits, empty) =
      absurd (cons_nil empty)
  PhaseOk-write (left o) ack item rest produced socket o1 o2 s e sent h =
      λ same. absurd (cons_nil (h same).1.nothing_left)

  pub PhaseOk-fail :
      (phase : Phase) (ack : Option (Option SocketError)) (x : SocketError) (item : Outbound)
      (rest produced : List Outbound) (socket : List ServerFrame) (o1 o2 : Bool) (s : Carry)
      → s.ack ≡ ack
      → PhaseOk phase ack (item ∷ rest) produced socket o1 o2
      → PhaseOk phase
          (acknowledged json policy item.acked (some x) s).ack
          rest
          produced
          socket
          o1
          o2
  PhaseOk-fail selecting ack x item rest produced socket o1 o2 s e (no_ack, (unacked, others)) =
      rw unacked (e ∙ no_ack, others)
  PhaseOk-fail waiting none x item [] produced socket o1 o2 s e (closed, exits, acked) =
      rw acked (closed, exits, refl)
  PhaseOk-fail waiting none x item (y ∷ rest) produced socket o1 o2 s e
        (closed, exits, (unacked, others)) =
      rw (unacked, e) (closed, exits, others)
  PhaseOk-fail waiting (some none) x item rest produced socket o1 o2 s e
        (closed, exits, (empty, all)) =
      absurd (cons_nil empty)
  PhaseOk-fail waiting (some (some y)) x item rest produced socket o1 o2 s e
        (closed, exits, empty) =
      absurd (cons_nil empty)
  PhaseOk-fail (left o) ack x item rest produced socket o1 o2 s e h =
      λ same. absurd (cons_nil (h same).1.nothing_left)

  pub write_from-IsOrdered :
      (outbound : List Outbound) (answer : Option SocketError) (s : Carry)
      → s.outbound ≡ outbound
      → s.writing ≡ true
      → IsOrdered s
      → IsOrdered (write_from json policy outbound answer s)
  write_from-IsOrdered [] answer s e w g = g
  write_from-IsOrdered (item ∷ rest) none s e w (sent, phase, queued, done) =
      let pending : frames s.produced ≡ s.to_socket ++ (item.frame ∷ frames rest) =
        sent w ∙ ap (λ o. s.to_socket ++ frames o) e in
      (
        λ h. pending ∙ sym (append_assoc s.to_socket (item.frame ∷ []) (frames rest)),
        PhaseOk-write s.phase s.ack item rest s.produced s.to_socket s.stdout_open s.stderr_open s
            refl pending
            (subst (λ o. PhaseOk s.phase s.ack o s.produced s.to_socket s.stdout_open s.stderr_open)
              e phase),
        queued,
        done,
      )
  write_from-IsOrdered (item ∷ rest) (some x) s e w (sent, phase, queued, done) = (
    λ h. cc,
    PhaseOk-fail s.phase s.ack x item rest s.produced s.to_socket s.stdout_open s.stderr_open s refl
        (subst (λ o. PhaseOk s.phase s.ack o s.produced s.to_socket s.stdout_open s.stderr_open) e
          phase),
    signal_other _ s.outcomes (classified_other s.cancelled x) queued,
    done,
  )

  pub write-IsOrdered :
      (answer : Option SocketError) (yields : Bool) (s : Carry)
      → s.writing ≡ true
      → IsOrdered s
      → IsOrdered (on_write json policy answer yields s)
  unfolding on_write
  write-IsOrdered answer yields s w (sent, phase, queued, done) =
      if-both IsOrdered (s.cancelled && yields) (λ _. (λ h. cc, phase, queued, done))
        (λ _. write_from-IsOrdered s.outbound answer s refl w (sent, phase, queued, done))
