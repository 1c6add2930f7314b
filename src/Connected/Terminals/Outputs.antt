-- ===== src/Connected/Terminals/Outputs.antt =====
-- The outputs of a terminal session keep its order.
use ani_session_gateway.Prelude.{
  ◌≡◌, refl, ◌∙◌, Bool, true, false, not, ◌&&◌, ◌||◌, ltb, if-both, Option, none, some, List, [],
  ◌∷◌, ◌++◌, Bytes, length, is_empty, arith,
}
use ani_session_gateway.Connected.{Outcome, backpressure, runtime_failed, Policy}
use ani_session_gateway.Connected.Frames.{Json}
use ani_session_gateway.Connected.Terminals.{
  Outbound, ExecResult, Stream, stdout, stderr, OutputEnd, finished, failed, Phase, selecting,
  waiting, left, Carry, signalled, is_open, close_output, enqueue, output_ended, after_enqueue,
  on_output, on_exit,
}
use ani_session_gateway.Connected.Terminals.Phases.{
  Done, IsOrdered, PhaseOk, Sent-enqueue, Unacked, Unacked-append, clash, signalled-IsOrdered,
}

module _ (json : Json) (policy : Policy) where
  -- An output that still runs leaves the loop where no exit has been announced.
  pub PhaseOk-closes :
      (kind : Stream) (phase : Phase) (s : Carry)
      → is_open kind s ≡ true
      → PhaseOk phase s.ack s.outbound s.produced s.to_socket s.stdout_open s.stderr_open
      → (outbound produced : List Outbound) → (Unacked s.outbound → Unacked outbound)
      → PhaseOk phase s.ack outbound produced s.to_socket s.stdout_open s.stderr_open
        × PhaseOk phase s.ack outbound produced s.to_socket
            (close_output kind s).stdout_open
            (close_output kind s).stderr_open
  PhaseOk-closes kind selecting s o (no_ack, unacked) outbound produced more =
      ((no_ack, more unacked), (no_ack, more unacked))
  PhaseOk-closes stdout waiting s o (closed, exits, w) outbound produced more =
      absurd (clash o closed.0)
  PhaseOk-closes stderr waiting s o (closed, exits, w) outbound produced more =
      absurd (clash o closed.1)
  PhaseOk-closes stdout (left x) s o h outbound produced more =
      (λ same. absurd (clash o (h same).0.0), λ same. absurd (clash o (h same).0.0))
  PhaseOk-closes stderr (left x) s o h outbound produced more =
      (λ same. absurd (clash o (h same).0.1), λ same. absurd (clash o (h same).0.1))

  pub Done-closes :
      (kind : Stream) (s : Carry)
      → Done s.completed s.stdout_open s.stderr_open
      → Done s.completed (close_output kind s).stdout_open (close_output kind s).stderr_open
  Done-closes stdout s done = λ h. (refl, (done h).1)
  Done-closes stderr s done = λ h. ((done h).0, refl)

  pub closes-IsOrdered :
      (kind : Stream) (s : Carry)
      → is_open kind s ≡ true
      → IsOrdered s
      → IsOrdered (close_output kind s)
  closes-IsOrdered stdout s o (sent, phase, queued, done) = (
    sent,
    (PhaseOk-closes stdout s.phase s o phase s.outbound s.produced (λ u. u)).1,
    queued,
    Done-closes stdout s done,
  )
  closes-IsOrdered stderr s o (sent, phase, queued, done) = (
    sent,
    (PhaseOk-closes stderr s.phase s o phase s.outbound s.produced (λ u. u)).1,
    queued,
    Done-closes stderr s done,
  )

  pub is_open-signalled :
      (kind : Stream) (o : Outcome) (s : Carry) → is_open kind (signalled o s) ≡ is_open kind s
  is_open-signalled stdout o s = refl
  is_open-signalled stderr o s = refl

  pub ended-IsOrdered :
      (kind : Stream) (end : Option OutputEnd) (s : Carry)
      → is_open kind s ≡ true
      → IsOrdered s
      → IsOrdered (output_ended json policy kind end s)
  ended-IsOrdered kind none s o g = g
  ended-IsOrdered kind (some finished) s o g = closes-IsOrdered kind s o g
  ended-IsOrdered kind (some failed) s o g =
      if-both (λ t. IsOrdered (close_output kind t)) s.cancelled (λ _. closes-IsOrdered kind s o g)
        (λ _.
          closes-IsOrdered kind (signalled runtime_failed s)
            (is_open-signalled kind runtime_failed s ∙ o)
            (signalled-IsOrdered runtime_failed s (λ h. cc) g))

  -- A frame of an output joins the queue.
  abbrev pub queued_frame : Outbound → Carry → Carry
  queued_frame item s = record s {
    outbound = s.outbound ++ (item ∷ []);
    produced = s.produced ++ (item ∷ []);
  }

  pub is_open-queued :
      (kind : Stream) (item : Outbound) (s : Carry)
      → is_open kind (queued_frame item s) ≡ is_open kind s
  is_open-queued stdout item s = refl
  is_open-queued stderr item s = refl

  pub queued-IsOrdered :
      (kind : Stream) (item : Outbound) (s : Carry)
      → item.acked ≡ false
      → is_open kind s ≡ true
      → IsOrdered s
      → IsOrdered (queued_frame item s)
  queued-IsOrdered kind item s plain o (sent, phase, queued, done) = (
    Sent-enqueue s.writing s.outbound s.produced s.to_socket item sent,
    (PhaseOk-closes kind s.phase s o phase (s.outbound ++ (item ∷ [])) (s.produced ++ (item ∷ []))
        (λ u. Unacked-append s.outbound item u plain)).0,
    queued,
    done,
  )

  abbrev pub Enqueued : Stream → Option OutputEnd → Bool × Carry → Type 0
  Enqueued kind end x = IsOrdered (after_enqueue json policy kind end x)

  pub output-IsOrdered :
      (kind : Stream) (raw : Bytes) (end : Option OutputEnd) (yields : Bool) (s : Carry)
      → is_open kind s ≡ true
      → IsOrdered s
      → IsOrdered (on_output json policy kind raw end yields s)
  unfolding on_output enqueue
  output-IsOrdered kind raw end yields s o g =
      if-both IsOrdered (is_empty raw) (λ _. ended-IsOrdered kind end s o g)
        (λ _.
          if-both (Enqueued kind end) (s.cancelled && yields) (λ _. closes-IsOrdered kind s o g)
            (λ _.
              if-both (Enqueued kind end) (ltb (length s.outbound) policy.outbound_queue)
                (λ _.
                  ended-IsOrdered kind end (queued_frame _ s) (is_open-queued kind _ s ∙ o)
                    (queued-IsOrdered kind _ s refl o g))
                (λ _.
                  if-both (Enqueued kind end) s.cancelled (λ _. closes-IsOrdered kind s o g)
                    (λ _.
                      closes-IsOrdered kind (signalled backpressure s)
                        (is_open-signalled kind backpressure s ∙ o)
                        (signalled-IsOrdered backpressure s (λ h. cc) g)))))

  pub both_closed : (a b c : Bool) → (c && not (a || b)) ≡ true → (a ≡ false) × (b ≡ false)
  both_closed a b c h = ground arith

  pub exit-IsOrdered :
      (result : ExecResult) (yields : Bool) (s : Carry)
      → (s.running && not (s.stdout_open || s.stderr_open)) ≡ true
      → IsOrdered s
      → IsOrdered (on_exit json policy result yields s)
  unfolding on_exit
  exit-IsOrdered result yields s h (sent, phase, queued, done) =
      if-both IsOrdered (s.cancelled && yields) (λ _. (sent, phase, queued, done))
        (λ _. (sent, phase, queued, λ _. both_closed s.stdout_open s.stderr_open s.running h))
