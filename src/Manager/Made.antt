-- ===== src/Manager/Made.antt =====
-- The one call of the store that a successful `Issue` makes.
use ani_session_gateway.Prelude.{
  ◌≡◌, refl, sym, ap, ◌∙◌, subst, Bool, true, false, Option, none, some, Str, Bytes, Result, ok,
  err, ok-injective, >>=-eq-ok, arith,
}
use ani_session_gateway.Session.Errors.{Error}
use ani_session_gateway.Session.Model.{Time, Request, Session, Issued}
use ani_session_gateway.Session.Contract.{SessionStore}
use ani_session_gateway.Manager.Config.{
  Primitives, PrimitiveLaws, ManagerConfig, Label, Event, admit,
}
use ani_session_gateway.Manager.Calls.{
  World, notify, settle, answer_of, opened, answered, hand_out, draw, store_drawn, issue_admitted,
  issue,
}
use ani_session_gateway.Manager.Issue.{IsDrawn, draw-IsDrawn, draw-KeepsStore}

-- Telling the observer leaves the store alone.
pub store-notify :
    {D : Type 0} (c : ManagerConfig) (e : Event) (w : World D) → (notify c e w).store ≡ w.store
store-notify c e w = ground arith

module _ (S : SessionStore) (p : Primitives) (laws : PrimitiveLaws p) (c : ManagerConfig) where
  pub record Made (r : Request) (now : Time) (w v : World S.Data) (i : Issued) : Type 0 where
    pub candidate : Session
    pub ticket : Str
    pub drawn : IsDrawn S p laws c r now ticket candidate
    pub answer :
        (S.create_or_get r.idempotency_key candidate w.store).0 ≡ ok (i.session, i.replayed)
    pub after : v.store ≡ (S.create_or_get r.idempotency_key candidate w.store).1

  opened-answer :
      (st : Session) (o : Option Bytes) {i : Issued} {l : Label}
      → opened S p c st o ≡ ok (i, l)
      → (i.session ≡ st) × (i.replayed ≡ true)
  opened-answer st none h = cc
  opened-answer st (some text) h = ground arith

  answered-answer :
      (t : Str) (answer : Result Error (Session × Bool)) {i : Issued} {l : Label}
      → answered S p c t answer ≡ ok (i, l)
      → answer ≡ ok (i.session, i.replayed)
  unfolding hand_out
  answered-answer t (err e) h = cc
  answered-answer t (ok (st, false)) h = ground arith
  answered-answer t (ok (st, true)) h = let (same, again) = opened-answer st _ h in rw (same, again)

  store_drawn-Made :
      (r : Request) (now : Time) (w v : World S.Data) (t : Str) (candidate : Session) {i : Issued}
      {l : Label}
      → IsDrawn S p laws c r now t candidate
      → v.store ≡ w.store
      → (store_drawn S p c r t candidate v).0 ≡ ok (i, l)
      → Made r now w (store_drawn S p c r t candidate v).1 i
  unfolding store_drawn
  store_drawn-Made r now w v t candidate d same h = record {
    candidate = candidate;
    ticket = t;
    drawn = d;
    answer =
        ap (λ (x : S.Data). (S.create_or_get r.idempotency_key candidate x).0) (sym same)
        ∙ answered-answer t _ h;
    after = ap (λ (x : S.Data). (S.create_or_get r.idempotency_key candidate x).1) same;
  }

  issue_admitted-Made :
      (r : Request) (now : Time) (w : World S.Data) {i : Issued} {l : Label}
      → (issue_admitted S p c r now w).0 ≡ ok (i, l)
      → Made r now w (issue_admitted S p c r now w).1 i
  unfolding issue_admitted
  issue_admitted-Made r now w {i} {l} h =
      let ((t, candidate), drawn, k) =
        >>=-eq-ok (draw S p c r now) (λ (x : Str × Session). store_drawn S p c r x.0 x.1) w h in
      rw drawn (
        store_drawn-Made r now w (draw S p c r now w).1 t candidate
          (draw-IsDrawn S p laws c r now w drawn) (draw-KeepsStore S p laws c r now w) k)

  answer-Made :
      (r : Request) (now : Time) (w : World S.Data) (out : Result (Error × Label) (Issued × Label))
      {i : Issued}
      → (issue_admitted S p c r now w).0 ≡ out
      → answer_of S p c out ≡ ok i
      → Made r now w (issue_admitted S p c r now w).1 i
  answer-Made r now w (ok (a, l)) e h =
      subst (Made r now w (issue_admitted S p c r now w).1) (ok-injective h)
        (issue_admitted-Made r now w e)
  answer-Made r now w (err (e, l)) _ h = cc

  settled-Made :
      (r : Request) (now : Time) (w : World S.Data) (o : Option (Error × Label)) {i : Issued}
      → answer_of S p c (settle S p c o (issue_admitted S p c r now) w).0 ≡ ok i
      → Made r now w (settle S p c o (issue_admitted S p c r now) w).1 i
  settled-Made r now w none h = answer-Made r now w _ refl h
  settled-Made r now w (some (e, l)) h = cc

  pub issue-Made :
      (r : Request) (now : Time) (w : World S.Data) {i : Issued}
      → (issue S p c r now w).0 ≡ ok i
      → Made r now w (issue S p c r now w).1 i
  unfolding issue
  issue-Made r now w {i} h =
      let m = settled-Made r now w (admit c r) h in
      record {
        candidate = m.candidate;
        ticket = m.ticket;
        drawn = m.drawn;
        answer = m.answer;
        after = store-notify c _ _ ∙ m.after;
      }
