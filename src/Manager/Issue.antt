-- ===== src/Manager/Issue.antt =====
-- What `Issue` promises, over any store that keeps its laws.
use ani_session_gateway.Prelude.{
  ℕ, ◌≡◌, refl, ap, ◌∙◌, inl, inr, Bool, true, false, Bool-cases, Option, none, some, ◌++◌, Str,
  Bytes, length, take, length-append, take-append, drop-append, length-take, leb, Result, ok, err,
  Op, ◌>>=◌, continue, pure, ok-injective, >>=-eq-ok, subst, arith,
}
use ani_session_gateway.Session.Errors.{Error, other}
use ani_session_gateway.Session.Model.{Time, Request, Session, Issued, issued}
use ani_session_gateway.Session.Contract.{SessionStore, StoreLaws, IsReplay}
use ani_session_gateway.Session.Encoding.{base64_url}
use ani_session_gateway.Session.Fingerprint.{fingerprint}
use ani_session_gateway.Manager.Config.{
  Primitives, PrimitiveLaws, ManagerConfig, Label, failed, admit, candidate_of,
}
use ani_session_gateway.Manager.Calls.{
  World, settle, answer_of, opened, answered, read_full, encrypt, decrypt, random_id, draw, draw_id,
  draw_from, store_drawn, hand_out, issue_admitted, issue,
}

abbrev pub KeepsStore : {E D A : Type 0} → Op E (World D) A → Type 0
KeepsStore m = (w : World _) → (m w).1.store ≡ w.store

continue-KeepsStore :
    {E D A B : Type 0} (a : Result E A) (f : A → Op E (World D) B) (v : World D)
    → ((a : A) → KeepsStore (f a))
    → (continue a f v).1.store ≡ v.store
continue-KeepsStore (ok a) f v k = k a v
continue-KeepsStore (err e) f v k = refl

bind-KeepsStore :
    {E D A B : Type 0} (m : Op E (World D) A) (f : A → Op E (World D) B)
    → KeepsStore m
    → ((a : A) → KeepsStore (f a))
    → KeepsStore (m >>= f)
bind-KeepsStore m f km kf w = continue-KeepsStore (m w).0 f (m w).1 kf ∙ km w

module _ (S : SessionStore) (p : Primitives) (laws : PrimitiveLaws p) (c : ManagerConfig) where
  decrypt-append :
      (nonce text : Bytes)
      → length nonce ≡ p.nonce_size
      → decrypt S p c (nonce ++ p.seal nonce text) ≡ some text
  unfolding decrypt
  decrypt-append nonce text size =
      rw (length-append nonce (p.seal nonce text), ← size)
        (rw (take-append nonce (p.seal nonce text), drop-append nonce (p.seal nonce text))
          (ground (arith, laws.opens nonce text size)))

  -- What `encrypt` makes, `decrypt` reads back.
  pub decrypt-encrypt :
      (text : Bytes) (w : World S.Data) {sealed : Bytes}
      → (encrypt S p c text w).0 ≡ ok sealed
      → decrypt S p c sealed ≡ some text
  unfolding encrypt
  decrypt-encrypt text w {sealed} h = elim (Bool-cases (leb p.nonce_size (length w.random))) [
    | inl room ↦
        let e : take p.nonce_size w.random ++ p.seal (take p.nonce_size w.random) text ≡ sealed =
          ground arith in
        subst (λ x. decrypt S p c x ≡ some text) e
          (decrypt-append (take p.nonce_size w.random) text
            (length-take p.nonce_size w.random (ground arith)))
    | inr short ↦ ground arith
  ]

  -- A drawn candidate carries the request, the digest of its ticket, and the ticket under the cipher.
  pub record IsDrawn (r : Request) (now : Time) (ticket : Str) (candidate : Session) : Type 0 where
    pub fields :
        candidate
        ≡ candidate_of c r now candidate.id
            (fingerprint p.sha256 r)
            (p.sha256 ticket)
            candidate.ticket_ciphertext
    pub opens : decrypt S p c candidate.ticket_ciphertext ≡ some ticket

  draw_id-IsDrawn :
      (r : Request) (now : Time) (t : Str) (sealed : Bytes) (w : World S.Data) {ticket : Str}
      {candidate : Session}
      → decrypt S p c sealed ≡ some t
      → (draw_id S p c r now t sealed w).0 ≡ ok (ticket, candidate)
      → IsDrawn r now ticket candidate
  unfolding draw_id
  draw_id-IsDrawn r now t sealed w {ticket} {candidate} o h =
      let (id, _, k) =
        >>=-eq-ok (random_id S p c)
          (λ id. pure (t, candidate_of c r now id (fingerprint p.sha256 r) (p.sha256 t) sealed)) w
          h in
      subst (λ (x : Str × Session). IsDrawn r now x.0 x.1) (ok-injective k)
        (record { fields = refl; opens = o })

  draw_from-IsDrawn :
      (r : Request) (now : Time) (raw : Bytes) (w : World S.Data) {ticket : Str}
      {candidate : Session}
      → (draw_from S p c r now raw w).0 ≡ ok (ticket, candidate)
      → IsDrawn r now ticket candidate
  unfolding draw_from
  draw_from-IsDrawn r now raw w h =
      let t = base64_url raw in
      let (sealed, e, k) = >>=-eq-ok (encrypt S p c t) (draw_id S p c r now t) w h in
      draw_id-IsDrawn r now t sealed _ (decrypt-encrypt t w e) k

  pub draw-IsDrawn :
      (r : Request) (now : Time) (w : World S.Data) {ticket : Str} {candidate : Session}
      → (draw S p c r now w).0 ≡ ok (ticket, candidate)
      → IsDrawn r now ticket candidate
  unfolding draw
  draw-IsDrawn r now w h =
      let (raw, _, k) = >>=-eq-ok (read_full (other, failed) 32) (draw_from S p c r now) w h in
      draw_from-IsDrawn r now raw _ k

  -- What a successful `Issue` hands out.
  pub record IsIssue (r : Request) (now : Time) (i : Issued) : Type 0 where
    pub keyed : i.session.idempotency_key ≡ r.idempotency_key
    pub intent : i.session.request_fingerprint ≡ fingerprint p.sha256 r
    pub claimable : i.session.state ≡ issued
    pub opens : decrypt S p c i.session.ticket_ciphertext ≡ some i.ticket
    pub fresh : i.replayed ≡ false → IsDrawn r now i.ticket i.session

  fresh-IsIssue :
      (r : Request) (now : Time) (t : Str) (candidate stored : Session) {i : Issued} {l : Label}
      → IsDrawn r now t candidate
      → stored ≡ candidate
      → hand_out S p c t stored false ≡ ok (i, l)
      → IsIssue r now i
  unfolding hand_out
  fresh-IsIssue r now t candidate stored d e h =
      subst (λ (x : Issued × Label). IsIssue r now x.0) (ok-injective h)
        (record {
          keyed = rw e (ap (λ (x : Session). x.idempotency_key) d.fields);
          intent = rw e (ap (λ (x : Session). x.request_fingerprint) d.fields);
          claimable = rw e (ap (λ (x : Session). x.state) d.fields);
          opens = rw e d.opens;
          fresh = λ _. rw e d;
        })

  opened-IsIssue :
      (r : Request) (now : Time) (t : Str) (candidate stored : Session) (o : Option Bytes)
      {i : Issued} {l : Label}
      → IsDrawn r now t candidate
      → IsReplay r.idempotency_key candidate stored
      → decrypt S p c stored.ticket_ciphertext ≡ o
      → opened S p c stored o ≡ ok (i, l)
      → IsIssue r now i
  opened-IsIssue r now t candidate stored none d e o h = cc
  opened-IsIssue r now t candidate stored (some text) d e o h =
      subst (λ (x : Issued × Label). IsIssue r now x.0) (ok-injective h)
        (record {
          keyed = e.same_key;
          intent = e.same_fingerprint ∙ ap (λ (x : Session). x.request_fingerprint) d.fields;
          claimable = e.still_issued;
          opens = o;
          fresh = λ k. cc;
        })

  answered-IsIssue :
      (r : Request) (now : Time) (t : Str) (candidate : Session)
      (answer : Result Error (Session × Bool)) {i : Issued} {l : Label}
      → IsDrawn r now t candidate
      → ((st : Session) → answer ≡ ok (st, false) → st ≡ candidate)
      → ((st : Session) → answer ≡ ok (st, true) → IsReplay r.idempotency_key candidate st)
      → answered S p c t answer ≡ ok (i, l)
      → IsIssue r now i
  answered-IsIssue r now t candidate (err e) d new old h = cc
  answered-IsIssue r now t candidate (ok (st, false)) d new old h =
      fresh-IsIssue r now t candidate st d (new st refl) h
  answered-IsIssue r now t candidate (ok (st, true)) {i} {l} d new old h =
      opened-IsIssue r now t candidate st _ {i = i} {l = l} d (old st refl) refl
        (unfold hand_out in h)

  read-KeepsStore :
      (n : ℕ)
      → KeepsStore {E = Error × Label} {D = S.Data} {A = Bytes} (read_full (other, failed) n)
  unfolding read_full
  read-KeepsStore n w = ground arith

  -- Drawing a ticket and a candidate leaves the store alone.
  pub draw-KeepsStore : (r : Request) (now : Time) → KeepsStore (draw S p c r now)
  unfolding draw draw_from draw_id encrypt random_id
  draw-KeepsStore r now =
      bind-KeepsStore (read_full (other, failed) 32) (draw_from S p c r now) (read-KeepsStore 32)
        λ raw.
          bind-KeepsStore (encrypt S p c (base64_url raw)) (draw_id S p c r now (base64_url raw))
            (bind-KeepsStore (read_full (other, failed) p.nonce_size) _
              (read-KeepsStore p.nonce_size) (λ n w. refl))
            λ sealed.
              bind-KeepsStore (random_id S p c) _
                (bind-KeepsStore (read_full (other, failed) 16) _ (read-KeepsStore 16)
                  (λ n w. refl))
                (λ id w. refl)

  module _ (keeps : StoreLaws S) where
    issue_admitted-IsIssue :
        (r : Request) (now : Time) (w : World S.Data) {i : Issued} {l : Label}
        → keeps.Inv w.store
        → (issue_admitted S p c r now w).0 ≡ ok (i, l)
        → IsIssue r now i
    unfolding issue_admitted store_drawn
    issue_admitted-IsIssue r now w {i} {l} inv h =
        let ((t, candidate), drawn, k) =
          >>=-eq-ok (draw S p c r now) (λ (x : Str × Session). store_drawn S p c r x.0 x.1) w h in
        let inv' : keeps.Inv (draw S p c r now w).1.store = rw (draw-KeepsStore r now w) inv in
        answered-IsIssue r now t candidate _ (draw-IsDrawn r now w drawn)
          (λ st e. keeps.created r.idempotency_key candidate st _ inv' e)
          (λ st e. keeps.replayed r.idempotency_key candidate st _ inv' e) k

    settled-IsIssue :
        (r : Request) (now : Time) (w : World S.Data) (o : Option (Error × Label)) {i : Issued}
        → keeps.Inv w.store
        → answer_of S p c (settle S p c o (issue_admitted S p c r now) w).0 ≡ ok i
        → (o ≡ none) × IsIssue r now i
    settled-IsIssue r now w none {i} inv h = (refl, answer_IsIssue _ refl h)
      where
        answer_IsIssue :
            (out : Result (Error × Label) (Issued × Label))
            → (issue_admitted S p c r now w).0 ≡ out
            → answer_of S p c out ≡ ok i
            → IsIssue r now i
        answer_IsIssue (ok (a, l)) e k =
            subst (IsIssue r now) (ok-injective k) (issue_admitted-IsIssue r now w inv e)
        answer_IsIssue (err (e, l)) _ k = cc
    settled-IsIssue r now w (some (e, l)) inv h = cc

    -- Over a store that keeps its laws, a request that `Issue` answers with success was admitted. What
    -- it hands out is an issued session with the request's key and fingerprint, and the ticket that
    -- the session's ciphertext holds. If the session is new its other fields come from the request.
    pub issue-IsIssue :
        (r : Request) (now : Time) (w : World S.Data) {i : Issued}
        → keeps.Inv w.store
        → (issue S p c r now w).0 ≡ ok i
        → (admit c r ≡ none) × IsIssue r now i
    unfolding issue
    issue-IsIssue r now w inv h = settled-IsIssue r now w (admit c r) inv h
