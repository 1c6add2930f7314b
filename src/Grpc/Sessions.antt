-- ===== src/Grpc/Sessions.antt =====
-- Who may do what through the gRPC calls.
use ani_session_gateway.Prelude.{
  ℕ, ◌⊎◌, ◌≡◌, refl, sym, ap, ◌∙◌, subst, inl, inr, Bool, true, false, not, ◌&&◌, if-both, Option,
  none, some, Result, ok, err, ok-injective, arith,
}
use ani_session_gateway.Session.Model.{
  Time, Request, Session, Issued, InstanceBinding, VmBinding, WorkloadKind,
}
use ani_session_gateway.Session.Errors.{Error}
use ani_session_gateway.Session.Contract.{SessionStore, StoreLaws}
use ani_session_gateway.Manager.Config.{Primitives, PrimitiveLaws, ManagerConfig}
use ani_session_gateway.Manager.Calls.{World}
use ani_session_gateway.Manager.Issue.{IsDrawn, issue-IsIssue}
use ani_session_gateway.Manager.Replays.{IsReplayed}
use ani_session_gateway.Grpc.Messages.{
  CreateSessionRequest, Principal, TargetMessage, InstanceBindingMessage, VmBindingMessage,
  GetSessionReplayRequest, ModeMessage, ExecMessage, VmConsoleMessage,
}
use ani_session_gateway.Session.Model.{Mode}
use ani_session_gateway.Grpc.Requests.{
  map_request, with_target, with_kind, with_mode, with_console, sized, base_request,
  instance_binding_of, vm_binding_of,
}
use ani_session_gateway.Grpc.{
  Code, TlsInfo, Response, answer, is_present, has_binding, is_managed, authenticated_governance,
  issue_mapped, create_session, replay_request,
}

-- What a request keeps of its message.
pub record IsMapped (principal : Principal) (target : TargetMessage) (r : Request) : Type 0 where
  pub tenant : r.tenant_id ≡ principal.tenant_id
  pub subject : r.subject_id ≡ principal.subject_id
  pub instance_id : r.instance_id ≡ target.instance_id
  pub instance_binding : r.instance_binding ≡ instance_binding_of target.instance_binding
  pub vm_binding : r.vm_binding ≡ vm_binding_of target.vm_binding

some_injective : {a b : Request} → ◌≡◌ {A = Option Request} (some a) (some b) → a ≡ b
some_injective h = cc

module _ (principal : Principal) (target : TargetMessage) where
  moded-IsMapped :
      (base r : Request)
      → IsMapped principal target base
      → r.tenant_id ≡ base.tenant_id
      → r.subject_id ≡ base.subject_id
      → r.instance_id ≡ base.instance_id
      → r.instance_binding ≡ base.instance_binding
      → r.vm_binding ≡ base.vm_binding
      → IsMapped principal target r
  moded-IsMapped base r b tenant subject instance_id instance_binding vm_binding = record {
    tenant = tenant ∙ b.tenant;
    subject = subject ∙ b.subject;
    instance_id = instance_id ∙ b.instance_id;
    instance_binding = instance_binding ∙ b.instance_binding;
    vm_binding = vm_binding ∙ b.vm_binding;
  }

  sized-IsMapped :
      (m : ExecMessage) (rows cols : Option ℕ) (base : Request) {r : Request}
      → IsMapped principal target base
      → sized m rows cols base ≡ some r
      → IsMapped principal target r
  sized-IsMapped m none cols base b h = cc
  sized-IsMapped m (some rows) none base b h = cc
  sized-IsMapped m (some rows) (some cols) base b h =
      subst (IsMapped principal target) (some_injective h)
        (moded-IsMapped base _ b refl refl refl refl refl)

  console-IsMapped :
      (m : VmConsoleMessage) (mode : Option Mode) (base : Request) {r : Request}
      → IsMapped principal target base
      → with_console m mode base ≡ some r
      → IsMapped principal target r
  console-IsMapped m none base b h = cc
  console-IsMapped m (some mode) base b h =
      subst (IsMapped principal target) (some_injective h)
        (moded-IsMapped base _ b refl refl refl refl refl)

  mode-IsMapped :
      (m : ModeMessage) (base : Request) {r : Request}
      → IsMapped principal target base
      → with_mode m base ≡ some r
      → IsMapped principal target r
  unfolding with_mode
  mode-IsMapped ModeMessage.unset base b h = cc
  mode-IsMapped (ModeMessage.exec none) base b h = cc
  mode-IsMapped (ModeMessage.exec (some m)) base b h = sized-IsMapped m _ _ base b h
  mode-IsMapped (ModeMessage.vm_console none) base b h = cc
  mode-IsMapped (ModeMessage.vm_console (some m)) base b h = console-IsMapped m _ base b h

  kind-IsMapped :
      (request : CreateSessionRequest) (kind : Option WorkloadKind) {r : Request}
      → with_kind request principal target kind ≡ some r
      → IsMapped principal target r
  kind-IsMapped request none h = cc
  kind-IsMapped request (some kind) h =
      mode-IsMapped request.mode (base_request request principal target kind)
        (record {
          tenant = refl;
          subject = refl;
          instance_id = refl;
          instance_binding = refl;
          vm_binding = refl;
        })
        h

target-IsMapped :
    (request : CreateSessionRequest) (principal : Option Principal) (target : Option TargetMessage)
    {r : Request}
    → with_target request principal target ≡ some r
    → (p : Principal) × (t : TargetMessage) × (principal ≡ some p)
      × (target ≡ some t)
      × IsMapped p t r
target-IsMapped request none target h = cc
target-IsMapped request (some p) none h = cc
target-IsMapped request (some p) (some t) h = (p, t, refl, refl, kind-IsMapped p t request _ h)

pub map_request-IsMapped :
    (request : CreateSessionRequest) {r : Request}
    → map_request (some request) ≡ some r
    → (p : Principal) × (t : TargetMessage) × (request.principal ≡ some p)
      × (request.target ≡ some t)
      × IsMapped p t r
unfolding map_request
map_request-IsMapped request h = target-IsMapped request request.principal request.target h

bound_instance :
    (o : Option InstanceBindingMessage)
    → (instance_binding_of o).enabled ≡ true
    → is_present o ≡ true
bound_instance none h = cc
bound_instance (some b) h = refl

bound_vm : (o : Option VmBindingMessage) → (vm_binding_of o).enabled ≡ true → is_present o ≡ true
bound_vm none h = cc
bound_vm (some b) h = refl

module _ (S : SessionStore) (p : Primitives) (laws : PrimitiveLaws p) (c : ManagerConfig)
    (keeps : StoreLaws S) where
  answered : (r : Result Error Issued) {a : Response} → answer r ≡ ok a → r ≡ ok a.issued
  answered (ok i) h = ap ok (ap (λ (x : Response). x.issued) (ok-injective h))
  answered (err e) h = cc

  present :
      (t : TargetMessage) (r : Request) (p' : Principal)
      → IsMapped p' t r
      → (r.instance_binding.enabled ≡ true) ⊎ (r.vm_binding.enabled ≡ true)
      → has_binding (some t) ≡ true
  present t r p' m (inl b) =
      let bound =
        bound_instance t.instance_binding
          (ap (λ (x : InstanceBinding). x.enabled) (sym m.instance_binding) ∙ b) in
      ground (arith, bound)
  present t r p' m (inr b) =
      let bound =
        bound_vm t.vm_binding (ap (λ (x : VmBinding). x.enabled) (sym m.vm_binding) ∙ b) in
      ground (arith, bound)

  mapped-managed :
      (request : Option CreateSessionRequest) (r : Request)
      → map_request request ≡ some r
      → (r.instance_binding.enabled ≡ true) ⊎ (r.vm_binding.enabled ≡ true)
      → is_managed request ≡ true
  unfolding map_request
  mapped-managed none r h bound = cc
  mapped-managed (some request) r h bound =
      let (p', t, _, at, m) = map_request-IsMapped request h in
      subst (λ o. has_binding o ≡ true) (sym at) (present t r p' m bound)

  bound_request :
      (r : Request) (now : Time) (i : Issued)
      → IsDrawn S p laws c r now i.ticket i.session
      → (i.session.instance_binding.enabled ≡ true) ⊎ (i.session.vm_binding.enabled ≡ true)
      → (r.instance_binding.enabled ≡ true) ⊎ (r.vm_binding.enabled ≡ true)
  bound_request r now i d (inl b) =
      inl (ap (λ (x : Session). x.instance_binding.enabled) (sym d.fields) ∙ b)
  bound_request r now i d (inr b) =
      inr (ap (λ (x : Session). x.vm_binding.enabled) (sym d.fields) ∙ b)

  issued-managed :
      (request : Option CreateSessionRequest) (o : Option Request) (now : Time) (w : World S.Data)
      {a : Response}
      → map_request request ≡ o
      → keeps.Inv w.store
      → (issue_mapped S p c o now w).0 ≡ ok a
      → a.issued.replayed ≡ false
      → (a.issued.session.instance_binding.enabled ≡ true)
        ⊎ (a.issued.session.vm_binding.enabled ≡ true)
      → is_managed request ≡ true
  issued-managed request none now w e inv h new bound = cc
  issued-managed request (some r) now w {a} e inv h new bound =
      let (_, good) = issue-IsIssue S p laws c keeps r now w inv (answered _ h) in
      mapped-managed request r e (bound_request r now a.issued (good.fresh new) bound)

  trusted : (m g : Bool) → (m && not g) ≡ false → m ≡ true → g ≡ true
  trusted m g h e = ground arith

  -- Over a store that keeps its laws, a new session that is bound to a Resource instance or virtual
  -- machine is created only for a peer that has proved by TLS to be the Governance service.
  pub create_session-authenticated :
      (peer : Option TlsInfo) (request : Option CreateSessionRequest) (now : Time)
      (w : World S.Data) {a : Response}
      → keeps.Inv w.store
      → (create_session S p c peer request now w).0 ≡ ok a
      → a.issued.replayed ≡ false
      → (a.issued.session.instance_binding.enabled ≡ true)
        ⊎ (a.issued.session.vm_binding.enabled ≡ true)
      → authenticated_governance peer ≡ true
  unfolding create_session
  create_session-authenticated peer request now w {a} inv h new bound =
      if-both
        (λ (x : Result Code Response × World S.Data).
          x.0 ≡ ok a → authenticated_governance peer ≡ true)
        (is_managed request && not (authenticated_governance peer)) (λ _ k. cc)
        (λ open_to k.
          trusted (is_managed request) (authenticated_governance peer) open_to
            (issued-managed request _ now w refl inv k new bound))
        h

  -- The principal for whom a session is handed out again.
  pub record IsFor (request : GetSessionReplayRequest) (now later : Time) (a : Response)
      : Type 0 where
    pub principal : Principal
    pub named : request.principal ≡ some principal
    pub replayed : IsReplayed S p c (replay_request S p c request principal) now later a.issued
