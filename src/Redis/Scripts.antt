-- ===== src/Redis/Scripts.antt =====
-- The Lua scripts of internal/store/redis/store.go. The server runs a script whole, and what it has
-- written stays when it ends by an error. An argument that is a number travels as its decimal text,
-- and `tonumber` of it is the number.
use ani_session_gateway.Prelude.{
  ℕ, Bool, true, false, not, ◌||◌, Option, none, some, List, [], ◌∷◌, ◌++◌, Str, str, str_eq,
  length, leb, ◌==◌, if◌then◌else◌, ok, err, Op,
}
use ani_session_gateway.Prelude.Assoc.{Assoc}
use ani_session_gateway.Session.Encoding.{decimal}
use ani_session_gateway.Redis.Server.{Server}

-- A script that ends by an error, such as a comparison with `nil`.
pub data Fault : Type 0 where
  fault : Fault

-- What a script returns: a table of integers and strings.
pub data Value : Type 0 where
  integer : ℕ → Value
  bulk : Str → Value

abbrev pub Reply : Type 0
Reply = List Value

-- `a == b` in Lua, where `a` may be missing.
abbrev pub is_text : Option Str → Str → Bool
is_text none t = false
is_text (some s) t = str_eq s t

-- `value or '0'`, and `value or ''`.
abbrev pub or_text : Option Str → Str → Str
or_text none t = t
or_text (some s) t = s

-- The keys of a claim, and its arguments.
pub record ClaimCall : Type 0 where
  pub key : Str
  pub all_leases : Str
  pub subject_leases : Str
  pub idem : Str
  pub now : ℕ
  pub digest : Str
  pub max_active : ℕ
  pub max_active_per_subject : ℕ
  pub expires : ℕ
  pub lease_id : Str
  pub id : Str
  pub until : ℕ

-- The keys of a close, and its arguments.
pub record CloseCall : Type 0 where
  pub key : Str
  pub all_leases : Str
  pub subject_leases : Str
  pub lease_id : Str
  pub reason : Str
  pub now : ℕ
  pub id : Str

-- The fields of a session whose ticket has run out.
abbrev pub expired_fields : ℕ → Assoc Str
expired_fields now =
    (str "state", str "closed")
    ∷ (str "closed_at", decimal now)
    ∷ (str "close_reason", str "ticket_expired")
    ∷ (str "ticket_ciphertext", [])
    ∷ []

-- The loop over the bytes, which looks at all of them.
unfoldable pub differ : Bool → Str → Str → Bool
differ different [] ys = different
differ different (x ∷ xs) [] = different
differ different (x ∷ xs) (y ∷ ys) = differ (if not (x == y) then true else different) xs ys

unfoldable pub different : Str → Str → Bool
unfolding differ
different stored supplied =
    if not (length stored == length supplied) then true else differ false stored supplied

-- The fields of a claimed session.
abbrev pub claimed_fields : ℕ → ℕ → Str → ℕ → Assoc Str
claimed_fields now expires lease_id until =
    (str "state", str "claimed")
    ∷ (str "claimed_at", decimal now)
    ∷ (str "expires_at", decimal expires)
    ∷ (str "lease_id", lease_id)
    ∷ (str "ticket_ciphertext", [])
    ∷ (str "tombstone_expires_at", decimal until)
    ∷ []

-- The fields of a closed session.
abbrev pub closed_fields : ℕ → Str → Assoc Str
closed_fields now reason =
    (str "state", str "closed")
    ∷ (str "closed_at", decimal now)
    ∷ (str "close_reason", reason)
    ∷ (str "ticket_ciphertext", [])
    ∷ []

module _ (S : Server) where
  -- One HSET of several fields writes them in turn.
  unfoldable pub hset_all : Str → Assoc Str → S.Db → S.Db
  hset_all k [] d = d
  hset_all k ((f, v) ∷ rest) d = hset_all k rest (S.hset k f v d)

  abbrev pub ticket_exp : Str → S.Db → Option ℕ
  ticket_exp k d = S.to_number (or_text (S.hget k (str "ticket_expires_at") d) (str "0"))

  -- `state ~= 'issued' or now >= ticket_exp`: the answer of `refuse`, after the session is closed if
  -- it was issued, or else what `go_on` does.
  unfoldable pub unless_late :
      Bool → Option ℕ → Str → ℕ → Reply → Op Fault S.Db Reply → Op Fault S.Db Reply
  unfolding hset_all
  unless_late false exp k now refuse go_on d = (ok refuse, d)
  unless_late true none k now refuse go_on d = (err fault, d)
  unless_late true (some exp) k now refuse go_on d =
      if leb exp now then (ok refuse, hset_all k (expired_fields now) d) else go_on d

  unfoldable pub replay_script : Option Str → Str → Str → Str → ℕ → Op Fault S.Db Reply
  unfolding unless_late
  replay_script none sid existing print now d = (ok (integer 3 ∷ bulk sid ∷ []), d)
  replay_script (some fp) sid existing print now d =
      if not (str_eq fp print)
      then (ok (integer 2 ∷ bulk sid ∷ []), d)
      else unless_late (is_text (S.hget existing (str "state") d) (str "issued"))
          (ticket_exp existing d) existing now (integer 3 ∷ bulk sid ∷ [])
          (λ e. (ok (integer 1 ∷ bulk sid ∷ []), e)) d

  unfoldable pub create_at :
      Option Str → Str → Str → Str → ℕ → Str → Str → Assoc Str → ℕ → Op Fault S.Db Reply
  unfolding replay_script hset_all
  create_at (some sid) idem key prefix now print id fields until d =
      replay_script (S.hget (prefix ++ sid) (str "fingerprint") d) sid (prefix ++ sid) print now d
  create_at none idem key prefix now print id fields until d = (
    ok (integer 0 ∷ bulk id ∷ []),
    S.set_pxat idem id until (S.pexpireat key until (hset_all key fields d)),
  )

  -- The keys of the request and of the session, then the arguments.
  unfoldable pub create_script :
      Str → Str → Str → ℕ → Str → Str → Assoc Str → ℕ → Op Fault S.Db Reply
  unfolding create_at
  create_script idem key prefix now print id fields until d =
      create_at (S.get idem d) idem key prefix now print id fields until d

  unfoldable pub claim_granted : ClaimCall → Op Fault S.Db Reply
  unfolding hset_all
  claim_granted c d =
      let written = hset_all c.key (claimed_fields c.now c.expires c.lease_id c.until) d in
      let kept = S.pexpireat c.idem c.until (S.pexpireat c.key c.until written) in
      (
        ok (integer 0 ∷ []),
        S.zadd c.subject_leases c.expires c.id (S.zadd c.all_leases c.expires c.id kept),
      )

  unfoldable pub claim_checked : ClaimCall → Op Fault S.Db Reply
  unfolding different claim_granted
  claim_checked c d =
      if different (or_text (S.hget c.key (str "ticket_digest") d) []) c.digest
      then (ok (integer 2 ∷ []), d)
      else if leb c.max_active (S.zcard c.all_leases d)
          || leb c.max_active_per_subject (S.zcard c.subject_leases d)
      then (ok (integer 4 ∷ []), d)
      else claim_granted c d

  -- The leases that have run out leave both sets first.
  abbrev pub purged : ClaimCall → S.Db → S.Db
  purged c d = S.zremrangebyscore c.subject_leases c.now (S.zremrangebyscore c.all_leases c.now d)

  unfoldable pub claim_existing : ClaimCall → Op Fault S.Db Reply
  unfolding unless_late claim_checked
  claim_existing c d =
      unless_late (is_text (S.hget c.key (str "state") d) (str "issued")) (ticket_exp c.key d) c.key
        c.now (integer 3 ∷ []) (claim_checked c) d

  unfoldable pub claim_script : ClaimCall → Op Fault S.Db Reply
  unfolding claim_existing
  claim_script c d =
      if not (S.exists c.key d) then (ok (integer 1 ∷ []), d) else claim_existing c (purged c d)

  unfoldable pub close_script : CloseCall → Op Fault S.Db Reply
  unfolding hset_all
  close_script c d =
      if not (S.exists c.key d)
      then (ok (integer 1 ∷ []), d)
      else if is_text (S.hget c.key (str "state") d) (str "closed")
      then (ok (integer 0 ∷ []), d)
      else if not (is_text (S.hget c.key (str "state") d) (str "claimed"))
          || not (is_text (S.hget c.key (str "lease_id") d) c.lease_id)
      then (ok (integer 2 ∷ []), d)
      else (
        ok (integer 0 ∷ []),
        hset_all c.key (closed_fields c.now c.reason)
            (S.zrem c.subject_leases c.id (S.zrem c.all_leases c.id d)),
      )
