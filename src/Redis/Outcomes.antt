-- ===== src/Redis/Outcomes.antt =====
-- Why a claim over Redis is answered as it is.
use ani_session_gateway.Prelude.{
  ℕ, zero, suc, ◌≤◌, ◌<◌, ◌≡◌, refl, Bool, true, false, not, ◌||◌, Option, none, some, [], ◌∷◌, Str,
  Bytes, str, is_empty, length, leb, ◌==◌, if◌then◌else◌, if-both, ◌⊎◌, inl, inr, Result, ok, err,
  and_then, Bool-cases, arith,
}
use ani_session_gateway.Prelude.Assoc.{Assoc, lookup}
use ani_session_gateway.Session.Errors.{Error, other}
use ani_session_gateway.Session.Decoding.{hex_decode}
use ani_session_gateway.Redis.Server.{Server}
use ani_session_gateway.Redis.Codec.{
  Json, or_empty, decode, decode_fields, decode32, exactly_32, or_other,
}
use ani_session_gateway.Redis.Scripts.{
  Fault, Reply, integer, ClaimCall, is_text, or_text, ticket_exp, different, unless_late, purged,
  claim_checked, claim_granted, claim_existing, claim_script,
}

either_le : (a b x y : ℕ) → (leb a b || leb x y) ≡ true → (a ≤ b) ⊎ (x ≤ y)
either_le a b x y h = elim (Bool-cases (leb a b)) [
  | inl e ↦ inl (ground arith)
  | inr e ↦ inr (ground arith)
]

module _ (S : Server) (c : ClaimCall) where
  abbrev pub state_is_issued : S.Db → Bool
  state_is_issued d = is_text (S.hget c.key (str "state") d) (str "issued")

  -- What the script found, at the state of the server on which it ran, before it granted a lease.
  pub record IsGrantable (d : S.Db) : Type 0 where
    pub open_still : state_is_issued (purged S c d) ≡ true
    pub expiry : ℕ
    pub kept_expiry : ticket_exp S c.key (purged S c d) ≡ some expiry
    pub in_time : c.now < expiry
    pub right_ticket :
        different (or_text (S.hget c.key (str "ticket_digest") (purged S c d)) []) c.digest ≡ false
    pub room : S.zcard c.all_leases (purged S c d) < c.max_active
    pub subject_room : S.zcard c.subject_leases (purged S c d) < c.max_active_per_subject

  abbrev pub IsWrongTicket : S.Db → Type 0
  IsWrongTicket d =
      different (or_text (S.hget c.key (str "ticket_digest") (purged S c d)) []) c.digest ≡ true

  -- The session is not issued, or its ticket has run out.
  abbrev pub IsOver : S.Db → Type 0
  IsOver d =
      (state_is_issued (purged S c d) ≡ false)
      ⊎ ((expiry : ℕ) × (ticket_exp S c.key (purged S c d) ≡ some expiry) × (expiry ≤ c.now))

  abbrev pub IsFull : S.Db → Type 0
  IsFull d =
      (c.max_active ≤ S.zcard c.all_leases (purged S c d))
      ⊎ (c.max_active_per_subject ≤ S.zcard c.subject_leases (purged S c d))

  -- What each code of the script says.
  abbrev pub Verdict : S.Db → ℕ → Type 0
  Verdict d zero = IsGrantable d
  Verdict d (suc zero) = S.exists c.key d ≡ false
  Verdict d (suc (suc zero)) = IsWrongTicket d
  Verdict d (suc (suc (suc zero))) = IsOver d
  Verdict d (suc (suc (suc (suc zero)))) = IsFull d
  Verdict d (suc (suc (suc (suc (suc n))))) = ⊥

  -- A reply is one code, and says what the code says.
  unfoldable pub Replies : S.Db → Result Fault Reply × S.Db → Type 0
  Replies d x = (reply : Reply) → x.0 ≡ ok reply → (n : ℕ) × (reply ≡ integer n ∷ []) × Verdict d n

  replies : (d d' : S.Db) (n : ℕ) → Verdict d n → Replies d (ok (integer n ∷ []), d')
  unfolding Replies
  replies d d' n v reply e = (n, ground arith, v)

  claim_checked-Replies :
      (d : S.Db) (exp : ℕ)
      → state_is_issued (purged S c d) ≡ true
      → ticket_exp S c.key (purged S c d) ≡ some exp
      → c.now < exp
      → Replies d (claim_checked S c (purged S c d))
  unfolding claim_checked claim_granted
  claim_checked-Replies d exp open_still kept in_time =
      if-both (Replies d)
        (different (or_text (S.hget c.key (str "ticket_digest") (purged S c d)) []) c.digest)
        (λ wrong. replies d _ 2 wrong)
        (λ right.
          if-both (Replies d)
            (leb c.max_active (S.zcard c.all_leases (purged S c d))
              || leb c.max_active_per_subject (S.zcard c.subject_leases (purged S c d)))
            (λ full. replies d _ 4 (either_le _ _ _ _ full))
            (λ room. replies d _ 0 (record {
              open_still = open_still;
              expiry = exp;
              kept_expiry = kept;
              in_time = in_time;
              right_ticket = right;
              room = ground arith;
              subject_room = ground arith;
            })))

  claim_existing-Replies : (d : S.Db) → Replies d (claim_existing S c (purged S c d))
  unfolding claim_existing
  claim_existing-Replies d =
      go (state_is_issued (purged S c d)) (ticket_exp S c.key (purged S c d)) refl refl
    where
      go :
          (b : Bool) (o : Option ℕ)
          → state_is_issued (purged S c d) ≡ b
          → ticket_exp S c.key (purged S c d) ≡ o
          → Replies d
              (unless_late S b o c.key c.now (integer 3 ∷ []) (claim_checked S c) (purged S c d))
      go false o p q = unfold unless_late in replies d _ 3 (inl p)
      go true none p q = unfold unless_late in unfold Replies in λ reply e. cc
      go true (some exp) p q =
          unfold unless_late in
          if-both (Replies d) (leb exp c.now) (λ l. replies d _ 3 (inr (exp, q, ground arith)))
            (λ l. claim_checked-Replies d exp p q (ground arith))

  pub claim_script-Replies : (d : S.Db) → Replies d (claim_script S c d)
  unfolding claim_script
  claim_script-Replies d =
      if-both (Replies d) (not (S.exists c.key d)) (λ e. replies d _ 1 (ground arith))
        (λ e. claim_existing-Replies d)

  -- Past the four refusals only the grant is left.
  pub Verdict-granted :
      (d : S.Db) (n : ℕ)
      → (n == 1) ≡ false
      → (n == 2) ≡ false
      → (n == 3) ≡ false
      → (n == 4) ≡ false
      → Verdict d n
      → IsGrantable d
  Verdict-granted d zero p q r s v = v
  Verdict-granted d (suc zero) p q r s v = cc
  Verdict-granted d (suc (suc zero)) p q r s v = cc
  Verdict-granted d (suc (suc (suc zero))) p q r s v = cc
  Verdict-granted d (suc (suc (suc (suc zero)))) p q r s v = cc
  Verdict-granted d (suc (suc (suc (suc (suc n))))) p q r s v = absurd v

-- `decode` fails by no sentinel.
unfoldable pub IsOther : {A : Type 0} → Result Error A → Type 0
IsOther (ok a) = Unit
IsOther (err e) = e ≡ other

ok-IsOther : {A : Type 0} (a : A) → IsOther (ok a)
unfolding IsOther
ok-IsOther a = tt

and_then-IsOther :
    {A B : Type 0} (r : Result Error A) (k : A → Result Error B)
    → IsOther r
    → ((a : A) → IsOther (k a))
    → IsOther (and_then r k)
unfolding IsOther
and_then-IsOther (ok a) k p q = q a
and_then-IsOther (err e) k p q = p

or_other-IsOther : {A : Type 0} (o : Option A) → IsOther (or_other o)
unfolding IsOther
or_other-IsOther none = refl
or_other-IsOther (some a) = tt

unless_empty-IsOther :
    {A : Type 0} (raw : Str) (initial : A) (o : Option A)
    → IsOther (if is_empty raw then ok initial else or_other o)
unless_empty-IsOther [] initial o = unfold IsOther in tt
unless_empty-IsOther (x ∷ raw) initial o = or_other-IsOther o

decode32-IsOther : (raw : Str) → IsOther (decode32 raw)
unfolding decode32
decode32-IsOther raw = thirty_two (hex_decode raw)
  where
    thirty_two : (o : Option Bytes) → IsOther (exactly_32 o)
    thirty_two none = unfold IsOther in refl
    thirty_two (some bs) =
        if-both IsOther (length bs == 32) (λ _. ok-IsOther bs) (λ _. unfold IsOther in refl)

decode_fields-IsOther : (j : Json) (at : Str → Str) → IsOther (decode_fields j at)
unfolding decode_fields
decode_fields-IsOther j at =
    and_then-IsOther _ _ (unless_empty-IsOther (at (str "vm_binding")) _ _) λ vm.
      and_then-IsOther _ _ (unless_empty-IsOther (at (str "instance_binding")) _ _) λ instance.
        and_then-IsOther _ _ (decode32-IsOther _) λ print.
          and_then-IsOther _ _ (decode32-IsOther _) λ digest.
            and_then-IsOther _ _ (unless_empty-IsOther (at (str "ticket_ciphertext")) _ _)
              λ text. and_then-IsOther _ _ (or_other-IsOther _) λ command. ok-IsOther _

pub decode-IsOther : (j : Json) (fields : Assoc Str) → IsOther (decode j fields)
unfolding decode
decode-IsOther j fields = decode_fields-IsOther j (λ name. or_empty (lookup name fields))
