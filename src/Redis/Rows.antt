-- ===== src/Redis/Rows.antt =====
-- What the commands do to the hash of a session, and what `load` finds there.
use mathlib.Core.Path.{fun_ext}
use ani_session_gateway.Prelude.{
  ◌≡◌, refl, sym, subst, ap, ◌∙◌, Bool, true, false, not, Option, some, [], ◌∷◌, Str, Bytes, str,
  str_eq, str_eq_iff, str_eq_refl, is_empty, length, All, ltb, leb, ◌==◌, Op, ok, arith, Bool-cases,
  inl, inr,
}
use ani_session_gateway.Prelude.Assoc.{Assoc, lookup}
use ani_session_gateway.Session.Model.{
  Time, State, unset, issued, claimed, closed, is_issued, is_claimed, is_closed, Session,
}
use ani_session_gateway.Session.Encoding.{decimal, hex}
use ani_session_gateway.Session.Reads.{IsByte, hex_decode-hex}
use ani_session_gateway.Redis.Server.{Server, ServerLaws, row, field_set}
use ani_session_gateway.Redis.Codec.{Json, unix_milli, millis, state_str, decode}
use ani_session_gateway.Redis.Stored.{Holds, IsStorable, in_millis, whole, decode_fields-Holds}
use ani_session_gateway.Redis.Scripts.{
  Fault, Reply, is_text, or_text, ticket_exp, expired_fields, unless_late, hset_all, differ,
  different,
}
use ani_session_gateway.Redis.Operations.{World, call, loaded, load, session_key}

-- A world in which no other client acts and every call arrives.
abbrev pub calm : {Db : Type 0} → Db → World Db
calm d = record { db = d; deliveries = [] }

abbrev pub set_all : Assoc Str → (Str → Option Str) → Str → Option Str
set_all [] r = r
set_all ((f, v) ∷ rest) r = set_all rest (field_set f v r)

pub millis-eq-decimal : (t : Time) → millis t ≡ decimal (unix_milli t)
unfolding millis
millis-eq-decimal t = elim (Bool-cases (t == 0)) [
  | inl z ↦ rw z (let e : unix_milli t ≡ 0 = ground arith in rw e (unfold decimal in refl))
  | inr p ↦ rw p refl
]

is_text-issued : (s : State) → is_text (some (state_str s)) (str "issued") ≡ is_issued s
unfolding str_eq
is_text-issued unset = refl
is_text-issued issued = refl
is_text-issued claimed = refl
is_text-issued closed = refl

is_text-claimed : (s : State) → is_text (some (state_str s)) (str "claimed") ≡ is_claimed s
unfolding str_eq
is_text-claimed unset = refl
is_text-claimed issued = refl
is_text-claimed claimed = refl
is_text-claimed closed = refl

is_text-closed : (s : State) → is_text (some (state_str s)) (str "closed") ≡ is_closed s
unfolding str_eq
is_text-closed unset = refl
is_text-closed issued = refl
is_text-closed claimed = refl
is_text-closed closed = refl

differ-true : (xs ys : Str) → differ true xs ys ≡ true
unfolding differ
differ-true [] ys = refl
differ-true (x ∷ xs) [] = refl
differ-true (x ∷ xs) (y ∷ ys) = ground (arith, differ-true xs ys)

differ-false : (xs ys : Str) → length xs ≡ length ys → differ false xs ys ≡ not (str_eq xs ys)
unfolding differ str_eq
differ-false [] [] h = refl
differ-false [] (y ∷ ys) h = absurd (omega arith)
differ-false (x ∷ xs) [] h = absurd (omega arith)
differ-false (x ∷ xs) (y ∷ ys) h = ground (arith, differ-false xs ys, differ-true xs ys)

-- The comparison of the script looks at every byte, and tells equal texts from others.
pub different-eq : (xs ys : Str) → different xs ys ≡ not (str_eq xs ys)
unfolding different
different-eq xs ys = elim (Bool-cases (length xs == length ys)) [
  | inl e ↦ rw e (differ-false xs ys (ground arith))
  | inr n ↦ rw n (ground (arith, str_eq_iff xs ys, lengths xs ys))
]
  where
    lengths : (xs ys : Str) → xs ≡ ys → length xs ≡ length ys
    lengths xs ys e = ap length e

-- Hexadecimal texts are equal exactly if the bytes are.
pub str_eq-hex :
    (xs ys : Bytes) → All IsByte xs → All IsByte ys → str_eq (hex xs) (hex ys) ≡ str_eq xs ys
str_eq-hex xs ys p q = ground (
  arith,
  str_eq_iff (hex xs) (hex ys),
  str_eq_iff xs ys,
  hex_decode-hex xs p,
  hex_decode-hex ys q,
)

-- The script's test on milliseconds is the test on times, for a time in whole milliseconds.
late-eq :
    (now exp : Time) → whole exp ≡ exp → leb (unix_milli exp) (unix_milli now) ≡ not (ltb now exp)
late-eq now exp h = ground arith

module _ (S : Server) (L : ServerLaws S) (k : Str) where
  row-hset : (g v : Str) (d : S.Db) → row S k (S.hset k g v d) ≡ field_set g v (row S k d)
  row-hset g v d = fun_ext λ f. L.hget-hset k k g v f d ∙ (rw (str_eq_refl k) refl)

  pub row-hset_all :
      (fields : Assoc Str) (d : S.Db) → row S k (hset_all S k fields d) ≡ set_all fields (row S k d)
  unfolding hset_all
  row-hset_all [] d = refl
  row-hset_all ((g, v) ∷ rest) d =
      row-hset_all rest (S.hset k g v d) ∙ ap (set_all rest) (row-hset g v d)

  pub time-hset_all : (fields : Assoc Str) (d : S.Db) → L.time (hset_all S k fields d) ≡ L.time d
  unfolding hset_all
  time-hset_all [] d = refl
  time-hset_all ((g, v) ∷ rest) d = time-hset_all rest (S.hset k g v d) ∙ L.time-hset k g v d

-- What the scripts read of the hash of a session.
module _ (S : Server) (L : ServerLaws S) (j : Json) (k : Str) (d : S.Db) (s : Session)
    (h : Holds j (row S k d) s) where
  pub ticket_exp-Holds : ticket_exp S k d ≡ some (unix_milli s.ticket_expires_at)
  ticket_exp-Holds =
      ap (λ o. S.to_number (or_text o (str "0"))) h.ticket_expires_at
      ∙ (ap S.to_number (millis-eq-decimal s.ticket_expires_at)
          ∙ L.to_number-decimal (unix_milli s.ticket_expires_at))

  pub issued_field : is_text (S.hget k (str "state") d) (str "issued") ≡ is_issued s.state
  issued_field = ap (λ o. is_text o (str "issued")) h.state ∙ is_text-issued s.state

  pub claimed_field : is_text (S.hget k (str "state") d) (str "claimed") ≡ is_claimed s.state
  claimed_field = ap (λ o. is_text o (str "claimed")) h.state ∙ is_text-claimed s.state

  pub closed_field : is_text (S.hget k (str "state") d) (str "closed") ≡ is_closed s.state
  closed_field = ap (λ o. is_text o (str "closed")) h.state ∙ is_text-closed s.state

-- The three ways through the test on the state and the expiry of the ticket.
module _ (S : Server) {b : Bool} (exp now : Time) (k : Str) (refuse : Reply)
    (go_on : Op Fault S.Db Reply) (d : S.Db) where
  pub unless_late_closed :
      b ≡ false
      → unless_late S b (some (unix_milli exp)) k (unix_milli now) refuse go_on d ≡ (ok refuse, d)
  unfolding unless_late
  unless_late_closed e = rw e refl

  module _ (whole_exp : whole exp ≡ exp) (issued_still : b ≡ true) where
    pub unless_late_late :
        ltb now exp ≡ false
        → unless_late S b (some (unix_milli exp)) k (unix_milli now) refuse go_on d
          ≡ (ok refuse, hset_all S k (expired_fields (unix_milli now)) d)
    unfolding unless_late
    unless_late_late l = rw (issued_still, late-eq now exp whole_exp, l) refl

    pub unless_late_in_time :
        ltb now exp ≡ true
        → unless_late S b (some (unix_milli exp)) k (unix_milli now) refuse go_on d ≡ go_on d
    unfolding unless_late
    unless_late_in_time l = rw (issued_still, late-eq now exp whole_exp, l) refl

not_empty : {V : Type 0} (f : Str) (m : Assoc V) {v : V} → lookup f m ≡ some v → is_empty m ≡ false
unfolding lookup
not_empty f [] h = cc
not_empty f (e ∷ m) h = refl

module _ (S : Server) (L : ServerLaws S) (j : Json) where
  pub load-Holds :
      (id : Str) (s : Session) (d : S.Db)
      → IsStorable j s
      → Holds j (row S (session_key id) d) s
      → load S j id (calm d) ≡ (ok (in_millis s), calm d)
  unfolding load call loaded decode
  load-Holds id s d v h =
      let e : row S (session_key id) d ≡ (λ f. lookup f (S.hgetall (session_key id) d)) =
        fun_ext λ f. sym (L.lookup-hgetall (session_key id) f d) in
      let h' = subst (λ r. Holds j r s) e h in
      rw
        (
          not_empty (str "id") (S.hgetall (session_key id) d) h'.id,
          decode_fields-Holds j (λ f. lookup f (S.hgetall (session_key id) d)) s v h',
        )
        refl
