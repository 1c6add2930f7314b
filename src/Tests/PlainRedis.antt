-- ===== src/Tests/PlainRedis.antt =====
-- A server that keeps the laws of Redis, for the tests: a map for each kind of value, and a clock.
use ani_session_gateway.Prelude.{
  ℕ, ◌<◌, ◌≡◌, refl, true, false, ◌||◌, Option, none, some, [], ◌∷◌, Str, Bool, str_eq, str_eq_iff,
  str_eq_refl, length, leb, if◌then◌else◌, arith, Bool-cases, inl, inr,
}
use ani_session_gateway.Prelude.Assoc.{Assoc, lookup, insert, remove, lookup-insert}
use ani_session_gateway.Session.Decoding.{digits_from}
use ani_session_gateway.Session.Reads.{digits_from-decimal}
use ani_session_gateway.Redis.Server.{Server, ServerLaws, field_set}

pub record PlainDb : Type 0 where
  pub time : ℕ
  pub texts : Assoc Str
  pub hashes : Assoc (Assoc Str)
  pub sets : Assoc (Assoc ℕ)

abbrev or_none {ℓ} : {V : Type ℓ} → Option (Assoc V) → Assoc V
or_none none = []
or_none (some m) = m

abbrev is_some {ℓ} : {V : Type ℓ} → Option V → Bool
is_some none = false
is_some (some v) = true

-- The members with a score above `top`.
unfoldable pub above : ℕ → Assoc ℕ → Assoc ℕ
above top [] = []
above top ((m, score) ∷ rest) =
    let later = above top rest in if leb score top then later else (m, score) ∷ later

abbrev pub set_at : Str → PlainDb → Assoc ℕ
set_at k d = or_none (lookup k d.sets)

abbrev pub hash_at : Str → PlainDb → Assoc Str
hash_at k d = or_none (lookup k d.hashes)

abbrev pub plain : Server
plain = record {
  Db = PlainDb;
  get = λ k d. lookup k d.texts;
  exists =
      λ k d. is_some (lookup k d.hashes) || is_some (lookup k d.texts) || is_some (lookup k d.sets);
  hget = λ k f d. lookup f (hash_at k d);
  hgetall = hash_at;
  zcard = λ k d. length (set_at k d);
  set_pxat = λ k v at d. record d {
    texts = if leb at d.time then remove k d.texts else insert k v d.texts;
  };
  hset = λ k f v d. record d { hashes = insert k (insert f v (hash_at k d)) d.hashes };
  pexpireat = λ k at d. record d {
    texts = if leb at d.time then remove k d.texts else d.texts;
    hashes = if leb at d.time then remove k d.hashes else d.hashes;
    sets = if leb at d.time then remove k d.sets else d.sets;
  };
  zremrangebyscore = λ k top d. record d { sets = insert k (above top (set_at k d)) d.sets };
  zadd = λ k score m d. record d { sets = insert k (insert m score (set_at k d)) d.sets };
  zrem = λ k m d. record d { sets = insert k (remove m (set_at k d)) d.sets };
  to_number = λ s. digits_from 0 s;
}

pub plain-exists : (k f v : Str) (d : PlainDb) → plain.hget k f d ≡ some v → plain.exists k d ≡ true
plain-exists k f v d h = found (lookup k d.hashes) h
  where
    found :
        (o : Option (Assoc Str))
        → lookup f (or_none o) ≡ some v
        → (is_some o || is_some (lookup k d.texts) || is_some (lookup k d.sets)) ≡ true
    found none h = let e : lookup f [] ≡ some v = h in unfold lookup in cc
    found (some m) h = refl

pub plain-hset :
    (k j g v f : Str) (d : PlainDb)
    → plain.hget k f (plain.hset j g v d)
      ≡ (if str_eq j k then field_set g v (λ e. plain.hget k e d) f else plain.hget k f d)
plain-hset k j g v f d =
    rw (lookup-insert j k (insert g v (hash_at j d)) d.hashes) (elim (Bool-cases (str_eq j k)) [
      | inl e ↦ rw ((str_eq_iff j k).0 e, str_eq_refl k, lookup-insert g f v (hash_at k d)) refl
      | inr n ↦ rw n refl
    ])

pub plain-pexpireat :
    (k j f : Str) (at : ℕ) (d : PlainDb)
    → d.time < at
    → plain.hget k f (plain.pexpireat j at d) ≡ plain.hget k f d
plain-pexpireat k j f at d h = let e : leb at d.time ≡ false = ground arith in rw e refl

pub plain-set_pxat :
    (k v : Str) (at : ℕ) (d : PlainDb)
    → d.time < at
    → plain.get k (plain.set_pxat k v at d) ≡ some v
plain-set_pxat k v at d h =
    let e : leb at d.time ≡ false = ground arith in
    rw (e, lookup-insert k k v d.texts, str_eq_refl k) refl

abbrev pub plain_laws : ServerLaws plain
plain_laws = record {
  time = λ d. d.time;
  lookup-hgetall = λ k f d. refl;
  exists-hget = plain-exists;
  hget-hset = plain-hset;
  hget-pexpireat = plain-pexpireat;
  hget-set_pxat = λ k j v f at d n. refl;
  hget-zremrangebyscore = λ k j f top d. refl;
  hget-zadd = λ k j m f score d. refl;
  hget-zrem = λ k j m f d. refl;
  get-set_pxat = plain-set_pxat;
  time-hset = λ j g v d. refl;
  time-pexpireat = λ j at d. refl;
  time-zremrangebyscore = λ j top d. refl;
  to_number-decimal = digits_from-decimal;
}
