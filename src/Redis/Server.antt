-- ===== src/Redis/Server.antt =====
-- The Redis server, which is no code of this repository: the commands that the store and its
-- scripts send, on the server's state, and what Redis documents of them. A command that Redis
-- refuses, since the key holds a value of another kind, is not modelled: the store's keys have
-- prefixes that keep the kinds apart.
use ani_session_gateway.Prelude.{
  ℕ, ◌<◌, ◌≡◌, Bool, true, false, Option, some, Str, str_eq, if◌then◌else◌,
}
use ani_session_gateway.Prelude.Assoc.{Assoc, lookup}
use ani_session_gateway.Session.Encoding.{decimal}

-- `to_number` is Lua's `tonumber`, which is `nil` for a text that is no number.
pub record Server : Type 1 where
  pub Db : Type 0
  pub get : Str → Db → Option Str
  pub exists : Str → Db → Bool
  pub hget : Str → Str → Db → Option Str
  pub hgetall : Str → Db → Assoc Str
  pub zcard : Str → Db → ℕ
  pub set_pxat : Str → Str → ℕ → Db → Db
  pub hset : Str → Str → Str → Db → Db
  pub pexpireat : Str → ℕ → Db → Db
  pub zremrangebyscore : Str → ℕ → Db → Db
  pub zadd : Str → ℕ → Str → Db → Db
  pub zrem : Str → Str → Db → Db
  pub to_number : Str → Option ℕ

-- One field of a hash changed.
abbrev pub field_set : Str → Str → (Str → Option Str) → Str → Option Str
field_set g v row f = if str_eq g f then some v else row f

-- The hash at a key, as a function of the field.
abbrev pub row : (S : Server) → Str → S.Db → Str → Option Str
row S k d f = S.hget k f d

-- `time` is the server's clock, which stands still inside a script. A key whose expiry is not in the
-- future is gone, so the laws on PEXPIREAT and SET ask for a later one.
pub record ServerLaws (S : Server) : Type 1 where
  pub time : S.Db → ℕ
  pub lookup-hgetall : (k f : Str) (d : S.Db) → lookup f (S.hgetall k d) ≡ S.hget k f d
  pub exists-hget : (k f v : Str) (d : S.Db) → S.hget k f d ≡ some v → S.exists k d ≡ true
  pub hget-hset :
      (k j g v f : Str) (d : S.Db)
      → S.hget k f (S.hset j g v d)
        ≡ (if str_eq j k then field_set g v (row S k d) f else S.hget k f d)
  pub hget-pexpireat :
      (k j f : Str) (at : ℕ) (d : S.Db)
      → time d < at
      → S.hget k f (S.pexpireat j at d) ≡ S.hget k f d
  pub hget-set_pxat :
      (k j v f : Str) (at : ℕ) (d : S.Db)
      → str_eq j k ≡ false
      → S.hget k f (S.set_pxat j v at d) ≡ S.hget k f d
  pub hget-zremrangebyscore :
      (k j f : Str) (top : ℕ) (d : S.Db) → S.hget k f (S.zremrangebyscore j top d) ≡ S.hget k f d
  pub hget-zadd :
      (k j m f : Str) (score : ℕ) (d : S.Db) → S.hget k f (S.zadd j score m d) ≡ S.hget k f d
  pub hget-zrem : (k j m f : Str) (d : S.Db) → S.hget k f (S.zrem j m d) ≡ S.hget k f d
  pub get-set_pxat :
      (k v : Str) (at : ℕ) (d : S.Db) → time d < at → S.get k (S.set_pxat k v at d) ≡ some v
  pub time-hset : (j g v : Str) (d : S.Db) → time (S.hset j g v d) ≡ time d
  pub time-pexpireat : (j : Str) (at : ℕ) (d : S.Db) → time (S.pexpireat j at d) ≡ time d
  pub time-zremrangebyscore :
      (j : Str) (top : ℕ) (d : S.Db) → time (S.zremrangebyscore j top d) ≡ time d
  pub to_number-decimal : (n : ℕ) → S.to_number (decimal n) ≡ some n
