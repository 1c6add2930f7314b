-- ===== src/Redis/Agreement.antt =====
-- What it means that an operation answers as the memory store does, and leaves the session as the
-- memory store leaves it.
use ani_session_gateway.Prelude.{◌≡◌, refl, some, Str, str_eq_refl, Result, ok, err}
use ani_session_gateway.Prelude.Assoc.{Assoc, lookup, insert, lookup-insert}
use ani_session_gateway.Session.Errors.{Error}
use ani_session_gateway.Session.Model.{Session}
use ani_session_gateway.Memory.{Store}
use ani_session_gateway.Redis.Server.{Server, row}
use ani_session_gateway.Redis.Codec.{Json}
use ani_session_gateway.Redis.Stored.{Holds}
use ani_session_gateway.Redis.Operations.{World, session_key}

abbrev pub map_ok : {A : Type 0} → (A → A) → Result Error A → Result Error A
map_ok f (ok a) = ok (f a)
map_ok f (err e) = err e

-- `back` is what the answer loses by going through the hash. The session `id` of the memory store is
-- the one that the hash holds.
pub record Agrees (S : Server) (j : Json) (id : Str) {A : Type 0} (back : A → A)
    (r : Result Error A × World S.Db) (m : Result Error A × Store) : Type 0 where
  pub same_answer : r.0 ≡ map_ok back m.0
  pub session : Session
  pub is_stored : lookup id m.1.sessions ≡ some session
  pub is_held : Holds j (row S (session_key id) r.1.db) session

pub lookup-insert_self :
    (k : Str) (v : Session) (m : Assoc Session) → lookup k (insert k v m) ≡ some v
lookup-insert_self k v m = rw (lookup-insert k k v m, str_eq_refl k) refl
