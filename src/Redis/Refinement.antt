-- ===== src/Redis/Refinement.antt =====
-- The store over Redis implements what the memory store does.
use ani_session_gateway.Prelude.{◌≡◌, refl, false, Option, none, some, Str, Bytes, ok}
use ani_session_gateway.Session.Model.{Session}
use ani_session_gateway.Memory.{Store}
use ani_session_gateway.Redis.Server.{Server, ServerLaws}
use ani_session_gateway.Redis.Codec.{Json}
use ani_session_gateway.Redis.Stored.{in_millis}
use ani_session_gateway.Redis.Operations.{idem_key, create_or_get, get_by_key}
use ani_session_gateway.Redis.Rows.{calm}
use ani_session_gateway.Redis.Creation.{IsFree, create_fresh, get_by_key_fresh}
use ani_session_gateway.Redis.Replays.{IsTaken}

module _ (S : Server) (L : ServerLaws S) (j : Json) (sha256 : Bytes → Bytes) where
  -- The session that a creation is about: that of the key, or a new one.
  abbrev pub concerned : Option Str → Session → Str
  concerned none candidate = candidate.id
  concerned (some sid) candidate = sid

  -- Where the key is free the candidate can be kept; else both stores hold the session it leads to.
  abbrev pub IsPrepared : Option Str → Str → Session → S.Db → Store → Type 0
  IsPrepared none key candidate d t = IsFree S L j sha256 key candidate d
  IsPrepared (some sid) key candidate d t =
      (st : Session) × IsTaken S L j sha256 key candidate sid st d t

  -- Over such a server, a creation under a free key answers with the candidate, its times cut to
  -- milliseconds, and as new; and the key then leads to the same session.
  pub get_by_key-create_or_get :
      (key : Str) (candidate : Session) (d : S.Db)
      → S.get (idem_key sha256 key) d ≡ none
      → IsFree S L j sha256 key candidate d
      → let w = (create_or_get S j sha256 key candidate (calm d)).1 in
        ((create_or_get S j sha256 key candidate (calm d)).0 ≡ ok (in_millis candidate, false))
        × ((get_by_key S j sha256 key w).0 ≡ ok (in_millis candidate))
  get_by_key-create_or_get key candidate d e v =
      rw
        (
          create_fresh S L j sha256 key candidate d v e,
          get_by_key_fresh S L j sha256 key candidate d v,
        )
        (refl, refl)
