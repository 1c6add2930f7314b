-- ===== src/Redis/Granting.antt =====
-- The state of the server after a granted claim.
use mathlib.Core.Path.{fun_ext}
use ani_session_gateway.Prelude.{◌+◌, ◌<◌, ◌^◌, ◌≡◌, ◌∙◌, Str, arith}
use ani_session_gateway.Session.Model.{Time, Session, ClaimLimits}
use ani_session_gateway.Memory.{claim_session}
use ani_session_gateway.Redis.Server.{Server, ServerLaws, row}
use ani_session_gateway.Redis.Codec.{Json, unix_milli}
use ani_session_gateway.Redis.Stored.{IsStorable}
use ani_session_gateway.Redis.Scripts.{ClaimCall, hset_all, claimed_fields}
use ani_session_gateway.Redis.Rows.{set_all, row-hset_all, time-hset_all}

module _ (S : Server) (L : ServerLaws S) (c : ClaimCall) (p : S.Db)
    (in_future : L.time p < c.until) where
  abbrev written : S.Db
  written = hset_all S c.key (claimed_fields c.now c.expires c.lease_id c.until) p

  abbrev pub after : S.Db
  after = S.zadd c.subject_leases c.expires c.id (
      S.zadd c.all_leases c.expires c.id
        (S.pexpireat c.idem c.until (S.pexpireat c.key c.until written)))

  time-written : L.time written ≡ L.time p
  time-written = time-hset_all S L c.key (claimed_fields c.now c.expires c.lease_id c.until) p

  row-after : row S c.key after ≡ row S c.key written
  row-after = fun_ext λ f.
      L.hget-zadd _ _ _ f _ _
      ∙ (L.hget-zadd _ _ _ f _ _
          ∙ (L.hget-pexpireat _ _ f _ _
                (rw (L.time-pexpireat c.key c.until written, time-written) in_future)
              ∙ L.hget-pexpireat _ _ f _ written (rw time-written in_future)))

  pub row-after_fields :
      row S c.key after
      ≡ set_all (claimed_fields c.now c.expires c.lease_id c.until) (row S c.key p)
  row-after_fields =
      row-after ∙ row-hset_all S L c.key (claimed_fields c.now c.expires c.lease_id c.until) p

-- A claim keeps what makes a session storable, if its tombstone fits.
pub claim_session-IsStorable :
    (j : Json) (id : Str) (st : Session) (now : Time) (limits : ClaimLimits)
    → IsStorable j st
    → unix_milli (now + limits.session_max_duration + limits.idempotency_ttl) < 2 ^ 63
    → IsStorable j (claim_session id st now limits)
claim_session-IsStorable j id st now limits v fits = record {
  fingerprint_bytes = v.fingerprint_bytes;
  fingerprint_length = v.fingerprint_length;
  digest_bytes = v.digest_bytes;
  digest_length = v.digest_length;
  ciphertext_bytes = tt;
  rows_16 = v.rows_16;
  cols_16 = v.cols_16;
  mode_known = v.mode_known;
  kind_known = v.kind_known;
  command_kept = v.command_kept;
  instance_kept = v.instance_kept;
  instance_text = v.instance_text;
  vm_kept = v.vm_kept;
  vm_text = v.vm_text;
  created_at_63 = v.created_at_63;
  ticket_expires_at_63 = v.ticket_expires_at_63;
  expires_at_63 = omega arith;
  tombstone_expires_at_63 = fits;
  claimed_at_63 = omega arith;
  closed_at_63 = v.closed_at_63;
}
