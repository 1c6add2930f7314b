-- ===== src/Redis/Stored.antt =====
-- What a hash keeps of a session, and what `decode` reads back from it.
use ani_session_gateway.Prelude.{
  ℕ, ◌^◌, ◌<◌, ◌≡◌, ◌≢◌, refl, ◌∙◌, Bool, true, false, Option, some, [], ◌∷◌, Str, Bytes, str,
  str_eq, is_empty, length, All, ◌==◌, if◌then◌else◌, if-both, ok, arith,
}
use ani_session_gateway.Prelude.Assoc.{lookup}
use ani_session_gateway.Session.Model.{Time, State, unset, issued, claimed, closed, Session}
use ani_session_gateway.Session.Encoding.{hex, base64_std, decimal}
use ani_session_gateway.Session.Decoding.{parse_bool, parse_int64, base64_std_decode}
use ani_session_gateway.Session.Reads.{
  IsByte, hex_decode-hex, base64_std_decode-base64_std, parse_uint16-decimal, parse_int64-decimal,
}
use ani_session_gateway.Session.Fingerprint.{mode_str, kind_str}
use ani_session_gateway.Redis.Codec.{
  Json, unix_milli, from_milli, millis, parse_millis, state_str, bool_str, state_of, mode_of,
  kind_of, encode, or_empty, or_other, decode32, decode_fields, decode,
}

-- A hash, as a function of the field, holds what `encode` makes of the session.
pub record Holds (j : Json) (r : Str → Option Str) (s : Session) : Type 0 where
  pub id : r (str "id") ≡ some s.id
  pub idempotency_key : r (str "idempotency_key") ≡ some s.idempotency_key
  pub fingerprint : r (str "fingerprint") ≡ some (hex s.request_fingerprint)
  pub ticket_digest : r (str "ticket_digest") ≡ some (hex s.ticket_digest)
  pub ticket_ciphertext : r (str "ticket_ciphertext") ≡ some (base64_std s.ticket_ciphertext)
  pub tenant_id : r (str "tenant_id") ≡ some s.tenant_id
  pub subject_id : r (str "subject_id") ≡ some s.subject_id
  pub instance_id : r (str "instance_id") ≡ some s.instance_id
  pub workload_name : r (str "workload_name") ≡ some s.workload_name
  pub workload_kind : r (str "workload_kind") ≡ some (kind_str s.workload_kind)
  pub mode : r (str "mode") ≡ some (mode_str s.mode)
  pub container : r (str "container") ≡ some s.container
  pub command : r (str "command") ≡ some (j.marshal_command s.command)
  pub tty : r (str "tty") ≡ some (bool_str s.tty)
  pub rows : r (str "rows") ≡ some (decimal s.rows)
  pub cols : r (str "cols") ≡ some (decimal s.cols)
  pub requested_protocol : r (str "requested_protocol") ≡ some s.requested_protocol
  pub state : r (str "state") ≡ some (state_str s.state)
  pub created_at : r (str "created_at") ≡ some (millis s.created_at)
  pub ticket_expires_at : r (str "ticket_expires_at") ≡ some (millis s.ticket_expires_at)
  pub expires_at : r (str "expires_at") ≡ some (millis s.expires_at)
  pub tombstone_expires_at : r (str "tombstone_expires_at") ≡ some (millis s.tombstone_expires_at)
  pub claimed_at : r (str "claimed_at") ≡ some (millis s.claimed_at)
  pub closed_at : r (str "closed_at") ≡ some (millis s.closed_at)
  pub close_reason : r (str "close_reason") ≡ some s.close_reason
  pub lease_id : r (str "lease_id") ≡ some s.lease_id
  pub instance_binding : r (str "instance_binding") ≡ some (j.marshal_instance s.instance_binding)
  pub vm_binding : r (str "vm_binding") ≡ some (j.marshal_vm s.vm_binding)

-- A session as the code makes it: the digests have 32 bytes, the dimensions sixteen bits, the times
-- fit 63 bits in milliseconds, and no `other_mode` or `other_kind` bears a known name. JSON keeps
-- its command and bindings, which it does where their texts are valid UTF-8.
pub record IsStorable (j : Json) (s : Session) : Type 0 where
  pub fingerprint_bytes : All IsByte s.request_fingerprint
  pub fingerprint_length : length s.request_fingerprint ≡ 32
  pub digest_bytes : All IsByte s.ticket_digest
  pub digest_length : length s.ticket_digest ≡ 32
  pub ciphertext_bytes : All IsByte s.ticket_ciphertext
  pub rows_16 : s.rows < 2 ^ 16
  pub cols_16 : s.cols < 2 ^ 16
  pub mode_known : mode_of (mode_str s.mode) ≡ s.mode
  pub kind_known : kind_of (kind_str s.workload_kind) ≡ s.workload_kind
  pub command_kept : j.unmarshal_command (j.marshal_command s.command) ≡ some s.command
  pub instance_kept :
      j.unmarshal_instance (j.marshal_instance s.instance_binding) ≡ some s.instance_binding
  pub instance_text : j.marshal_instance s.instance_binding ≢ []
  pub vm_kept : j.unmarshal_vm (j.marshal_vm s.vm_binding) ≡ some s.vm_binding
  pub vm_text : j.marshal_vm s.vm_binding ≢ []
  pub created_at_63 : unix_milli s.created_at < 2 ^ 63
  pub ticket_expires_at_63 : unix_milli s.ticket_expires_at < 2 ^ 63
  pub expires_at_63 : unix_milli s.expires_at < 2 ^ 63
  pub tombstone_expires_at_63 : unix_milli s.tombstone_expires_at < 2 ^ 63
  pub claimed_at_63 : unix_milli s.claimed_at < 2 ^ 63
  pub closed_at_63 : unix_milli s.closed_at < 2 ^ 63

-- A time cut to whole milliseconds, and a session with its times cut.
abbrev pub whole : Time → Time
whole t = from_milli (unix_milli t)

abbrev pub in_millis : Session → Session
in_millis s = record s {
  created_at = whole s.created_at;
  ticket_expires_at = whole s.ticket_expires_at;
  expires_at = whole s.expires_at;
  tombstone_expires_at = whole s.tombstone_expires_at;
  claimed_at = whole s.claimed_at;
  closed_at = whole s.closed_at;
}

parse_millis-eq : (raw : Str) (n : ℕ) → parse_int64 raw ≡ n → parse_millis raw ≡ from_milli n
unfolding parse_millis
parse_millis-eq raw n h = ground arith

parse_zero : parse_int64 (str "0") ≡ 0
unfolding parse_int64
parse_zero = refl

parse_millis-millis : (t : Time) → unix_milli t < 2 ^ 63 → parse_millis (millis t) ≡ whole t
unfolding millis
parse_millis-millis t h =
    if-both (λ text. parse_millis text ≡ whole t) (t == 0)
      (λ e. parse_millis-eq (str "0") 0 parse_zero ∙ ground arith)
      (λ e.
        parse_millis-eq (decimal (unix_milli t)) (unix_milli t)
          (parse_int64-decimal (unix_milli t) h))

state_of-state_str : (s : State) → state_of (state_str s) ≡ s
unfolding state_of
state_of-state_str unset = refl
state_of-state_str issued = refl
state_of-state_str claimed = refl
state_of-state_str closed = refl

parse_bool-bool_str : (b : Bool) → parse_bool (bool_str b) ≡ b
unfolding parse_bool str_eq
parse_bool-bool_str true = refl
parse_bool-bool_str false = refl

decode32-hex : (bs : Bytes) → All IsByte bs → length bs ≡ 32 → decode32 (hex bs) ≡ ok bs
unfolding decode32
decode32-hex bs h e = rw (hex_decode-hex bs h) (ground arith)

-- The rest of `decode` after the first text that is JSON.
unless_empty_eq :
    {A : Type 0} (raw : Str) (zero a : A) (o : Option A)
    → raw ≢ []
    → o ≡ some a
    → (if is_empty raw then ok zero else or_other o) ≡ ok a
unless_empty_eq [] z a o n e = absurd (n refl)
unless_empty_eq (c ∷ cs) z a o n e = rw e refl

-- Only no bytes at all are kept as the empty text.
ciphertext_back :
    (raw : Str) (bs : Bytes)
    → base64_std_decode raw ≡ some bs
    → (if is_empty raw then ok [] else or_other (base64_std_decode raw)) ≡ ok bs
ciphertext_back [] bs e = let e' : some [] ≡ some bs = unfold base64_std_decode in e in cc
ciphertext_back (c ∷ cs) bs e = rw e refl

-- Whatever holds the fields of a storable session decodes to it, with its times cut to whole
-- milliseconds.
pub decode_fields-Holds :
    (j : Json) (r : Str → Option Str) (s : Session)
    → IsStorable j s
    → Holds j r s
    → decode_fields j (λ name. or_empty (r name)) ≡ ok (in_millis s)
unfolding decode_fields
decode_fields-Holds j r s v h =
    rw
      (
        h.vm_binding, h.instance_binding, h.fingerprint, h.ticket_digest, h.ticket_ciphertext,
        h.command, h.id, h.idempotency_key, h.tenant_id, h.subject_id, h.instance_id,
        h.workload_name, h.workload_kind, h.mode, h.container, h.tty, h.rows, h.cols,
        h.requested_protocol, h.state, h.created_at, h.ticket_expires_at, h.expires_at,
        h.tombstone_expires_at, h.claimed_at, h.closed_at, h.close_reason, h.lease_id,
      )
      (rw
        (
          unless_empty_eq _ _ _ _ v.vm_text v.vm_kept,
          unless_empty_eq _ _ _ _ v.instance_text v.instance_kept,
          decode32-hex _ v.fingerprint_bytes v.fingerprint_length,
          decode32-hex _ v.digest_bytes v.digest_length,
          ciphertext_back _ _ (base64_std_decode-base64_std _ v.ciphertext_bytes),
          v.command_kept,
          v.mode_known,
          v.kind_known,
          state_of-state_str s.state,
          parse_bool-bool_str s.tty,
          parse_uint16-decimal _ v.rows_16,
          parse_uint16-decimal _ v.cols_16,
          parse_millis-millis _ v.created_at_63,
          parse_millis-millis _ v.ticket_expires_at_63,
          parse_millis-millis _ v.expires_at_63,
          parse_millis-millis _ v.tombstone_expires_at_63,
          parse_millis-millis _ v.claimed_at_63,
          parse_millis-millis _ v.closed_at_63,
        )
        refl)

module _ (j : Json) (s : Session) where
  pub encode-Holds : Holds j (λ name. lookup name (encode j s)) s
  unfolding encode lookup str_eq
  encode-Holds = record {
    id = refl;
    idempotency_key = refl;
    fingerprint = refl;
    ticket_digest = refl;
    ticket_ciphertext = refl;
    tenant_id = refl;
    subject_id = refl;
    instance_id = refl;
    workload_name = refl;
    workload_kind = refl;
    mode = refl;
    container = refl;
    command = refl;
    tty = refl;
    rows = refl;
    cols = refl;
    requested_protocol = refl;
    state = refl;
    created_at = refl;
    ticket_expires_at = refl;
    expires_at = refl;
    tombstone_expires_at = refl;
    claimed_at = refl;
    closed_at = refl;
    close_reason = refl;
    lease_id = refl;
    instance_binding = refl;
    vm_binding = refl;
  }

  -- A storable session is read back from its fields, with its times cut to whole milliseconds.
  pub decode-encode : IsStorable j s → decode j (encode j s) ≡ ok (in_millis s)
  unfolding decode
  decode-encode v = decode_fields-Holds j (λ name. lookup name (encode j s)) s v encode-Holds
