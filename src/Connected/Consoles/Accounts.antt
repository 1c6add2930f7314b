-- ===== src/Connected/Consoles/Accounts.antt =====
-- The byte counts of a console session.
use ani_session_gateway.Prelude.{◌%◌, ◌^◌, ◌≡◌, refl, Bool, List, [], map, length, total, Bytes}
use ani_session_gateway.Session.Model.{Time, Mode}
use ani_session_gateway.Connected.{Policy}
use ani_session_gateway.Connected.Frames.{Json, encode_byte_payload}
use ani_session_gateway.Connected.Consoles.{Carry, start}

module _ (json : Json) (policy : Policy) (mode : Mode) where
  -- The counters hold, as 64-bit numbers, what the stream was given and what was read from it: the
  -- chunks that were sent to the client, each in a message of its own.
  pub record IsAccounted (s : Carry) : Type 0 where
    pub chunks : List Bytes
    pub socket : s.to_socket ≡ map (encode_byte_payload json mode) chunks
    pub counted_out : s.bytes_out ≡ total chunks % 2 ^ 64
    pub counted_in : s.bytes_in ≡ length s.to_stream % 2 ^ 64

  pub start-IsAccounted :
      (now expires_at : Time) (cancelled : Bool)
      → IsAccounted (start json policy mode now expires_at cancelled)
  start-IsAccounted now expires_at cancelled = record {
    chunks = [];
    socket = refl;
    counted_out = refl;
    counted_in = refl;
  }
