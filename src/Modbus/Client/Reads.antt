-- ===== src/Modbus/Client/Reads.antt =====
-- What the client makes of a response that comes in whole.
use tentacle_next.Prelude.{
  ℕ, ◌+◌, ◌<◌, [], ◌∷◌, ◌++◌, ◌≡◌, ap, length, append-nil, drop-append, some,
}
use tentacle_next.Prelude.Bytes.{Bytes}
use tentacle_next.Modbus.Protocol.{MbapFrame, encode_mbap_request, decode_mbap_response}
use tentacle_next.Modbus.Protocol.RoundTrip.{decode-encode}
use tentacle_next.Modbus.Client.{Received, check_exception, parse, receive}

abbrev pub reply_frame : ℕ → ℕ → ℕ → Bytes → MbapFrame
reply_frame txn unit fc payload = record {
  transaction_id = txn;
  protocol_id = 0;
  unit_id = unit;
  function_code = fc;
  payload = payload;
}

-- A complete response frame is parsed and taken off the buffer, and what follows it stays.
pub parse-encode :
    (txn unit fc : ℕ) (payload rest : Bytes)
    → txn < 65536
    → length payload + 2 < 65536
    → parse (encode_mbap_request txn unit (fc ∷ payload) ++ rest)
      ≡ some (check_exception (reply_frame txn unit fc payload), rest)
unfolding parse
parse-encode txn unit fc payload rest t h =
    rw (decode-encode txn unit fc payload rest t h, parse)
      (ap (λ (b : Bytes). some (check_exception (reply_frame txn unit fc payload), b))
        (drop-append (encode_mbap_request txn unit (fc ∷ payload)) rest))

receive_empty : (c : Bytes) (r : Received × Bytes) → parse c ≡ some r → receive (c ∷ []) [] ≡ r
unfolding receive parse decode_mbap_response
receive_empty c r e = rw (e, receive)

-- The same, where the frame comes in one read after an empty buffer.
pub receive-encode :
    (txn unit fc : ℕ) (payload : Bytes)
    → txn < 65536
    → length payload + 2 < 65536
    → receive (encode_mbap_request txn unit (fc ∷ payload) ∷ []) []
      ≡ (check_exception (reply_frame txn unit fc payload), [])
unfolding receive
receive-encode txn unit fc payload t h =
    let p = parse-encode txn unit fc payload [] t h in
    receive_empty (encode_mbap_request txn unit (fc ∷ payload)) _ (rw append-nil at p)
