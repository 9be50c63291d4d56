-- ===== src/Modbus/Protocol/RoundTrip.antt =====
-- The framing read back, and its bounds.
use tentacle_next.Prelude.{
  ℕ, ◌+◌, ◌-◌, ◌≤◌, ◌<◌, [], ◌∷◌, ◌++◌, ◌≡◌, ◌≢◌, arith, length, length-append, take-append,
  length-take, Bool-cases, inl, inr, ltb,
}
use tentacle_next.Prelude.Bytes.{Bytes, uint16}
use tentacle_next.Modbus.Protocol.{
  MbapFrame, Decoded, frame, panics, encode_mbap_request, decode_mbap_response, decode_body,
  frame_of,
}

-- Decoding a frame that the framing wrote gives the transaction, the unit, the function code and the
-- payload back, whatever bytes follow, and consumes exactly the frame.
pub decode-encode :
    (txn unit fc : ℕ) (payload rest : Bytes)
    → txn < 65536
    → length payload + 2 < 65536
    → decode_mbap_response (encode_mbap_request txn unit (fc ∷ payload) ++ rest)
      ≡ frame
          (record {
            transaction_id = txn;
            protocol_id = 0;
            unit_id = unit;
            function_code = fc;
            payload = payload;
          })
          (length (encode_mbap_request txn unit (fc ∷ payload)))
unfolding decode_mbap_response encode_mbap_request
decode-encode txn unit fc payload rest t h =
    ground (arith, length-append payload rest, take-append payload rest)

-- Where a decoded frame ends.
pub record IsWithin (f : MbapFrame) (consumed have : ℕ) : Type 0 where
  pub inside : consumed ≤ have
  pub sized : length f.payload + 8 ≡ consumed

abbrev IsSafe : Decoded → ℕ → Type 0
IsSafe panics have = ⊥
IsSafe (frame f consumed) have = IsWithin f consumed have
IsSafe _ have = Unit {0}

frame_of-IsSafe :
    (txn proto size unit : ℕ) (rest : Bytes) (have : ℕ)
    → have ≡ 7 + length rest
    → 7 + size - 1 ≤ have
    → 2 ≤ size
    → IsSafe (frame_of txn proto size unit rest (7 + size - 1)) have
unfolding frame_of
frame_of-IsSafe txn proto size unit [] have e h k = omega arith
frame_of-IsSafe txn proto size unit (fc ∷ body) have e h k = record {
  inside = h;
  sized = rw length-take (omega arith);
}

decode_body-IsSafe :
    (txn proto size unit : ℕ) (rest : Bytes) (have : ℕ)
    → have ≡ 7 + length rest
    → IsSafe (decode_body txn proto size unit rest have) have
unfolding decode_body
decode_body-IsSafe txn proto size unit rest have e = elim (Bool-cases (ltb have (7 + size - 1))) [
  | inl short ↦ rw short tt
  | inr whole ↦ rw whole (elim (Bool-cases (ltb size 2)) [
    | inl bad ↦ rw bad tt
    | inr good ↦
        rw good (frame_of-IsSafe txn proto size unit rest have e (ground arith) (ground arith))
  ])
]

decode-IsSafe : (buf : Bytes) → IsSafe (decode_mbap_response buf) (length buf)
unfolding decode_mbap_response
decode-IsSafe (t1 ∷ t0 ∷ p1 ∷ p0 ∷ l1 ∷ l0 ∷ unit ∷ rest) =
    decode_body-IsSafe (uint16 t1 t0) (uint16 p1 p0) (uint16 l1 l0) unit rest _ (omega arith)
decode-IsSafe _ = tt

-- No byte sequence makes the decoder index out of range.
decode-ne-panics : (buf : Bytes) → decode_mbap_response buf ≢ panics
decode-ne-panics buf e = rw e at (decode-IsSafe buf)

-- A decoded frame ends inside the buffer, eight bytes of header and function code before its payload.
decode-IsWithin :
    (buf : Bytes) (f : MbapFrame) (consumed : ℕ)
    → decode_mbap_response buf ≡ frame f consumed
    → IsWithin f consumed (length buf)
decode-IsWithin buf f consumed e = rw e at (decode-IsSafe buf)
