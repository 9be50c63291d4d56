-- ===== src/Modbus/Client.antt =====
-- internal/modbus/client.go and the coil decoder of internal/modbus/decode.go: one exchange with a
-- device. The connection is the list of chunks that its reads return before one fails (a timeout or
-- a close); a write succeeds, and hands over the bytes that `request` gives.
pub mod Reads
use Prim.Native.Nat.{bit_and}
use tentacle_next.Prelude.{
  ℕ, zero, suc, ◌+◌, ◌-◌, ◌/◌, ◌%◌, ◌^◌, Bool, true, false, not, Option, none, some, List, [], ◌∷◌,
  ◌++◌, ltb, ◌==◌, if◌then◌else◌, length, take, drop, get_elem?,
}
use tentacle_next.Prelude.Bytes.{Bytes}
use tentacle_next.Modbus.Protocol.{
  MbapFrame, Decoded, frame, panics, encode_mbap_request, decode_mbap_response,
  is_exception_response, build_read_pdu,
}

pub record Device : Type 0 where
  pub unit_id : ℕ
  pub txn_id : ℕ
  pub read_buf : Bytes

-- nextTxnID, which wraps.
unfoldable pub next_txn_id : Device → Device × ℕ
next_txn_id d = (record d { txn_id = (d.txn_id + 1) % 65536 }, d.txn_id)

-- What sendAndReceive writes.
unfoldable pub request : Device → Bytes → Bytes
unfolding next_txn_id
request d pdu = encode_mbap_request (next_txn_id d).1 d.unit_id pdu

-- What it returns: a frame, an exception of the device with its code, a failed read, or a panic.
pub data Received : Type 0 where
  received : MbapFrame → Received
  exception : ℕ → ℕ → Received
  read_error panic : Received

exception_code : Bytes → ℕ
exception_code [] = 0
exception_code (b ∷ bs) = b

unfoldable pub check_exception : MbapFrame → Received
unfolding exception_code
check_exception f =
    if is_exception_response f.function_code
    then exception (bit_and f.function_code 0x7F) (exception_code f.payload)
    else received f

-- What one attempt to parse the accumulation buffer gives; `none` means that more is read.
unfoldable pub parse : Bytes → Option (Received × Bytes)
parse buf = elim (decode_mbap_response buf) [
  | frame f consumed ↦ some (check_exception f, drop consumed buf)
  | panics ↦ some (panic, buf)
  | _ ↦ none
]

-- The loop of sendAndReceive: parse, or read one more chunk. The buffer that is left comes back too.
unfoldable pub receive : List Bytes → Bytes → Received × Bytes
receive [] buf = elim (parse buf) [ none ↦ (read_error, buf) | some r ↦ r ]
receive (c ∷ cs) buf = elim (parse buf) [ none ↦ receive cs (buf ++ c) | some r ↦ r ]

unfoldable pub send_and_receive : Device → List Bytes → Device × Received
unfolding next_txn_id
send_and_receive d chunks =
    let (r, rest) = receive chunks d.read_buf in (record (next_txn_id d).0 { read_buf = rest }, r)

-- What a read returns: the bytes behind the byte count, or why not.
pub data ReadResult : Type 0 where
  data_bytes : Bytes → ReadResult
  empty_response : ReadResult
  truncated : ℕ → ℕ → ReadResult
  failed : Received → ReadResult

counted : Bytes → ReadResult
counted [] = empty_response
counted (byte_count ∷ bytes) =
    if ltb (length bytes) byte_count
    then truncated byte_count (length bytes)
    else data_bytes (take byte_count bytes)

unfoldable pub read_payload : Received → ReadResult
unfolding counted
read_payload (received f) = counted f.payload
read_payload r = failed r

-- readRegisters and readCoils, which differ in nothing but their names: the request that is written,
-- and what is made of the chunks that come back.
unfoldable pub read_request : Device → ℕ → ℕ → ℕ → Bytes
unfolding request
read_request d fc start_addr quantity = request d (build_read_pdu fc start_addr quantity)

unfoldable pub read_registers : Device → List Bytes → Device × ReadResult
read_registers d chunks = let (d', r) = send_and_receive d chunks in (d', read_payload r)

-- data[byteIdx]&(1<<bitIdx) != 0, and false behind the data.
unfoldable pub decode_bool_from_coils : Bytes → ℕ → Bool
decode_bool_from_coils bytes bit_offset = elim (get_elem? bytes (bit_offset / 8)) [
  | none ↦ false
  | some b ↦ not (bit_and b (2 ^ (bit_offset % 8)) == 0)
]
