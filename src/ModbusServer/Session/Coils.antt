-- ===== src/ModbusServer/Session/Coils.antt =====
-- Coils and discrete inputs from the server's store to the client's values.
use tentacle_next.Prelude.{
  ℕ, ◌+◌, ◌/◌, ◌%◌, ◌≤◌, ◌<◌, Bool, true, false, ◌∷◌, ◌≡◌, sym, ap, ◌∙◌, arith, length, replicate,
  length-replicate, le→ltb_false,
}
use tentacle_next.Prelude.Bytes.{Bytes, uint16-put}
use tentacle_next.Modbus.Protocol.{build_read_pdu, is_exception_response}
use tentacle_next.Modbus.Client.{read_payload, check_exception, data_bytes, decode_bool_from_coils}
use tentacle_next.Modbus.Client.Reads.{reply_frame}
use tentacle_next.ModbusServer.Store.{RegisterStore}
use tentacle_next.ModbusServer.Pdu.{handle_pdu, handle_read_bits, pack_bits}
use tentacle_next.ModbusServer.Pdu.Bits.{decode_packed, length-pack_bits}
use tentacle_next.ModbusServer.Session.Client.{read_over, exchange, take_all}

abbrev packed : (ℕ → Bool) → ℕ → Bytes
packed val count = pack_bits val count 0 (replicate ((count + 7) / 8) 0)

length-packed : (val : ℕ → Bool) (count : ℕ) → length (packed val count) ≡ (count + 7) / 8
length-packed val count = length-pack_bits val count 0 _ ∙ length-replicate _ 0

-- The function code that reads coils or discrete inputs, and the bits that it reads.
abbrev pub bits_fc : Bool → ℕ
bits_fc true = 1
bits_fc false = 2

abbrev pub bits : Bool → RegisterStore → ℕ → Bool
bits true s = s.coils
bits false s = s.discretes

read_bits_response :
    (is_coil : Bool) (addr count : ℕ) (s : RegisterStore)
    → addr < 65536
    → count ≤ 2040
    → (handle_pdu (build_read_pdu (bits_fc is_coil) addr count) s).response
      ≡ bits_fc is_coil ∷ ((count + 7) / 8) ∷ packed (λ i. bits is_coil s (addr + i)) count
unfolding handle_pdu handle_read_bits build_read_pdu
read_bits_response true addr count s ha hc =
    let small : (count + 7) / 8 % 256 ≡ (count + 7) / 8 = omega arith in
    rw (uint16-put addr ha, uint16-put count (omega arith), small)
read_bits_response false addr count s ha hc =
    let small : (count + 7) / 8 % 256 ≡ (count + 7) / 8 = omega arith in
    rw (uint16-put addr ha, uint16-put count (omega arith), small)

read_payload_bits :
    (is_coil : Bool) (txn unit n : ℕ) (bytes : Bytes)
    → length bytes ≡ n
    → read_payload (check_exception (reply_frame txn unit (bits_fc is_coil) (n ∷ bytes)))
      ≡ data_bytes bytes
unfolding read_payload check_exception is_exception_response
read_payload_bits true txn unit n bytes e =
    rw (le→ltb_false (length bytes) n (omega arith)) (ap data_bytes (take_all n bytes (sym e)))
read_payload_bits false txn unit n bytes e =
    rw (le→ltb_false (length bytes) n (omega arith)) (ap data_bytes (take_all n bytes (sym e)))

-- A client that reads up to 2040 coils, or discrete inputs, of a server over a fresh connection gets
-- bytes in which its decoder finds at each offset below the count the value that the server holds at
-- that address.
pub read_bits :
    (is_coil : Bool) (unit txn addr count i : ℕ) (store : RegisterStore)
    → txn < 65536
    → addr < 65536
    → count ≤ 2040
    → i < count
    → (bytes : Bytes) × (read_over unit txn (bits_fc is_coil) addr count store ≡ data_bytes bytes)
      × (decode_bool_from_coils bytes i ≡ bits is_coil store (addr + i))
read_bits is_coil unit txn addr count i store t ha hc h =
    let val : ℕ → Bool = λ k. bits is_coil store (addr + k) in
    let size = length-packed val count in
    (
      packed val count,
      exchange unit txn addr count (bits_fc is_coil) _ store t (omega arith)
            (read_bits_response is_coil addr count store ha hc)
          ∙ read_payload_bits is_coil txn unit _ (packed val count) size,
      decode_packed val count i h,
    )
