-- ===== src/Modbus/Protocol.antt =====
-- internal/modbus/protocol.go: the framing of Modbus TCP and the request PDUs of the client.
-- A byte is a number below 256 and a uint16 one below 65536, by hypothesis where it matters.
pub mod RoundTrip
use Prim.Native.Nat.{bit_and}
use tentacle_next.Prelude.{
  ℕ, zero, suc, ◌+◌, ◌-◌, ◌/◌, ◌%◌, String, Bool, true, false, not, ◌||◌, List, [], ◌∷◌, ◌++◌, ltb,
  ◌==◌, if◌then◌else◌, length, take, str_eq,
}
use tentacle_next.Prelude.Bytes.{Bytes, put_uint16, uint16}

abbrev pub mbap_header_size : ℕ
mbap_header_size = 7

abbrev pub fc_read_coils : ℕ
fc_read_coils = 1

abbrev pub fc_read_discrete_inputs : ℕ
fc_read_discrete_inputs = 2

abbrev pub fc_read_holding_registers : ℕ
fc_read_holding_registers = 3

abbrev pub fc_read_input_registers : ℕ
fc_read_input_registers = 4

abbrev pub fc_write_single_coil : ℕ
fc_write_single_coil = 5

abbrev pub fc_write_single_register : ℕ
fc_write_single_register = 6

abbrev pub fc_write_multiple_registers : ℕ
fc_write_multiple_registers = 16

pub record MbapFrame : Type 0 where
  pub transaction_id : ℕ
  pub protocol_id : ℕ
  pub unit_id : ℕ
  pub function_code : ℕ
  pub payload : Bytes

-- The length field is uint16(len(pdu) + 1), which wraps.
unfoldable pub encode_mbap_request : ℕ → ℕ → Bytes → Bytes
encode_mbap_request txn_id unit_id pdu =
    put_uint16 txn_id
    ++ (put_uint16 0 ++ (put_uint16 ((length pdu + 1) % 65536) ++ (unit_id ∷ pdu)))

-- What decodeMBAPResponse returns. `panics` stands for an index out of range.
pub data Decoded : Type 0 where
  incomplete_header : ℕ → Decoded
  incomplete_frame : ℕ → ℕ → Decoded
  invalid_length : ℕ → Decoded
  frame : MbapFrame → ℕ → Decoded
  panics : Decoded

-- buf[7] and buf[8:total_len]; the rest is what stands behind the header.
frame_of : ℕ → ℕ → ℕ → ℕ → Bytes → ℕ → Decoded
frame_of txn proto size unit [] total = panics
frame_of txn proto size unit (fc ∷ body) total =
    frame
      (record {
        transaction_id = txn;
        protocol_id = proto;
        unit_id = unit;
        function_code = fc;
        payload = take (size - 2) body;
      })
      total

-- From the header's fields and the bytes behind it, of a buffer of `have` bytes.
decode_body : ℕ → ℕ → ℕ → ℕ → Bytes → ℕ → Decoded
decode_body txn proto size unit rest have =
    let total = mbap_header_size + size - 1 in
    if ltb have total
    then incomplete_frame total have
    else if ltb size 2
    then invalid_length total
    else frame_of txn proto size unit rest total

unfoldable pub decode_mbap_response : Bytes → Decoded
unfolding decode_body frame_of
decode_mbap_response (t1 ∷ t0 ∷ p1 ∷ p0 ∷ l1 ∷ l0 ∷ unit ∷ rest) =
    decode_body (uint16 t1 t0) (uint16 p1 p0) (uint16 l1 l0) unit rest
      (length (t1 ∷ t0 ∷ p1 ∷ p0 ∷ l1 ∷ l0 ∷ unit ∷ rest))
decode_mbap_response buf = incomplete_header (length buf)

unfoldable pub build_read_pdu : ℕ → ℕ → ℕ → Bytes
build_read_pdu fc start_addr quantity = fc ∷ (put_uint16 start_addr ++ put_uint16 quantity)

unfoldable pub build_write_single_coil_pdu : ℕ → Bool → Bytes
build_write_single_coil_pdu addr value =
    fc_write_single_coil
    ∷ (put_uint16 addr ++ (if value then 0xFF ∷ 0x00 ∷ [] else 0x00 ∷ 0x00 ∷ []))

unfoldable pub build_write_single_register_pdu : ℕ → ℕ → Bytes
build_write_single_register_pdu addr value =
    fc_write_single_register ∷ (put_uint16 addr ++ put_uint16 value)

-- uint16(regCount) and byte(len(values)) wrap.
unfoldable pub build_write_multiple_registers_pdu : ℕ → Bytes → Bytes
build_write_multiple_registers_pdu addr values =
    fc_write_multiple_registers
    ∷ (put_uint16 addr
        ++ (put_uint16 (length values / 2 % 65536) ++ ((length values % 256) ∷ values)))

unfoldable pub is_exception_response : ℕ → Bool
is_exception_response fc = not (bit_and fc 0x80 == 0)

unfoldable pub fc_name_to_code : String → ℕ
fc_name_to_code name =
    if str_eq name "coil"
    then fc_read_coils
    else if str_eq name "discrete"
    then fc_read_discrete_inputs
    else if str_eq name "holding"
    then fc_read_holding_registers
    else if str_eq name "input"
    then fc_read_input_registers
    else fc_read_holding_registers

unfoldable pub fc_is_coil_or_discrete : ℕ → Bool
fc_is_coil_or_discrete fc = fc == fc_read_coils || fc == fc_read_discrete_inputs
