-- ===== src/ModbusServer/Pdu.antt =====
-- The request handlers of internal/modbusserver/server.go. A handler returns its response, the new
-- register store and the calls of `onWrite` that it makes (where that is not nil), in order.
-- A PDU is matched by its first bytes where the code tests its length and indexes.
pub mod Words
pub mod Bits
pub mod WriteBits
use Prim.Native.Nat.{bit_or}
use tentacle_next.Prelude.{
  ℕ, zero, suc, ◌+◌, ◌-◌, ◌*◌, ◌/◌, ◌%◌, ◌^◌, Bool, true, false, List, [], ◌∷◌, ◌++◌, none, some,
  ltb, ◌==◌, if◌then◌else◌, length, get_elem?, get_or, set, replicate, update,
}
use tentacle_next.Prelude.Bytes.{Bytes, put_uint16, uint16}
use tentacle_next.ModbusServer.Store.{RegisterStore, write_coil, write_holding}

pub data WriteEvent : Type 0 where
  coil_written holding_written : ℕ → WriteEvent

pub record Reply : Type 0 where
  pub response : Bytes
  pub store : RegisterStore
  pub events : List WriteEvent

-- A handler that writes nothing.
abbrev pub answer : Bytes → RegisterStore → Reply
answer response s = record { response = response; store = s; events = [] }

-- resp[2+i/8] |= 1 << uint(i%8), for i from `i` on, `n` times. `bytes` is resp[2:].
unfoldable pub pack_bits : (ℕ → Bool) → ℕ → ℕ → Bytes → Bytes
pack_bits val zero i bytes = bytes
pack_bits val (suc n) i bytes =
    pack_bits val n (i + 1)
      (if val i then set bytes (i / 8) (bit_or (get_or bytes (i / 8) 0) (2 ^ (i % 8))) else bytes)

unfoldable pub handle_read_bits : ℕ → Bytes → Bool → RegisterStore → Reply
unfolding pack_bits
handle_read_bits fc (a1 ∷ a0 ∷ c1 ∷ c0 ∷ rest) is_coil s =
    let addr = uint16 a1 a0 in
    let count = uint16 c1 c0 in
    let byte_count = (count + 7) / 8 in
    let val = λ (i : ℕ). if is_coil then s.coils (addr + i) else s.discretes (addr + i) in
    answer (fc ∷ (byte_count % 256) ∷ pack_bits val count 0 (replicate byte_count 0)) s
handle_read_bits fc _ is_coil s = answer (bit_or fc 0x80 ∷ 0x03 ∷ []) s

-- PutUint16 of `n` registers from an address on.
unfoldable pub put_words : (ℕ → ℕ) → ℕ → ℕ → Bytes
put_words words zero addr = []
put_words words (suc n) addr = put_uint16 (words addr) ++ put_words words n (addr + 1)

unfoldable pub handle_read_words : ℕ → Bytes → Bool → RegisterStore → Reply
unfolding put_words
handle_read_words fc (a1 ∷ a0 ∷ c1 ∷ c0 ∷ rest) is_holding s =
    let addr = uint16 a1 a0 in
    let count = uint16 c1 c0 in
    let words = if is_holding then s.holding else s.input in
    answer (fc ∷ (count * 2 % 256) ∷ put_words words count addr) s
handle_read_words fc _ is_holding s = answer (bit_or fc 0x80 ∷ 0x03 ∷ []) s

unfoldable pub handle_write_single_coil : Bytes → RegisterStore → Reply
unfolding write_coil
handle_write_single_coil (a1 ∷ a0 ∷ v1 ∷ v0 ∷ rest) s =
    let addr = uint16 a1 a0 in
    let raw = uint16 v1 v0 in
    record {
      response = 0x05 ∷ (put_uint16 addr ++ put_uint16 raw);
      store = write_coil addr (raw == 0xFF00) s;
      events = coil_written addr ∷ [];
    }
handle_write_single_coil _ s = answer (0x85 ∷ 0x03 ∷ []) s

unfoldable pub handle_write_single_register : Bytes → RegisterStore → Reply
unfolding write_holding
handle_write_single_register (a1 ∷ a0 ∷ v1 ∷ v0 ∷ rest) s =
    let addr = uint16 a1 a0 in
    let value = uint16 v1 v0 in
    record {
      response = 0x06 ∷ (put_uint16 addr ++ put_uint16 value);
      store = write_holding addr value s;
      events = holding_written addr ∷ [];
    }
handle_write_single_register _ s = answer (0x86 ∷ 0x03 ∷ []) s

-- The loop over the coils stops where the bytes behind the byte count, pdu[6:], end.
unfoldable pub write_coils : Bytes → ℕ → ℕ → ℕ → (ℕ → Bool) → ℕ → Bool
write_coils bytes addr zero i coils = coils
write_coils bytes addr (suc n) i coils = elim (get_elem? bytes (i / 8)) [
  | none ↦ coils
  | some b ↦ write_coils bytes addr n (i + 1) (update coils (addr + i) (b / 2 ^ (i % 8) % 2 == 1))
]

coil_events : ℕ → ℕ → List WriteEvent
coil_events zero addr = []
coil_events (suc n) addr = coil_written addr ∷ coil_events n (addr + 1)

unfoldable pub handle_write_multiple_coils : Bytes → RegisterStore → Reply
unfolding write_coils coil_events
handle_write_multiple_coils (a1 ∷ a0 ∷ c1 ∷ c0 ∷ byte_count ∷ bytes) s =
    let addr = uint16 a1 a0 in
    let count = uint16 c1 c0 in
    if ltb (length bytes) byte_count then answer (0x8F ∷ 0x03 ∷ []) s else record {
      response = 0x0F ∷ (put_uint16 addr ++ put_uint16 count);
      store = record s { coils = write_coils bytes addr count 0 s.coils };
      events = coil_events count addr;
    }
handle_write_multiple_coils _ s = answer (0x8F ∷ 0x03 ∷ []) s

-- holding[addr+i] = the i-th word of the bytes, `n` times.
unfoldable pub write_words : Bytes → ℕ → ℕ → (ℕ → ℕ) → ℕ → ℕ
write_words bytes addr zero holding = holding
write_words (hi ∷ lo ∷ bytes) addr (suc n) holding =
    write_words bytes (addr + 1) n (update holding addr (uint16 hi lo))
write_words _ addr (suc n) holding = holding

unfoldable pub handle_write_multiple_registers : Bytes → RegisterStore → Reply
unfolding write_words
handle_write_multiple_registers (a1 ∷ a0 ∷ c1 ∷ c0 ∷ byte_count ∷ bytes) s =
    let addr = uint16 a1 a0 in
    let count = uint16 c1 c0 in
    if ltb (length bytes) (count * 2) then answer (0x90 ∷ 0x03 ∷ []) s else record {
      response = 0x10 ∷ (put_uint16 addr ++ put_uint16 count);
      store = record s { holding = write_words bytes addr count s.holding };
      events = holding_written addr ∷ [];
    }
handle_write_multiple_registers _ s = answer (0x90 ∷ 0x03 ∷ []) s

unfoldable pub handle_pdu : Bytes → RegisterStore → Reply
handle_pdu [] s = answer (0x81 ∷ 0x01 ∷ []) s
handle_pdu (fc ∷ args) s =
    if fc == 0x01
    then handle_read_bits fc args true s
    else if fc == 0x02
    then handle_read_bits fc args false s
    else if fc == 0x03
    then handle_read_words fc args true s
    else if fc == 0x04
    then handle_read_words fc args false s
    else if fc == 0x05
    then handle_write_single_coil args s
    else if fc == 0x06
    then handle_write_single_register args s
    else if fc == 0x0F
    then handle_write_multiple_coils args s
    else if fc == 0x10
    then handle_write_multiple_registers args s
    else answer (bit_or fc 0x80 ∷ 0x01 ∷ []) s
