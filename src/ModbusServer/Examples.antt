-- ===== src/ModbusServer/Examples.antt =====
-- The server at concrete inputs.
use tentacle_next.Prelude.{
  ◌<◌, List, false, ℕ, ◌+◌, ◌-◌, ◌*◌, ◌/◌, true, ◌&&◌, [], ◌∷◌, ◌++◌, ◌≡◌, refl, arith, ltb, leb,
  length, if◌then◌else◌,
}
use tentacle_next.Prelude.Bytes.{Bytes, put_uint16}
use tentacle_next.Modbus.Client.{data_bytes, decode_bool_from_coils}
use tentacle_next.Modbus.Protocol.{encode_mbap_request}
use tentacle_next.ModbusServer.Store.{RegisterStore, new_register_store}
use tentacle_next.Prelude.{inr, ℕ}
use tentacle_next.Modbus.Decode.{arrange_bytes, swap_words}
use tentacle_next.ModbusServer.Words.{flatten, arrange_words, arrangement, to_words, swap_pairs}
use tentacle_next.ModbusServer.Words.Client.{arrange_bytes-arrange_words}
use tentacle_next.ModbusServer.Pdu.{handle_pdu}
use tentacle_next.ModbusServer.Pdu.Words.{
  read-write_registers, read_holding_pdu, write_registers_pdu,
}
use tentacle_next.ModbusServer.Pdu.WriteBits.{write_multiple_coils, write_coils_pdu, coil_in}
use tentacle_next.ModbusServer.Session.{Session, accept, receive}
use tentacle_next.ModbusServer.Session.Chunks.{receive_all, receive_all-concat, concat}
use tentacle_next.ModbusServer.Session.Client.{
  read_over, HasRegister, read_holding_registers, read_registers_wrapped,
}
use tentacle_next.ModbusServer.Session.Coils.{read_bits}
use tentacle_next.ModbusServer.Session.Crash.{Request, AllFit, frames, receive_zero_length}

abbrev store : RegisterStore
store = record new_register_store { coils = λ a. leb 12 a; holding = λ a. a * 3 }

abbrev start : Session
start = accept 1 store

abbrev frame_bytes : Bytes
frame_bytes = 0 ∷ 1 ∷ 0 ∷ 0 ∷ 0 ∷ 6 ∷ 1 ∷ []

receive_all-concat_example :
    receive_all (frame_bytes ∷ (3 ∷ 0 ∷ []) ∷ (10 ∷ 0 ∷ 1 ∷ 0 ∷ []) ∷ []) start
    ≡ receive (concat (frame_bytes ∷ (3 ∷ 0 ∷ []) ∷ (10 ∷ 0 ∷ 1 ∷ 0 ∷ []) ∷ [])) start
receive_all-concat_example =
    receive_all-concat frame_bytes ((3 ∷ 0 ∷ []) ∷ (10 ∷ 0 ∷ 1 ∷ 0 ∷ []) ∷ []) start

read_holding_registers_example :
    (bytes : Bytes) × (read_over 1 77 3 10 2 store ≡ data_bytes bytes)
    × (length bytes ≡ 2 * 2)
    × ((i : ℕ) → i < 2 → HasRegister bytes i (store.holding (10 + i)))
read_holding_registers_example =
    read_holding_registers 1 77 10 2 store (omega arith) (omega arith) (omega arith)

read_registers_wrapped_example : read_over 1 77 3 10 128 store ≡ data_bytes []
read_registers_wrapped_example =
    read_registers_wrapped 1 77 10 128 store (omega arith) (omega arith) (omega arith)

read_bits_example :
    (bytes : Bytes) × (read_over 1 77 1 10 5 store ≡ data_bytes bytes)
    × (decode_bool_from_coils bytes 3 ≡ true)
read_bits_example =
    read_bits true 1 77 10 5 3 store (omega arith) (omega arith) (omega arith) (omega arith)

read-write_registers_example :
    (handle_pdu
      (read_holding_pdu 5 1)
      (handle_pdu (write_registers_pdu 5 1 2 (7 ∷ 8 ∷ [])) store).store).response
    ≡ 0x03 ∷ 2 ∷ 7 ∷ 8 ∷ []
read-write_registers_example =
    read-write_registers 5 1 2 (7 ∷ 8 ∷ []) store (omega arith) (omega arith) (omega arith)
      (omega arith)

abbrev short_coils : Bytes
short_coils = 0x0F ∷ 0 ∷ 0 ∷ 0 ∷ 8 ∷ 2 ∷ 1 ∷ []

write_multiple_coils_example :
    (let r = handle_pdu (write_coils_pdu 0 9 1 (5 ∷ [])) store in
      (r.response ≡ 0x0F ∷ (put_uint16 0 ++ put_uint16 9))
      × (r.store.coils 2 ≡ (
          if leb 0 2 && (ltb 2 (0 + 9) && ltb ((2 - 0) / 8) (length {A = ℕ} (5 ∷ [])))
          then coil_in (5 ∷ []) (2 - 0)
          else store.coils 2)))
write_multiple_coils_example =
    write_multiple_coils 0 9 1 (5 ∷ []) store 2 (omega arith) (omega arith) (omega arith)

-- A write of register 9, and a read of it for another unit.
abbrev two_requests : List Request
two_requests =
    record { txn = 5; unit = 1; pdu = 6 ∷ 0 ∷ 9 ∷ 1 ∷ 2 ∷ [] }
    ∷ record { txn = 6; unit = 2; pdu = 3 ∷ 0 ∷ 9 ∷ 0 ∷ 1 ∷ [] }
    ∷ []

two_requests-AllFit : AllFit two_requests
two_requests-AllFit = (
  record { transaction = omega arith; not_empty = omega arith; size = omega arith },
  (record { transaction = omega arith; not_empty = omega arith; size = omega arith }, tt),
)

-- The frame with length 0 comes in two reads.
reads :
    concat (frames two_requests ∷ (0 ∷ 1 ∷ 0 ∷ []) ∷ (0 ∷ 0 ∷ 0 ∷ 1 ∷ 3 ∷ []) ∷ [])
    ≡ frames two_requests ++ 0 ∷ 1 ∷ 0 ∷ 0 ∷ 0 ∷ 0 ∷ 1 ∷ 3 ∷ []
unfolding encode_mbap_request
reads = refl

receive_zero_length_example :
    ((receive (frames two_requests) start).crashed ≡ false)
    × (receive_all (frames two_requests ∷ (0 ∷ 1 ∷ 0 ∷ []) ∷ (0 ∷ 0 ∷ 0 ∷ 1 ∷ 3 ∷ []) ∷ []) start
        ≡ record (receive (frames two_requests) start) { pending = []; crashed = true })
unfolding accept
receive_zero_length_example =
    receive_zero_length two_requests 0 1 0 0 1 (3 ∷ []) (frames two_requests)
      ((0 ∷ 1 ∷ 0 ∷ []) ∷ (0 ∷ 0 ∷ 0 ∷ 1 ∷ 3 ∷ []) ∷ []) start two_requests-AllFit refl refl reads

-- The two sides take CDAB differently for four words.
long_words_differ :
    arrange_bytes "CDAB" (flatten (arrange_words "CDAB" (1 ∷ 2 ∷ 3 ∷ 4 ∷ [])))
    ≡ 0 ∷ 3 ∷ 0 ∷ 4 ∷ 0 ∷ 1 ∷ 0 ∷ 2 ∷ []
unfolding arrange_bytes swap_words arrange_words arrangement to_words swap_pairs flatten
long_words_differ = refl

arrange_bytes-arrange_words_example :
    arrange_bytes "CDAB" (flatten (arrange_words "CDAB" (7 ∷ 8 ∷ []))) ≡ flatten (7 ∷ 8 ∷ [])
arrange_bytes-arrange_words_example =
    arrange_bytes-arrange_words "CDAB" (7 ∷ 8 ∷ []) (inr (omega arith))
