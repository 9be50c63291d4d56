-- ===== src/ModbusServer/Session/Client.antt =====
-- The client of internal/modbus against the server of internal/modbusserver, from bytes to bytes.
use tentacle_next.Prelude.{
  ==_iff, le→ltb_false, ℕ, zero, suc, ◌+◌, ◌*◌, ◌/◌, ◌%◌, ◌<◌, some, get_elem?, true, false, List,
  [], ◌∷◌, ◌++◌, ◌≡◌, refl, ap, ◌∙◌, arith, length, take, ◌==◌, append-nil, take-append,
  drop-append,
}
use tentacle_next.Prelude.Bytes.{Bytes, uint16-put}
use tentacle_next.Modbus.Protocol.{encode_mbap_request, build_read_pdu, is_exception_response}
use tentacle_next.Modbus.Client.{
  Device, ReadResult, read_registers, read_request, read_payload, check_exception, data_bytes,
  send_and_receive,
}
use tentacle_next.Modbus.Client.Reads.{reply_frame, receive-encode}
use tentacle_next.ModbusServer.Store.{RegisterStore}
use tentacle_next.ModbusServer.Pdu.{handle_pdu, put_words, handle_read_words}
use tentacle_next.ModbusServer.Session.{
  Session, request, next_frame, serve, response_frame, receive, process, accept,
}
use tentacle_next.ModbusServer.Session.Loop.{run, run-request}
use tentacle_next.ModbusServer.Session.Chunks.{receive_alive}

-- The server finds in the client's frame the transaction, the unit and the PDU that were put in.
pub next_frame-encode :
    (txn unit : ℕ) (pdu : Bytes)
    → txn < 65536
    → 0 < length pdu
    → length pdu + 1 < 65536
    → next_frame (encode_mbap_request txn unit pdu) ≡ request txn unit pdu []
unfolding next_frame encode_mbap_request
next_frame-encode txn unit pdu t h k =
    ground (arith, take-append pdu [], drop-append pdu [], append-nil pdu, uint16-put txn t)

-- The server frames its responses as the client frames its requests.
response_frame-encode :
    (txn unit : ℕ) (response : Bytes)
    → response_frame txn unit response ≡ encode_mbap_request txn unit response
unfolding response_frame encode_mbap_request
response_frame-encode txn unit response = ground arith

==_self : (n : ℕ) → (n == n) ≡ true
==_self n = (==_iff n n).1 refl

-- A request to the server's own unit adds its response to what is sent and changes the store as its
-- handler does.
serve_own :
    (txn : ℕ) (pdu : Bytes) (s : Session)
    → serve txn s.unit_id pdu s ≡ record s {
      store = (handle_pdu pdu s.store).store;
      sent = s.sent ++ encode_mbap_request txn s.unit_id (handle_pdu pdu s.store).response;
      events = s.events ++ (handle_pdu pdu s.store).events;
    }
unfolding serve
serve_own txn pdu s = rw (==_self, serve) (rw response_frame-encode)

-- The length of a PDU that the server can frame.
abbrev Fits : Bytes → Type 0
Fits pdu = (0 < length pdu) × (length pdu + 1 < 65536)

-- One whole request of a client that addresses this server: the response frame is sent and the
-- handler's store and callbacks are the session's.
pub receive_request :
    (txn : ℕ) (pdu : Bytes) (s : Session)
    → txn < 65536
    → Fits pdu
    → s.crashed ≡ false
    → s.pending ≡ []
    → receive (encode_mbap_request txn s.unit_id pdu) s ≡ record s {
      pending = [];
      store = (handle_pdu pdu s.store).store;
      sent = s.sent ++ encode_mbap_request txn s.unit_id (handle_pdu pdu s.store).response;
      events = s.events ++ (handle_pdu pdu s.store).events;
    }
receive_request txn pdu s t fits alive empty =
    receive_alive _ s alive
    ∙ ap (λ (p : Bytes). run (p ++ encode_mbap_request txn s.unit_id pdu) s) empty
    ∙ run-request txn s.unit_id pdu [] _ s (next_frame-encode txn s.unit_id pdu t fits.0 fits.1)
    ∙ unfold process in ap (λ (q : Session). record q { pending = [] }) (serve_own txn pdu s)

length-put_words : (words : ℕ → ℕ) (n addr : ℕ) → length (put_words words n addr) ≡ n * 2
unfolding put_words
length-put_words words zero addr = refl
length-put_words words (suc n) addr = omega (arith, length-put_words words n (addr + 1))

read_holding_response :
    (addr count : ℕ) (s : RegisterStore)
    → addr < 65536
    → count < 65536
    → (handle_pdu (build_read_pdu 3 addr count) s).response
      ≡ 3 ∷ (count * 2 % 256) ∷ put_words s.holding count addr
unfolding handle_pdu handle_read_words build_read_pdu
read_holding_response addr count s ha hc = rw (uint16-put addr ha, uint16-put count hc)

pub take_all : {A : Type 0} (n : ℕ) (xs : List A) → n ≡ length xs → take n xs ≡ xs
take_all zero [] e = refl
take_all zero (x ∷ xs) e = absurd (omega arith)
take_all (suc n) [] e = absurd (omega arith)
take_all (suc n) (x ∷ xs) e = ap (◌∷◌ x) (take_all n xs (omega arith))

read_payload_words :
    (txn unit count addr : ℕ) (words : ℕ → ℕ)
    → read_payload
        (check_exception (reply_frame txn unit 3 ((count * 2 % 256) ∷ put_words words count addr)))
      ≡ data_bytes (take (count * 2 % 256) (put_words words count addr))
unfolding read_payload check_exception is_exception_response
read_payload_words txn unit count addr words = rw (
    le→ltb_false (length (put_words words count addr)) (count * 2 % 256)
      (omega (arith, length-put_words words count addr)))

-- A device that was just connected to, and what it gets from a server whose reply comes in one read.
abbrev pub connected : ℕ → ℕ → Device
connected unit txn = record { unit_id = unit; txn_id = txn; read_buf = [] }

abbrev pub read_over : ℕ → ℕ → ℕ → ℕ → ℕ → RegisterStore → ReadResult
read_over unit txn fc addr count store =
    let d = connected unit txn in
    let served = receive (read_request d fc addr count) (accept unit store) in
    (read_registers d (served.sent ∷ [])).1

pub exchange :
    (unit txn addr count fc : ℕ) (payload : Bytes) (store : RegisterStore)
    → txn < 65536
    → length payload + 2 < 65536
    → (handle_pdu (build_read_pdu fc addr count) store).response ≡ fc ∷ payload
    → read_over unit txn fc addr count store
      ≡ read_payload (check_exception (reply_frame txn unit fc payload))
unfolding read_registers send_and_receive read_request accept
exchange unit txn addr count fc payload store t small r =
    let whole =
      receive_request txn (build_read_pdu fc addr count) (accept unit store) t
        (unfold build_read_pdu in (omega arith, omega arith)) refl refl in
    rw (whole, r, receive-encode txn unit fc payload t small)

-- The byte count of a response is one byte, and wraps: whatever the number of registers that a client
-- reads over a fresh connection, below 32766, it gets the first `count * 2 % 256` bytes of them, and
-- no error.
pub read_registers_wrapped :
    (unit txn addr count : ℕ) (store : RegisterStore)
    → txn < 65536
    → addr < 65536
    → count < 32766
    → read_over unit txn 3 addr count store
      ≡ data_bytes (take (count * 2 % 256) (put_words store.holding count addr))
read_registers_wrapped unit txn addr count store t ha hc =
    exchange unit txn addr count 3 _ store t
      (omega (arith, length-put_words store.holding count addr))
      (read_holding_response addr count store ha (omega arith))
    ∙ read_payload_words txn unit count addr store.holding

-- Bytes that have a word in the place of their i-th register, high byte first.
abbrev pub HasRegister : Bytes → ℕ → ℕ → Type 0
HasRegister bytes i word =
    (get_elem? bytes (i * 2) ≡ some (word / 256 % 256))
    × (get_elem? bytes (i * 2 + 1) ≡ some (word % 256))

put_words-HasRegister :
    (words : ℕ → ℕ) (n addr i : ℕ)
    → i < n
    → HasRegister (put_words words n addr) i (words (addr + i))
unfolding put_words
put_words-HasRegister words zero addr i h = absurd (omega arith)
put_words-HasRegister words (suc n) addr zero h =
    let same : addr ≡ addr + zero = omega arith in
    (ap (λ (a : ℕ). some (words a / 256 % 256)) same, ap (λ (a : ℕ). some (words a % 256)) same)
put_words-HasRegister words (suc n) addr (suc i) h =
    let (high, low) = put_words-HasRegister words n (addr + 1) i (omega arith) in
    let same : addr + 1 + i ≡ addr + suc i = omega arith in
    let bytes = put_words words (suc n) addr in
    let even : suc i * 2 ≡ suc (suc (i * 2)) = omega arith in
    let odd : suc i * 2 + 1 ≡ suc (suc (i * 2 + 1)) = omega arith in
    (
      ap (get_elem? bytes) even ∙ high ∙ ap (λ (a : ℕ). some (words a / 256 % 256)) same,
      ap (get_elem? bytes) odd ∙ low ∙ ap (λ (a : ℕ). some (words a % 256)) same,
    )

-- A client that reads up to 127 holding registers of a server over a fresh connection gets two bytes
-- for each of them and no others, without an error: the i-th pair of bytes is the contents, high byte
-- first, of the server's register at the address asked for plus i.
pub read_holding_registers :
    (unit txn addr count : ℕ) (store : RegisterStore)
    → txn < 65536
    → addr < 65536
    → count < 128
    → (bytes : Bytes) × (read_over unit txn 3 addr count store ≡ data_bytes bytes)
      × (length bytes ≡ count * 2)
      × ((i : ℕ) → i < count → HasRegister bytes i (store.holding (addr + i)))
read_holding_registers unit txn addr count store t ha hc =
    let bytes = put_words store.holding count addr in
    (
      bytes,
      read_registers_wrapped unit txn addr count store t ha (omega arith)
          ∙ ap data_bytes (
              take_all (count * 2 % 256) bytes
                (omega (arith, length-put_words store.holding count addr))),
      length-put_words store.holding count addr,
      put_words-HasRegister store.holding count addr,
    )
