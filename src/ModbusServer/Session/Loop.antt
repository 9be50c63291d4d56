-- ===== src/ModbusServer/Session/Loop.antt =====
-- The connection loop at the head of its buffer, and its fuel.
use tentacle_next.Prelude.{
  ℕ, zero, suc, ◌+◌, ◌-◌, ◌≤◌, ◌<◌, true, false, [], ◌∷◌, ◌++◌, ◌≡◌, refl, sym, ◌∙◌, arith, length,
  length-append, length-drop, take-append_le, drop-append_le, ltb, Bool-cases, inl, inr,
}
use tentacle_next.Prelude.Bytes.{Bytes, uint16}
use tentacle_next.ModbusServer.Session.{
  Next, wait, crash, request, Session, frame_at, next_frame, serve, process,
}

-- What more bytes behind the buffer change.
abbrev pub Extends : Next → Next → Bytes → Type 0
Extends wait n more = Unit {0}
Extends crash n more = n ≡ crash
Extends (request txn unit pdu rest) n more = n ≡ request txn unit pdu (rest ++ more)

frame_at-append :
    (txn size unit : ℕ) (rest more : Bytes)
    → Extends (frame_at txn size unit rest) (frame_at txn size unit (rest ++ more)) more
unfolding frame_at
frame_at-append txn size unit rest more = elim (Bool-cases (ltb (7 + length rest) (6 + size))) [
  | inl short ↦ rw short tt
  | inr whole ↦
      let still : ltb (7 + length (rest ++ more)) (6 + size) ≡ false =
        rw length-append (ground arith) in
      rw (whole, still)
        (elim (Bool-cases (ltb (6 + size) 7)) [
          | inl empty ↦ rw empty refl
          | inr full ↦
              let fits : 6 + size - 7 ≤ length rest = ground arith in
              rw full (
                rw (
                  take-append_le (6 + size - 7) rest more fits,
                  drop-append_le (6 + size - 7) rest more fits,
                ))
        ])
]

pub next_frame-append :
    (buf more : Bytes) → Extends (next_frame buf) (next_frame (buf ++ more)) more
unfolding next_frame
next_frame-append (t1 ∷ t0 ∷ p1 ∷ p0 ∷ l1 ∷ l0 ∷ unit ∷ rest) more =
    frame_at-append (uint16 t1 t0) (uint16 l1 l0) unit rest more
next_frame-append _ more = tt

-- A request takes seven bytes at least off the buffer.
abbrev pub Shrinks : Next → ℕ → Type 0
Shrinks (request txn unit pdu rest) n = length rest < n
Shrinks _ n = Unit {0}

frame_at-Shrinks :
    (txn size unit : ℕ) (rest : Bytes) (n : ℕ)
    → length rest < n
    → Shrinks (frame_at txn size unit rest) n
unfolding frame_at
frame_at-Shrinks txn size unit rest n h = elim (Bool-cases (ltb (7 + length rest) (6 + size))) [
  | inl short ↦ rw short tt
  | inr whole ↦ rw whole (elim (Bool-cases (ltb (6 + size) 7)) [
    | inl empty ↦ rw empty tt
    | inr full ↦ rw full (rw length-drop (omega arith))
  ])
]

next_frame-Shrinks : (buf : Bytes) → Shrinks (next_frame buf) (length buf)
unfolding next_frame
next_frame-Shrinks (t1 ∷ t0 ∷ p1 ∷ p0 ∷ l1 ∷ l0 ∷ unit ∷ rest) =
    frame_at-Shrinks (uint16 t1 t0) (uint16 l1 l0) unit rest _ (omega arith)
next_frame-Shrinks _ = tt

pub process-wait :
    (f : ℕ) (buf : Bytes) (s : Session)
    → next_frame buf ≡ wait
    → process f buf s ≡ record s { pending = buf }
unfolding process
process-wait zero buf s e = refl
process-wait (suc f) buf s e = rw (e, process)

pub process-crash :
    (f : ℕ) (buf : Bytes) (s : Session)
    → next_frame buf ≡ crash
    → process (suc f) buf s ≡ record s { pending = []; crashed = true }
unfolding process
process-crash f buf s e = rw (e, process)

pub process-request :
    (f txn unit : ℕ) (pdu rest buf : Bytes) (s : Session)
    → next_frame buf ≡ request txn unit pdu rest
    → process (suc f) buf s ≡ process f rest (serve txn unit pdu s)
unfolding process
process-request f txn unit pdu rest buf s e = rw (e, process)

-- A buffer that holds something to act on is not empty.
crash-length : (buf : Bytes) → next_frame buf ≡ crash → 0 < length buf
unfolding next_frame
crash-length [] e = cc
crash-length (b ∷ bs) e = omega arith

pub rest_lt :
    (txn unit : ℕ) (pdu rest buf : Bytes)
    → next_frame buf ≡ request txn unit pdu rest
    → length rest < length buf
rest_lt txn unit pdu rest buf e = rw e at (next_frame-Shrinks buf)

fuel_at :
    (f g : ℕ) (n : Next) (buf : Bytes) (s : Session)
    → next_frame buf ≡ n
    → length buf ≤ f
    → length buf ≤ g
    → process f buf s ≡ process g buf s
fuel_at f g wait buf s e hf hg = process-wait f buf s e ∙ sym (process-wait g buf s e)
fuel_at zero g crash buf s e hf hg = absurd (omega (arith, crash-length buf e))
fuel_at (suc f) zero crash buf s e hf hg = absurd (omega (arith, crash-length buf e))
fuel_at (suc f) (suc g) crash buf s e hf hg =
    process-crash f buf s e ∙ sym (process-crash g buf s e)
fuel_at zero g (request txn unit pdu rest) buf s e hf hg =
    absurd (omega (arith, rest_lt txn unit pdu rest buf e))
fuel_at (suc f) zero (request txn unit pdu rest) buf s e hf hg =
    absurd (omega (arith, rest_lt txn unit pdu rest buf e))
fuel_at (suc f) (suc g) (request txn unit pdu rest) buf s e hf hg =
    let less = rest_lt txn unit pdu rest buf e in
    process-request f txn unit pdu rest buf s e
    ∙ fuel_at f g (next_frame rest) rest (serve txn unit pdu s) refl (omega arith) (omega arith)
    ∙ sym (process-request g txn unit pdu rest buf s e)

-- Any fuel that is at least the buffer's length gives the same session.
pub process_fuel :
    (f g : ℕ) (buf : Bytes) (s : Session)
    → length buf ≤ f
    → length buf ≤ g
    → process f buf s ≡ process g buf s
process_fuel f g buf s = fuel_at f g (next_frame buf) buf s refl

-- The whole loop over a buffer.
abbrev pub run : Bytes → Session → Session
run buf s = process (length buf) buf s

pub run-request :
    (txn unit : ℕ) (pdu rest buf : Bytes) (s : Session)
    → next_frame buf ≡ request txn unit pdu rest
    → run buf s ≡ run rest (serve txn unit pdu s)
run-request txn unit pdu rest buf s e =
    let less = rest_lt txn unit pdu rest buf e in
    process_fuel (length buf) (suc (length buf)) buf s (omega arith) (omega arith)
    ∙ process-request (length buf) txn unit pdu rest buf s e
    ∙ process_fuel (length buf) (length rest) rest _ (omega arith) (omega arith)

pub run-crash :
    (buf : Bytes) (s : Session)
    → next_frame buf ≡ crash
    → run buf s ≡ record s { pending = []; crashed = true }
run-crash buf s e =
    process_fuel (length buf) (suc (length buf)) buf s (omega arith) (omega arith)
    ∙ process-crash (length buf) buf s e
