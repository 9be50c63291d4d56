-- ===== src/ModbusServer/Session/Chunks.antt =====
-- A stream of bytes and its cuts into chunks.
use native.Mathlib.Nat.{le_refl}
use tentacle_next.Prelude.{
  if◌then◌else◌, ℕ, zero, suc, ◌≤◌, Bool, true, false, List, [], ◌∷◌, ◌++◌, ◌≡◌, refl, sym, ap, ◌∙◌,
  arith, length, append_assoc, append-nil, Bool-cases, inl, inr,
}
use tentacle_next.Prelude.Bytes.{Bytes}
use tentacle_next.ModbusServer.Session.{
  Next, wait, crash, request, Session, next_frame, serve, process, receive,
}
use tentacle_next.ModbusServer.Session.Loop.{
  rest_lt, next_frame-append, process-wait, run, run-request, run-crash,
}

-- What waits does not matter to the loop, which overwrites it.
serve_pending :
    (txn unit : ℕ) (pdu q : Bytes) (s : Session)
    → serve txn unit pdu (record s { pending = q }) ≡ record (serve txn unit pdu s) { pending = q }
unfolding serve
serve_pending txn unit pdu q s = ground arith

serve_crashed :
    (txn unit : ℕ) (pdu : Bytes) (s : Session) → (serve txn unit pdu s).crashed ≡ s.crashed
unfolding serve
serve_crashed txn unit pdu s = ground arith

process_pending :
    (f : ℕ) (n : Next) (buf q : Bytes) (s : Session)
    → next_frame buf ≡ n
    → process f buf (record s { pending = q }) ≡ process f buf s
unfolding process
process_pending zero n buf q s e = refl
process_pending (suc f) wait buf q s e = rw (e, process)
process_pending (suc f) crash buf q s e = rw (e, process)
process_pending (suc f) (request txn unit pdu rest) buf q s e =
    rw (e, process)
      (ap (process f rest) (serve_pending txn unit pdu q s)
        ∙ process_pending f (next_frame rest) rest q (serve txn unit pdu s) refl)

pub receive_alive :
    (y : Bytes) (s : Session) → s.crashed ≡ false → receive y s ≡ run (s.pending ++ y) s
unfolding receive
receive_alive y s e = ap (λ (b : Bool). if b then s else run (s.pending ++ y) s) e

receive_dead : (y : Bytes) (s : Session) → s.crashed ≡ true → receive y s ≡ s
unfolding receive
receive_dead y s e = ap (λ (b : Bool). if b then s else run (s.pending ++ y) s) e

append_at :
    (f : ℕ) (n : Next) (x y : Bytes) (s : Session)
    → next_frame x ≡ n
    → length x ≤ f
    → s.crashed ≡ false
    → run (x ++ y) s ≡ receive y (run x s)
append_at f wait x y s e h alive =
    sym (process_pending (length (x ++ y)) _ (x ++ y) x s refl)
    ∙ sym (receive_alive y (record s { pending = x }) alive)
    ∙ ap (receive y) (sym (process-wait (length x) x s e))
append_at f crash x y s e h alive =
    run-crash (x ++ y) s (rw e at (next_frame-append x y))
    ∙ sym (receive_dead y (record s { pending = []; crashed = true }) refl)
    ∙ ap (receive y) (sym (run-crash x s e))
append_at zero (request txn unit pdu rest) x y s e h alive =
    absurd (omega (arith, rest_lt txn unit pdu rest x e))
append_at (suc f) (request txn unit pdu rest) x y s e h alive =
    let less = rest_lt txn unit pdu rest x e in
    run-request txn unit pdu (rest ++ y) (x ++ y) s (rw e at (next_frame-append x y))
    ∙ append_at f (next_frame rest) rest y (serve txn unit pdu s) refl (omega arith)
        (serve_crashed txn unit pdu s ∙ alive)
    ∙ ap (receive y) (sym (run-request txn unit pdu rest x s e))

receive-receive : (x y : Bytes) (s : Session) → receive y (receive x s) ≡ receive (x ++ y) s
receive-receive x y s = elim (Bool-cases s.crashed) [
  | inl dead ↦
      ap (receive y) (receive_dead x s dead)
      ∙ receive_dead y s dead
      ∙ sym (receive_dead (x ++ y) s dead)
  | inr alive ↦
      ap (receive y) (receive_alive x s alive)
      ∙ sym (append_at _ (next_frame (s.pending ++ x)) (s.pending ++ x) y s refl (le_refl _) alive)
      ∙ ap (λ (b : Bytes). run b s) (append_assoc s.pending x y)
      ∙ sym (receive_alive (x ++ y) s alive)
]

-- A connection's reads, one after the other.
unfoldable pub receive_all : List Bytes → Session → Session
receive_all [] s = s
receive_all (c ∷ cs) s = receive_all cs (receive c s)

abbrev pub concat : List Bytes → Bytes
concat [] = []
concat (c ∷ cs) = c ++ concat cs

-- However the stream is cut into reads, the session that results is the one of a single read of all
-- its bytes: the same responses, register writes and callbacks, and the same bytes still waiting.
pub receive_all-concat :
    (c : Bytes) (cs : List Bytes) (s : Session)
    → receive_all (c ∷ cs) s ≡ receive (concat (c ∷ cs)) s
unfolding receive_all
receive_all-concat c [] s = ap (λ (b : Bytes). receive b s) (sym (append-nil c))
receive_all-concat c (d ∷ ds) s =
    receive_all-concat d ds (receive c s) ∙ receive-receive c (d ++ concat ds) s
