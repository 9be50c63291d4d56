-- ===== src/ModbusServer/Pdu/WriteBits.antt =====
-- Coils that a client writes: the bits of a Write Multiple Coils request.
use tentacle_next.Prelude.{
  ℕ, zero, suc, ◌+◌, ◌-◌, ◌/◌, ◌%◌, ◌^◌, ◌≤◌, ◌<◌, Bool, ◌&&◌, [], ◌∷◌, ◌++◌, ◌≡◌, refl, ◌∙◌, arith,
  length, get_or, get_elem?, ltb→lt, le→ltb_false, ltb, leb, ◌==◌, ==_iff, Bool-cases, inl, inr,
  if◌then◌else◌, none, some,
}
use tentacle_next.Prelude.Bytes.{Bytes, put_uint16, uint16-put}
use tentacle_next.ModbusServer.Store.{RegisterStore}
use tentacle_next.ModbusServer.Pdu.{write_coils, handle_write_multiple_coils, handle_pdu}

-- The coils that a write covers: those whose byte came in.
abbrev covered : Bytes → ℕ → ℕ → Bool
covered bytes n i = ltb i n && ltb (i / 8) (length bytes)

get_elem?-in :
    (bytes : Bytes) (i : ℕ) → i < length bytes → get_elem? bytes i ≡ some (get_or bytes i 0)
get_elem?-in [] i h = absurd (omega arith)
get_elem?-in (x ∷ xs) zero h = refl
get_elem?-in (x ∷ xs) (suc i) h = get_elem?-in xs i (omega arith)

get_elem?-out : (bytes : Bytes) (i : ℕ) → length bytes ≤ i → get_elem? bytes i ≡ none
get_elem?-out [] i h = refl
get_elem?-out (x ∷ xs) zero h = absurd (omega arith)
get_elem?-out (x ∷ xs) (suc i) h = get_elem?-out xs i (omega arith)

-- The value that a request carries for its i-th coil.
abbrev pub coil_in : Bytes → ℕ → Bool
coil_in bytes i = get_or bytes (i / 8) 0 / 2 ^ (i % 8) % 2 == 1

-- After Write Multiple Coils the coils from `addr` on hold the request's bits as far as its bytes go;
-- every other coil is as it was.
write_coils_at :
    (bytes : Bytes) (addr n i : ℕ) (coils : ℕ → Bool) (a : ℕ)
    → write_coils bytes addr n i coils a ≡ (
        if leb (addr + i) a && (ltb a (addr + i + n) && ltb ((a - addr) / 8) (length bytes))
        then coil_in bytes (a - addr)
        else coils a)
unfolding write_coils
write_coils_at bytes addr zero i coils a = ground arith
write_coils_at bytes addr (suc n) i coils a = elim (Bool-cases (ltb (i / 8) (length bytes))) [
  | inl there ↦
      rw (get_elem?-in bytes (i / 8) (ltb→lt _ _ there), write_coils)
        (write_coils_at bytes addr n (i + 1) _ a ∙ elim (Bool-cases (a == addr + i)) [
          | inl here ↦
              let e : a ≡ addr + i = (==_iff _ _).0 here in
              let d : addr + i - addr ≡ i = omega arith in rw (e, d) (ground arith)
          | inr elsewhere ↦ rw elsewhere (ground arith)
        ])
  | inr behind ↦ rw (get_elem?-out bytes (i / 8) (ground arith), write_coils) (ground arith)
]

abbrev pub write_coils_pdu : ℕ → ℕ → ℕ → Bytes → Bytes
write_coils_pdu addr count byte_count bytes =
    0x0F ∷ (put_uint16 addr ++ (put_uint16 count ++ (byte_count ∷ bytes)))

-- A Write Multiple Coils request with at least its announced bytes sets each coil of its range that
-- has a byte to the bit in it and leaves every other coil as it was, those of the range whose byte
-- is missing too; its response acknowledges the whole count all the same.
pub write_multiple_coils :
    (addr count byte_count : ℕ) (bytes : Bytes) (s : RegisterStore) (a : ℕ)
    → addr < 65536
    → count < 65536
    → byte_count ≤ length bytes
    → (let r = handle_pdu (write_coils_pdu addr count byte_count bytes) s in
        (r.response ≡ 0x0F ∷ (put_uint16 addr ++ put_uint16 count))
        × (r.store.coils a ≡ (
            if leb addr a && (ltb a (addr + count) && ltb ((a - addr) / 8) (length bytes))
            then coil_in bytes (a - addr)
            else s.coils a)))
unfolding handle_pdu handle_write_multiple_coils
write_multiple_coils addr count byte_count bytes s a ha hc h =
    let z : addr + 0 ≡ addr = omega arith in
    rw (uint16-put addr ha, uint16-put count hc, le→ltb_false (length bytes) byte_count h)
      (refl, rw z at (write_coils_at bytes addr count 0 s.coils a))
