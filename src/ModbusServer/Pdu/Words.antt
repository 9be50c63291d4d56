-- ===== src/ModbusServer/Pdu/Words.antt =====
-- Registers that a client writes and reads, and refused requests.
use tentacle_next.Prelude.{
  ℕ, zero, suc, ◌+◌, ◌*◌, ◌/◌, ◌%◌, ◌≤◌, ◌<◌, Bool, true, false, [], ◌∷◌, ◌++◌, ◌≡◌, ◌⊎◌, inl, inr,
  refl, ap, ◌∙◌, arith, length, take, update, ltb, ◌==◌, Bool-cases, if◌then◌else◌, le→ltb_false,
}
use tentacle_next.Prelude.Bytes.{Bytes, AreBytes, put_uint16, uint16, uint16-put}
use tentacle_next.ModbusServer.Store.{RegisterStore}
use tentacle_next.ModbusServer.Pdu.{
  Reply, put_words, write_words, handle_read_words, handle_write_multiple_registers,
  handle_write_single_register, handle_pdu, handle_read_bits, handle_write_single_coil,
  handle_write_multiple_coils,
}

-- Writing registers leaves those outside the written range as they were.
pub write_words_outside :
    (bytes : Bytes) (addr n : ℕ) (holding : ℕ → ℕ) (a : ℕ)
    → (a < addr) ⊎ (addr + n ≤ a)
    → write_words bytes addr n holding a ≡ holding a
unfolding write_words
write_words_outside bytes addr zero holding a h = refl
write_words_outside [] addr (suc n) holding a h = refl
write_words_outside (b ∷ []) addr (suc n) holding a h = refl
write_words_outside (hi ∷ lo ∷ bytes) addr (suc n) holding a h =
    write_words_outside bytes (addr + 1) n (update holding addr (uint16 hi lo)) a (outside h)
    ∙ ground arith
  where
    outside : (a < addr) ⊎ (addr + suc n ≤ a) → (a < addr + 1) ⊎ (addr + 1 + n ≤ a)
    outside (inl l) = inl (omega arith)
    outside (inr r) = inr (omega arith)

put_words_cong :
    (f g : ℕ → ℕ) (n addr : ℕ)
    → ((a : ℕ) → addr ≤ a → f a ≡ g a)
    → put_words f n addr ≡ put_words g n addr
unfolding put_words
put_words_cong f g zero addr h = refl
put_words_cong f g (suc n) addr h = rw (h addr (omega arith)) (
    ap (λ (b : Bytes). put_uint16 (g addr) ++ b)
      (put_words_cong f g n (addr + 1) (λ a l. h a (omega arith))))

pub high_byte : (hi lo : ℕ) → hi < 256 → lo < 256 → uint16 hi lo / 256 % 256 ≡ hi
high_byte hi lo h k = omega arith

pub low_byte : (hi lo : ℕ) → lo < 256 → uint16 hi lo % 256 ≡ lo
low_byte hi lo k = omega arith

-- Reading back a range of registers that was written gives the bytes that were written.
pub put_words-write_words :
    (bytes : Bytes) (addr n : ℕ) (holding : ℕ → ℕ)
    → AreBytes bytes
    → n * 2 ≤ length bytes
    → put_words (write_words bytes addr n holding) n addr ≡ take (n * 2) bytes
unfolding put_words write_words
put_words-write_words bytes addr zero holding b h = refl
put_words-write_words [] addr (suc n) holding b h = absurd (omega arith)
put_words-write_words (x ∷ []) addr (suc n) holding b h = absurd (omega arith)
put_words-write_words (hi ∷ lo ∷ bytes) addr (suc n) holding b h =
    let written = update holding addr (uint16 hi lo) in
    let first : write_words bytes (addr + 1) n written addr ≡ uint16 hi lo =
      write_words_outside bytes (addr + 1) n written addr (inl (omega arith)) ∙ ground arith in
    let two : suc n * 2 ≡ suc (suc (n * 2)) = omega arith in
    rw (first, two, high_byte hi lo b.0 b.1.0, low_byte hi lo b.1.0)
      (ap (λ (t : Bytes). hi ∷ lo ∷ t)
        (put_words-write_words bytes (addr + 1) n written b.1.1 (omega arith)))

abbrev pub write_registers_pdu : ℕ → ℕ → ℕ → Bytes → Bytes
write_registers_pdu addr count byte_count bytes =
    0x10 ∷ (put_uint16 addr ++ (put_uint16 count ++ (byte_count ∷ bytes)))

abbrev pub read_holding_pdu : ℕ → ℕ → Bytes
read_holding_pdu addr count = 0x03 ∷ (put_uint16 addr ++ put_uint16 count)

-- After a Write Multiple Registers request that carries enough data, a Read Holding Registers request
-- for the same range is answered with the bytes that were written.
pub read-write_registers :
    (addr count byte_count : ℕ) (bytes : Bytes) (s : RegisterStore)
    → addr < 65536
    → count < 65536
    → AreBytes bytes
    → count * 2 ≤ length bytes
    → (handle_pdu
        (read_holding_pdu addr count)
        (handle_pdu (write_registers_pdu addr count byte_count bytes) s).store).response
      ≡ 0x03 ∷ (count * 2 % 256) ∷ take (count * 2) bytes
unfolding handle_pdu handle_read_words handle_write_multiple_registers
read-write_registers addr count byte_count bytes s ha hc b h =
    rw (uint16-put addr ha, uint16-put count hc, le→ltb_false (length bytes) (count * 2) h)
      (ap (λ (t : Bytes). 0x03 ∷ (count * 2 % 256) ∷ t)
        (put_words-write_words bytes addr count s.holding b h))

-- The first byte of a response has its high bit set.
abbrev pub IsException : Bytes → Type 0
IsException [] = Unit {0}
IsException (b ∷ bs) = 128 ≤ b

abbrev Untouched : Reply → RegisterStore → Type 0
Untouched r s = (r.store ≡ s) × (r.events ≡ [])

read_bits-Untouched :
    (fc : ℕ) (args : Bytes) (c : Bool) (s : RegisterStore)
    → Untouched (handle_read_bits fc args c s) s
unfolding handle_read_bits
read_bits-Untouched fc (a1 ∷ a0 ∷ c1 ∷ c0 ∷ rest) c s = (refl, refl)
read_bits-Untouched fc _ c s = (refl, refl)

read_words-Untouched :
    (fc : ℕ) (args : Bytes) (c : Bool) (s : RegisterStore)
    → Untouched (handle_read_words fc args c s) s
unfolding handle_read_words
read_words-Untouched fc (a1 ∷ a0 ∷ c1 ∷ c0 ∷ rest) c s = (refl, refl)
read_words-Untouched fc _ c s = (refl, refl)

single_coil-Untouched :
    (args : Bytes) (s : RegisterStore)
    → IsException (handle_write_single_coil args s).response
    → Untouched (handle_write_single_coil args s) s
unfolding handle_write_single_coil
single_coil-Untouched (a1 ∷ a0 ∷ v1 ∷ v0 ∷ rest) s h = absurd (omega arith)
single_coil-Untouched _ s h = (refl, refl)

single_register-Untouched :
    (args : Bytes) (s : RegisterStore)
    → IsException (handle_write_single_register args s).response
    → Untouched (handle_write_single_register args s) s
unfolding handle_write_single_register
single_register-Untouched (a1 ∷ a0 ∷ v1 ∷ v0 ∷ rest) s h = absurd (omega arith)
single_register-Untouched _ s h = (refl, refl)

multiple_coils-Untouched :
    (args : Bytes) (s : RegisterStore)
    → IsException (handle_write_multiple_coils args s).response
    → Untouched (handle_write_multiple_coils args s) s
unfolding handle_write_multiple_coils
multiple_coils-Untouched (a1 ∷ a0 ∷ c1 ∷ c0 ∷ n ∷ bytes) s h =
    elim (Bool-cases (ltb (length bytes) n)) [
      | inl short ↦ rw short (refl, refl)
      | inr whole ↦ absurd (omega (arith, (rw (whole, handle_write_multiple_coils) at h)))
    ]
multiple_coils-Untouched _ s h = (refl, refl)

multiple_registers-Untouched :
    (args : Bytes) (s : RegisterStore)
    → IsException (handle_write_multiple_registers args s).response
    → Untouched (handle_write_multiple_registers args s) s
unfolding handle_write_multiple_registers
multiple_registers-Untouched (a1 ∷ a0 ∷ c1 ∷ c0 ∷ n ∷ bytes) s h =
    elim (Bool-cases (ltb (length bytes) (uint16 c1 c0 * 2))) [
      | inl short ↦ rw short (refl, refl)
      | inr whole ↦ absurd (omega (arith, (rw (whole, handle_write_multiple_registers) at h)))
    ]
multiple_registers-Untouched _ s h = (refl, refl)

if-Untouched :
    (b : Bool) (x y : Reply) (s : RegisterStore)
    → (IsException x.response → Untouched x s)
    → (IsException y.response → Untouched y s)
    → IsException (if b then x else y).response
    → Untouched (if b then x else y) s
if-Untouched true x y s f g h = f h
if-Untouched false x y s f g h = g h

-- Requests that are refused write no register and call nothing back: whenever the first byte of the
-- response to a PDU is an exception code, 128 or more, the store is unchanged and there is no event.
exception_writes_nothing :
    (pdu : Bytes) (s : RegisterStore)
    → IsException (handle_pdu pdu s).response
    → ((handle_pdu pdu s).store ≡ s) × ((handle_pdu pdu s).events ≡ [])
unfolding handle_pdu
exception_writes_nothing [] s h = (refl, refl)
exception_writes_nothing (fc ∷ args) s h =
    if-Untouched (fc == 1) _ _ s (λ _. read_bits-Untouched fc args true s)
      (if-Untouched (fc == 2) _ _ s (λ _. read_bits-Untouched fc args false s)
        (if-Untouched (fc == 3) _ _ s (λ _. read_words-Untouched fc args true s)
          (if-Untouched (fc == 4) _ _ s (λ _. read_words-Untouched fc args false s)
            (if-Untouched (fc == 5) _ _ s (single_coil-Untouched args s) (
              if-Untouched (fc == 6) _ _ s (single_register-Untouched args s) (
                if-Untouched (fc == 15) _ _ s (multiple_coils-Untouched args s) (
                  if-Untouched (fc == 16) _ _ s (multiple_registers-Untouched args s)
                    (λ _. (refl, refl)))))))))
      h
