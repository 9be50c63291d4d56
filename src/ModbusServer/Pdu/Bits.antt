-- ===== src/ModbusServer/Pdu/Bits.antt =====
-- Coils: the packed bits of a response, as the client of internal/modbus unpacks them.
use Prim.Native.Nat.{bit_and, bit_or}
use tentacle_next.Prelude.{
  ℕ, zero, suc, ◌+◌, ◌*◌, ◌/◌, ◌%◌, ◌^◌, ◌≤◌, ◌<◌, Bool, true, false, not, ◌&&◌, ◌||◌, [], ◌∷◌, ◌≡◌,
  refl, sym, ◌∙◌, arith, length, get_or, get_elem?, set, replicate, length-set, length-replicate,
  ltb→lt, ltb, leb, ◌==◌, ==_iff, Bool-cases, inl, inr, if◌then◌else◌, none, some,
}
use tentacle_next.Prelude.Bytes.{Bytes, AreBytes}
use tentacle_next.Modbus.Client.{decode_bool_from_coils}
use tentacle_next.ModbusServer.Pdu.{pack_bits}

-- A table of truth values, all of which are checked by evaluation.
table : (ℕ → Bool) → ℕ → Bool
table row zero = true
table row (suc size) = table row size && row size

table-row : (row : ℕ → Bool) (size i : ℕ) → table row size ≡ true → i < size → row i ≡ true
unfolding table
table-row row zero i all in_table = absurd (omega arith)
table-row row (suc size) i all in_table = ground (arith, table-row row size i)

abbrev test_bit : ℕ → ℕ → Bool
test_bit x j = not (bit_and x (2 ^ j) == 0)

eqb : Bool → Bool → Bool
eqb true b = b
eqb false b = not b

eqb_sound : (a b : Bool) → eqb a b ≡ true → a ≡ b
unfolding eqb
eqb_sound true b h = sym h
eqb_sound false true h = cc
eqb_sound false false h = refl

abbrev or_agrees : ℕ → Bool
or_agrees n =
    let x = n / 64 in
    let k = n / 8 % 8 in
    let j = n % 8 in
    eqb (test_bit (bit_or x (2 ^ k)) j) (k == j || test_bit x j) && ltb (bit_or x (2 ^ k)) 256

or_table : table or_agrees 16384 ≡ true
unfolding table eqb
or_table = refl

&&_both : (a b : Bool) → a && b ≡ true → (a ≡ true) × (b ≡ true)
&&_both a b h = ground arith

bit_or-bits :
    (x k j : ℕ)
    → x < 256
    → k < 8
    → j < 8
    → (test_bit (bit_or x (2 ^ k)) j ≡ (k == j || test_bit x j)) × (bit_or x (2 ^ k) < 256)
bit_or-bits x k j hx hk hj =
    let n = x * 64 + k * 8 + j in
    let nx : n / 64 ≡ x = omega arith in
    let nk : n / 8 % 8 ≡ k = omega arith in
    let nj : n % 8 ≡ j = omega arith in
    let row = &&_both _ _ (table-row or_agrees 16384 n or_table (omega arith)) in
    (rw (nx, nk, nj) at (eqb_sound _ _ row.0), rw (nx, nk) at (ltb→lt _ _ row.1))

-- Bit `j` of the byte at `b`, false behind the end.
abbrev bit_at : Bytes → ℕ → ℕ → Bool
bit_at bytes b j = elim (get_elem? bytes b) [ none ↦ false | some x ↦ test_bit x j ]

abbrev or_bit : Bytes → ℕ → ℕ → Bytes
or_bit bytes a k = set bytes a (bit_or (get_or bytes a 0) (2 ^ k))

bit_at-or_bit :
    (bytes : Bytes) (a k b j : ℕ)
    → AreBytes bytes
    → a < length bytes
    → k < 8
    → j < 8
    → bit_at (or_bit bytes a k) b j ≡ ((a == b && k == j) || bit_at bytes b j)
bit_at-or_bit [] a k b j h la hk hj = absurd (omega arith)
bit_at-or_bit (x ∷ xs) zero k zero j h la hk hj = (bit_or-bits x k j h.0 hk hj).0
bit_at-or_bit (x ∷ xs) zero k (suc b) j h la hk hj = ground arith
bit_at-or_bit (x ∷ xs) (suc a) k zero j h la hk hj = ground arith
bit_at-or_bit (x ∷ xs) (suc a) k (suc b) j h la hk hj =
    bit_at-or_bit xs a k b j h.1 (omega arith) hk hj ∙ ground arith

AreBytes-or_bit : (bytes : Bytes) (a k : ℕ) → AreBytes bytes → k < 8 → AreBytes (or_bit bytes a k)
AreBytes-or_bit [] a k h hk = tt
AreBytes-or_bit (x ∷ xs) zero k h hk = ((bit_or-bits x k 0 h.0 hk (omega arith)).1, h.1)
AreBytes-or_bit (x ∷ xs) (suc a) k h hk = (h.0, AreBytes-or_bit xs a k h.1 hk)

same_bit : (i j : ℕ) → ((i / 8 == j / 8) && (i % 8 == j % 8)) ≡ (i == j)
same_bit i j = ground arith

decode-or_bit :
    (bytes : Bytes) (i j : ℕ)
    → AreBytes bytes
    → i / 8 < length bytes
    → decode_bool_from_coils (or_bit bytes (i / 8) (i % 8)) j
      ≡ (i == j || decode_bool_from_coils bytes j)
unfolding decode_bool_from_coils
decode-or_bit bytes i j h l =
    bit_at-or_bit bytes (i / 8) (i % 8) (j / 8) (j % 8) h l (omega arith) (omega arith)
    ∙ rw same_bit

abbrev step_bits : (ℕ → Bool) → ℕ → Bytes → Bytes
step_bits val i bytes = if val i then or_bit bytes (i / 8) (i % 8) else bytes

step_bits_lem :
    (val : ℕ → Bool) (i j : ℕ) (bytes : Bytes)
    → AreBytes bytes
    → i / 8 < length bytes
    → decode_bool_from_coils (step_bits val i bytes) j
      ≡ ((i == j && val i) || decode_bool_from_coils bytes j)
step_bits_lem val i j bytes h l = elim (Bool-cases (val i)) [
  | inl on ↦ rw on (decode-or_bit bytes i j h l ∙ ground arith)
  | inr off ↦ rw off (ground arith)
]

AreBytes-step_bits :
    (val : ℕ → Bool) (i : ℕ) (bytes : Bytes) → AreBytes bytes → AreBytes (step_bits val i bytes)
AreBytes-step_bits val i bytes h = elim (Bool-cases (val i)) [
  | inl on ↦ rw on (AreBytes-or_bit bytes (i / 8) (i % 8) h (omega arith))
  | inr off ↦ rw off h
]

length-step_bits :
    (val : ℕ → Bool) (i : ℕ) (bytes : Bytes) → length (step_bits val i bytes) ≡ length bytes
length-step_bits val i bytes = elim (Bool-cases (val i)) [
  | inl on ↦ rw on (length-set bytes (i / 8) _)
  | inr off ↦ rw off refl
]

-- Packing `n` values from the i-th on sets exactly the bits of those that are true.
pub decode-pack_bits :
    (val : ℕ → Bool) (n i j : ℕ) (bytes : Bytes)
    → AreBytes bytes
    → i + n ≤ 8 * length bytes
    → decode_bool_from_coils (pack_bits val n i bytes) j
      ≡ ((leb i j && (ltb j (i + n) && val j)) || decode_bool_from_coils bytes j)
unfolding pack_bits
decode-pack_bits val zero i j bytes h fits = ground arith
decode-pack_bits val (suc n) i j bytes h fits =
    decode-pack_bits val n (i + 1) j (step_bits val i bytes) (AreBytes-step_bits val i bytes h)
      (omega (arith, length-step_bits val i bytes))
    ∙ rw (step_bits_lem val i j bytes h (omega arith)) (window (decode_bool_from_coils bytes j))
  where
    window :
        (d : Bool)
        → (leb (i + 1) j && (ltb j (i + 1 + n) && val j) || (i == j && val i || d))
          ≡ (leb i j && (ltb j (i + suc n) && val j) || d)
    window d = elim (Bool-cases (i == j)) [
      | inl same ↦ let e : i ≡ j = (==_iff i j).0 same in rw e (ground arith)
      | inr other ↦ rw other (ground arith)
    ]

AreBytes-zeros : (n : ℕ) → AreBytes (replicate n 0)
AreBytes-zeros zero = tt
AreBytes-zeros (suc n) = (omega arith, AreBytes-zeros n)

bit_at-zeros : (n b j : ℕ) → j < 8 → bit_at (replicate n 0) b j ≡ false
unfolding table eqb
bit_at-zeros zero b j h = refl
bit_at-zeros (suc n) zero j h = no_bits j h
  where
    no_bits : (j : ℕ) → j < 8 → test_bit 0 j ≡ false
    no_bits j h = eqb_sound _ _ (table-row (λ k. eqb (test_bit 0 k) false) 8 j refl h)
bit_at-zeros (suc n) (suc b) j h = bit_at-zeros n b j h

decode-zeros : (n i : ℕ) → decode_bool_from_coils (replicate n 0) i ≡ false
unfolding decode_bool_from_coils
decode-zeros n i = bit_at-zeros n (i / 8) (i % 8) (omega arith)

-- The client finds at each offset of a response's bytes the value that the server packed there.
pub decode_packed :
    (val : ℕ → Bool) (count i : ℕ)
    → i < count
    → decode_bool_from_coils (pack_bits val count 0 (replicate ((count + 7) / 8) 0)) i ≡ val i
decode_packed val count i h =
    decode-pack_bits val count 0 i _ (AreBytes-zeros _) (rw length-replicate (omega arith))
    ∙ rw (decode-zeros ((count + 7) / 8) i) (ground arith)

pub length-pack_bits :
    (val : ℕ → Bool) (n i : ℕ) (bytes : Bytes) → length (pack_bits val n i bytes) ≡ length bytes
unfolding pack_bits
length-pack_bits val zero i bytes = refl
length-pack_bits val (suc n) i bytes =
    length-pack_bits val n (i + 1) (step_bits val i bytes) ∙ length-step_bits val i bytes
