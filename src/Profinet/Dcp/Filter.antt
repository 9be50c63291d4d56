-- ===== src/Profinet/Dcp/Filter.antt =====
-- internal/profinet/dcp.go: the filter of an Identify request, by what each of its blocks asks.
use tentacle_next.Prelude.{
  ℕ, ◌≡◌, refl, ◌↔◌, Bool, true, false, not, ◌&&◌, List, [], ◌∷◌, ◌==◌, Bool-cases, inl, inr, arith,
}
use tentacle_next.Prelude.Bytes.{Bytes, uint16}
use tentacle_next.Profinet.Dcp.{
  DcpBlock, DcpFrame, is_option, is_identify_request, same_bytes, ids_match, block_matches,
  blocks_match, matches_filter,
}

-- The first four bytes are the two ids.
abbrev pub HasIds : ℕ → ℕ → Bytes → Type 0
HasIds vendor_id device_id (a ∷ b ∷ c ∷ d ∷ rest) =
    (uint16 a b ≡ vendor_id) × (uint16 c d ≡ device_id)
HasIds vendor_id device_id _ = ⊥

-- What a block of a filter asks of a device: its station name, or its ids; no device has an alias.
pub record Admits (name : Bytes) (vendor_id device_id : ℕ) (b : DcpBlock) : Type 0 where
  pub by_name : is_option 0x02 0x02 b ≡ true → b.payload ≡ name
  pub by_ids : is_option 0x02 0x03 b ≡ true → HasIds vendor_id device_id b.payload
  pub by_alias : is_option 0x02 0x06 b ≡ false

same_bytes-eq : (s t : Bytes) → same_bytes s t ≡ true → s ≡ t
unfolding same_bytes
same_bytes-eq [] [] h = refl
same_bytes-eq (a ∷ s) (b ∷ t) h = ground (arith, same_bytes-eq s t)
same_bytes-eq [] (b ∷ t) h = cc
same_bytes-eq (a ∷ s) [] h = cc

same_bytes_self : (s : Bytes) → same_bytes s s ≡ true
unfolding same_bytes
same_bytes_self [] = refl
same_bytes_self (a ∷ s) = ground (arith, same_bytes_self s)

ids_match-HasIds : (v d : ℕ) (bytes : Bytes) → ids_match bytes v d ≡ true → HasIds v d bytes
unfolding ids_match
ids_match-HasIds v d (a ∷ b ∷ c ∷ e ∷ rest) h = ground arith
ids_match-HasIds v d _ h = absurd (cc)

HasIds-ids_match : (v d : ℕ) (bytes : Bytes) → HasIds v d bytes → ids_match bytes v d ≡ true
unfolding ids_match
HasIds-ids_match v d (a ∷ b ∷ c ∷ e ∷ rest) h = ground arith
HasIds-ids_match v d _ h = elim h [ ]

-- The tests of one block, as far as they exclude each other.
selector_only :
    (o s : ℕ)
    → (o == 255 && s == 255) ≡ true
    → ((o == 2 && s == 2) ≡ false) × ((o == 2 && s == 3) ≡ false) × ((o == 2 && s == 6) ≡ false)
selector_only o s h = (ground arith, ground arith, ground arith)

name_only :
    (o s : ℕ)
    → (o == 2 && s == 2) ≡ true
    → ((o == 2 && s == 3) ≡ false) × ((o == 2 && s == 6) ≡ false)
name_only o s h = (ground arith, ground arith)

ids_only : (o s : ℕ) → (o == 2 && s == 3) ≡ true → (o == 2 && s == 6) ≡ false
ids_only o s h = ground arith

is_false : (b : Bool) → not b ≡ true → b ≡ false
is_false true h = cc
is_false false h = refl

block_matches-Admits :
    (name : Bytes) (v d : ℕ) (b : DcpBlock) → block_matches name v d b ≡ true → Admits name v d b
unfolding block_matches
block_matches-Admits name v d b h = elim (Bool-cases (is_option 0xff 0xff b)) [
  | inl e ↦
      let (n, i, a) = selector_only b.option b.sub_option e in
      record { by_name = λ k. cc; by_ids = λ k. absurd (cc); by_alias = a }
  | inr e ↦ elim (Bool-cases (is_option 0x02 0x02 b)) [
    | inl f ↦
        let (i, a) = name_only b.option b.sub_option f in
        record {
          by_name = λ k. same_bytes-eq b.payload name (rw (e, f) at h);
          by_ids = λ k. absurd (cc);
          by_alias = a;
        }
    | inr f ↦ elim (Bool-cases (is_option 0x02 0x03 b)) [
      | inl g ↦ record {
        by_name = λ k. cc;
        by_ids = λ k. ids_match-HasIds v d b.payload (rw (e, f, g) at h);
        by_alias = ids_only b.option b.sub_option g;
      }
      | inr g ↦ record {
        by_name = λ k. cc;
        by_ids = λ k. absurd (cc);
        by_alias = is_false (is_option 0x02 0x06 b) (rw (e, f, g) at h);
      }
    ]
  ]
]

Admits-block_matches :
    (name : Bytes) (v d : ℕ) (b : DcpBlock) → Admits name v d b → block_matches name v d b ≡ true
unfolding block_matches
Admits-block_matches name v d b p = elim (Bool-cases (is_option 0xff 0xff b)) [
  | inl e ↦ rw e refl
  | inr e ↦ elim (Bool-cases (is_option 0x02 0x02 b)) [
    | inl f ↦ rw (e, f, p.by_name f) (same_bytes_self name)
    | inr f ↦ elim (Bool-cases (is_option 0x02 0x03 b)) [
      | inl g ↦ rw (e, f, g) (HasIds-ids_match v d b.payload (p.by_ids g))
      | inr g ↦ rw (e, f, g, p.by_alias) refl
    ]
  ]
]

abbrev pub AllAdmit : Bytes → ℕ → ℕ → List DcpBlock → Type 0
AllAdmit name v d [] = Unit {0}
AllAdmit name v d (b ∷ bs) = Admits name v d b × AllAdmit name v d bs

and_true : (a b : Bool) → (a && b) ≡ true → (a ≡ true) × (b ≡ true)
and_true true b h = (refl, h)
and_true false b h = cc

blocks_match-AllAdmit :
    (name : Bytes) (v d : ℕ) (bs : List DcpBlock)
    → blocks_match name v d bs ≡ true
    → AllAdmit name v d bs
unfolding blocks_match
blocks_match-AllAdmit name v d [] h = tt
blocks_match-AllAdmit name v d (b ∷ bs) h =
    let (first, others) = and_true (block_matches name v d b) (blocks_match name v d bs) h in
    (block_matches-Admits name v d b first, blocks_match-AllAdmit name v d bs others)

AllAdmit-blocks_match :
    (name : Bytes) (v d : ℕ) (bs : List DcpBlock)
    → AllAdmit name v d bs
    → blocks_match name v d bs ≡ true
unfolding blocks_match
AllAdmit-blocks_match name v d [] h = refl
AllAdmit-blocks_match name v d (b ∷ bs) (p, q) =
    rw (Admits-block_matches name v d b p, AllAdmit-blocks_match name v d bs q) refl

-- A device answers to a filter exactly when the frame is an Identify request and each of its blocks
-- admits the device: by its station name where it gives a name, by both ids where it gives ids, and
-- never where it gives an alias. Blocks of all other options admit every device.
pub matches_filter_iff :
    (name : Bytes) (v d : ℕ) (f : DcpFrame)
    → (matches_filter name v d f ≡ true)
      ↔ ((is_identify_request f ≡ true) × AllAdmit name v d f.blocks)
unfolding matches_filter
matches_filter_iff name v d f = (
  λ h.
      let (i, m) = and_true (is_identify_request f) (blocks_match name v d f.blocks) h in
      (i, blocks_match-AllAdmit name v d f.blocks m),
  λ (i, a). rw (i, AllAdmit-blocks_match name v d f.blocks a) refl,
)
