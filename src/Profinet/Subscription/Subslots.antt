-- ===== src/Profinet/Subscription/Subslots.antt =====
-- internal/profinet and internal/profinetcontroller: one submodule of a Connect request, from the controller
-- to the device.
use tentacle_next.Prelude.{
  ℕ, suc, ◌+◌, ◌%◌, ◌<◌, ◌≤◌, ◌≡◌, refl, ap, ◌∙◌, List, [], ◌∷◌, ◌++◌, ltb, if◌then◌else◌, length,
  length-append, Bool-cases, inl, inr, ◌⊎◌, le→ltb_false, arith,
}
use tentacle_next.Prelude.Bytes.{Bytes, put_uint16, uint16-put}
use tentacle_next.Profinet.Dcp.{put_uint32}
use tentacle_next.Profinet.Dcp.RoundTrip.{uint32-put}
use tentacle_next.Profinet.Submodules.{
  SubmoduleDataDesc, ExpectedSubmodule, num_descs, parse_descs, parse_submodules,
}
use tentacle_next.Profinet.Subscription.{SubslotSubscription, build_desc, build_subslot}

-- What a submodule's data looks like: input before output, each where it has a size.
abbrev pub port : ℕ → ℕ → List SubmoduleDataDesc
port direction size =
    if ltb 0 size
    then record { data_direction = direction; data_length = size; length_iops = 1; length_iocs = 1 }
      ∷ []
    else []

-- Bit 0 of the properties tells of input, bit 1 of output.
abbrev bit : ℕ → ℕ → ℕ
bit weight size = if ltb 0 size then weight else 0

abbrev pub expected_submodule : SubslotSubscription → ExpectedSubmodule
expected_submodule s = record {
  subslot_number = s.subslot_number;
  submodule_ident_number = s.submodule_ident_no;
  submodule_properties = bit 1 s.input_size + bit 2 s.output_size;
  data_description = port 1 s.input_size ++ port 2 s.output_size;
}

pub record FitsSubslot (s : SubslotSubscription) : Type 0 where
  pub number : s.subslot_number < 65536
  pub ident : s.submodule_ident_no < 4294967296
  pub input : s.input_size < 65536
  pub output : s.output_size < 65536

abbrev pub FitSubslots : List SubslotSubscription → Type 0
FitSubslots [] = Unit {0}
FitSubslots (s ∷ subs) = FitsSubslot s × FitSubslots subs

-- A header of eight bytes and the descriptions that its properties announce.
parse_header :
    (n number ident properties : ℕ) (body behind : Bytes) (descs : List SubmoduleDataDesc)
    → number < 65536
    → ident < 4294967296
    → properties < 65536
    → 4 ≤ length (body ++ behind)
    → parse_descs (num_descs (properties % 4)) (body ++ behind) ≡ (descs, behind)
    → parse_submodules
        (suc n)
        ((put_uint16 number ++ (put_uint32 ident ++ (put_uint16 properties ++ body))) ++ behind)
      ≡ (
        record {
          subslot_number = number;
          submodule_ident_number = ident;
          submodule_properties = properties;
          data_description = descs;
        }
            ∷ (parse_submodules n behind).0,
        (parse_submodules n behind).1,
      )
unfolding parse_submodules
parse_header n number ident properties body behind descs a b c long parsed =
    rw
      (
        uint16-put number a,
        uint32-put ident b,
        uint16-put properties c,
        le→ltb_false (length (body ++ behind)) 4 long,
        parsed,
      )
      refl

abbrev port_bytes : ℕ → ℕ → Bytes
port_bytes direction size =
    if ltb 0 size then put_uint16 direction ++ (put_uint16 size ++ 1 ∷ 1 ∷ 0 ∷ 0 ∷ []) else []

abbrev ports : SubslotSubscription → Bytes
ports s = port_bytes 1 s.input_size ++ port_bytes 2 s.output_size

abbrev properties : SubslotSubscription → ℕ
properties s = bit 1 s.input_size + bit 2 s.output_size

build_subslot-ports :
    (s : SubslotSubscription)
    → build_subslot s
      ≡ put_uint16 s.subslot_number
        ++ (put_uint32 s.submodule_ident_no ++ (put_uint16 (properties s) ++ ports s))
unfolding build_subslot
build_subslot-ports s = elim (Bool-cases (ltb 0 s.input_size)) [
  | inl i ↦ elim (Bool-cases (ltb 0 s.output_size)) [
    | inl o ↦ rw (i, o, build_desc, i) refl
    | inr o ↦ rw (i, o, build_desc, i) refl
  ]
  | inr i ↦ elim (Bool-cases (ltb 0 s.output_size)) [
    | inl o ↦ rw (i, o, build_desc, i) refl
    | inr o ↦ rw (i, o) refl
  ]
]

parse_descs-ports :
    (s : SubslotSubscription) (behind : Bytes)
    → FitsSubslot s
    → parse_descs (num_descs (properties s % 4)) (ports s ++ behind)
      ≡ (port 1 s.input_size ++ port 2 s.output_size, behind)
unfolding parse_descs
parse_descs-ports s behind v = elim (Bool-cases (ltb 0 s.input_size)) [
  | inl i ↦ elim (Bool-cases (ltb 0 s.output_size)) [
    | inl o ↦ rw (i, o, uint16-put s.input_size v.input, uint16-put s.output_size v.output) refl
    | inr o ↦ rw (i, o, uint16-put s.input_size v.input) refl
  ]
  | inr i ↦ elim (Bool-cases (ltb 0 s.output_size)) [
    | inl o ↦ rw (i, o, uint16-put s.output_size v.output) refl
    | inr o ↦ rw (i, o) refl
  ]
]

length-ports :
    (s : SubslotSubscription) (behind : Bytes)
    → (4 ≤ length behind) ⊎ (0 < s.input_size + s.output_size)
    → 4 ≤ length (ports s ++ behind)
length-ports s behind enough = ground (arith, length-append (ports s) behind)

properties_bound : (s : SubslotSubscription) → properties s < 65536
properties_bound s = ground arith

pub parse_submodules-build_subslot :
    (n : ℕ) (s : SubslotSubscription) (behind : Bytes)
    → FitsSubslot s
    → (4 ≤ length behind) ⊎ (0 < s.input_size + s.output_size)
    → parse_submodules (suc n) (build_subslot s ++ behind)
      ≡ (expected_submodule s ∷ (parse_submodules n behind).0, (parse_submodules n behind).1)
parse_submodules-build_subslot n s behind v enough =
    ap (λ (bytes : Bytes). parse_submodules (suc n) (bytes ++ behind)) (build_subslot-ports s)
    ∙ parse_header n s.subslot_number s.submodule_ident_no (properties s) (ports s) behind
        (port 1 s.input_size ++ port 2 s.output_size) v.number v.ident (properties_bound s)
        (length-ports s behind enough) (parse_descs-ports s behind v)
