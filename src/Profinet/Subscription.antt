-- ===== src/Profinet/Subscription.antt =====
-- internal/profinetcontroller: a controller's slots (types.go), and the block of its Connect request that
-- says what submodules it expects in them (rpc_client.go). The tags of a submodule do not enter it.
pub mod Subslots
pub mod Expected
pub mod Lost
use tentacle_next.Prelude.{
  ℕ, zero, suc, Bool, true, false, ◌&&◌, List, [], ◌∷◌, ◌++◌, ltb, ◌==◌, if◌then◌else◌, length,
}
use tentacle_next.Prelude.Bytes.{Bytes, put_uint16}
use tentacle_next.Profinet.Dcp.{put_uint32}

pub record SubslotSubscription : Type 0 where
  pub subslot_number : ℕ
  pub submodule_ident_no : ℕ
  pub input_size : ℕ
  pub output_size : ℕ

pub record SlotSubscription : Type 0 where
  pub slot_number : ℕ
  pub module_ident_no : ℕ
  pub subslots : List SubslotSubscription

-- The type of a submodule and the number of its descriptions.
abbrev pub sub_type : SubslotSubscription → ℕ × ℕ
sub_type s =
    if ltb 0 s.input_size && ltb 0 s.output_size
    then (3, 2)
    else if ltb 0 s.input_size
    then (1, 1)
    else if ltb 0 s.output_size
    then (2, 1)
    else (0, 0)

abbrev pub build_desc : ℕ → SubslotSubscription → Bytes
build_desc d s =
    if d == 0 && ltb 0 s.input_size
    then put_uint16 1 ++ (put_uint16 s.input_size ++ 1 ∷ 1 ∷ 0 ∷ 0 ∷ [])
    else put_uint16 2 ++ (put_uint16 s.output_size ++ 1 ∷ 1 ∷ 0 ∷ 0 ∷ [])

-- The descriptions from the one with the number d on.
abbrev pub build_descs : ℕ → ℕ → SubslotSubscription → Bytes
build_descs zero d s = []
build_descs (suc n) d s = build_desc d s ++ build_descs n (suc d) s

unfoldable pub build_subslot : SubslotSubscription → Bytes
build_subslot s =
    let (kind, descs) = sub_type s in
    put_uint16 s.subslot_number
    ++ (put_uint32 s.submodule_ident_no ++ (put_uint16 kind ++ build_descs descs 0 s))

unfoldable pub build_subslots : List SubslotSubscription → Bytes
unfolding build_subslot
build_subslots [] = []
build_subslots (s ∷ subs) = build_subslot s ++ build_subslots subs

unfoldable pub build_slots : List SlotSubscription → Bytes
unfolding build_subslots
build_slots [] = []
build_slots (slot ∷ slots) =
    (put_uint16 slot.slot_number
      ++ (put_uint32 slot.module_ident_no
          ++ (put_uint16 0 ++ (put_uint16 (length slot.subslots) ++ build_subslots slot.subslots))))
    ++ build_slots slots

-- buildExpectedSubmoduleData
unfoldable pub build_expected_submodule_data : List SlotSubscription → Bytes
unfolding build_slots
build_expected_submodule_data [] = put_uint16 0
build_expected_submodule_data (slot ∷ slots) =
    put_uint16 1
    ++ (put_uint32 0 ++ (put_uint16 (length (slot ∷ slots)) ++ build_slots (slot ∷ slots)))
