-- ===== src/Profinet/Subscription/Expected.antt =====
-- internal/profinet and internal/profinetcontroller: the submodules that a device expects after the
-- Connect request of a controller.
use tentacle_next.Prelude.{
  zero, suc, ◌+◌, ◌<◌, ◌≤◌, ◌≡◌, refl, ap, ◌∙◌, some, List, [], ◌∷◌, ◌++◌, length, append_assoc,
  append-nil, map, inl, inr, ◌⊎◌, arith,
}
use tentacle_next.Prelude.Bytes.{Bytes, uint16-put}
use tentacle_next.Profinet.Dcp.RoundTrip.{uint32-put}
use tentacle_next.Profinet.Submodules.{
  ExpectedModule, ExpectedApi, parse_submodules, parse_modules, parse_expected_submodule_req,
}
use tentacle_next.Profinet.Subscription.{
  SubslotSubscription, SlotSubscription, build_subslot, build_subslots, build_slots,
  build_expected_submodule_data,
}
use tentacle_next.Profinet.Subscription.Subslots.{
  expected_submodule, FitSubslots, parse_submodules-build_subslot,
}

abbrev pub expected_module : SlotSubscription → ExpectedModule
expected_module slot = record {
  slot_number = slot.slot_number;
  module_ident_number = slot.module_ident_no;
  module_properties = 0;
  submodules = map expected_submodule slot.subslots;
}

-- The numbers of a slot fit in their words.
pub record FitsSlot (slot : SlotSubscription) : Type 0 where
  pub number : slot.slot_number < 65536
  pub ident : slot.module_ident_no < 4294967296
  pub count : length slot.subslots < 65536
  pub subslots : FitSubslots slot.subslots

abbrev pub FitSlots : List SlotSubscription → Type 0
FitSlots [] = Unit {0}
FitSlots (slot ∷ slots) = FitsSlot slot × FitSlots slots

-- The last submodule, if there is one, has input or output.
abbrev pub EndsInData : List SubslotSubscription → Type 0
EndsInData [] = Unit {0}
EndsInData (s ∷ []) = 0 < s.input_size + s.output_size
EndsInData (s ∷ t ∷ subs) = EndsInData (t ∷ subs)

-- So has the last one of the last slot.
abbrev pub LastEndsInData : List SlotSubscription → Type 0
LastEndsInData [] = Unit {0}
LastEndsInData (slot ∷ []) = EndsInData slot.subslots
LastEndsInData (slot ∷ next ∷ slots) = LastEndsInData (next ∷ slots)

pub long-build_subslots :
    (s : SubslotSubscription) (subs : List SubslotSubscription) (behind : Bytes)
    → 4 ≤ length (build_subslots (s ∷ subs) ++ behind)
unfolding build_subslots build_subslot
long-build_subslots s subs behind = omega arith

-- A submodule without data is read only where four bytes follow it.
parse_submodules-build_subslots :
    (subs : List SubslotSubscription) (behind : Bytes)
    → FitSubslots subs
    → (4 ≤ length behind) ⊎ EndsInData subs
    → parse_submodules (length subs) (build_subslots subs ++ behind)
      ≡ (map expected_submodule subs, behind)
unfolding build_subslots
parse_submodules-build_subslots [] behind v enough = unfold parse_submodules in refl
parse_submodules-build_subslots (s ∷ []) behind (v, vs) enough =
    ap (λ (bytes : Bytes). parse_submodules 1 (bytes ++ behind)) (append-nil (build_subslot s))
    ∙ parse_submodules-build_subslot zero s behind v enough
    ∙ (unfold parse_submodules in refl)
parse_submodules-build_subslots (s ∷ t ∷ subs) behind (v, vs) enough =
    rw
      (
        append_assoc (build_subslot s) (build_subslots (t ∷ subs)) behind,
        parse_submodules-build_subslot (suc (length subs)) s (build_subslots (t ∷ subs) ++ behind) v
            (inl (long-build_subslots t subs behind)),
        parse_submodules-build_subslots (t ∷ subs) behind vs enough,
      )
      refl

long-build_slots :
    (slot : SlotSubscription) (slots : List SlotSubscription)
    → 4 ≤ length (build_slots (slot ∷ slots))
unfolding build_slots
long-build_slots slot slots = omega arith

-- A slot, with what stands behind it.
parse_modules-build_slot :
    (slot : SlotSubscription) (slots : List SlotSubscription)
    → FitsSlot slot
    → (4 ≤ length (build_slots slots)) ⊎ EndsInData slot.subslots
    → parse_modules (length (slot ∷ slots)) (build_slots (slot ∷ slots)) ≡ (
      expected_module slot ∷ (parse_modules (length slots) (build_slots slots)).0,
      (parse_modules (length slots) (build_slots slots)).1,
    )
unfolding parse_modules build_slots
parse_modules-build_slot slot slots v enough =
    rw
      (
        uint16-put slot.slot_number v.number,
        uint32-put slot.module_ident_no v.ident,
        uint16-put (length slot.subslots) v.count,
        parse_submodules-build_subslots slot.subslots (build_slots slots) v.subslots enough,
      )
      refl

parse_modules-build_slots :
    (slots : List SlotSubscription)
    → FitSlots slots
    → LastEndsInData slots
    → (parse_modules (length slots) (build_slots slots)).0 ≡ map expected_module slots
parse_modules-build_slots [] v l = unfold parse_modules in refl
parse_modules-build_slots (slot ∷ []) (v, vs) l =
    ap (λ (r : List ExpectedModule × Bytes). r.0) (parse_modules-build_slot slot [] v (inr l))
    ∙ (unfold parse_modules in refl)
parse_modules-build_slots (slot ∷ next ∷ slots) (v, vs) l =
    ap (λ (r : List ExpectedModule × Bytes). r.0)
      (parse_modules-build_slot slot (next ∷ slots) v (inl (long-build_slots next slots)))
    ∙ ap (λ (ms : List ExpectedModule). expected_module slot ∷ ms)
        (parse_modules-build_slots (next ∷ slots) vs l)

-- The APIs that a controller's slots are in: the default one, or none when there are no slots.
abbrev pub expected_apis : List SlotSubscription → List ExpectedApi
expected_apis [] = []
expected_apis (slot ∷ slots) = record { api = 0; modules = map expected_module (slot ∷ slots) } ∷ []

-- A device that reads the block of a controller expects exactly the modules and submodules of the
-- controller's slots, each with the sizes of its input and output, when the numbers fit in their words and the
-- last submodule of the last slot, if it has one, has input or output.
pub parse-build_expected :
    (slots : List SlotSubscription)
    → FitSlots slots
    → length slots < 65536
    → LastEndsInData slots
    → parse_expected_submodule_req (build_expected_submodule_data slots)
      ≡ some (expected_apis slots)
unfolding parse_expected_submodule_req build_expected_submodule_data
parse-build_expected [] v n l = refl
parse-build_expected (slot ∷ slots) v n l =
    rw (uint16-put (length (slot ∷ slots)) n, parse_modules-build_slots (slot ∷ slots) v l) refl
