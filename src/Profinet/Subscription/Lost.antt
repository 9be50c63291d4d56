-- ===== src/Profinet/Subscription/Lost.antt =====
-- internal/profinet and internal/profinetcontroller: a submodule without data at the end of a Connect
-- request's block.
use tentacle_next.Prelude.{
  ℕ, zero, suc, ◌+◌, ◌<◌, ◌≤◌, ◌≡◌, refl, ap, ◌∙◌, some, List, [], ◌∷◌, ◌++◌, length, length-append,
  map, inl, append-nil, arith,
}
use tentacle_next.Prelude.Bytes.{Bytes, uint16-put}
use tentacle_next.Profinet.Dcp.RoundTrip.{uint32-put}
use tentacle_next.Profinet.Submodules.{
  ExpectedSubmodule, parse_submodules, parse_expected_submodule_req,
}
use tentacle_next.Profinet.Subscription.{
  SubslotSubscription, SlotSubscription, build_subslot, build_subslots,
  build_expected_submodule_data,
}
use tentacle_next.Profinet.Subscription.Subslots.{
  FitSubslots, expected_submodule, parse_submodules-build_subslot,
}
use tentacle_next.Profinet.Subscription.Expected.{FitsSlot, expected_module}

lost :
    (s : SubslotSubscription) (n : ℕ)
    → s.input_size ≡ 0
    → s.output_size ≡ 0
    → parse_submodules n (build_subslots (s ∷ [])) ≡ ([], build_subslots (s ∷ []))
unfolding parse_submodules build_subslots build_subslot
lost s zero i o = refl
lost s (suc n) i o = rw (i, o) refl

long-build_ending :
    (subs : List SubslotSubscription) (s : SubslotSubscription)
    → 4 ≤ length (build_subslots (subs ++ s ∷ []))
unfolding build_subslots build_subslot
long-build_ending [] s = omega arith
long-build_ending (t ∷ subs) s = omega arith

-- The submodules before it are read.
parse_submodules-lost :
    (subs : List SubslotSubscription) (s : SubslotSubscription)
    → FitSubslots subs
    → s.input_size ≡ 0
    → s.output_size ≡ 0
    → parse_submodules (length (subs ++ s ∷ [])) (build_subslots (subs ++ s ∷ []))
      ≡ (map expected_submodule subs, build_subslots (s ∷ []))
unfolding build_subslots
parse_submodules-lost [] s v i o = lost s 1 i o
parse_submodules-lost (t ∷ subs) s (v, vs) i o =
    let behind = build_subslots (subs ++ s ∷ []) in
    parse_submodules-build_subslot (length (subs ++ s ∷ [])) t behind v
      (inl (long-build_ending subs s))
    ∙ ap (λ (r : List ExpectedSubmodule × Bytes). (expected_submodule t ∷ r.0, r.1))
        (parse_submodules-lost subs s vs i o)

-- When the last submodule of a controller's only slot has neither input nor output, the device does not
-- expect it: the module that it reads has the submodules before it and no other. The numbers fit in their
-- words.
pub parse-build_lost :
    (slot : SlotSubscription) (s : SubslotSubscription)
    → FitsSlot slot
    → length slot.subslots + 1 < 65536
    → s.input_size ≡ 0
    → s.output_size ≡ 0
    → parse_expected_submodule_req
        (build_expected_submodule_data (record slot { subslots = slot.subslots ++ s ∷ [] } ∷ []))
      ≡ some (record { api = 0; modules = expected_module slot ∷ [] } ∷ [])
unfolding parse_expected_submodule_req build_expected_submodule_data
parse-build_lost slot s v n i o =
    rw
      (
        append-nil (build_subslots (slot.subslots ++ s ∷ [])),
        uint16-put slot.slot_number v.number,
        uint32-put slot.module_ident_no v.ident,
        uint16-put (length (slot.subslots ++ s ∷ []))
            (omega (arith, length-append slot.subslots (s ∷ []))),
        parse_submodules-lost slot.subslots s v.subslots i o,
      )
      refl
