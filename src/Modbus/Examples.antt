-- ===== src/Modbus/Examples.antt =====
-- The client at concrete inputs: framing and the read plan.
use tentacle_next.Prelude.{[], ◌∷◌, ◌≡◌, refl}
use mathlib.Core.List.{Perm}
use tentacle_next.Prelude.{ℕ, String, false, List, map}
use tentacle_next.Modbus.Blocks.{
  Tag, ReadBlock, build_read_blocks, group_tags, add_to_group, merge_groups, merge_entries,
  merge_from, sort_entries, insert_entry, extend_block, register_count,
}
use tentacle_next.Modbus.Blocks.Cover.{all_places, tag_place, build_read_blocks-Perm}
use tentacle_next.Modbus.Blocks.Fit.{AllFit, build_read_blocks-AllFit}
use tentacle_next.Modbus.Protocol.{fc_name_to_code, fc_is_coil_or_discrete}
use tentacle_next.Modbus.Protocol.{encode_mbap_request, build_read_pdu}

read_request_bytes :
    encode_mbap_request 0x102 7 (build_read_pdu 3 10 2)
    ≡ 1 ∷ 2 ∷ 0 ∷ 0 ∷ 0 ∷ 6 ∷ 7 ∷ 3 ∷ 0 ∷ 10 ∷ 0 ∷ 2 ∷ []
unfolding encode_mbap_request build_read_pdu
read_request_bytes = refl

abbrev tag_at : String → ℕ → Tag
tag_at datatype address = record {
  id = datatype;
  description = "";
  address = address;
  function_code = "holding";
  datatype = datatype;
  byte_order = "";
  writable = false;
}

abbrev plan_tags : List Tag
plan_tags = tag_at "int16" 40 ∷ tag_at "float64" 2 ∷ tag_at "int32" 14 ∷ []

abbrev spans : List ReadBlock → List (ℕ × ℕ)
spans [] = []
spans (b ∷ blocks) = (b.start_addr, b.count) ∷ spans blocks

plan_merges_close_tags : spans (build_read_blocks plan_tags) ≡ (2, 14) ∷ (40, 1) ∷ []
unfolding build_read_blocks group_tags add_to_group merge_groups merge_entries merge_from
    sort_entries insert_entry extend_block register_count fc_name_to_code fc_is_coil_or_discrete
plan_merges_close_tags = refl

build_read_blocks-Perm_example :
    Perm (all_places (build_read_blocks plan_tags)) (map tag_place plan_tags)
build_read_blocks-Perm_example = build_read_blocks-Perm plan_tags

build_read_blocks-AllFit_example : AllFit (build_read_blocks plan_tags)
build_read_blocks-AllFit_example = build_read_blocks-AllFit plan_tags
