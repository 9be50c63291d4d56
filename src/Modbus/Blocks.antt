-- ===== src/Modbus/Blocks.antt =====
-- The read plan of a device: buildReadBlocks of internal/modbus/scanner.go. Addresses are not negative.
pub mod Cover
pub mod Fit
use tentacle_next.Prelude.{
  ℕ, ◌+◌, ◌-◌, String, Bool, true, false, not, List, [], ◌∷◌, ◌++◌, ltb, leb, ◌==◌, str_eq,
  if◌then◌else◌,
}
use tentacle_next.Modbus.Protocol.{fc_name_to_code, fc_is_coil_or_discrete}

-- ModbusTagConfig
pub record Tag : Type 0 where
  pub id : String
  pub description : String
  pub address : ℕ
  pub function_code : String
  pub datatype : String
  pub byte_order : String
  pub writable : Bool

pub record TagInBlock : Type 0 where
  pub tag : Tag
  pub offset : ℕ

pub record ReadBlock : Type 0 where
  pub function_code : ℕ
  pub start_addr : ℕ
  pub count : ℕ
  pub tags : List TagInBlock

pub record TagEntry : Type 0 where
  pub tag : Tag
  pub fc : ℕ
  pub addr : ℕ
  pub reg_size : ℕ

abbrev pub max_gap : ℕ
max_gap = 10

unfoldable pub register_count : String → ℕ
register_count datatype =
    if str_eq datatype "int32"
    then 2
    else if str_eq datatype "uint32"
    then 2
    else if str_eq datatype "float32"
    then 2
    else if str_eq datatype "float64"
    then 4
    else 1

abbrev pub entry_of : Tag → TagEntry
entry_of tag =
    let fc = fc_name_to_code tag.function_code in
    record {
      tag = tag;
      fc = fc;
      addr = tag.address;
      reg_size = if fc_is_coil_or_discrete fc then 1 else register_count tag.datatype;
    }

-- groups[fc] = append(groups[fc], entry)
unfoldable pub add_to_group : TagEntry → List (ℕ × List TagEntry) → List (ℕ × List TagEntry)
add_to_group e [] = (e.fc, e ∷ []) ∷ []
add_to_group e ((fc, entries) ∷ groups) =
    let others = add_to_group e groups in
    if e.fc == fc then (fc, entries ++ e ∷ []) ∷ groups else (fc, entries) ∷ others

unfoldable pub group_tags : List Tag → List (ℕ × List TagEntry) → List (ℕ × List TagEntry)
group_tags [] groups = groups
group_tags (tag ∷ tags) groups = group_tags tags (add_to_group (entry_of tag) groups)

-- sort.Slice by address. Its order of equal addresses is open: this one keeps them as they come.
unfoldable pub insert_entry : TagEntry → List TagEntry → List TagEntry
insert_entry e [] = e ∷ []
insert_entry e (f ∷ entries) =
    let rest = insert_entry e entries in if leb e.addr f.addr then e ∷ f ∷ entries else f ∷ rest

unfoldable pub sort_entries : List TagEntry → List TagEntry
sort_entries [] = []
sort_entries (e ∷ entries) = insert_entry e (sort_entries entries)

abbrev pub start_block : ℕ → TagEntry → ReadBlock
start_block fc e = record {
  function_code = fc;
  start_addr = e.addr;
  count = e.reg_size;
  tags = record { tag = e.tag; offset = 0 } ∷ [];
}

unfoldable pub extend_block : ReadBlock → TagEntry → ReadBlock
extend_block current e =
    let new_end = e.addr + e.reg_size in
    record current {
      count =
          if ltb current.count (new_end - current.start_addr)
          then new_end - current.start_addr
          else current.count;
      tags = current.tags ++ record { tag = e.tag; offset = e.addr - current.start_addr } ∷ [];
    }

-- The loop over a group's entries; `gap <= maxGap`, with the subtraction on the other side.
unfoldable pub merge_from : ℕ → ReadBlock → List TagEntry → List ReadBlock
merge_from fc current [] = current ∷ []
merge_from fc current (e ∷ entries) =
    if leb e.addr (current.start_addr + current.count + max_gap)
    then merge_from fc (extend_block current e) entries
    else current ∷ merge_from fc (start_block fc e) entries

unfoldable pub merge_entries : ℕ → List TagEntry → List ReadBlock
merge_entries fc [] = []
merge_entries fc (e ∷ entries) = merge_from fc (start_block fc e) entries

unfoldable pub merge_groups : List (ℕ × List TagEntry) → List ReadBlock
merge_groups [] = []
merge_groups ((fc, entries) ∷ groups) =
    merge_entries fc (sort_entries entries) ++ merge_groups groups

-- The tags come in the order in which the map is read.
unfoldable pub build_read_blocks : List Tag → List ReadBlock
build_read_blocks tags = merge_groups (group_tags tags [])
