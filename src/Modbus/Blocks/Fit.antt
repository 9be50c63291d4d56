-- ===== src/Modbus/Blocks/Fit.antt =====
-- The lengths of the read plan's blocks.
use tentacle_next.Prelude.{
  ℕ, ◌+◌, ◌-◌, ◌≤◌, List, [], ◌∷◌, ◌++◌, ltb, leb, ◌==◌, ◌≡◌, refl, arith, Bool-cases, inl, inr,
}
use tentacle_next.Modbus.Blocks.Cover.{AscendsFrom, sort_entries-AscendsFrom}
use tentacle_next.Modbus.Blocks.{
  Tag, TagInBlock, ReadBlock, TagEntry, max_gap, entry_of, add_to_group, group_tags, insert_entry,
  sort_entries, start_block, extend_block, merge_from, merge_entries, merge_groups,
  build_read_blocks,
}

-- The number of registers, coils or inputs that a tag's value takes.
abbrev pub size_of : Tag → ℕ
size_of tag = (entry_of tag).reg_size

abbrev pub AllWithin : ℕ → List TagInBlock → Type 0
AllWithin count [] = Unit {0}
AllWithin count (t ∷ tags) = (t.offset + size_of t.tag ≤ count) × AllWithin count tags

abbrev pub AllFit : List ReadBlock → Type 0
AllFit [] = Unit {0}
AllFit (b ∷ blocks) = AllWithin b.count b.tags × AllFit blocks

abbrev AllSized : List TagEntry → Type 0
AllSized [] = Unit {0}
AllSized (e ∷ entries) = (e.reg_size ≡ size_of e.tag) × AllSized entries

abbrev GroupsSized : List (ℕ × List TagEntry) → Type 0
GroupsSized [] = Unit {0}
GroupsSized (group ∷ groups) = AllSized group.1 × GroupsSized groups

insert_entry-AllSized :
    (e : TagEntry) (entries : List TagEntry)
    → e.reg_size ≡ size_of e.tag
    → AllSized entries
    → AllSized (insert_entry e entries)
unfolding insert_entry
insert_entry-AllSized e [] h a = (h, tt)
insert_entry-AllSized e (f ∷ entries) h a = elim (Bool-cases (leb e.addr f.addr)) [
  | inl x ↦ rw x (h, a)
  | inr x ↦ rw x (a.0, insert_entry-AllSized e entries h a.1)
]

sort_entries-AllSized :
    (entries : List TagEntry) → AllSized entries → AllSized (sort_entries entries)
unfolding sort_entries
sort_entries-AllSized [] a = tt
sort_entries-AllSized (e ∷ entries) a =
    insert_entry-AllSized e (sort_entries entries) a.0 (sort_entries-AllSized entries a.1)

append-AllSized :
    (entries : List TagEntry) (e : TagEntry)
    → e.reg_size ≡ size_of e.tag
    → AllSized entries
    → AllSized (entries ++ e ∷ [])
append-AllSized [] e h a = (h, tt)
append-AllSized (f ∷ entries) e h a = (a.0, append-AllSized entries e h a.1)

add_to_group-GroupsSized :
    (e : TagEntry) (groups : List (ℕ × List TagEntry))
    → e.reg_size ≡ size_of e.tag
    → GroupsSized groups
    → GroupsSized (add_to_group e groups)
unfolding add_to_group
add_to_group-GroupsSized e [] h a = ((h, tt), tt)
add_to_group-GroupsSized e ((fc, entries) ∷ groups) h a = elim (Bool-cases (e.fc == fc)) [
  | inl x ↦ rw x (append-AllSized entries e h a.0, a.1)
  | inr x ↦ rw x (a.0, add_to_group-GroupsSized e groups h a.1)
]

group_tags-GroupsSized :
    (tags : List Tag) (groups : List (ℕ × List TagEntry))
    → GroupsSized groups
    → GroupsSized (group_tags tags groups)
unfolding group_tags
group_tags-GroupsSized [] groups a = a
group_tags-GroupsSized (tag ∷ tags) groups a =
    group_tags-GroupsSized tags _ (add_to_group-GroupsSized (entry_of tag) groups refl a)

longer-AllWithin :
    (short long : ℕ) (tags : List TagInBlock)
    → short ≤ long
    → AllWithin short tags
    → AllWithin long tags
longer-AllWithin short long [] h a = tt
longer-AllWithin short long (t ∷ tags) h a =
    (omega (arith, h, a.0), longer-AllWithin short long tags h a.1)

append-AllWithin :
    (count : ℕ) (tags : List TagInBlock) (t : TagInBlock)
    → AllWithin count tags
    → t.offset + size_of t.tag ≤ count
    → AllWithin count (tags ++ t ∷ [])
append-AllWithin count [] t a h = (h, tt)
append-AllWithin count (u ∷ tags) t a h = (a.0, append-AllWithin count tags t a.1 h)

extend_block-AllWithin :
    (b : ReadBlock) (e : TagEntry)
    → e.reg_size ≡ size_of e.tag
    → b.start_addr ≤ e.addr
    → AllWithin b.count b.tags
    → AllWithin (extend_block b e).count (extend_block b e).tags
unfolding extend_block
extend_block-AllWithin b e h below a =
    let new_count = e.addr + e.reg_size - b.start_addr in
    elim (Bool-cases (ltb b.count new_count)) [
      | inl x ↦ rw x (
          append-AllWithin new_count b.tags _
            (longer-AllWithin b.count new_count b.tags (ground arith) a) (omega (arith, h, below)))
      | inr x ↦ rw x (append-AllWithin b.count b.tags _ a (ground (arith, h, below)))
    ]

merge_from-AllFit :
    (fc low : ℕ) (current : ReadBlock) (entries : List TagEntry)
    → AllSized entries
    → current.start_addr ≤ low
    → AscendsFrom low entries
    → AllWithin current.count current.tags
    → AllFit (merge_from fc current entries)
unfolding merge_from
merge_from-AllFit fc low current [] s below asc a = (a, tt)
merge_from-AllFit fc low current (e ∷ entries) s below asc a =
    elim (Bool-cases (leb e.addr (current.start_addr + current.count + max_gap))) [
      | inl x ↦ rw x (
          merge_from-AllFit fc e.addr (extend_block current e) entries s.1
            (unfold extend_block in omega (arith, below, asc.0)) asc.1
            (extend_block-AllWithin current e s.0 (omega (arith, below, asc.0)) a))
      | inr x ↦ rw x (
        a,
        merge_from-AllFit fc e.addr (start_block fc e) entries s.1 (omega arith) asc.1
            (omega (arith, s.0), tt),
      )
    ]

append-AllFit : (a b : List ReadBlock) → AllFit a → AllFit b → AllFit (a ++ b)
append-AllFit [] b f g = g
append-AllFit (x ∷ a) b f g = (f.0, append-AllFit a b f.1 g)

merge_entries-AllFit :
    (fc : ℕ) (entries : List TagEntry)
    → AllSized entries
    → AscendsFrom 0 entries
    → AllFit (merge_entries fc entries)
unfolding merge_entries
merge_entries-AllFit fc [] s asc = tt
merge_entries-AllFit fc (e ∷ entries) s asc =
    merge_from-AllFit fc e.addr (start_block fc e) entries s.1 (omega arith) asc.1
      (omega (arith, s.0), tt)

merge_groups-AllFit :
    (groups : List (ℕ × List TagEntry)) → GroupsSized groups → AllFit (merge_groups groups)
unfolding merge_groups
merge_groups-AllFit [] s = tt
merge_groups-AllFit ((fc, entries) ∷ groups) s =
    append-AllFit _ _
      (merge_entries-AllFit fc _ (sort_entries-AllSized entries s.0)
        (sort_entries-AscendsFrom entries))
      (merge_groups-AllFit groups s.1)

-- In every block of the read plan every tag lies wholly within the block: its offset and the number of
-- registers that its datatype takes, or the one coil or input, do not exceed the block's count.
pub build_read_blocks-AllFit : (tags : List Tag) → AllFit (build_read_blocks tags)
unfolding build_read_blocks
build_read_blocks-AllFit tags =
    merge_groups-AllFit (group_tags tags []) (group_tags-GroupsSized tags [] tt)
