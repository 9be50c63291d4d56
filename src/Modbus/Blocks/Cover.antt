-- ===== src/Modbus/Blocks/Cover.antt =====
-- Which tags the read plan reads, and where.
use mathlib.Core.List.{Perm, perm_middle}
use mathlib.Core.List.Perm
use tentacle_next.Prelude.{
  ℕ, ◌+◌, ◌≤◌, List, [], ◌∷◌, ◌++◌, map, map-append, append-nil, append_assoc, leb, ◌==◌, ==_iff,
  ◌≡◌, refl, sym, ap, ◌∙◌, subst, arith, Bool-cases, inl, inr,
}
use tentacle_next.Modbus.Protocol.{fc_name_to_code}
use tentacle_next.Modbus.Blocks.{
  Tag, TagInBlock, ReadBlock, TagEntry, max_gap, entry_of, add_to_group, group_tags, insert_entry,
  sort_entries, start_block, extend_block, merge_from, merge_entries, merge_groups,
  build_read_blocks,
}

-- A tag with the function code and the address at which it is read.
abbrev pub Place : Type 0
Place = Tag × ℕ × ℕ

abbrev place_in : ℕ → ℕ → TagInBlock → Place
place_in fc start t = (t.tag, fc, start + t.offset)

abbrev places : ReadBlock → List Place
places b = map (place_in b.function_code b.start_addr) b.tags

abbrev pub all_places : List ReadBlock → List Place
all_places [] = []
all_places (b ∷ blocks) = places b ++ all_places blocks

abbrev entry_place : ℕ → TagEntry → Place
entry_place fc e = (e.tag, fc, e.addr)

abbrev pub tag_place : Tag → Place
tag_place tag = (tag, fc_name_to_code tag.function_code, tag.address)

abbrev pub AscendsFrom : ℕ → List TagEntry → Type 0
AscendsFrom low [] = Unit {0}
AscendsFrom low (e ∷ entries) = (low ≤ e.addr) × AscendsFrom e.addr entries

lower-AscendsFrom :
    (low high : ℕ) (entries : List TagEntry)
    → low ≤ high
    → AscendsFrom high entries
    → AscendsFrom low entries
lower-AscendsFrom low high [] h a = tt
lower-AscendsFrom low high (e ∷ entries) h a = (omega (arith, a.0), a.1)

insert_entry-AscendsFrom :
    (low : ℕ) (e : TagEntry) (entries : List TagEntry)
    → low ≤ e.addr
    → AscendsFrom low entries
    → AscendsFrom low (insert_entry e entries)
unfolding insert_entry
insert_entry-AscendsFrom low e [] h a = (h, tt)
insert_entry-AscendsFrom low e (f ∷ entries) h a = elim (Bool-cases (leb e.addr f.addr)) [
  | inl x ↦ rw x (h, (ground arith, a.1))
  | inr x ↦ rw x (a.0, insert_entry-AscendsFrom f.addr e entries (ground arith) a.1)
]

pub sort_entries-AscendsFrom : (entries : List TagEntry) → AscendsFrom 0 (sort_entries entries)
unfolding sort_entries
sort_entries-AscendsFrom [] = tt
sort_entries-AscendsFrom (e ∷ entries) =
    insert_entry-AscendsFrom 0 e (sort_entries entries) (omega arith)
      (sort_entries-AscendsFrom entries)

places-extend_block :
    (b : ReadBlock) (e : TagEntry)
    → b.start_addr ≤ e.addr
    → places (extend_block b e) ≡ places b ++ entry_place b.function_code e ∷ []
unfolding extend_block
places-extend_block b e h =
    map-append (place_in b.function_code b.start_addr) b.tags _
    ∙ ap (λ a. places b ++ (e.tag, b.function_code, a) ∷ []) (omega arith)

all_places-merge_from :
    (fc low : ℕ) (current : ReadBlock) (entries : List TagEntry)
    → current.function_code ≡ fc
    → current.start_addr ≤ low
    → AscendsFrom low entries
    → all_places (merge_from fc current entries) ≡ places current ++ map (entry_place fc) entries
unfolding merge_from
all_places-merge_from fc low current [] same below a = refl
all_places-merge_from fc low current (e ∷ entries) same below a =
    elim (Bool-cases (leb e.addr (current.start_addr + current.count + max_gap))) [
      | inl x ↦ rw x (
          all_places-merge_from fc e.addr (extend_block current e) entries
            (unfold extend_block in same) (unfold extend_block in omega (arith, below, a.0)) a.1
          ∙ ap (λ l. l ++ map (entry_place fc) entries)
              (places-extend_block current e (omega (arith, below, a.0)))
          ∙ append_assoc (places current) (entry_place current.function_code e ∷ []) _
          ∙ ap (λ c. places current ++ entry_place c e ∷ map (entry_place fc) entries) same)
      | inr x ↦ rw x (
          ap (λ l. places current ++ l)
            (all_places-merge_from fc e.addr (start_block fc e) entries refl (omega arith) a.1
              ∙ ap (λ z. (e.tag, fc, z) ∷ map (entry_place fc) entries) (omega arith)))
    ]

all_places-merge_entries :
    (fc : ℕ) (entries : List TagEntry)
    → AscendsFrom 0 entries
    → all_places (merge_entries fc entries) ≡ map (entry_place fc) entries
unfolding merge_entries
all_places-merge_entries fc [] a = refl
all_places-merge_entries fc (e ∷ entries) a =
    all_places-merge_from fc e.addr (start_block fc e) entries refl (omega arith) a.1
    ∙ ap (λ z. (e.tag, fc, z) ∷ map (entry_place fc) entries) (omega arith)

insert_entry-Perm :
    (fc : ℕ) (e : TagEntry) (entries : List TagEntry)
    → Perm
        (map (entry_place fc) (insert_entry e entries))
        (entry_place fc e ∷ map (entry_place fc) entries)
unfolding insert_entry
insert_entry-Perm fc e [] = Perm.refl _
insert_entry-Perm fc e (f ∷ entries) = elim (Bool-cases (leb e.addr f.addr)) [
  | inl x ↦ rw x (Perm.refl _)
  | inr x ↦ rw x (
      Perm.trans (Perm.cons (entry_place fc f) (insert_entry-Perm fc e entries))
        (Perm.swap (entry_place fc e) (entry_place fc f) _))
]

sort_entries-Perm :
    (fc : ℕ) (entries : List TagEntry)
    → Perm (map (entry_place fc) (sort_entries entries)) (map (entry_place fc) entries)
unfolding sort_entries
sort_entries-Perm fc [] = Perm.refl []
sort_entries-Perm fc (e ∷ entries) =
    Perm.trans (insert_entry-Perm fc e (sort_entries entries))
      (Perm.cons (entry_place fc e) (sort_entries-Perm fc entries))

abbrev group_places : List (ℕ × List TagEntry) → List Place
group_places [] = []
group_places ((fc, entries) ∷ groups) = map (entry_place fc) entries ++ group_places groups

all_places-append : (a b : List ReadBlock) → all_places (a ++ b) ≡ all_places a ++ all_places b
all_places-append [] b = refl
all_places-append (x ∷ a) b =
    ap (λ l. places x ++ l) (all_places-append a b)
    ∙ sym (append_assoc (places x) (all_places a) (all_places b))

merge_groups-Perm :
    (groups : List (ℕ × List TagEntry))
    → Perm (all_places (merge_groups groups)) (group_places groups)
unfolding merge_groups
merge_groups-Perm [] = Perm.refl []
merge_groups-Perm ((fc, entries) ∷ groups) =
    let sorted = sort_entries entries in
    let here =
      all_places-append (merge_entries fc sorted) (merge_groups groups)
      ∙ ap (λ l. l ++ all_places (merge_groups groups))
          (all_places-merge_entries fc sorted (sort_entries-AscendsFrom entries)) in
    subst (λ l. Perm l (group_places ((fc, entries) ∷ groups))) (sym here)
      (Perm.append (sort_entries-Perm fc entries) (merge_groups-Perm groups))

add_to_group-Perm :
    (e : TagEntry) (groups : List (ℕ × List TagEntry))
    → Perm (group_places (add_to_group e groups)) (entry_place e.fc e ∷ group_places groups)
unfolding add_to_group
add_to_group-Perm e [] = Perm.refl _
add_to_group-Perm e ((fc, entries) ∷ groups) = elim (Bool-cases (e.fc == fc)) [
  | inl x ↦
      let f = entry_place fc in
      let there =
        ap (λ l. l ++ group_places groups) (map-append f entries (e ∷ []))
        ∙ append_assoc (map f entries) (f e ∷ []) (group_places groups) in
      rw x (
        subst (λ l. Perm l (entry_place e.fc e ∷ (map f entries ++ group_places groups)))
          (sym there)
          (subst
            (λ c.
              Perm (map f entries ++ f e ∷ group_places groups)
                (entry_place c e ∷ (map f entries ++ group_places groups)))
            (sym ((==_iff e.fc fc).0 x)) (perm_middle (map f entries) (group_places groups))))
  | inr x ↦ rw x (
      Perm.trans (Perm.append_left (map (entry_place fc) entries) (add_to_group-Perm e groups))
        (perm_middle (map (entry_place fc) entries) (group_places groups)))
]

group_tags-Perm :
    (tags : List Tag) (groups : List (ℕ × List TagEntry))
    → Perm (group_places (group_tags tags groups)) (map tag_place tags ++ group_places groups)
unfolding group_tags
group_tags-Perm [] groups = Perm.refl _
group_tags-Perm (tag ∷ tags) groups =
    Perm.trans (group_tags-Perm tags (add_to_group (entry_of tag) groups)) (
      Perm.trans (Perm.append_left (map tag_place tags) (add_to_group-Perm (entry_of tag) groups))
        (perm_middle (map tag_place tags) (group_places groups)))

-- The read plan has every tag exactly once, and as often as it is given: over all blocks, the tags
-- with the function code of their block and the address where their offset in it lies are, in some
-- order, the given tags with their own function codes and addresses.
pub build_read_blocks-Perm :
    (tags : List Tag) → Perm (all_places (build_read_blocks tags)) (map tag_place tags)
unfolding build_read_blocks
build_read_blocks-Perm tags = Perm.trans (merge_groups-Perm (group_tags tags [])) (
    subst (Perm (group_places (group_tags tags []))) (append-nil (map tag_place tags))
      (group_tags-Perm tags []))
