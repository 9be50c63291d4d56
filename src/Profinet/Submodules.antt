-- ===== src/Profinet/Submodules.antt =====
-- internal/profinet/pnio_blocks.go: the submodules that a controller expects, read from a block of its
-- Connect request. A loop works on the bytes from its offset on, and returns those that it leaves.
use tentacle_next.Prelude.{
  ℕ, suc, ◌%◌, Option, none, some, List, [], ◌∷◌, ltb, ◌==◌, if◌then◌else◌, length,
}
use tentacle_next.Prelude.Bytes.{Bytes, uint16}
use tentacle_next.Profinet.Dcp.{uint32}

pub record SubmoduleDataDesc : Type 0 where
  pub data_direction : ℕ
  pub data_length : ℕ
  pub length_iops : ℕ
  pub length_iocs : ℕ

pub record ExpectedSubmodule : Type 0 where
  pub subslot_number : ℕ
  pub submodule_ident_number : ℕ
  pub submodule_properties : ℕ
  pub data_description : List SubmoduleDataDesc

pub record ExpectedModule : Type 0 where
  pub slot_number : ℕ
  pub module_ident_number : ℕ
  pub module_properties : ℕ
  pub submodules : List ExpectedSubmodule

pub record ExpectedApi : Type 0 where
  pub api : ℕ
  pub modules : List ExpectedModule

-- The descriptions of a submodule, by the last two bits of its properties: none, one or two.
abbrev pub num_descs : ℕ → ℕ
num_descs kind = if kind == 0 then 0 else if kind == 3 then 2 else 1

unfoldable pub parse_descs : ℕ → Bytes → List SubmoduleDataDesc × Bytes
parse_descs (suc n) (a ∷ b ∷ c ∷ d ∷ iops ∷ iocs ∷ g ∷ h ∷ rest) =
    let (descs, left) = parse_descs n rest in
    (
      record {
        data_direction = uint16 a b;
        data_length = uint16 c d;
        length_iops = iops;
        length_iocs = iocs;
      }
          ∷ descs,
      left,
    )
parse_descs _ bytes = ([], bytes)

-- A submodule is read when twelve bytes are left, the eight of its header and four more.
unfoldable pub parse_submodules : ℕ → Bytes → List ExpectedSubmodule × Bytes
unfolding parse_descs
parse_submodules (suc n) (a ∷ b ∷ c ∷ d ∷ e ∷ f ∷ g ∷ h ∷ rest) =
    let (descs, behind) = parse_descs (num_descs (uint16 g h % 4)) rest in
    let (subs, left) = parse_submodules n behind in
    if ltb (length rest) 4 then ([], a ∷ b ∷ c ∷ d ∷ e ∷ f ∷ g ∷ h ∷ rest) else (
      record {
        subslot_number = uint16 a b;
        submodule_ident_number = uint32 c d e f;
        submodule_properties = uint16 g h;
        data_description = descs;
      }
          ∷ subs,
      left,
    )
parse_submodules _ bytes = ([], bytes)

unfoldable pub parse_modules : ℕ → Bytes → List ExpectedModule × Bytes
unfolding parse_submodules
parse_modules (suc n) (a ∷ b ∷ c ∷ d ∷ e ∷ f ∷ g ∷ h ∷ i ∷ j ∷ rest) =
    let (subs, behind) = parse_submodules (uint16 i j) rest in
    let (modules, left) = parse_modules n behind in
    (
      record {
        slot_number = uint16 a b;
        module_ident_number = uint32 c d e f;
        module_properties = uint16 g h;
        submodules = subs;
      }
          ∷ modules,
      left,
    )
parse_modules _ bytes = ([], bytes)

unfoldable pub parse_apis : ℕ → Bytes → List ExpectedApi
unfolding parse_modules
parse_apis (suc n) (a ∷ b ∷ c ∷ d ∷ e ∷ f ∷ rest) =
    let (modules, left) = parse_modules (uint16 e f) rest in
    record { api = uint32 a b c d; modules = modules } ∷ parse_apis n left
parse_apis _ bytes = []

-- ParseExpectedSubmoduleReq
unfoldable pub parse_expected_submodule_req : Bytes → Option (List ExpectedApi)
unfolding parse_apis
parse_expected_submodule_req (a ∷ b ∷ rest) = some (parse_apis (uint16 a b) rest)
parse_expected_submodule_req _ = none
