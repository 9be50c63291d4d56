-- ===== src/Profinet/Dcp.antt =====
-- internal/profinet/dcp.go: frames of the discovery and configuration protocol, their blocks, and the
-- filter of an Identify request. An IPv4 address is its four bytes.
pub mod RoundTrip
pub mod Filter
use tentacle_next.Prelude.{
  ℕ, zero, suc, ◌+◌, ◌-◌, ◌*◌, ◌/◌, ◌%◌, Bool, true, false, not, ◌&&◌, ◌||◌, Option, none, some,
  List, [], ◌∷◌, ◌++◌, ltb, leb, ◌==◌, if◌then◌else◌, length, get_or, take, drop, min,
}
use tentacle_next.Prelude.Bytes.{Bytes, put_uint16, uint16}

pub record DcpBlock : Type 0 where
  pub option : ℕ
  pub sub_option : ℕ
  pub payload : Bytes

pub record DcpFrame : Type 0 where
  pub frame_id : ℕ
  pub service_id : ℕ
  pub service_type : ℕ
  pub xid : ℕ
  pub response_delay : ℕ
  pub blocks : List DcpBlock

-- The loop of ParseDCPFrame on the bytes between its offset and its end: each round takes four bytes
-- at least, so that their number is enough fuel.
unfoldable pub parse_blocks : ℕ → Bytes → List DcpBlock
parse_blocks (suc fuel) (o ∷ s ∷ h ∷ l ∷ rest) =
    let size = uint16 h l in
    let more = parse_blocks fuel (drop (size + size % 2) rest) in
    if ltb (length rest) size
    then []
    else record { option = o; sub_option = s; payload = take size rest } ∷ more
parse_blocks _ _ = []

abbrev pub uint32 : ℕ → ℕ → ℕ → ℕ → ℕ
uint32 a b c d = uint16 a b * 65536 + uint16 c d

abbrev pub put_uint32 : ℕ → Bytes
put_uint32 w = put_uint16 (w / 65536) ++ put_uint16 w

-- ParseDCPFrame
unfoldable pub parse_dcp_frame : Bytes → Option DcpFrame
unfolding parse_blocks
parse_dcp_frame (i ∷ j ∷ service ∷ kind ∷ x0 ∷ x1 ∷ x2 ∷ x3 ∷ r0 ∷ r1 ∷ h ∷ l ∷ rest) =
    some (record {
      frame_id = uint16 i j;
      service_id = service;
      service_type = kind;
      xid = uint32 x0 x1 x2 x3;
      response_delay = uint16 r0 r1;
      blocks = parse_blocks (length (take (uint16 h l) rest)) (take (uint16 h l) rest);
    })
parse_dcp_frame _ = none

-- A block's bytes, padded to an even number.
unfoldable pub marshal_block : DcpBlock → Bytes
marshal_block b =
    b.option
    ∷ b.sub_option
    ∷ (put_uint16 (length b.payload)
        ++ (b.payload ++ (if length b.payload % 2 == 0 then [] else 0 ∷ [])))

unfoldable pub marshal_blocks : List DcpBlock → Bytes
unfolding marshal_block
marshal_blocks [] = []
marshal_blocks (b ∷ bs) = marshal_block b ++ marshal_blocks bs

-- MarshalDCPFrame
unfoldable pub marshal_dcp_frame : DcpFrame → Bytes
unfolding marshal_blocks
marshal_dcp_frame f =
    put_uint16 f.frame_id
    ++ (f.service_id
        ∷ f.service_type
        ∷ (put_uint32 f.xid
            ++ (put_uint16 f.response_delay
                ++ (put_uint16 (length (marshal_blocks f.blocks)) ++ marshal_blocks f.blocks))))

pub data Ip : Type 0 where
  ip : ℕ → ℕ → ℕ → ℕ → Ip

-- copy(data, ip.To4())
abbrev pub ip_bytes : Ip → Bytes
ip_bytes (ip a b c d) = a ∷ b ∷ c ∷ d ∷ []

-- net.IPv4zero
abbrev pub ipv4_zero : Ip
ipv4_zero = ip 0 0 0 0

abbrev pub is_zero_ip : Ip → Bool
is_zero_ip (ip a b c d) = (a == 0 && b == 0) && (c == 0 && d == 0)

abbrev block : ℕ → ℕ → Bytes → DcpBlock
block o s bytes = record { option = o; sub_option = s; payload = bytes }

-- The blocks of a response: two bytes of BlockInfo, then the value.
abbrev pub name_of_station_block : Bytes → DcpBlock
name_of_station_block name = block 0x02 0x02 (0 ∷ 0 ∷ name)

abbrev pub vendor_block : Bytes → DcpBlock
vendor_block vendor = block 0x02 0x01 (0 ∷ 0 ∷ vendor)

abbrev pub device_id_block : ℕ → ℕ → DcpBlock
device_id_block vendor_id device_id =
    block 0x02 0x03 (0 ∷ 0 ∷ (put_uint16 vendor_id ++ put_uint16 device_id))

abbrev pub device_role_block : ℕ → DcpBlock
device_role_block role = block 0x02 0x04 (0 ∷ 0 ∷ role ∷ 0 ∷ [])

abbrev pub ip_suite_block : Ip → Ip → Ip → ℕ → DcpBlock
ip_suite_block addr mask gateway info =
    block 0x01 0x02 (put_uint16 info ++ (ip_bytes addr ++ (ip_bytes mask ++ ip_bytes gateway)))

abbrev pub device_instance_block : ℕ → ℕ → DcpBlock
device_instance_block high low = block 0x02 0x07 (0 ∷ 0 ∷ high ∷ low ∷ [])

abbrev pub options_bytes : List DcpBlock → Bytes
options_bytes [] = []
options_bytes (b ∷ bs) = b.option ∷ b.sub_option ∷ options_bytes bs

abbrev pub device_options_block : List DcpBlock → DcpBlock
device_options_block options = block 0x02 0x05 (0 ∷ 0 ∷ options_bytes options)

abbrev pub dhcp_client_id_block : Bytes → DcpBlock
dhcp_client_id_block mac = block 0x03 0x3d (0 ∷ 0 ∷ 1 ∷ mac)

abbrev pub control_response_block : ℕ → ℕ → ℕ → DcpBlock
control_response_block o s code = block 0x05 0x04 (o ∷ s ∷ code ∷ [])

-- ParseIPSuiteBlock
unfoldable pub parse_ip_suite_block : Bytes → Option (Ip × Ip × Ip)
parse_ip_suite_block (a ∷ b ∷ c ∷ d ∷ e ∷ f ∷ g ∷ h ∷ i ∷ j ∷ k ∷ l ∷ rest) =
    some (ip a b c d, ip e f g h, ip i j k l)
parse_ip_suite_block _ = none

abbrev pub is_request : ℕ → ℕ → DcpFrame → Bool
is_request frame service f = (f.frame_id == frame && f.service_id == service) && f.service_type == 0

abbrev pub is_identify_request : DcpFrame → Bool
is_identify_request f = is_request 0xfefe 0x05 f

abbrev pub is_set_request : DcpFrame → Bool
is_set_request f = is_request 0xfefd 0x04 f

abbrev pub is_get_request : DcpFrame → Bool
is_get_request f = is_request 0xfefd 0x03 f

unfoldable pub same_bytes : Bytes → Bytes → Bool
same_bytes [] [] = true
same_bytes (a ∷ s) (b ∷ t) = a == b && same_bytes s t
same_bytes _ _ = false

-- The ids of a filter: their first four bytes count.
unfoldable pub ids_match : Bytes → ℕ → ℕ → Bool
ids_match (a ∷ b ∷ c ∷ d ∷ rest) vendor_id device_id =
    uint16 a b == vendor_id && uint16 c d == device_id
ids_match _ vendor_id device_id = false

abbrev pub is_option : ℕ → ℕ → DcpBlock → Bool
is_option o s b = b.option == o && b.sub_option == s

-- Whether a block of the filter lets the device through.
unfoldable pub block_matches : Bytes → ℕ → ℕ → DcpBlock → Bool
unfolding same_bytes ids_match
block_matches name vendor_id device_id b =
    if is_option 0xff 0xff b
    then true
    else if is_option 0x02 0x02 b
    then same_bytes b.payload name
    else if is_option 0x02 0x03 b
    then ids_match b.payload vendor_id device_id
    else not (is_option 0x02 0x06 b)

unfoldable pub blocks_match : Bytes → ℕ → ℕ → List DcpBlock → Bool
unfolding block_matches
blocks_match name vendor_id device_id [] = true
blocks_match name vendor_id device_id (b ∷ bs) =
    block_matches name vendor_id device_id b && blocks_match name vendor_id device_id bs

-- MatchesFilter
unfoldable pub matches_filter : Bytes → ℕ → ℕ → DcpFrame → Bool
unfolding blocks_match
matches_filter name vendor_id device_id f =
    is_identify_request f && blocks_match name vendor_id device_id f.blocks
