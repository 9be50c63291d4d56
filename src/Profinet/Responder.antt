-- ===== src/Profinet/Responder.antt =====
-- internal/profinet/dcp_responder.go: a device's answers to Identify, Set and Get. An operation returns
-- the device, the frame that it sends, and the calls of the callbacks that it makes or starts.
pub mod Answers
pub mod Configured
use tentacle_next.Prelude.{
  ℕ, zero, suc, ◌+◌, ◌%◌, Bool, true, false, not, ◌&&◌, ◌||◌, Option, none, some, List, [], ◌∷◌,
  ◌++◌, ltb, ◌==◌, if◌then◌else◌, length, drop, get_or,
}
use tentacle_next.Prelude.Bytes.{Bytes}
use tentacle_next.Profinet.Dcp.{
  DcpBlock, DcpFrame, Ip, ip, ipv4_zero, is_zero_ip, parse_dcp_frame, name_of_station_block,
  vendor_block, device_id_block, device_role_block, ip_suite_block, device_instance_block,
  device_options_block, dhcp_client_id_block, control_response_block, parse_ip_suite_block,
  is_identify_request, is_set_request, is_get_request, is_option, matches_filter,
}

-- DCPResponder, with the hardware address of its transport.
pub record Responder : Type 0 where
  pub station_name : Bytes
  pub vendor_name : Bytes
  pub vendor_id : ℕ
  pub device_id : ℕ
  pub address : Ip
  pub mask : Ip
  pub gateway : Ip
  pub ip_set : Bool
  pub mac : Bytes

abbrev or_zero : Option Ip → Ip
or_zero none = ipv4_zero
or_zero (some a) = a

-- NewDCPResponder, from the fields of its configuration.
unfoldable pub new_responder :
    Bytes → Bytes → ℕ → ℕ → Option Ip → Option Ip → Option Ip → Bytes → Responder
new_responder name vendor vendor_id device_id address mask gateway mac = record {
  station_name = name;
  vendor_name = vendor;
  vendor_id = vendor_id;
  device_id = device_id;
  address = or_zero address;
  mask = or_zero mask;
  gateway = or_zero gateway;
  ip_set = not (is_zero_ip (or_zero address));
  mac = mac;
}

-- The arguments of a call of OnIPSet.
pub record IpChange : Type 0 where
  pub address : Ip
  pub mask : Ip
  pub gateway : Ip
  pub permanent : Bool

-- What an operation leaves and does.
pub record Outcome : Type 0 where
  pub device : Responder
  pub response : Option DcpFrame
  pub names : List Bytes
  pub ip_change : Option IpChange

abbrev pub silent : Responder → Outcome
silent r = record { device = r; response = none; names = []; ip_change = none }

abbrev pub answer : ℕ → ℕ → DcpFrame → List DcpBlock → DcpFrame
answer frame service req bs = record {
  frame_id = frame;
  service_id = service;
  service_type = 1;
  xid = req.xid;
  response_delay = 0;
  blocks = bs;
}

abbrev pub ip_info : Responder → ℕ
ip_info r = if r.ip_set then 1 else 0

abbrev own_ip_suite : Responder → DcpBlock
own_ip_suite r = ip_suite_block r.address r.mask r.gateway (ip_info r)

unfoldable pub identity_blocks : Responder → List DcpBlock
identity_blocks r =
    name_of_station_block r.station_name
    ∷ vendor_block r.vendor_name
    ∷ device_id_block r.vendor_id r.device_id
    ∷ device_role_block 0x01
    ∷ device_instance_block 0x00 0x01
    ∷ own_ip_suite r
    ∷ []

unfoldable pub identify_response : DcpFrame → Responder → DcpFrame
unfolding identity_blocks
identify_response req r =
    let blocks = identity_blocks r ++ dhcp_client_id_block r.mac ∷ [] in
    answer 0xfeff 0x05 req (blocks ++ device_options_block blocks ∷ [])

-- handleIdentify; the random delay before the answer is left out.
unfoldable pub handle_identify : DcpFrame → Responder → Outcome
unfolding matches_filter identify_response
handle_identify req r =
    if matches_filter r.station_name r.vendor_id r.device_id req
    then record (silent r) { response = some (identify_response req r) }
    else silent r

-- The variables of handleSet's loop.
pub record Setting : Type 0 where
  pub device : Responder
  pub responses : List DcpBlock
  pub names : List Bytes
  pub deferred : Option IpChange

abbrev pub respond : DcpBlock → ℕ → Setting → Setting
respond b code s = record s {
  responses = s.responses ++ control_response_block b.option b.sub_option code ∷ [];
}

configure : Ip → Ip → Ip → Bool → Bool → Setting → Setting
configure address mask gateway is_set permanent s = record s {
  device = record s.device { address = address; mask = mask; gateway = gateway; ip_set = is_set };
  deferred =
      some (record { address = address; mask = mask; gateway = gateway; permanent = permanent });
}

set_ip_suite : DcpBlock → Setting → Setting
unfolding configure parse_ip_suite_block
set_ip_suite b s = elim (parse_ip_suite_block (drop 2 b.payload)) [
  | none ↦ respond b 0x03 s
  | some (address, mask, gateway) ↦
      respond b 0x00 (
        configure address mask gateway (not (is_zero_ip address)) (get_or b.payload 1 0 % 2 == 1) s)
]

-- The name behind the BlockQualifier, if there is one.
unfoldable pub name_in : Bytes → Bytes
name_in (q ∷ r ∷ name) = name
name_in name = name

set_name : Bytes → Setting → Setting
set_name name s = record s {
  device = record s.device { station_name = name };
  names = s.names ++ name ∷ [];
}

-- A round of the loop: one block of a Set request.
unfoldable pub set_block : DcpBlock → Setting → Setting
unfolding set_ip_suite set_name name_in configure
set_block b s =
    if is_option 0x01 0x02 b
    then if ltb (length b.payload) 14 then respond b 0x03 s else set_ip_suite b s
    else if is_option 0x02 0x02 b
    then respond b 0x00 (set_name (name_in b.payload) s)
    else if b.option == 0x03
    then respond b 0x00 (configure ipv4_zero ipv4_zero ipv4_zero false true s)
    else respond b 0x02 s

unfoldable pub set_blocks : List DcpBlock → Setting → Setting
set_blocks [] s = s
set_blocks (b ∷ bs) s = set_blocks bs (set_block b s)

unfoldable pub handle_set : DcpFrame → Responder → Outcome
unfolding set_blocks set_block
handle_set req r =
    let s =
      set_blocks req.blocks (record { device = r; responses = []; names = []; deferred = none }) in
    record {
      device = s.device;
      response = some (answer 0xfefd 0x04 req s.responses);
      names = s.names;
      ip_change = s.deferred;
    }

-- What a block of a Get request is answered with.
unfoldable pub get_block : Responder → DcpBlock → List DcpBlock
unfolding identity_blocks
get_block r b =
    if is_option 0x02 0x02 b
    then name_of_station_block r.station_name ∷ []
    else if is_option 0x02 0x01 b
    then vendor_block r.vendor_name ∷ []
    else if is_option 0x02 0x03 b
    then device_id_block r.vendor_id r.device_id ∷ []
    else if is_option 0x02 0x04 b
    then device_role_block 0x01 ∷ []
    else if is_option 0x02 0x07 b
    then device_instance_block 0x00 0x01 ∷ []
    else if is_option 0x01 0x02 b
    then own_ip_suite r ∷ []
    else if b.option == 0xff
    then identity_blocks r
    else []

unfoldable pub get_blocks : Responder → List DcpBlock → List DcpBlock
unfolding get_block
get_blocks r [] = []
get_blocks r (b ∷ bs) = get_block r b ++ get_blocks r bs

unfoldable pub handle_get : DcpFrame → Responder → Outcome
unfolding get_blocks
handle_get req r = record (silent r) {
  response = some (answer 0xfefd 0x03 req (get_blocks r req.blocks));
}

-- handleDCPFrame
unfoldable pub handle_dcp_frame : DcpFrame → Responder → Outcome
unfolding handle_identify handle_set handle_get
handle_dcp_frame f r =
    if is_identify_request f
    then handle_identify f r
    else if is_set_request f
    then handle_set f r
    else if is_get_request f
    then handle_get f r
    else silent r

-- HandleFrame
unfoldable pub handle_frame : Bytes → Responder → Outcome
unfolding parse_dcp_frame handle_dcp_frame
handle_frame bytes r = elim (parse_dcp_frame bytes) [
  | none ↦ silent r
  | some f ↦ handle_dcp_frame f r
]

-- SetIP and SetStationName
unfoldable pub set_ip : Ip → Ip → Ip → Responder → Responder
set_ip address mask gateway r = record r {
  address = address;
  mask = mask;
  gateway = gateway;
  ip_set = not (is_zero_ip address);
}

unfoldable pub set_station_name : Bytes → Responder → Responder
set_station_name name r = record r { station_name = name }
