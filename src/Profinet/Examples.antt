-- ===== src/Profinet/Examples.antt =====
-- internal/profinet: frames, devices and tests.
use tentacle_next.Prelude.{
  ◌+◌, ◌↔◌, ◌≤◌, ◌≡◌, refl, true, false, none, some, [], ◌∷◌, ◌++◌, length, map, arith,
}
use tentacle_next.Prelude.Bytes.{Bytes}
use tentacle_next.Profinet.Dcp.{
  DcpBlock, DcpFrame, ip, parse_blocks, parse_dcp_frame, marshal_block, marshal_blocks,
  marshal_dcp_frame, is_identify_request, blocks_match, matches_filter,
}
use tentacle_next.Profinet.Dcp.RoundTrip.{IsFrame, parse-marshal_dcp_frame}
use tentacle_next.Profinet.Dcp.Filter.{AllAdmit, matches_filter_iff}
use tentacle_next.Profinet.Responder.{
  Responder, new_responder, handle_set, handle_frame, set_ip, ip_info, answer,
}
use tentacle_next.Profinet.Responder.Answers.{
  latest, asked_name, asked_ip, asked_names, named, addressed, reply, handle_set-Answers,
}
use tentacle_next.Profinet.Responder.Configured.{Tells, set-identify}
use tentacle_next.Profinet.Submodules.{parse_expected_submodule_req}
use tentacle_next.Profinet.Subscription.{
  SubslotSubscription, SlotSubscription, build_expected_submodule_data,
}
use tentacle_next.Profinet.Subscription.Expected.{
  FitsSlot, expected_apis, expected_module, parse-build_expected,
}
use tentacle_next.Profinet.Subscription.Lost.{parse-build_lost}
use tentacle_next.Profinet.Relation.{
  parsed, panics, word_at, ConnectParams, parse_ar_block_req, build_ar_block_data,
}
use tentacle_next.Profinet.Relation.Opening.{
  relation, parse-build_ar_block, parse_ar_block_req-panics,
}

abbrev plc : Bytes
plc = 112 ∷ 108 ∷ 99 ∷ []

abbrev device : Responder
device = new_responder [] plc 0x1234 0x0001 none none none (2 ∷ 0 ∷ 0 ∷ 0 ∷ 0 ∷ 1 ∷ [])

-- A Set request: a name, an IP suite, and an option that cannot be set.
abbrev name_block : DcpBlock
name_block = record { option = 2; sub_option = 2; payload = 0 ∷ 1 ∷ plc }

abbrev suite_block : DcpBlock
suite_block = record {
  option = 1;
  sub_option = 2;
  payload = 0 ∷ 1 ∷ 10 ∷ 0 ∷ 0 ∷ 5 ∷ 255 ∷ 255 ∷ 255 ∷ 0 ∷ 10 ∷ 0 ∷ 0 ∷ 1 ∷ [];
}

abbrev signal_block : DcpBlock
signal_block = record { option = 5; sub_option = 3; payload = 0 ∷ 0 ∷ [] }

abbrev set_request : DcpFrame
set_request = record {
  frame_id = 0xfefd;
  service_id = 4;
  service_type = 0;
  xid = 0x01020304;
  response_delay = 0;
  blocks = name_block ∷ suite_block ∷ signal_block ∷ [];
}

abbrev identify_all : DcpFrame
identify_all = record {
  frame_id = 0xfefe;
  service_id = 5;
  service_type = 0;
  xid = 7;
  response_delay = 1;
  blocks = [];
}

-- An Identify request for one name, without padding or qualifier.
abbrev identify_plc : DcpFrame
identify_plc = record identify_all {
  blocks = record { option = 2; sub_option = 2; payload = plc } ∷ [];
}

set_request-IsFrame : IsFrame set_request
unfolding marshal_blocks marshal_block
set_request-IsFrame = record {
  id = omega arith;
  transaction = omega arith;
  delay = omega arith;
  size = omega arith;
}

identify_all-IsFrame : IsFrame identify_all
unfolding marshal_blocks
identify_all-IsFrame = record {
  id = omega arith;
  transaction = omega arith;
  delay = omega arith;
  size = omega arith;
}

-- The name's block is padded to an even length.
set_request_bytes : length (marshal_dcp_frame set_request) ≡ 12 + 10 + 18 + 6
unfolding marshal_dcp_frame
set_request_bytes = refl

-- A block that is longer than the frame ends the frame.
parse_short_block : parse_blocks 8 (2 ∷ 2 ∷ 0 ∷ 9 ∷ plc) ≡ []
unfolding parse_blocks
parse_short_block = refl

identify_plc_others : matches_filter plc 1 2 identify_plc ≡ true
unfolding matches_filter blocks_match
identify_plc_others = refl

identify_plc_device : matches_filter [] 1 2 identify_plc ≡ false
unfolding matches_filter blocks_match
identify_plc_device = refl

-- The codes of the answers: done, done, and an option that cannot be set.
set_request_codes :
    (handle_set set_request device).response
    ≡ some (
        answer 0xfefd 4 set_request (
          record { option = 5; sub_option = 4; payload = 2 ∷ 2 ∷ 0 ∷ [] }
          ∷ record { option = 5; sub_option = 4; payload = 1 ∷ 2 ∷ 0 ∷ [] }
          ∷ record { option = 5; sub_option = 4; payload = 5 ∷ 3 ∷ 2 ∷ [] }
          ∷ []))
unfolding handle_set
set_request_codes = refl

-- SetIP with an address tells a device that it has one.
set_ip_info : ip_info (set_ip (ip 10 0 0 5) (ip 255 0 0 0) (ip 10 0 0 1) device) ≡ 1
unfolding set_ip new_responder
set_ip_info = refl

-- A module of eight bytes in and four bytes out, and a device access point, which has no data.
abbrev io_subslot : SubslotSubscription
io_subslot = record {
  subslot_number = 1;
  submodule_ident_no = 257;
  input_size = 8;
  output_size = 4;
}

abbrev access_point : SubslotSubscription
access_point = record {
  subslot_number = 1;
  submodule_ident_no = 1;
  input_size = 0;
  output_size = 0;
}

abbrev io_slot : SlotSubscription
io_slot = record { slot_number = 1; module_ident_no = 65537; subslots = io_subslot ∷ [] }

abbrev access_slot : SlotSubscription
access_slot = record { slot_number = 0; module_ident_no = 5; subslots = access_point ∷ [] }

io_slot-FitsSlot : FitsSlot io_slot
io_slot-FitsSlot = record {
  number = omega arith;
  ident = omega arith;
  count = omega arith;
  subslots = (
    record { number = omega arith; ident = omega arith; input = omega arith; output = omega arith },
    tt,
  );
}

access_slot-FitsSlot : FitsSlot access_slot
access_slot-FitsSlot = record {
  number = omega arith;
  ident = omega arith;
  count = omega arith;
  subslots = (
    record { number = omega arith; ident = omega arith; input = omega arith; output = omega arith },
    tt,
  );
}

-- The access point is lost at the end of a block, and read before another slot.
access_slot_lost :
    parse_expected_submodule_req (build_expected_submodule_data (access_slot ∷ []))
    ≡ some (
        record { api = 0; modules = record (expected_module access_slot) { submodules = [] } ∷ [] }
        ∷ [])
unfolding parse_expected_submodule_req build_expected_submodule_data
access_slot_lost = refl

parse-build_expected_example :
    parse_expected_submodule_req (build_expected_submodule_data (access_slot ∷ io_slot ∷ []))
    ≡ some (expected_apis (access_slot ∷ io_slot ∷ []))
parse-build_expected_example =
    parse-build_expected (access_slot ∷ io_slot ∷ []) (access_slot-FitsSlot, (io_slot-FitsSlot, tt))
      (omega arith) (omega arith)

parse-build_lost_example :
    parse_expected_submodule_req (
      build_expected_submodule_data
        (record io_slot { subslots = io_slot.subslots ++ access_point ∷ [] } ∷ []))
    ≡ some (record { api = 0; modules = expected_module io_slot ∷ [] } ∷ [])
parse-build_lost_example =
    parse-build_lost io_slot access_point io_slot-FitsSlot (omega arith) refl refl

parse-marshal_dcp_frame_example :
    parse_dcp_frame (marshal_dcp_frame set_request ++ 0 ∷ 0 ∷ 0 ∷ []) ≡ some set_request
parse-marshal_dcp_frame_example =
    parse-marshal_dcp_frame set_request (0 ∷ 0 ∷ 0 ∷ []) set_request-IsFrame

matches_filter_iff_example :
    (matches_filter plc 1 2 identify_plc ≡ true)
    ↔ ((is_identify_request identify_plc ≡ true) × AllAdmit plc 1 2 identify_plc.blocks)
matches_filter_iff_example = matches_filter_iff plc 1 2 identify_plc

handle_set-Answers_example : handle_set set_request device ≡ record {
  device =
      addressed
        (latest asked_ip set_request.blocks)
        (named (latest asked_name set_request.blocks) device);
  response = some (answer 0xfefd 0x04 set_request (map reply set_request.blocks));
  names = asked_names set_request.blocks;
  ip_change = latest asked_ip set_request.blocks;
}
handle_set-Answers_example = handle_set-Answers set_request device

set-identify_example :
    let r' =
      addressed
        (latest asked_ip set_request.blocks)
        (named (latest asked_name set_request.blocks) device) in
    let after = (handle_frame (marshal_dcp_frame set_request ++ 0 ∷ []) device).device in
    (after ≡ r')
    × Tells r' identify_all (handle_frame (marshal_dcp_frame identify_all ++ []) after).response
set-identify_example =
    set-identify set_request identify_all (0 ∷ []) [] device set_request-IsFrame
      identify_all-IsFrame refl refl refl

abbrev uuid : Bytes
uuid = 1 ∷ 2 ∷ 3 ∷ 4 ∷ 5 ∷ 6 ∷ 7 ∷ 8 ∷ 9 ∷ 10 ∷ 11 ∷ 12 ∷ 13 ∷ 14 ∷ 15 ∷ 16 ∷ []

abbrev params : ConnectParams
params = record { ar_uuid = uuid; local_mac = 2 ∷ 0 ∷ 0 ∷ 0 ∷ 0 ∷ 9 ∷ []; station_name = plc }

parse-build_ar_block_example :
    parse_ar_block_req (build_ar_block_data params) ≡ parsed (relation params)
parse-build_ar_block_example = parse-build_ar_block params refl refl (omega arith)

-- The fields, and the length of a name of 65535 that is not there.
abbrev crash : Bytes
crash = uuid ++ (uuid ++ (uuid ++ 0 ∷ 0 ∷ 255 ∷ 255 ∷ []))

parse_ar_block_req-panics_example :
    (parse_ar_block_req crash ≡ panics) ↔ ((52 ≤ length crash) × (65484 ≤ word_at 50 crash))
parse_ar_block_req-panics_example = parse_ar_block_req-panics crash (omega arith)

crash_panics : parse_ar_block_req crash ≡ panics
unfolding parse_ar_block_req
crash_panics = refl
