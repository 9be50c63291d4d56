-- ===== src/Profinet/Responder/Configured.antt =====
-- internal/profinet: a device as its controller sees it, from the bytes of a Set and of an Identify.
use tentacle_next.Prelude.{
  ℕ, ◌≡◌, refl, sym, ap, ◌∙◌, subst, true, false, Option, some, [], ◌++◌, get_elem?, arith,
}
use tentacle_next.Prelude.Bytes.{Bytes}
use tentacle_next.Profinet.Dcp.{
  DcpFrame, marshal_dcp_frame, name_of_station_block, ip_suite_block, is_identify_request,
  is_set_request, matches_filter, blocks_match,
}
use tentacle_next.Profinet.Dcp.RoundTrip.{IsFrame, parse-marshal_dcp_frame}
use tentacle_next.Profinet.Responder.{
  Responder, Outcome, ip_info, handle_frame, handle_dcp_frame, handle_identify, identify_response,
  handle_set,
}
use tentacle_next.Profinet.Responder.Answers.{
  latest, asked_name, asked_ip, addressed, named, handle_set-Answers,
}

-- The device acts on the frame that was sent.
handle_frame-marshal :
    (f : DcpFrame) (behind : Bytes) (r : Responder)
    → IsFrame f
    → handle_frame (marshal_dcp_frame f ++ behind) r ≡ handle_dcp_frame f r
unfolding handle_frame
handle_frame-marshal f behind r v = rw (parse-marshal_dcp_frame f behind v, handle_frame) refl

set_request-ne_identify : (f : DcpFrame) → is_set_request f ≡ true → is_identify_request f ≡ false
set_request-ne_identify f h = ground arith

handle_dcp_frame-set :
    (f : DcpFrame) (r : Responder) → is_set_request f ≡ true → handle_dcp_frame f r ≡ handle_set f r
unfolding handle_dcp_frame
handle_dcp_frame-set f r h = rw (set_request-ne_identify f h, h) refl

handle_dcp_frame-identify :
    (f : DcpFrame) (r : Responder)
    → is_identify_request f ≡ true
    → handle_dcp_frame f r ≡ handle_identify f r
unfolding handle_dcp_frame
handle_dcp_frame-identify f r h = rw h refl

matches_filter-all :
    (name : Bytes) (vendor_id device_id : ℕ) (ask : DcpFrame)
    → is_identify_request ask ≡ true
    → ask.blocks ≡ []
    → matches_filter name vendor_id device_id ask ≡ true
unfolding matches_filter blocks_match
matches_filter-all name vendor_id device_id ask i all = rw (i, all) refl

-- The device tells its name and its addresses in an answer to `ask`.
abbrev pub Tells : Responder → DcpFrame → Option DcpFrame → Type 0
Tells r ask response =
    (f : DcpFrame) × (response ≡ some f)
    × (f.xid ≡ ask.xid)
    × (get_elem? f.blocks 0 ≡ some (name_of_station_block r.station_name))
    × (get_elem? f.blocks 5 ≡ some (ip_suite_block r.address r.mask r.gateway (ip_info r)))

handle_identify-Tells :
    (ask : DcpFrame) (r : Responder)
    → is_identify_request ask ≡ true
    → ask.blocks ≡ []
    → Tells r ask (handle_identify ask r).response
unfolding handle_identify
handle_identify-Tells ask r i all = (
  identify_response ask r,
  rw (matches_filter-all r.station_name r.vendor_id r.device_id ask i all, handle_identify) refl,
  refl,
  refl,
  refl,
)

-- After a Set request, an Identify request for all devices finds the device with the last station name
-- and the last addresses that the Set asked for, as it was configured before where it asked for none:
-- both requests as the bytes of frames, with any padding, and the answer with the blocks of the name
-- and of the addresses, whose info says whether there is an address.
pub set-identify :
    (set ask : DcpFrame) (behind behind' : Bytes) (r : Responder)
    → IsFrame set
    → IsFrame ask
    → is_set_request set ≡ true
    → is_identify_request ask ≡ true
    → ask.blocks ≡ []
    → let r' = addressed (latest asked_ip set.blocks) (named (latest asked_name set.blocks) r) in
      let after = (handle_frame (marshal_dcp_frame set ++ behind) r).device in
      (after ≡ r') × Tells r' ask (handle_frame (marshal_dcp_frame ask ++ behind') after).response
set-identify set ask behind behind' r v w s i all =
    let r' : Responder =
      addressed (latest asked_ip set.blocks) (named (latest asked_name set.blocks) r) in
    let after : (handle_frame (marshal_dcp_frame set ++ behind) r).device ≡ r' =
      ap (λ (o : Outcome). o.device)
        (handle_frame-marshal set behind r v
          ∙ handle_dcp_frame-set set r s
          ∙ handle_set-Answers set r) in
    let answered : handle_frame (marshal_dcp_frame ask ++ behind') r' ≡ handle_identify ask r' =
      handle_frame-marshal ask behind' r' w ∙ handle_dcp_frame-identify ask r' i in
    (
      after,
      subst
          (λ (d : Responder).
            Tells r' ask (handle_frame (marshal_dcp_frame ask ++ behind') d).response)
          (sym after)
          (subst (λ (o : Outcome). Tells r' ask o.response) (sym answered)
            (handle_identify-Tells ask r' i all)),
    )
