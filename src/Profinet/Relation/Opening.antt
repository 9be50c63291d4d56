-- ===== src/Profinet/Relation/Opening.antt =====
-- internal/profinet and internal/profinetcontroller: a controller's request for an application relation, as
-- the device reads it.
use tentacle_next.Prelude.{
  ℕ, zero, suc, ◌+◌, ◌-◌, ◌<◌, ◌≤◌, ◌≡◌, refl, sym, ap, ◌∙◌, ◌↔◌, Bool, true, false, [], ◌∷◌, ◌++◌,
  ltb, if◌then◌else◌, length, take, drop, length-append, append-nil, take-append, le→ltb_false,
  ltb_false→le, ltb→lt, lt→ltb, arith,
}
use tentacle_next.Prelude.Bytes.{Bytes, put_uint16, uint16-put}
use tentacle_next.Profinet.Dcp.{put_uint32}
use tentacle_next.Profinet.Relation.{
  ArBlockReq, ArResult, parsed, too_short, name_exceeds_data, panics, word_at, name_end, ar_fields,
  parse_ar_block_req, ConnectParams, zeros16, build_ar_block_data,
}

-- What the device learns from a controller.
abbrev pub relation : ConnectParams → ArBlockReq
relation params = record {
  ar_type = 1;
  ar_uuid = params.ar_uuid;
  session_key = 1;
  cm_initiator_mac = params.local_mac;
  cm_initiator_obj_uuid = zeros16;
  ar_properties = 17;
  activity_timeout = 100;
  udp_rt_port = 34964;
  station_name = params.station_name;
}

drop_past : (n k : ℕ) (xs ys : Bytes) → n ≡ length xs + k → drop n (xs ++ ys) ≡ drop k ys
drop_past n k [] ys h = ap (λ (j : ℕ). drop j ys) (omega arith)
drop_past zero k (x ∷ xs) ys h = absurd (omega arith)
drop_past (suc n) k (x ∷ xs) ys h = drop_past n k xs ys (omega arith)

take_whole : (n : ℕ) (xs ys : Bytes) → length xs ≡ n → take n (xs ++ ys) ≡ xs
take_whole n xs ys h = ap (λ (k : ℕ). take k (xs ++ ys)) (sym h) ∙ take-append xs ys

-- What follows the UUID and the address.
abbrev tail : Bytes → Bytes
tail name =
    zeros16
    ++ (put_uint32 17
        ++ (put_uint16 100 ++ (put_uint16 34964 ++ (put_uint16 (length name) ++ name))))

abbrev middle : Bytes → Bytes → Bytes
middle mac name = put_uint16 1 ++ (mac ++ tail name)

abbrev opening : Bytes → Bytes → Bytes → Bytes
opening uuid mac name = put_uint16 1 ++ (uuid ++ middle mac name)

drop-opening_mac :
    (n j k : ℕ) (uuid mac name : Bytes)
    → n ≡ length uuid + suc (suc j)
    → j ≡ length mac + k
    → drop n (uuid ++ middle mac name) ≡ drop k (tail name)
drop-opening_mac n j k uuid mac name h m =
    drop_past n (suc (suc j)) uuid (middle mac name) h ∙ drop_past j k mac (tail name) m

length-opening :
    (uuid mac name : Bytes)
    → length uuid ≡ 16
    → length mac ≡ 6
    → length (opening uuid mac name) ≡ 52 + length name
length-opening uuid mac name h m =
    omega (arith, length-append uuid (middle mac name), length-append mac (tail name))

take_name : (name : Bytes) → take (52 + length name - 52) name ≡ name
take_name name =
    ap (λ (k : ℕ). take k name) (omega arith)
    ∙ sym (ap (take (length name)) (append-nil name))
    ∙ take-append name []

name_end_small : (n : ℕ) → n < 65484 → name_end n ≡ 52 + n
name_end_small n h = omega arith

word-opening_name :
    (uuid mac name : Bytes)
    → length uuid ≡ 16
    → length mac ≡ 6
    → length name < 65484
    → word_at 50 (opening uuid mac name) ≡ length name
word-opening_name uuid mac name h m n =
    rw
      (
        drop-opening_mac 48 30 24 uuid mac name (omega arith) (omega arith),
        uint16-put (length name) (omega arith),
      )
      refl

ar_fields-opening :
    (params : ConnectParams)
    → length params.ar_uuid ≡ 16
    → length params.local_mac ≡ 6
    → length params.station_name < 65484
    → ar_fields (opening params.ar_uuid params.local_mac params.station_name) ≡ relation params
ar_fields-opening params h m n =
    let uuid = params.ar_uuid in
    let mac = params.local_mac in
    let name = params.station_name in
    rw
      (
        take_whole 16 uuid (middle mac name) h,
        drop_past 16 0 uuid (middle mac name) (omega arith),
        drop_past 18 2 uuid (middle mac name) (omega arith),
        take_whole 6 mac (tail name) m,
        drop-opening_mac 24 6 0 uuid mac name (omega arith) (omega arith),
        drop-opening_mac 40 22 16 uuid mac name (omega arith) (omega arith),
        drop-opening_mac 44 26 20 uuid mac name (omega arith) (omega arith),
        drop-opening_mac 46 28 22 uuid mac name (omega arith) (omega arith),
        drop-opening_mac 48 30 24 uuid mac name (omega arith) (omega arith),
        drop-opening_mac 50 32 26 uuid mac name (omega arith) (omega arith),
        uint16-put (length name) (omega arith),
        name_end_small (length name) n,
        take_name name,
      )
      refl

-- The tests of the parser, in their order.
abbrev verdict : Bool → Bool → Bool → ArBlockReq → ArResult
verdict short exceeds wrapped fields =
    if short
    then too_short
    else if exceeds
    then name_exceeds_data
    else if wrapped
    then panics
    else parsed fields

verdict_parsed :
    (a b c : Bool) (fields : ArBlockReq)
    → a ≡ false
    → b ≡ false
    → c ≡ false
    → verdict a b c fields ≡ parsed fields
verdict_parsed a b c fields h i j = rw (h, i, j) refl

verdict_panics :
    (a b c : Bool) (fields : ArBlockReq) → verdict a b c fields ≡ panics → (a ≡ false) × (c ≡ true)
verdict_panics true b c fields h = cc
verdict_panics false true c fields h = cc
verdict_panics false false true fields h = (refl, refl)
verdict_panics false false false fields h = cc

-- The device reads from a controller's block what the controller has put there, for a UUID of sixteen
-- bytes, an address of six, and a station name of less than 65484 bytes.
pub parse-build_ar_block :
    (params : ConnectParams)
    → length params.ar_uuid ≡ 16
    → length params.local_mac ≡ 6
    → length params.station_name < 65484
    → parse_ar_block_req (build_ar_block_data params) ≡ parsed (relation params)
unfolding parse_ar_block_req build_ar_block_data
parse-build_ar_block params h m n =
    let bytes = opening params.ar_uuid params.local_mac params.station_name in
    let len = length-opening params.ar_uuid params.local_mac params.station_name h m in
    let end : name_end (word_at 50 bytes) ≡ 52 + length params.station_name =
      ap name_end (word-opening_name params.ar_uuid params.local_mac params.station_name h m n)
      ∙ name_end_small (length params.station_name) n in
    let long : ltb (length bytes) 52 ≡ false = le→ltb_false _ _ (omega arith) in
    let fits : ltb (length bytes) (name_end (word_at 50 bytes)) ≡ false =
      le→ltb_false _ _ (omega arith) in
    let above : ltb (name_end (word_at 50 bytes)) 52 ≡ false = le→ltb_false _ _ (omega arith) in
    verdict_parsed _ _ _ (ar_fields bytes) long fits above
    ∙ ap parsed (ar_fields-opening params h m n)

wrapped_big : (n : ℕ) → n < 65536 → ltb (name_end n) 52 ≡ true → 65484 ≤ n
wrapped_big n w h = let end = ltb→lt (name_end n) 52 h in omega arith

-- A block crashes the device exactly when it has its 52 bytes of fields and announces a station name of
-- 65484 bytes or more, which need not be there. The length of the name is a word.
pub parse_ar_block_req-panics :
    (bytes : Bytes)
    → word_at 50 bytes < 65536
    → (parse_ar_block_req bytes ≡ panics) ↔ ((52 ≤ length bytes) × (65484 ≤ word_at 50 bytes))
unfolding parse_ar_block_req
parse_ar_block_req-panics bytes w =
    let short = ltb (length bytes) 52 in
    let exceeds = ltb (length bytes) (name_end (word_at 50 bytes)) in
    let wrapped = ltb (name_end (word_at 50 bytes)) 52 in
    (
      λ h.
          let (l, n) = verdict_panics short exceeds wrapped (ar_fields bytes) h in
          (ltb_false→le (length bytes) 52 l, wrapped_big (word_at 50 bytes) w n),
      λ (long, big).
          let end : name_end (word_at 50 bytes) < 52 = omega arith in
          let l : short ≡ false = le→ltb_false _ _ long in
          let e : exceeds ≡ false = le→ltb_false _ _ (omega arith) in
          let n : wrapped ≡ true = lt→ltb _ _ end in rw (l, e, n) refl,
    )
