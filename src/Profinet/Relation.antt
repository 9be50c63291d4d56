-- ===== src/Profinet/Relation.antt =====
-- The block of a Connect request that asks for an application relation: internal/profinetcontroller's
-- rpc_client.go writes it, internal/profinet's pnio_blocks.go reads it.
pub mod Opening
use tentacle_next.Prelude.{
  ℕ, zero, suc, ◌+◌, ◌-◌, ◌%◌, Bool, true, false, List, [], ◌∷◌, ◌++◌, ltb, if◌then◌else◌, length,
  take, drop,
}
use tentacle_next.Prelude.Bytes.{Bytes, put_uint16, uint16}
use tentacle_next.Profinet.Dcp.{put_uint32, uint32}

pub record ArBlockReq : Type 0 where
  pub ar_type : ℕ
  pub ar_uuid : Bytes
  pub session_key : ℕ
  pub cm_initiator_mac : Bytes
  pub cm_initiator_obj_uuid : Bytes
  pub ar_properties : ℕ
  pub activity_timeout : ℕ
  pub udp_rt_port : ℕ
  pub station_name : Bytes

-- The two errors of ParseARBlockReq, and the panic of a slice whose end is before its start.
pub data ArResult : Type 0 where
  parsed : ArBlockReq → ArResult
  too_short : ArResult
  name_exceeds_data : ArResult
  panics : ArResult

-- binary.BigEndian.Uint16 and Uint32 at an offset inside the data.
abbrev word : Bytes → ℕ
word (a ∷ b ∷ rest) = uint16 a b
word _ = 0

abbrev double_word : Bytes → ℕ
double_word (a ∷ b ∷ c ∷ d ∷ rest) = uint32 a b c d
double_word _ = 0

abbrev pub word_at : ℕ → Bytes → ℕ
word_at offset bytes = word (drop offset bytes)

abbrev slice : ℕ → ℕ → Bytes → Bytes
slice start end bytes = take (end - start) (drop start bytes)

-- The end of the station name is a uint16.
abbrev pub name_end : ℕ → ℕ
name_end name_len = (52 + name_len) % 65536

abbrev pub ar_fields : Bytes → ArBlockReq
ar_fields bytes = record {
  ar_type = word bytes;
  ar_uuid = slice 2 18 bytes;
  session_key = word_at 18 bytes;
  cm_initiator_mac = slice 20 26 bytes;
  cm_initiator_obj_uuid = slice 26 42 bytes;
  ar_properties = double_word (drop 42 bytes);
  activity_timeout = word_at 46 bytes;
  udp_rt_port = word_at 48 bytes;
  station_name = slice 52 (name_end (word_at 50 bytes)) bytes;
}

-- ParseARBlockReq
unfoldable pub parse_ar_block_req : Bytes → ArResult
parse_ar_block_req bytes =
    if ltb (length bytes) 52
    then too_short
    else if ltb (length bytes) (name_end (word_at 50 bytes))
    then name_exceeds_data
    else if ltb (name_end (word_at 50 bytes)) 52
    then panics
    else parsed (ar_fields bytes)

-- The parameters of a connection that its block depends on.
pub record ConnectParams : Type 0 where
  pub ar_uuid : Bytes
  pub local_mac : Bytes
  pub station_name : Bytes

abbrev pub zeros16 : Bytes
zeros16 = 0 ∷ 0 ∷ 0 ∷ 0 ∷ 0 ∷ 0 ∷ 0 ∷ 0 ∷ 0 ∷ 0 ∷ 0 ∷ 0 ∷ 0 ∷ 0 ∷ 0 ∷ 0 ∷ []

-- buildARBlockData, for a UUID of sixteen bytes and an address of six.
unfoldable pub build_ar_block_data : ConnectParams → Bytes
build_ar_block_data params =
    put_uint16 0x0001
    ++ (params.ar_uuid
        ++ (put_uint16 0x0001
            ++ (params.local_mac
                ++ (zeros16
                    ++ (put_uint32 0x00000011
                        ++ (put_uint16 100
                            ++ (put_uint16 34964
                                ++ (put_uint16 (length params.station_name)
                                    ++ params.station_name))))))))
