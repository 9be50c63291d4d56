-- ===== src/Profinet/Dcp/RoundTrip.antt =====
-- internal/profinet/dcp.go: a frame's bytes read back.
use tentacle_next.Prelude.{
  ℕ, zero, suc, ◌+◌, ◌/◌, ◌%◌, ◌<◌, ◌≤◌, ◌≡◌, refl, sym, ap, ◌∙◌, false, some, List, [], ◌∷◌, ◌++◌,
  ltb, ◌==◌, if◌then◌else◌, length, drop, length-append, take-append, drop-append, append_assoc,
  le→ltb_false, arith,
}
use tentacle_next.Prelude.Bytes.{Bytes, uint16-put}
use tentacle_next.Profinet.Dcp.{
  DcpBlock, DcpFrame, parse_blocks, uint32, parse_dcp_frame, marshal_block, marshal_blocks,
  marshal_dcp_frame,
}

abbrev pad : Bytes → Bytes
pad p = if length p % 2 == 0 then [] else 0 ∷ []

length-pad : (p : Bytes) → length (pad p) ≡ length p % 2
length-pad p = ground arith

-- What follows a payload and its padding is where the next block starts.
drop-padded : (p rest : Bytes) → drop (length p + length p % 2) (p ++ (pad p ++ rest)) ≡ rest
drop-padded p rest =
    ap (λ (n : ℕ). drop n (p ++ (pad p ++ rest)))
      (omega (arith, length-append p (pad p), length-pad p))
    ∙ ap (λ (xs : Bytes). drop (length (p ++ pad p)) xs) (sym (append_assoc p (pad p) rest))
    ∙ drop-append (p ++ pad p) rest

length-marshal_block : (b : DcpBlock) → 4 + length b.payload ≤ length (marshal_block b)
unfolding marshal_block
length-marshal_block b = omega (arith, length-append b.payload (pad b.payload))

parse-marshal_block :
    (fuel : ℕ) (b : DcpBlock) (rest : Bytes)
    → length b.payload < 65536
    → parse_blocks (suc fuel) (marshal_block b ++ rest) ≡ b ∷ parse_blocks fuel rest
unfolding parse_blocks marshal_block
parse-marshal_block fuel b rest l =
    let fits : ltb (length (b.payload ++ (pad b.payload ++ rest))) (length b.payload) ≡ false =
      le→ltb_false _ _ (omega (arith, length-append b.payload (pad b.payload ++ rest))) in
    rw
      (
        append_assoc b.payload (pad b.payload) rest,
        uint16-put (length b.payload) l,
        fits,
        take-append b.payload (pad b.payload ++ rest),
        drop-padded b.payload rest,
      )
      refl

parse-marshal_blocks :
    (fuel : ℕ) (bs : List DcpBlock)
    → length (marshal_blocks bs) ≤ fuel
    → length (marshal_blocks bs) < 65536
    → parse_blocks fuel (marshal_blocks bs) ≡ bs
unfolding marshal_blocks
parse-marshal_blocks zero [] h l = unfold parse_blocks in refl
parse-marshal_blocks (suc fuel) [] h l = unfold parse_blocks in refl
parse-marshal_blocks zero (b ∷ bs) h l =
    absurd
      (omega (arith, length-append (marshal_block b) (marshal_blocks bs), length-marshal_block b))
parse-marshal_blocks (suc fuel) (b ∷ bs) h l =
    let long = length-marshal_block b in
    let len = length-append (marshal_block b) (marshal_blocks bs) in
    parse-marshal_block fuel b (marshal_blocks bs) (omega arith)
    ∙ ap (λ (xs : List DcpBlock). b ∷ xs) (parse-marshal_blocks fuel bs (omega arith) (omega arith))

-- The fields that a frame has room for: words of 16 bits, an xid of 32, and blocks of less than 64 KiB.
pub record IsFrame (f : DcpFrame) : Type 0 where
  pub id : f.frame_id < 65536
  pub transaction : f.xid < 4294967296
  pub delay : f.response_delay < 65536
  pub size : length (marshal_blocks f.blocks) < 65536

pub uint32-put :
    (w : ℕ)
    → w < 4294967296
    → uint32 (w / 65536 / 256 % 256) (w / 65536 % 256) (w / 256 % 256) (w % 256) ≡ w
uint32-put w h = omega arith

-- A frame that was marshalled is parsed as itself, whatever stands behind it in the Ethernet frame: its
-- padding, or the end of the buffer.
pub parse-marshal_dcp_frame :
    (f : DcpFrame) (behind : Bytes)
    → IsFrame f
    → parse_dcp_frame (marshal_dcp_frame f ++ behind) ≡ some f
unfolding parse_dcp_frame marshal_dcp_frame
parse-marshal_dcp_frame f behind v =
    let bytes = marshal_blocks f.blocks in
    rw
      (
        uint16-put f.frame_id v.id,
        uint32-put f.xid v.transaction,
        uint16-put f.response_delay v.delay,
        uint16-put (length bytes) v.size,
        take-append bytes behind,
        parse-marshal_blocks (length bytes) f.blocks (omega arith) v.size,
      )
      refl
