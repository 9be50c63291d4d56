-- ===== src/ModbusServer/Words.antt =====
-- The byte orders of register words: arrangeWords of internal/modbusserver/store.go.
pub mod Involution
pub mod Client
use mathlib.Core.List.{reverse}
use tentacle_next.Prelude.{
  ℕ, ◌+◌, ◌*◌, ◌/◌, ◌%◌, String, Bool, true, false, List, [], ◌∷◌, ◌++◌, str_eq, if◌then◌else◌,
}
use tentacle_next.Prelude.Bytes.{Bytes, put_uint16, uint16}

-- raw, the words' bytes in big-endian order
unfoldable pub flatten : List ℕ → Bytes
flatten [] = []
flatten (w ∷ words) = put_uint16 w ++ flatten words

-- result, the words of the arranged bytes; there are two bytes for each word
unfoldable pub to_words : Bytes → List ℕ
to_words (hi ∷ lo ∷ bytes) = uint16 hi lo ∷ to_words bytes
to_words _ = []

unfoldable pub swap_bytes : Bytes → Bytes
swap_bytes (a ∷ b ∷ bytes) = b ∷ a ∷ swap_bytes bytes
swap_bytes bytes = bytes

-- What does not fill a group of four is copied.
unfoldable pub swap_pairs : Bytes → Bytes
swap_pairs (a ∷ b ∷ c ∷ d ∷ bytes) = c ∷ d ∷ a ∷ b ∷ swap_pairs bytes
swap_pairs bytes = bytes

-- What the switch does to the bytes; other orders return before it.
unfoldable pub arrangement : String → Bytes → Bytes
arrangement order =
    if str_eq order "DCBA"
    then reverse
    else if str_eq order "BADC"
    then swap_bytes
    else if str_eq order "CDAB"
    then swap_pairs
    else λ bytes. bytes

-- Orders other than these, "ABCD" among them, return the words as they are.
abbrev is_rearranged : String → Bool
is_rearranged order =
    if str_eq order "DCBA" then true else if str_eq order "BADC" then true else str_eq order "CDAB"

unfoldable pub arrange_words : String → List ℕ → List ℕ
unfolding arrangement
arrange_words order words =
    if is_rearranged order then to_words (arrangement order (flatten words)) else words
