-- ===== src/Modbus/Decode.antt =====
-- The byte orders of register bytes: arrangeBytes of internal/modbus/decode.go.
use mathlib.Core.List.{reverse}
use tentacle_next.Prelude.{String, [], ◌∷◌, str_eq, if◌then◌else◌}
use tentacle_next.Prelude.Bytes.{Bytes}

-- An odd last byte is left 0.
unfoldable pub swap_in_words : Bytes → Bytes
swap_in_words [] = []
swap_in_words (a ∷ []) = 0 ∷ []
swap_in_words (a ∷ b ∷ bytes) = b ∷ a ∷ swap_in_words bytes

unfoldable pub swap_words : Bytes → Bytes
swap_words (a ∷ b ∷ c ∷ d ∷ []) = c ∷ d ∷ a ∷ b ∷ []
swap_words (a ∷ b ∷ c ∷ d ∷ e ∷ f ∷ g ∷ h ∷ []) = g ∷ h ∷ e ∷ f ∷ c ∷ d ∷ a ∷ b ∷ []
swap_words bytes = bytes

unfoldable pub arrange_bytes : String → Bytes → Bytes
arrange_bytes order =
    if str_eq order "BADC"
    then swap_in_words
    else if str_eq order "CDAB"
    then swap_words
    else if str_eq order "DCBA"
    then reverse
    else λ bytes. bytes
