-- ===== src/ModbusServer/Words/Client.antt =====
-- The client's byte orders after the server's.
use mathlib.Core.List.{reverse, reverse-reverse}
use tentacle_next.Prelude.{
  ℕ, ◌≤◌, String, Bool, true, false, List, [], ◌∷◌, str_eq, eq_iff, if◌then◌else◌, length, ◌≡◌,
  refl, sym, ap, ◌∙◌, subst, arith, Bool-cases, ◌⊎◌, inl, inr,
}
use tentacle_next.Prelude.Bytes.{Bytes}
use tentacle_next.Modbus.Decode.{swap_in_words, swap_words, arrange_bytes}
use tentacle_next.ModbusServer.Words.{
  flatten, swap_bytes, swap_pairs, arrangement, is_rearranged, arrange_words,
}
use tentacle_next.ModbusServer.Words.Involution.{
  ArePairs, flatten-ArePairs, flatten-to_words, arrangement-IsInvolution,
}

other_order :
    (d b c : Bool) (f g h k : Bytes → Bytes)
    → (if d then true else if b then true else c) ≡ false
    → (if d then f else if b then g else if c then h else k) ≡ k
other_order true b c f g h k e = cc
other_order false true c f g h k e = cc
other_order false false true f g h k e = cc
other_order false false false f g h k e = refl

other_arrangement :
    (order : String) → is_rearranged order ≡ false → arrangement order ≡ (λ bytes. bytes)
unfolding arrangement
other_arrangement order e =
    other_order (str_eq order "DCBA") (str_eq order "BADC") (str_eq order "CDAB") reverse swap_bytes
      swap_pairs (λ bytes. bytes) e

flatten-arrange_words :
    (order : String) (words : List ℕ)
    → flatten (arrange_words order words) ≡ arrangement order (flatten words)
unfolding arrange_words
flatten-arrange_words order words = elim (Bool-cases (is_rearranged order)) [
  | inl e ↦ rw e (
      flatten-to_words (arrangement order (flatten words))
        ((arrangement-IsInvolution order).pairs (flatten words) (flatten-ArePairs words)))
  | inr e ↦ rw e (ap (λ f. f (flatten words)) (sym (other_arrangement order e)))
]

swap_in_words-swap_bytes : (xs : Bytes) → ArePairs xs → swap_in_words (swap_bytes xs) ≡ xs
unfolding swap_in_words swap_bytes
swap_in_words-swap_bytes [] h = refl
swap_in_words-swap_bytes (a ∷ []) h = absurd h
swap_in_words-swap_bytes (a ∷ b ∷ xs) h = ap (λ l. a ∷ b ∷ l) (swap_in_words-swap_bytes xs h.2)

swap_words-swap_pairs :
    (words : List ℕ) → length words ≤ 2 → swap_words (swap_pairs (flatten words)) ≡ flatten words
unfolding swap_words swap_pairs flatten
swap_words-swap_pairs [] h = refl
swap_words-swap_pairs (v ∷ []) h = refl
swap_words-swap_pairs (v ∷ w ∷ []) h = refl
swap_words-swap_pairs (v ∷ w ∷ x ∷ words) h = absurd (omega arith)

-- Whether the client undoes the server's arrangement of these bytes.
Undone : String → Bytes → Type 0
Undone order xs = arrange_bytes order (arrangement order xs) ≡ xs

reverse-Undone : (xs : Bytes) → Undone "DCBA" xs
unfolding Undone arrange_bytes arrangement
reverse-Undone xs = reverse-reverse xs

swap_in_words-Undone : (xs : Bytes) → ArePairs xs → Undone "BADC" xs
unfolding Undone arrange_bytes arrangement
swap_in_words-Undone xs h = swap_in_words-swap_bytes xs h

swap_words-Undone : (words : List ℕ) → length words ≤ 2 → Undone "CDAB" (flatten words)
unfolding Undone arrange_bytes arrangement
swap_words-Undone words h = swap_words-swap_pairs words h

other-Undone :
    (order : String) (xs : Bytes)
    → str_eq order "DCBA" ≡ false
    → str_eq order "BADC" ≡ false
    → str_eq order "CDAB" ≡ false
    → Undone order xs
unfolding Undone arrange_bytes arrangement
other-Undone order xs d b c =
    ap (λ f. arrange_bytes order (f xs))
      (other_order (str_eq order "DCBA") (str_eq order "BADC") (str_eq order "CDAB") reverse
        swap_bytes swap_pairs (λ bytes. bytes) (ground (arith, d, b, c)))
    ∙ ap (λ f. f xs)
        (other_order (str_eq order "BADC") (str_eq order "CDAB") (str_eq order "DCBA") swap_in_words
          swap_words reverse (λ bytes. bytes) (ground (arith, d, b, c)))

-- The client reads the words that the server arranged: the server's arrangement of words by an order
-- and the client's arrangement of their bytes by the same order give the words' own bytes, for every
-- order where there are two words at most, and for every order but CDAB where there are more.
pub arrange_bytes-arrange_words :
    (order : String) (words : List ℕ)
    → (str_eq order "CDAB" ≡ false) ⊎ (length words ≤ 2)
    → arrange_bytes order (flatten (arrange_words order words)) ≡ flatten words
unfolding Undone
arrange_bytes-arrange_words order words h =
    ap (arrange_bytes order) (flatten-arrange_words order words)
    ∙ elim (Bool-cases (str_eq order "DCBA")) [
      | inl d ↦
          subst (λ o. Undone o (flatten words)) (sym ((eq_iff order "DCBA").0 d))
            (reverse-Undone (flatten words))
      | inr d ↦ elim (Bool-cases (str_eq order "BADC")) [
        | inl b ↦
            subst (λ o. Undone o (flatten words)) (sym ((eq_iff order "BADC").0 b))
              (swap_in_words-Undone (flatten words) (flatten-ArePairs words))
        | inr b ↦ elim (Bool-cases (str_eq order "CDAB")) [
          | inl c ↦
              subst (λ o. Undone o (flatten words)) (sym ((eq_iff order "CDAB").0 c))
                (swap_words-Undone words (ground (arith, c, h)))
          | inr c ↦ other-Undone order (flatten words) d b c
        ]
      ]
    ]
