-- ===== src/ModbusServer/Words/Involution.antt =====
-- The byte orders applied twice.
use mathlib.Core.List.{reverse, reverse-reverse, reverse-cons}
use tentacle_next.Prelude.{
  ℕ, ◌+◌, ◌*◌, ◌/◌, ◌%◌, ◌<◌, String, Bool, true, false, List, [], ◌∷◌, ◌++◌, str_eq, if◌then◌else◌,
  ◌≡◌, refl, sym, ap, ◌∙◌, append_assoc, subst, arith, Bool-cases, inl, inr,
}
use tentacle_next.Prelude.Bytes.{Bytes, uint16-put}
use tentacle_next.ModbusServer.Words.{
  flatten, to_words, swap_bytes, swap_pairs, arrangement, is_rearranged, arrange_words,
}

-- Pairs of bytes.
abbrev pub ArePairs : Bytes → Type 0
ArePairs [] = Unit {0}
ArePairs (a ∷ []) = ⊥
ArePairs (a ∷ b ∷ bytes) = (a < 256) × (b < 256) × ArePairs bytes

abbrev pub AreWords : List ℕ → Type 0
AreWords [] = Unit {0}
AreWords (w ∷ words) = (w < 65536) × AreWords words

pub flatten-ArePairs : (words : List ℕ) → ArePairs (flatten words)
unfolding flatten
flatten-ArePairs [] = tt
flatten-ArePairs (w ∷ words) = (omega arith, omega arith, flatten-ArePairs words)

to_words-flatten : (words : List ℕ) → AreWords words → to_words (flatten words) ≡ words
unfolding to_words flatten
to_words-flatten [] h = refl
to_words-flatten (w ∷ words) h =
    ap (λ v. v ∷ to_words (flatten words)) (uint16-put w h.0)
    ∙ ap (◌∷◌ w) (to_words-flatten words h.1)

high : (hi lo : ℕ) → hi < 256 → lo < 256 → (hi * 256 + lo) / 256 % 256 ≡ hi
high hi lo h l = omega arith

low : (hi lo : ℕ) → lo < 256 → (hi * 256 + lo) % 256 ≡ lo
low hi lo l = omega arith

pub flatten-to_words : (bytes : Bytes) → ArePairs bytes → flatten (to_words bytes) ≡ bytes
unfolding flatten to_words
flatten-to_words [] h = refl
flatten-to_words (a ∷ []) h = absurd h
flatten-to_words (a ∷ b ∷ bytes) h =
    ap (λ k. k ∷ (a * 256 + b) % 256 ∷ flatten (to_words bytes)) (high a b h.0 h.1)
    ∙ ap (λ k. a ∷ k ∷ flatten (to_words bytes)) (low a b h.1)
    ∙ ap (λ bs. a ∷ b ∷ bs) (flatten-to_words bytes h.2)

append-ArePairs :
    (xs : Bytes) (a b : ℕ) → ArePairs xs → a < 256 → b < 256 → ArePairs (xs ++ a ∷ b ∷ [])
append-ArePairs [] a b h k l = (k, l, tt)
append-ArePairs (x ∷ []) a b h k l = absurd h
append-ArePairs (x ∷ y ∷ xs) a b h k l = (h.0, h.1, append-ArePairs xs a b h.2 k l)

reverse-pair : (a b : ℕ) (xs : Bytes) → reverse (a ∷ b ∷ xs) ≡ reverse xs ++ b ∷ a ∷ []
reverse-pair a b xs =
    reverse-cons a (b ∷ xs)
    ∙ ap (λ l. l ++ a ∷ []) (reverse-cons b xs)
    ∙ append_assoc (reverse xs) (b ∷ []) (a ∷ [])

reverse-ArePairs : (xs : Bytes) → ArePairs xs → ArePairs (reverse xs)
reverse-ArePairs [] h = tt
reverse-ArePairs (a ∷ []) h = absurd h
reverse-ArePairs (a ∷ b ∷ xs) h =
    subst ArePairs (sym (reverse-pair a b xs))
      (append-ArePairs (reverse xs) b a (reverse-ArePairs xs h.2) h.1 h.0)

swap_bytes-ArePairs : (xs : Bytes) → ArePairs xs → ArePairs (swap_bytes xs)
unfolding swap_bytes
swap_bytes-ArePairs [] h = tt
swap_bytes-ArePairs (a ∷ []) h = absurd h
swap_bytes-ArePairs (a ∷ b ∷ xs) h = (h.1, h.0, swap_bytes-ArePairs xs h.2)

swap_pairs-ArePairs : (xs : Bytes) → ArePairs xs → ArePairs (swap_pairs xs)
unfolding swap_pairs
swap_pairs-ArePairs [] h = tt
swap_pairs-ArePairs (a ∷ []) h = absurd h
swap_pairs-ArePairs (a ∷ b ∷ []) h = h
swap_pairs-ArePairs (a ∷ b ∷ c ∷ []) h = absurd h.2
swap_pairs-ArePairs (a ∷ b ∷ c ∷ d ∷ xs) h =
    (h.2.0, h.2.1, (h.0, h.1, swap_pairs-ArePairs xs h.2.2))

swap_bytes-swap_bytes : (xs : Bytes) → swap_bytes (swap_bytes xs) ≡ xs
unfolding swap_bytes
swap_bytes-swap_bytes [] = refl
swap_bytes-swap_bytes (a ∷ []) = refl
swap_bytes-swap_bytes (a ∷ b ∷ xs) = ap (λ l. a ∷ b ∷ l) (swap_bytes-swap_bytes xs)

swap_pairs-swap_pairs : (xs : Bytes) → swap_pairs (swap_pairs xs) ≡ xs
unfolding swap_pairs
swap_pairs-swap_pairs [] = refl
swap_pairs-swap_pairs (a ∷ []) = refl
swap_pairs-swap_pairs (a ∷ b ∷ []) = refl
swap_pairs-swap_pairs (a ∷ b ∷ c ∷ []) = refl
swap_pairs-swap_pairs (a ∷ b ∷ c ∷ d ∷ xs) = ap (λ l. a ∷ b ∷ c ∷ d ∷ l) (swap_pairs-swap_pairs xs)

-- A rearrangement of bytes that undoes itself and keeps pairs together.
pub record IsInvolution (f : Bytes → Bytes) : Type 0 where
  pub undoes : (xs : Bytes) → f (f xs) ≡ xs
  pub pairs : (xs : Bytes) → ArePairs xs → ArePairs (f xs)

twice :
    (f : Bytes → Bytes) (words : List ℕ)
    → IsInvolution f
    → AreWords words
    → to_words (f (flatten (to_words (f (flatten words))))) ≡ words
twice f words i h =
    ap (λ bs. to_words (f bs))
      (flatten-to_words (f (flatten words)) (i.pairs _ (flatten-ArePairs words)))
    ∙ ap to_words (i.undoes (flatten words))
    ∙ to_words-flatten words h

if-IsInvolution :
    (b : Bool) (f g : Bytes → Bytes)
    → IsInvolution f
    → IsInvolution g
    → IsInvolution (if b then f else g)
if-IsInvolution true f g i j = i
if-IsInvolution false f g i j = j

pub arrangement-IsInvolution : (order : String) → IsInvolution (arrangement order)
unfolding arrangement
arrangement-IsInvolution order =
    if-IsInvolution (str_eq order "DCBA") reverse _
      (record { undoes = reverse-reverse; pairs = reverse-ArePairs })
      (if-IsInvolution (str_eq order "BADC") swap_bytes _
        (record { undoes = swap_bytes-swap_bytes; pairs = swap_bytes-ArePairs })
        (if-IsInvolution (str_eq order "CDAB") swap_pairs (λ bytes. bytes)
          (record { undoes = swap_pairs-swap_pairs; pairs = swap_pairs-ArePairs })
          (record { undoes = λ xs. refl; pairs = λ xs h. h })))

-- Every byte order undoes itself: to arrange any number of 16-bit words twice by one order, known or
-- not, gives the words.
arrange_words_twice :
    (order : String) (words : List ℕ)
    → AreWords words
    → arrange_words order (arrange_words order words) ≡ words
unfolding arrange_words
arrange_words_twice order words h = elim (Bool-cases (is_rearranged order)) [
  | inl e ↦ rw e (twice (arrangement order) words (arrangement-IsInvolution order) h)
  | inr e ↦ rw e refl
]
