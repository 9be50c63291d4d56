-- ===== src/Prelude/Bytes.antt =====
-- Bytes and big-endian words: `encoding/binary`'s BigEndian over lists of numbers below 256.
use Prim.Native.Nat.{ℕ, ◌+◌, ◌*◌, ◌/◌, ◌%◌, ◌<◌}
use mathlib.Core.Path.{◌≡◌}
use mathlib.Core.List.{List, [], ◌∷◌, ◌++◌}
use native.Mathlib.Omega.{arith}

abbrev pub Bytes : Type 0
Bytes = List ℕ

-- Every element is a byte.
abbrev pub AreBytes : Bytes → Type 0
AreBytes [] = Unit {0}
AreBytes (b ∷ bs) = (b < 256) × AreBytes bs

-- The bytes that PutUint16 writes for a word.
abbrev pub put_uint16 : ℕ → Bytes
put_uint16 w = (w / 256 % 256) ∷ (w % 256) ∷ []

-- BigEndian.Uint16 of two bytes.
abbrev pub uint16 : ℕ → ℕ → ℕ
uint16 hi lo = hi * 256 + lo

pub uint16-put : (w : ℕ) → w < 65536 → uint16 (w / 256 % 256) (w % 256) ≡ w
uint16-put w h = omega arith

pub AreBytes-append : (xs ys : Bytes) → AreBytes xs → AreBytes ys → AreBytes (xs ++ ys)
AreBytes-append [] ys h k = k
AreBytes-append (x ∷ xs) ys h k = (h.0, AreBytes-append xs ys h.1 k)
