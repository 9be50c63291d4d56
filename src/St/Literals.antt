-- ===== src/St/Literals.antt =====
-- plc/st/codegen.go: what the generator writes for names, operators and literals, with the parts of
-- fmt, strconv and strings that it calls, on ASCII text.
use tentacle_next.Prelude.{
  ℕ, zero, suc, ◌+◌, ◌-◌, ◌*◌, ◌/◌, ◌%◌, ◌^◌, Bool, ◌&&◌, ◌||◌, Option, none, some, List, [], ◌∷◌,
  ◌++◌, ltb, leb, ◌==◌, if◌then◌else◌,
}
use tentacle_next.Prelude.Bytes.{Bytes}
use tentacle_next.Prelude.Int.{ℤ, pos, negsuc}
use tentacle_next.St.Token.{text, same_text}
use tentacle_next.St.Ast.{Expression, ident_expr, member_expr}

-- fmt.Sprintf of texts one after the other.
abbrev pub print : List Bytes → Bytes
print [] = []
print (s ∷ ss) = s ++ print ss

-- strings.Join
abbrev pub join : Bytes → List Bytes → Bytes
join separator [] = []
join separator (s ∷ []) = s
join separator (s ∷ t ∷ ss) = s ++ (separator ++ join separator (t ∷ ss))

abbrev hex_digit : ℕ → ℕ
hex_digit d = if ltb d 10 then b'0' + d else b'a' + (d - 10)

-- strconv.Quote of one byte; a byte outside ASCII is part of a printable character.
unfoldable pub quote_byte : ℕ → Bytes
quote_byte c =
    if c == b'"'
    then text "\\\""
    else if c == b'\\'
    then text "\\\\"
    else if c == 7
    then text "\\a"
    else if c == 8
    then text "\\b"
    else if c == 9
    then text "\\t"
    else if c == 10
    then text "\\n"
    else if c == 11
    then text "\\v"
    else if c == 12
    then text "\\f"
    else if c == 13
    then text "\\r"
    else if ltb c 32 || c == 127
    then text "\\x" ++ (hex_digit (c / 16) ∷ hex_digit (c % 16) ∷ [])
    else c ∷ []

quote_bytes : Bytes → Bytes
quote_bytes [] = []
quote_bytes (c ∷ s) = quote_byte c ++ quote_bytes s

-- strconv.Quote and %q
unfoldable pub quote : Bytes → Bytes
unfolding quote_bytes quote_byte
quote s = text "\"" ++ (quote_bytes s ++ text "\"")

-- The decimal digits of a number below 10 ^ fuel.
digits : ℕ → ℕ → Bytes
digits zero n = []
digits (suc fuel) n =
    let higher = digits fuel (n / 10) in
    let last = b'0' + n % 10 in if ltb n 10 then last ∷ [] else higher ++ last ∷ []

-- strconv.Itoa: an int has nineteen digits at most.
unfoldable pub itoa : ℤ → Bytes
unfolding digits
itoa (pos n) = digits 20 n
itoa (negsuc n) = text "-" ++ digits 20 (suc n)

abbrev pub is_digit : ℕ → Bool
is_digit c = leb b'0' c && leb c b'9'

-- The number that digits write, and none where there is another byte.
decimal : ℕ → Bytes → Option ℕ
decimal value [] = some value
decimal value (c ∷ s) =
    let rest = decimal (value * 10 + (c - b'0')) s in if is_digit c then rest else none

-- Atoi's result without its error: 0 on bad syntax, the nearest int where the number is too large.
positive : Option ℕ → ℤ
positive none = pos 0
positive (some n) = if ltb n (2 ^ 63) then pos n else pos (2 ^ 63 - 1)

negative : Option ℕ → ℤ
negative none = pos 0
negative (some zero) = pos 0
negative (some (suc n)) = if ltb n (2 ^ 63) then negsuc n else negsuc (2 ^ 63 - 1)

unsigned : Bytes → Option ℕ
unfolding decimal
unsigned [] = none
unsigned (c ∷ s) = decimal 0 (c ∷ s)

unfoldable pub atoi : Bytes → ℤ
unfolding unsigned positive negative
atoi [] = pos 0
atoi (c ∷ s) =
    if c == b'-'
    then negative (unsigned s)
    else if c == b'+'
    then positive (unsigned s)
    else positive (unsigned (c ∷ s))

-- The int with these 64 bits.
abbrev signed64 : ℕ → ℤ
signed64 u = if ltb u (2 ^ 63) then pos u else negsuc (2 ^ 64 - 1 - u)

-- n * k on ints, which wraps around.
unfoldable pub scale : ℤ → ℕ → ℤ
scale (pos n) k = signed64 (n * k % 2 ^ 64)
scale (negsuc n) k = signed64 ((2 ^ 64 - suc n * k % 2 ^ 64) % 2 ^ 64)

abbrev is_space : ℕ → Bool
is_space c = c == 32 || (leb 9 c && leb c 13)

trim_left : Bytes → Bytes
trim_left [] = []
trim_left (c ∷ s) = let rest = trim_left s in if is_space c then rest else c ∷ s

trim_right : Bytes → Bytes
trim_right [] = []
trim_right (c ∷ s) =
    let rest = trim_right s in
    elim rest [ [] ↦ if is_space c then [] else c ∷ [] | d ∷ t ↦ c ∷ d ∷ t ]

-- HasSuffix with TrimSuffix: what stands before the suffix.
strip_suffix : Bytes → Bytes → Option Bytes
unfolding same_text
strip_suffix suffix [] = if same_text suffix [] then some [] else none
strip_suffix suffix (c ∷ s) =
    let rest = strip_suffix suffix s in
    if same_text suffix (c ∷ s) then some [] else elim rest [ none ↦ none | some t ↦ some (c ∷ t) ]

-- The first unit that the text ends in: its number times the unit.
in_units : List (Bytes × ℕ) → Bytes → ℤ
unfolding strip_suffix atoi scale
in_units [] raw = atoi raw
in_units ((suffix, ms) ∷ units) raw = elim (strip_suffix suffix raw) [
  | none ↦ in_units units raw
  | some number ↦ scale (atoi number) ms
]

-- parseTimeMs
unfoldable pub parse_time_ms : Bytes → ℤ
unfolding in_units trim_left trim_right
parse_time_ms raw =
    in_units ((text "ms", 1) ∷ (text "s", 1000) ∷ (text "m", 60000) ∷ (text "h", 3600000) ∷ [])
      (trim_right (trim_left raw))

-- mapOp
abbrev operators : List (Bytes × Bytes)
operators =
    (text "=", text "==")
    ∷ (text "<>", text "!=")
    ∷ (text "AND", text "and")
    ∷ (text "OR", text "or")
    ∷ (text "NOT", text "not")
    ∷ (text "XOR", text "^")
    ∷ (text "MOD", text "%")
    ∷ []

map_op_in : List (Bytes × Bytes) → Bytes → Bytes
unfolding same_text
map_op_in [] op = op
map_op_in ((st, starlark) ∷ table) op = if same_text st op then starlark else map_op_in table op

unfoldable pub map_op : Bytes → Bytes
unfolding map_op_in
map_op op = map_op_in operators op

-- memberPath of the member of an object.
unfoldable pub member_path : Expression → Bytes → Bytes
member_path (member_expr object inner) member =
    print (member_path object inner ∷ text "." ∷ member ∷ [])
member_path (ident_expr name) member = print (name ∷ text "." ∷ member ∷ [])
member_path _ member = member
