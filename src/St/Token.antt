-- ===== src/St/Token.antt =====
-- plc/st/token.go: the kinds of token, tokens and the table of keywords. Text is a list of bytes.
use Prim.Native.Char.{code}
use tentacle_next.Prelude.{
  ℕ, ◌-◌, String, Bool, true, false, ◌&&◌, Option, none, some, List, [], ◌∷◌, leb, ◌==◌,
  if◌then◌else◌,
}
use tentacle_next.Prelude.Bytes.{Bytes}

-- The bytes of an ASCII text.
abbrev pub text : String → Bytes
text String.[] = []
text (String.◌∷◌ c s) = code c ∷ text s

unfoldable pub same_text : Bytes → Bytes → Bool
same_text [] [] = true
same_text (a ∷ s) (b ∷ t) = a == b && same_text s t
same_text _ _ = false

pub data TokenType : Type 0 where
  eof ident number string_lit time_literal : TokenType
  program_kw end_program var_kw var_input var_output end_var : TokenType
  if_kw then_kw elsif_kw else_kw end_if : TokenType
  for_kw to_kw by_kw do_kw end_for while_kw end_while repeat_kw until_kw end_repeat : TokenType
  case_kw of_kw end_case return_kw true_kw false_kw and_kw or_kw not_kw xor_kw mod_kw : TokenType
  int_type real_type bool_type string_type dint_type lreal_type : TokenType
  assign equal not_equal less less_eq greater greater_eq plus minus star slash : TokenType
  lparen rparen semicolon colon comma dot hash : TokenType

pub record Token : Type 0 where
  pub type : TokenType
  pub literal : Bytes
  pub line : ℕ
  pub col : ℕ

abbrev pub Tokens : Type 0
Tokens = List Token

-- The value that iota gives a constant.
abbrev pub ordinal : TokenType → ℕ
ordinal eof = 0
ordinal ident = 1
ordinal number = 2
ordinal string_lit = 3
ordinal time_literal = 4
ordinal program_kw = 5
ordinal end_program = 6
ordinal var_kw = 7
ordinal var_input = 8
ordinal var_output = 9
ordinal end_var = 10
ordinal if_kw = 11
ordinal then_kw = 12
ordinal elsif_kw = 13
ordinal else_kw = 14
ordinal end_if = 15
ordinal for_kw = 16
ordinal to_kw = 17
ordinal by_kw = 18
ordinal do_kw = 19
ordinal end_for = 20
ordinal while_kw = 21
ordinal end_while = 22
ordinal repeat_kw = 23
ordinal until_kw = 24
ordinal end_repeat = 25
ordinal case_kw = 26
ordinal of_kw = 27
ordinal end_case = 28
ordinal return_kw = 29
ordinal true_kw = 30
ordinal false_kw = 31
ordinal and_kw = 32
ordinal or_kw = 33
ordinal not_kw = 34
ordinal xor_kw = 35
ordinal mod_kw = 36
ordinal int_type = 37
ordinal real_type = 38
ordinal bool_type = 39
ordinal string_type = 40
ordinal dint_type = 41
ordinal lreal_type = 42
ordinal assign = 43
ordinal equal = 44
ordinal not_equal = 45
ordinal less = 46
ordinal less_eq = 47
ordinal greater = 48
ordinal greater_eq = 49
ordinal plus = 50
ordinal minus = 51
ordinal star = 52
ordinal slash = 53
ordinal lparen = 54
ordinal rparen = 55
ordinal semicolon = 56
ordinal colon = 57
ordinal comma = 58
ordinal dot = 59
ordinal hash = 60

abbrev pub is : TokenType → Token → Bool
is tt t = ordinal t.type == ordinal tt

abbrev pub keywords : List (Bytes × TokenType)
keywords =
    (text "PROGRAM", program_kw)
    ∷ (text "END_PROGRAM", end_program)
    ∷ (text "VAR", var_kw)
    ∷ (text "VAR_INPUT", var_input)
    ∷ (text "VAR_OUTPUT", var_output)
    ∷ (text "END_VAR", end_var)
    ∷ (text "IF", if_kw)
    ∷ (text "THEN", then_kw)
    ∷ (text "ELSIF", elsif_kw)
    ∷ (text "ELSE", else_kw)
    ∷ (text "END_IF", end_if)
    ∷ (text "FOR", for_kw)
    ∷ (text "TO", to_kw)
    ∷ (text "BY", by_kw)
    ∷ (text "DO", do_kw)
    ∷ (text "END_FOR", end_for)
    ∷ (text "WHILE", while_kw)
    ∷ (text "END_WHILE", end_while)
    ∷ (text "REPEAT", repeat_kw)
    ∷ (text "UNTIL", until_kw)
    ∷ (text "END_REPEAT", end_repeat)
    ∷ (text "CASE", case_kw)
    ∷ (text "OF", of_kw)
    ∷ (text "END_CASE", end_case)
    ∷ (text "RETURN", return_kw)
    ∷ (text "TRUE", true_kw)
    ∷ (text "FALSE", false_kw)
    ∷ (text "AND", and_kw)
    ∷ (text "OR", or_kw)
    ∷ (text "NOT", not_kw)
    ∷ (text "XOR", xor_kw)
    ∷ (text "MOD", mod_kw)
    ∷ (text "INT", int_type)
    ∷ (text "REAL", real_type)
    ∷ (text "BOOL", bool_type)
    ∷ (text "STRING", string_type)
    ∷ (text "DINT", dint_type)
    ∷ (text "LREAL", lreal_type)
    ∷ []

-- keywords[upper], with its ok.
unfoldable pub find_keyword : List (Bytes × TokenType) → Bytes → Option TokenType
unfolding same_text
find_keyword [] upper = none
find_keyword ((word, tt) ∷ table) upper =
    if same_text word upper then some tt else find_keyword table upper

abbrev pub upper_byte : ℕ → ℕ
upper_byte c = if leb b'a' c && leb c b'z' then c - 32 else c

-- strings.ToUpper on ASCII text.
unfoldable pub to_upper : Bytes → Bytes
to_upper [] = []
to_upper (c ∷ s) = upper_byte c ∷ to_upper s
