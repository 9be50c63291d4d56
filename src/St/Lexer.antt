-- ===== src/St/Lexer.antt =====
-- plc/st/lexer.go: the lexer over the bytes of a source. Its position is kept as the bytes that are
-- left, with the line and the column.
pub mod Total
use tentacle_next.Prelude.{
  ℕ, zero, suc, ◌+◌, Bool, true, false, not, ◌&&◌, ◌||◌, Option, none, some, List, [], ◌∷◌, ◌++◌,
  leb, ◌==◌, if◌then◌else◌, length,
}
use tentacle_next.Prelude.Bytes.{Bytes}
use tentacle_next.St.Token
use tentacle_next.St.Token.{
  Token, Tokens, TokenType, text, same_text, keywords, find_keyword, to_upper,
}
use tentacle_next.St.Literals.{is_digit}

pub record Lexer : Type 0 where
  pub rest : Bytes
  pub line : ℕ
  pub col : ℕ

-- unicode.IsLetter of a single byte, which is a Latin-1 character.
abbrev pub is_letter : ℕ → Bool
is_letter c =
    (leb b'A' c && leb c b'Z')
    || ((leb b'a' c && leb c b'z')
        || ((c == 0xaa || (c == 0xb5 || c == 0xba))
            || ((leb 0xc0 c && leb c 0xd6)
                || ((leb 0xd8 c && leb c 0xf6) || (leb 0xf8 c && leb c 0xff)))))

abbrev pub is_ident_start : ℕ → Bool
is_ident_start c = is_letter c || c == b'_'

abbrev pub is_ident_part : ℕ → Bool
is_ident_part c = is_letter c || (is_digit c || c == b'_')

-- peek(1), where the first byte has been taken off: 0 at the end.
abbrev pub next : Bytes → ℕ
next [] = 0
next (c ∷ s) = c

-- The bytes up to the first that fails the test, and those from it on.
unfoldable pub span : (ℕ → Bool) → Bytes → Bytes × Bytes
span p [] = ([], [])
span p (c ∷ s) = let (taken, rest) = span p s in if p c then (c ∷ taken, rest) else ([], c ∷ s)

-- The loop of a block comment: it stops one byte before the end of an unterminated one.
unfoldable pub block_comment : Bytes → ℕ → ℕ → Lexer
block_comment [] line col = record { rest = []; line = line; col = col }
block_comment (a ∷ []) line col = record { rest = a ∷ []; line = line; col = col }
block_comment (a ∷ b ∷ s) line col =
    let more =
      block_comment (b ∷ s) (if a == 10 then line + 1 else line) (if a == 10 then 1 else col + 1) in
    if a == b'*' && b == b')' then record { rest = s; line = line; col = col + 2 } else more

abbrev pub tail : Bytes → Bytes
tail [] = []
tail (c ∷ s) = s

-- The bytes of a line comment, without its newline.
abbrev pub line_comment : Bytes → ℕ → ℕ → Lexer
line_comment s line col =
    let (taken, rest) = span (λ c. not (c == 10)) s in
    record { rest = rest; line = line; col = col + length taken }

-- One round of skipWhitespaceAndComments: none where its loop ends.
unfoldable pub skip_round : Lexer → Option Lexer
unfolding block_comment span
skip_round l = elim l.rest [
  | [] ↦ none
  | c ∷ s ↦
      if c == 32 || (c == 9 || c == 13)
      then some (record { rest = s; line = l.line; col = l.col + 1 })
      else if c == 10
      then some (record { rest = s; line = l.line + 1; col = 1 })
      else if c == b'(' && next s == b'*'
      then some (block_comment (tail s) l.line (l.col + 2))
      else if c == b'/' && next s == b'/'
      then some (line_comment (c ∷ s) l.line l.col)
      else none
]

-- None means that the fuel ran out.
unfoldable pub skip_blank : ℕ → Lexer → Option Lexer
unfolding skip_round
skip_blank zero l = none
skip_blank (suc n) l = elim (skip_round l) [ none ↦ some l | some l' ↦ skip_blank n l' ]

-- The operators of two bytes, and those of one.
unfoldable pub double_type : ℕ → ℕ → Option TokenType
double_type a b =
    if a == b':' && b == b'='
    then some Token.assign
    else if a == b'<' && b == b'>'
    then some Token.not_equal
    else if a == b'<' && b == b'='
    then some Token.less_eq
    else if a == b'>' && b == b'='
    then some Token.greater_eq
    else none

abbrev pub single_types : List (ℕ × TokenType)
single_types =
    (b'<', Token.less)
    ∷ (b'>', Token.greater)
    ∷ (b'=', Token.equal)
    ∷ (b'+', Token.plus)
    ∷ (b'-', Token.minus)
    ∷ (b'*', Token.star)
    ∷ (b'/', Token.slash)
    ∷ (b'(', Token.lparen)
    ∷ (b')', Token.rparen)
    ∷ (b';', Token.semicolon)
    ∷ (b':', Token.colon)
    ∷ (b',', Token.comma)
    ∷ (b'.', Token.dot)
    ∷ (b'#', Token.hash)
    ∷ []

unfoldable pub single_type : List (ℕ × TokenType) → ℕ → Option TokenType
single_type [] c = none
single_type ((d, tt) ∷ table) c = if c == d then some tt else single_type table c

-- A token made after its bytes have been passed: it has the position behind them.
abbrev pub made : TokenType → Bytes → ℕ → ℕ → Bytes → Option Token × Lexer
made tt literal line col rest = (
  some (record { type = tt; literal = literal; line = line; col = col }),
  record { rest = rest; line = line; col = col },
)

-- emit: the token has the position before its bytes.
abbrev pub emit : TokenType → Bytes → ℕ → ℕ → Bytes → Option Token × Lexer
emit tt literal line col rest = (
  some (record { type = tt; literal = literal; line = line; col = col }),
  record { rest = rest; line = line; col = col + length literal },
)

-- The closing quote is passed, if it is there.
unfoldable pub close_string : Bytes → Bytes → ℕ → ℕ → Option Token × Lexer
close_string literal [] line col = made Token.string_lit literal line col []
close_string literal (quote ∷ rest) line col = made Token.string_lit literal line (col + 1) rest

-- lexString, behind the opening quote.
unfoldable pub lex_string : Bytes → ℕ → ℕ → Option Token × Lexer
unfolding span close_string
lex_string s line col =
    let (literal, rest) = span (λ c. not (c == 39)) s in
    close_string literal rest line (col + 1 + length literal)

unfoldable pub take_sign : Bytes → Bytes × Bytes
take_sign [] = ([], [])
take_sign (c ∷ s) = if c == b'+' || c == b'-' then (c ∷ [], s) else ([], c ∷ s)

-- The exponent of a number, if there is one.
unfoldable pub exponent : Bytes → Bytes × Bytes
unfolding span take_sign
exponent [] = ([], [])
exponent (c ∷ s) =
    let (sign, s') = take_sign s in
    let (ds, rest) = span is_digit s' in
    if c == b'e' || c == b'E' then (c ∷ (sign ++ ds), rest) else ([], c ∷ s)

unfoldable pub lex_number : Bytes → ℕ → ℕ → Option Token × Lexer
unfolding exponent span
lex_number s line col =
    let (mantissa, s') = span (λ c. is_digit c || c == b'.') s in
    let (exp, rest) = exponent s' in
    let literal = mantissa ++ exp in made Token.number literal line (col + length literal) rest

abbrev pub keyword_or_ident : Option TokenType → TokenType
keyword_or_ident none = Token.ident
keyword_or_ident (some tt) = tt

-- The token of the word `literal`, or of the time literal that it starts.
unfoldable pub word_token : Bytes → Bytes → ℕ → ℕ → Option Token × Lexer
unfolding span to_upper find_keyword same_text
word_token literal rest line col =
    let upper = to_upper literal in
    let (raw, rest') = span (λ c. is_digit c || is_ident_part c) (tail rest) in
    let time = made Token.time_literal raw line (col + 1 + length raw) rest' in
    let word = made (keyword_or_ident (find_keyword keywords upper)) literal line col rest in
    if same_text upper (text "T") && next rest == b'#' then time else word

unfoldable pub lex_ident_or_keyword : Bytes → ℕ → ℕ → Option Token × Lexer
unfolding span word_token
lex_ident_or_keyword s line col =
    let (literal, rest) = span is_ident_part s in
    word_token literal rest line (col + length literal)

-- The cases of lex's switch behind those of the operators.
unfoldable pub literal_token : ℕ → Bytes → ℕ → ℕ → Option Token × Lexer
unfolding lex_string lex_number lex_ident_or_keyword
literal_token c s line col =
    if c == 39
    then lex_string s line col
    else if is_digit c
    then lex_number (c ∷ s) line col
    else if is_ident_start c
    then lex_ident_or_keyword (c ∷ s) line col
    -- Unknown characters are skipped.
    else (none, record { rest = s; line = line; col = col + 1 })

-- The switch of lex, on a byte and what follows it.
unfoldable pub lex_token : ℕ → Bytes → ℕ → ℕ → Option Token × Lexer
unfolding double_type single_type literal_token
lex_token c s line col = elim (double_type c (next s)) [
  | some tt ↦ emit tt (c ∷ next s ∷ []) line col (tail s)
  | none ↦ elim (single_type single_types c) [
    | some tt ↦ emit tt (c ∷ []) line col s
    | none ↦ literal_token c s line col
  ]
]

abbrev pub cons_token : Option Token → Tokens → Tokens
cons_token none ts = ts
cons_token (some t) ts = t ∷ ts

-- The loop's body behind the blanks: the end, or a token and what `loop` makes of the rest.
unfoldable pub after_blank : (Lexer → Option Tokens) → ℕ → ℕ → Bytes → Option Tokens
unfolding lex_token
after_blank loop line col [] =
    some (record { type = Token.eof; literal = []; line = line; col = col } ∷ [])
after_blank loop line col (c ∷ s) =
    let (token, after) = lex_token c s line col in
    elim (loop after) [ none ↦ none | some ts ↦ some (cons_token token ts) ]

-- The loop of lex. None means that the fuel ran out.
unfoldable pub lex_from : ℕ → Lexer → Option Tokens
unfolding skip_blank after_blank
lex_from zero l = none
lex_from (suc n) l = elim (skip_blank (suc n) l) [
  | none ↦ none
  | some l' ↦ after_blank (lex_from n) l'.line l'.col l'.rest
]

-- Lex
unfoldable pub lex : Bytes → Option Tokens
unfolding lex_from
lex input = lex_from (suc (length input)) (record { rest = input; line = 1; col = 1 })
