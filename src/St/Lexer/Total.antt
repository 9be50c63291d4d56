-- ===== src/St/Lexer/Total.antt =====
-- plc/st/lexer.go: what each round of its loops consumes, and the fuel they need.
use tentacle_next.Prelude.{
  ℕ, zero, suc, ◌+◌, ◌<◌, ◌≤◌, ◌≡◌, refl, Bool, true, false, not, ◌&&◌, ◌||◌, Option, some, [], ◌∷◌,
  ◌==◌, if◌then◌else◌, length, arith, Option-cases, inl, inr,
}
use tentacle_next.Prelude.Bytes.{Bytes}
use tentacle_next.St.Token.{Token, Tokens, text, same_text, to_upper}
use tentacle_next.St.Literals.{is_digit}
use tentacle_next.St.Lexer.{
  Lexer, is_letter, is_ident_part, is_ident_start, next, tail, span, block_comment, line_comment,
  skip_round, skip_blank, double_type, single_type, single_types, close_string, lex_string,
  take_sign, exponent, lex_number, word_token, lex_ident_or_keyword, literal_token, lex_token,
  after_blank, cons_token, lex_from, lex,
}

length-span : (p : ℕ → Bool) (s : Bytes) → length (span p s).1 ≤ length s
unfolding span
length-span p [] = omega arith
length-span p (c ∷ s) = ground (arith, length-span p s)

length-tail : (s : Bytes) → length (tail s) ≤ length s
length-tail [] = omega arith
length-tail (c ∷ s) = omega arith

length-block_comment :
    (s : Bytes) (line col : ℕ) → length (block_comment s line col).rest ≤ length s
unfolding block_comment
length-block_comment [] line col = omega arith
length-block_comment (a ∷ []) line col = omega arith
length-block_comment (a ∷ b ∷ s) line col = ground (
  arith,
  length-block_comment (b ∷ s) (if a == 10 then line + 1 else line)
      (if a == 10 then 1 else col + 1),
)

-- A comment to the end of its line takes its first byte at least.
length-line_comment :
    (s : Bytes) (line col : ℕ) → length (line_comment (b'/' ∷ s) line col).rest ≤ length s
unfolding span
length-line_comment s line col = length-span (λ c. not (c == 10)) s

skip_round-less :
    (s : Bytes) (line col : ℕ) (l : Lexer)
    → skip_round (record { rest = s; line = line; col = col }) ≡ some l
    → length l.rest < length s
unfolding skip_round span
skip_round-less [] line col l h = cc
skip_round-less (c ∷ s) line col l h = ground (
  arith,
  length-block_comment (tail s) line (col + 2),
  length-span (λ c. not (c == 10)) s,
  length-tail s,
)

-- Where there is fuel for each byte, blanks and comments are skipped to their end.
skip_blank-total :
    (n : ℕ) (l : Lexer)
    → length l.rest < n
    → (l' : Lexer) × (skip_blank n l ≡ some l') × (length l'.rest ≤ length l.rest)
unfolding skip_blank
skip_blank-total zero l h = absurd (omega arith)
skip_blank-total (suc n) l h = elim (Option-cases (skip_round l)) [
  | inl e ↦ (l, rw (e, skip_blank) refl, omega arith)
  | inr (l', e) ↦
      let less = skip_round-less l.rest l.line l.col l' e in
      let (l'', done, le) = skip_blank-total n l' (omega arith) in
      (l'', rw (e, skip_blank) done, omega arith)
]

length-close_string :
    (literal rest : Bytes) (line col : ℕ)
    → length (close_string literal rest line col).1.rest ≤ length rest
unfolding close_string
length-close_string literal [] line col = omega arith
length-close_string literal (quote ∷ rest) line col = omega arith

length-lex_string : (s : Bytes) (line col : ℕ) → length (lex_string s line col).1.rest ≤ length s
unfolding lex_string
length-lex_string s line col =
    let (literal, rest) = span (λ c. not (c == 39)) s in
    omega (
      arith,
      length-span (λ c. not (c == 39)) s,
      length-close_string (span (λ c. not (c == 39)) s).0 (span (λ c. not (c == 39)) s).1 line
          (col + 1 + length (span (λ c. not (c == 39)) s).0),
    )

length-take_sign : (s : Bytes) → length (take_sign s).1 ≤ length s
unfolding take_sign
length-take_sign [] = omega arith
length-take_sign (c ∷ s) = ground arith

length-exponent : (s : Bytes) → length (exponent s).1 ≤ length s
unfolding exponent
length-exponent [] = omega arith
length-exponent (c ∷ s) = ground (arith, length-take_sign s, length-span is_digit (take_sign s).1)

-- A number starts with a digit, which is passed.
length-lex_number :
    (c : ℕ) (s : Bytes) (line col : ℕ)
    → is_digit c ≡ true
    → length (lex_number (c ∷ s) line col).1.rest ≤ length s
unfolding lex_number span
length-lex_number c s line col h =
    let part = λ (d : ℕ). is_digit d || d == b'.' in
    let first : part c ≡ true = rw h refl in
    rw first (omega (arith, length-span part s, length-exponent (span part s).1))

Lexer-if :
    (b : Bool) (x y : Option Token × Lexer) (n : ℕ)
    → (b ≡ true → length x.1.rest ≤ n)
    → length y.1.rest ≤ n
    → length (if b then x else y).1.rest ≤ n
Lexer-if true x y n h k = h refl
Lexer-if false x y n h k = k

length-word_token :
    (literal rest : Bytes) (line col : ℕ)
    → length (word_token literal rest line col).1.rest ≤ length rest
unfolding word_token
length-word_token literal rest line col =
    let part = λ (c : ℕ). is_digit c || is_ident_part c in
    Lexer-if (same_text (to_upper literal) (text "T") && next rest == b'#') _ _ (length rest)
      (λ _. omega (arith, length-span part (tail rest), length-tail rest)) (omega arith)

widen : (a b y : Bool) → (a || b) ≡ true → (a || (y || b)) ≡ true
widen true b y h = refl
widen false b true h = refl
widen false b false h = h

ident_start-part : (c : ℕ) → is_ident_start c ≡ true → is_ident_part c ≡ true
ident_start-part c h = widen (is_letter c) (c == b'_') (is_digit c) h

length-lex_ident_or_keyword :
    (c : ℕ) (s : Bytes) (line col : ℕ)
    → is_ident_start c ≡ true
    → length (lex_ident_or_keyword (c ∷ s) line col).1.rest ≤ length s
unfolding lex_ident_or_keyword
length-lex_ident_or_keyword c s line col h =
    let less : length (span is_ident_part (c ∷ s)).1 ≤ length s =
      unfold span in rw (ident_start-part c h) (length-span is_ident_part s) in
    omega (
      arith,
      length-word_token (span is_ident_part (c ∷ s)).0 (span is_ident_part (c ∷ s)).1 line
          (col + length (span is_ident_part (c ∷ s)).0),
    )

length-literal_token :
    (c : ℕ) (s : Bytes) (line col : ℕ) → length (literal_token c s line col).1.rest ≤ length s
unfolding literal_token
length-literal_token c s line col =
    Lexer-if (c == 39) (lex_string s line col) _ (length s) (λ _. length-lex_string s line col)
      (Lexer-if (is_digit c) (lex_number (c ∷ s) line col) _ (length s)
        (λ e. length-lex_number c s line col e)
        (Lexer-if (is_ident_start c) (lex_ident_or_keyword (c ∷ s) line col) _ (length s)
          (λ e. length-lex_ident_or_keyword c s line col e) (omega arith)))

-- A step of the loop passes the byte that it looks at.
length-lex_token :
    (c : ℕ) (s : Bytes) (line col : ℕ) → length (lex_token c s line col).1.rest ≤ length s
unfolding lex_token
length-lex_token c s line col = elim (Option-cases (double_type c (next s))) [
  | inr (kind, e) ↦ rw (e, lex_token) (length-tail s)
  | inl e ↦ elim (Option-cases (single_type single_types c)) [
    | inr (kind, f) ↦ rw (e, lex_token, f) (omega arith)
    | inl f ↦ rw (e, lex_token, f) (length-literal_token c s line col)
  ]
]

after_blank-total :
    (n : ℕ)
    → ((l : Lexer) → length l.rest < n → (ts : Tokens) × (lex_from n l ≡ some ts))
    → (line col : ℕ) (s : Bytes) → length s ≤ n
    → (ts : Tokens) × (after_blank (lex_from n) line col s ≡ some ts)
unfolding after_blank
after_blank-total n ih line col [] h = (_, refl)
after_blank-total n ih line col (c ∷ s) h =
    let (ts, e) = ih (lex_token c s line col).1 (omega (arith, length-lex_token c s line col)) in
    (cons_token (lex_token c s line col).0 ts, rw (e, after_blank) refl)

lex_from-total : (n : ℕ) (l : Lexer) → length l.rest < n → (ts : Tokens) × (lex_from n l ≡ some ts)
unfolding lex_from
lex_from-total zero l h = absurd (omega arith)
lex_from-total (suc n) l h =
    let (l', skipped, le) = skip_blank-total (suc n) l h in
    let (ts, e) = after_blank-total n (lex_from-total n) l'.line l'.col l'.rest (omega arith) in
    (ts, rw (skipped, lex_from) e)

-- The lexer ends on every source, also one with unterminated comments and texts or with bytes that
-- start no token: a round of its loop for each byte, and one more, are enough.
pub lex-total : (source : Bytes) → (ts : Tokens) × (lex source ≡ some ts)
unfolding lex
lex-total source =
    lex_from-total (suc (length source)) (record { rest = source; line = 1; col = 1 }) (omega arith)
