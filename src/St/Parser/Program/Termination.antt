-- ===== src/St/Parser/Program/Termination.antt =====
-- plc/st/parser.go: the fuel of whole programs.
use mathlib.Core.Logic.{◌≢◌}
use tentacle_next.Prelude.{
  ℕ, zero, suc, ◌<◌, ◌≡◌, Bool, true, false, ◌||◌, if◌then◌else◌, length, arith,
}
use tentacle_next.St.Token
use tentacle_next.St.Token.{Token, Tokens, TokenType, is, text}
use tentacle_next.St.Result.{
  out_of_fuel, var_decl, var_decl_initial, Meets, gives, Meets-if, Meets-bind, Meets-wrap,
  Meets-ne-out_of_fuel,
}
use tentacle_next.St.Parser.{peek, advance}
use tentacle_next.St.Parser.Termination.{
  Shrinks, Keeps, length-advance, length-skip, expect-Meets, parse_expression-Consumes,
}
use tentacle_next.St.Parser.Statements.Termination.{
  parse_statement-Consumes, advance-not_eof, or_false,
}
use tentacle_next.St.Parser.Program.{
  parse_initial, parse_var_decl, var_decls, parse_var_block, is_var_block_start, program_items,
  parse_program, parse,
}

parse_initial-Meets :
    (n : ℕ) (ts : Tokens) → suc (length ts) < n → Meets (Keeps ts) (parse_initial n ts)
unfolding parse_initial
parse_initial-Meets n ts l =
    let less = length-advance ts in
    Meets-if (is Token.assign (peek ts))
      (λ _.
        Meets-bind
          (Meets-wrap var_decl_initial (parse_expression-Consumes n (advance ts) (omega arith)))
          λ _ p. gives (omega arith))
      λ _. gives (omega arith)

parse_var_decl-Meets :
    (n : ℕ) (ts : Tokens) → length ts < n → Meets (Shrinks ts) (parse_var_decl n ts)
unfolding parse_var_decl
parse_var_decl-Meets n ts l =
    Meets-bind (Meets-wrap var_decl (expect-Meets Token.ident ts (omega arith))) λ (_, ts₁) p₁.
      Meets-bind (Meets-wrap var_decl (expect-Meets Token.colon ts₁ (omega arith))) λ (_, ts₂) p₂.
        let less = length-advance ts₂ in
        Meets-bind (parse_initial-Meets n (advance ts₂) (omega arith))
          λ (_, ts₃) p₃. gives (omega (arith, length-skip Token.semicolon ts₃))

var_decls-Meets :
    (n m : ℕ) (ts : Tokens) → length ts < m → length ts < n → Meets (Keeps ts) (var_decls n m ts)
unfolding var_decls
var_decls-Meets n zero ts l k = absurd (omega arith)
var_decls-Meets n (suc m) ts l k =
    Meets-if (is Token.end_var (peek ts) || is Token.eof (peek ts)) (λ _. gives (omega arith))
      λ _. Meets-bind (parse_var_decl-Meets n ts k) λ (_, rest) p.
        Meets-bind (var_decls-Meets n m rest (omega arith) (omega arith)) λ _ q. gives (omega arith)

parse_var_block-Meets :
    (n : ℕ) (ts : Tokens)
    → length ts < n
    → length (advance ts) < length ts
    → Meets (Shrinks ts) (parse_var_block n ts)
unfolding parse_var_block
parse_var_block-Meets n ts l less =
    Meets-bind (var_decls-Meets n n (advance ts) (omega arith) (omega arith))
      λ (_, rest) p. gives (omega (arith, length-skip Token.end_var rest))

program_items-Meets :
    (headed : Bool) (n m : ℕ) (ts : Tokens)
    → length ts < m
    → suc (length ts) < n
    → Meets (Keeps ts) (program_items headed n m ts)
unfolding program_items
program_items-Meets headed n zero ts l k = absurd (omega arith)
program_items-Meets headed n (suc m) ts l k =
    Meets-if ((if headed then is Token.end_program (peek ts) else false) || is Token.eof (peek ts))
      (λ _. gives (omega arith))
      λ e.
        let more : is Token.eof (peek ts) ≡ false =
          (or_false (if headed then is Token.end_program (peek ts) else false)
            (is Token.eof (peek ts)) e).1 in
        Meets-if (is_var_block_start (peek ts))
          (λ _.
            Meets-bind (parse_var_block-Meets n ts (omega arith) (advance-not_eof ts more))
              λ (_, rest) p.
                Meets-bind (program_items-Meets headed n m rest (omega arith) (omega arith))
                  λ _ q. gives (omega arith))
          λ _. Meets-bind (parse_statement-Consumes n ts k more) λ (_, rest) p.
            Meets-bind (program_items-Meets headed n m rest (omega arith) (omega arith))
              λ _ q. gives (omega arith)

parse_program-Meets :
    (n : ℕ) (ts : Tokens) → suc (length ts) < n → Meets (Keeps ts) (parse_program n ts)
unfolding parse_program
parse_program-Meets n ts l =
    let less = length-advance ts in
    let less' = length-advance (advance ts) in
    Meets-if (is Token.program_kw (peek ts))
      (λ _.
        Meets-bind (program_items-Meets true n n (advance (advance ts)) (omega arith) (omega arith))
          λ (_, rest) p. gives (omega (arith, length-skip Token.end_program rest)))
      λ _. Meets-bind (program_items-Meets false n n ts (omega arith) l) λ _ p. gives p

-- The parser ends on every list of tokens, whatever errors are in it: two units of fuel more than
-- there are tokens are always enough, since each round of each of its loops and each nested call
-- comes after a token that was consumed.
pub parse-ne-out_of_fuel : (ts : Tokens) → parse ts ≢ out_of_fuel
unfolding parse
parse-ne-out_of_fuel ts = Meets-ne-out_of_fuel (
    Meets-bind {Q = λ _. Unit {0}} (parse_program-Meets (suc (suc (length ts))) ts (omega arith))
      λ _ _. gives tt)
