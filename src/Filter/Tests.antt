-- ===== src/Filter/Tests.antt =====
-- The filter on the inputs of the repository's own tests.
use doka_one.Prelude.{
  zero, suc, subst, ℕ, [], ◌∷◌, ◌++◌, map, Text, codes, ascii_upper, Outcome, ◌>>=◌, ok, panic,
  out_of_fuel, ◌≡◌, ◌≢◌, refl, arith,
}
use doka_one.Prelude.Int.{pos}
use doka_one.Filter.Token.{
  Tokens, FilterError, land, eq, lt, attribute, operator, value_int, binary_logical_operator,
  condition_open, condition_close, logical_open, logical_close, logical_operator_expected,
}
use doka_one.Filter.Lexer.Pieces.{fail}
use doka_one.Filter.Lexer.Expression.{Unicode, UnicodeLaws, lex3, lex3_with_offset}
use doka_one.Filter.Lexer.Grammar.{IsItems, IsValue}
use doka_one.Filter.Lexer.Runs.{lex3_with_offset-ne-out_of_fuel, lex3-IsItems, lex3-ne-panic}
use doka_one.Filter.Normalizer.N3.{n3_binary_logical_operator}
use doka_one.Filter.Normalizer.N1.{n1_remove_successive_logical_open_close}
use doka_one.Filter.Normalizer.Wrapped.{n1-wrapped}
use doka_one.Filter.Normalizer.Fixed.{n3_binary_logical_operator-Denotes}
use doka_one.Filter.Ast.Tree.{
  FilterValue, FilterExpressionAst, condition, logical, nil, cons, to_canonical_form,
}
use doka_one.Filter.Ast.Parser.{parse_tokens, analyse_expression}
use doka_one.Filter.Ast.Denotes.{Denotes, denotes_condition, denotes_logical}
use doka_one.Filter.Ast.ParserRuns.{parse_tokens-Denotes}
use doka_one.Filter.Ast.ParserSound.{ValuesAreClosed, BeginsWith, parse_tokens-BeginsWith}
use doka_one.Filter.Ast.ParserTotal.{parse_tokens-ends}

-- Every character is a grapheme, and only ASCII letters have an upper case.
abbrev ascii : Unicode
ascii = record { graphemes = map (λ c. c ∷ []); to_uppercase = map ascii_upper }

ascii-UnicodeLaws : UnicodeLaws ascii
ascii-UnicodeLaws = record {
  graphemes-IsPrintable = λ t h. refl;
  to_uppercase-IsAscii = λ t h. refl;
}

unfoldable key : ℕ → Text
key n = []

unfoldable canonical : Text → Outcome FilterError Text
unfolding analyse_expression to_canonical_form key
canonical t = do e ← analyse_expression ascii key t; ok (to_canonical_form e)

abbrev two_conditions : Text
two_conditions = codes "(A < 40) AND B == 6"

abbrev two_conditions_tokens : Tokens
two_conditions_tokens =
    logical_open 1
    ∷ attribute (codes "A") 2
    ∷ operator lt 4
    ∷ value_int (pos 40) 6
    ∷ logical_close 8
    ∷ binary_logical_operator land 10
    ∷ attribute (codes "B") 14
    ∷ operator eq 16
    ∷ value_int (pos 6) 19
    ∷ []

two_conditions_lexed : lex3 ascii two_conditions ≡ ok two_conditions_tokens
unfolding lex3
two_conditions_lexed = refl

lex3_with_offset-ne-out_of_fuel_example : lex3_with_offset ascii two_conditions 2 ≢ out_of_fuel
lex3_with_offset-ne-out_of_fuel_example =
    lex3_with_offset-ne-out_of_fuel ascii ascii-UnicodeLaws two_conditions 2

lex3-IsItems_example : IsItems two_conditions_tokens
lex3-IsItems_example =
    lex3-IsItems ascii ascii-UnicodeLaws two_conditions {ts = two_conditions_tokens}
      two_conditions_lexed

lex3-ne-panic_example : lex3 ascii two_conditions ≢ panic
lex3-ne-panic_example = lex3-ne-panic ascii ascii-UnicodeLaws two_conditions (omega arith)

-- `([A == 1] AND [B == 6])`
abbrev first_condition : Tokens
first_condition =
    condition_open 1
    ∷ attribute (codes "A") 2
    ∷ operator eq 4
    ∷ value_int (pos 1) 7
    ∷ condition_close 8
    ∷ []

-- `A == 1` before its delimiters are marked
abbrev inside_condition : Tokens
inside_condition = attribute (codes "A") 3 ∷ operator eq 5 ∷ value_int (pos 1) 8 ∷ []

abbrev second_condition : Tokens
second_condition =
    condition_open 0
    ∷ attribute (codes "B") 14
    ∷ operator eq 16
    ∷ value_int (pos 6) 19
    ∷ condition_close 0
    ∷ []

abbrev delimited : Tokens
delimited =
    logical_open 0
    ∷ (first_condition
        ++ binary_logical_operator land 10 ∷ (second_condition ++ logical_close 0 ∷ []))

abbrev equals : Text → ℕ → FilterExpressionAst
equals a n =
    condition
      (record { key = key 0; attribute = a; operator = eq; value = FilterValue.value_int (pos n) })

abbrev delimited_tree : FilterExpressionAst
delimited_tree = logical land (cons (equals (codes "A") 1) (cons (equals (codes "B") 6) nil))

delimited-Denotes : Denotes key 0 delimited delimited_tree 2
unfolding key
delimited-Denotes =
    denotes_logical 0 10 0 (denotes_condition 1 2 4 8 refl refl)
      (denotes_condition 0 14 16 0 refl refl) refl

parse_tokens-Denotes_example :
    parse_tokens key (delimited ++ logical_open 3 ∷ []) ≡ ok delimited_tree
parse_tokens-Denotes_example =
    parse_tokens-Denotes key {xs = delimited} {tree = delimited_tree} {n = 2} (logical_open 3 ∷ [])
      delimited-Denotes

parse_tokens-ends_example :
    (parse_tokens key first_condition ≢ out_of_fuel) × (parse_tokens key first_condition ≢ panic)
parse_tokens-ends_example = parse_tokens-ends key first_condition

n3_binary_logical_operator-Denotes_example : n3_binary_logical_operator delimited ≡ ok delimited
n3_binary_logical_operator-Denotes_example =
    n3_binary_logical_operator-Denotes {uuid8 = key} {k = 0} {m = 2} {xs = delimited}
      {tree = delimited_tree} delimited-Denotes

-- `(B AND (A == 1))`
abbrev apart_tokens : Tokens
apart_tokens =
    logical_open 0
    ∷ attribute (codes "B") 0
    ∷ binary_logical_operator land 1
    ∷ logical_open 2
    ∷ (inside_condition ++ (logical_close 9 ∷ logical_close 11 ∷ []))

-- `(((A == 1)))`
n1-wrapped_example :
    (n1_remove_successive_logical_open_close (
        logical_open 0
        ∷ logical_open 1
        ∷ logical_open 2
        ∷ (inside_condition ++ (logical_close 9 ∷ logical_close 10 ∷ logical_close 11 ∷ [])))
      ≡ ok (logical_open 2 ∷ (inside_condition ++ (logical_close 9 ∷ []))))
    × (n1_remove_successive_logical_open_close apart_tokens ≡ ok apart_tokens)
n1-wrapped_example =
    n1-wrapped (0 ∷ 1 ∷ []) (10 ∷ 11 ∷ []) 2 9 0 11 (attribute (codes "B") 0)
      (binary_logical_operator land 1 ∷ []) inside_condition (tt, (tt, tt)) (tt, (tt, (tt, tt)))
      refl

first_condition-ValuesAreClosed : ValuesAreClosed first_condition
first_condition-ValuesAreClosed zero t h e =
    let k : t ≡ condition_open 1 = cc in absurd (subst IsValue k h)
first_condition-ValuesAreClosed (suc zero) t h e =
    let k : t ≡ attribute (codes "A") 2 = cc in absurd (subst IsValue k h)
first_condition-ValuesAreClosed (suc (suc zero)) t h e =
    let k : t ≡ operator eq 4 = cc in absurd (subst IsValue k h)
first_condition-ValuesAreClosed (suc (suc (suc zero))) t h e = (8, refl)
first_condition-ValuesAreClosed (suc (suc (suc (suc zero)))) t h e =
    let k : t ≡ condition_close 8 = cc in absurd (subst IsValue k h)
first_condition-ValuesAreClosed (suc (suc (suc (suc (suc i))))) t h e = cc

first_condition_parsed : parse_tokens key first_condition ≡ ok (equals (codes "A") 1)
unfolding parse_tokens
first_condition_parsed = refl

parse_tokens-BeginsWith_example : BeginsWith key first_condition (equals (codes "A") 1)
parse_tokens-BeginsWith_example =
    parse_tokens-BeginsWith key first_condition {tree = equals (codes "A") 1}
      first_condition-ValuesAreClosed first_condition_parsed

-- `AND` binds more tightly than `OR`.
and_first :
    canonical (codes "(A < 40) OR (B > 21) AND (C == 6)")
    ≡ ok (codes "([A<LT>40]OR([B<GT>21]AND[C<EQ>6]))")
unfolding canonical
and_first = refl

-- Successive operators group to the left.
left_first :
    canonical (codes "(A < 40) AND (B > 21) AND (C == 6)")
    ≡ ok (codes "(([A<LT>40]AND[B<GT>21])AND[C<EQ>6])")
unfolding canonical
left_first = refl

-- The outer parentheses make the first operator unusable for the normalizer.
outer_parentheses :
    canonical (codes "((A == 1 OR B == 2) AND C == 3 OR D == 4)")
    ≡ fail 14 logical_operator_expected
unfolding canonical
outer_parentheses = refl

-- An `AND` that no blank follows is lost, with what it joins.
lost_operator : canonical (codes "A == 1 AND(B == 2)") ≡ ok (codes "[A<EQ>1]")
unfolding canonical
lost_operator = refl
