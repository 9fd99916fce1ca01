-- ===== src/Filter/Lexer/Condition.antt =====
-- filter_lexer.rs: `condition_lexer_index`, which reads `COND ::= ATTR FOP VALUE`.
use doka_one.Prelude.{
  ℕ, zero, suc, ◌+◌, true, false, not, none, some, [], ◌∷◌, ◌++◌, Text, is_empty, length, get_elem?,
  ltb, ◌==◌, if◌then◌else◌, ok, out_of_fuel, ◌>>=◌, checked_sub,
}
use doka_one.Filter.Token.{Tokens, invalid_logical_depth, unclosed_quote, incorrect_attribute_char}
use doka_one.Filter.Lexer.Pieces.{
  Lexed, fail, list_of_fop, find_possible_operator_with, is_valid_char_attribute, starts_some_fop,
  ConditionExpectedLexeme, expects_attribute, expects_operator, expects_value, ConditionState,
  append_fop, append_attribute, append_value,
}

-- What a loop's body does next: one more round, or out of the loop.
pub data Flow (S : Type 0) : Type 0 where
  continue : S → Flow S
  break : S → Flow S

unfoldable pub step_back : ConditionState → Lexed ConditionState
step_back s = do i ← checked_sub s.index 1; ok (record s { index = i })

-- The case `' '`.
unfoldable pub condition_blank :
    ℕ → ConditionExpectedLexeme → ConditionState → Lexed (Flow ConditionState)
condition_blank offset expects_attribute s = do t ← append_attribute offset s; ok (continue t)
condition_blank offset expects_operator s = do t ← append_fop offset s; ok (continue t)
condition_blank offset expects_value s =
    if s.text_mode
    then ok (continue (record s { value = s.value ++ b' ' ∷ [] }))
    else if is_empty s.value
    then ok (continue s)
    else (do t ← append_value offset s; ok (break t))

-- The case `')'`.
unfoldable pub condition_closing : ℕ → ConditionState → Lexed (Flow ConditionState)
unfolding step_back
condition_closing offset s =
    if s.text_mode
    then (do p ← checked_sub s.index (length s.value); fail p unclosed_quote)
    else (do t ← append_value offset s; u ← step_back t; ok (break u))

-- A `"` opens or closes a text value; closing it ends the condition.
unfoldable pub condition_quote : ℕ → ConditionState → Lexed (Flow ConditionState)
condition_quote offset s =
    if s.text_mode
    then (do t ← append_value offset (record s { text_mode = false }); ok (break t))
    else ok (continue (record s { text_mode = true }))

-- Any other character.
unfoldable pub condition_char :
    ℕ → ℕ → ConditionExpectedLexeme → ConditionState → Lexed (Flow ConditionState)
unfolding step_back condition_quote
condition_char offset c expects_attribute s =
    if is_valid_char_attribute c
    then ok (continue (record s { attr = s.attr ++ c ∷ [] }))
    else if not (starts_some_fop c)
    then fail s.index incorrect_attribute_char
    else (do t ← append_attribute offset s; u ← step_back t; ok (continue u))
condition_char offset c expects_operator s =
    if find_possible_operator_with c s.fop list_of_fop
    then ok (continue (record s { fop = s.fop ++ c ∷ [] }))
    else (do t ← append_fop offset s; u ← step_back t; ok (continue u))
condition_char offset c expects_value s =
    let t = record s { value = s.value ++ c ∷ [] } in
    if c == b'"' then condition_quote offset t else ok (continue t)

-- No character is left: an error inside parentheses, the end of the value at the root.
unfoldable pub condition_end : ℕ → ℕ → ConditionState → Lexed (Flow ConditionState)
condition_end offset depth s =
    if ltb 0 depth
    then fail s.index invalid_logical_depth
    else (do t ← append_value offset s; ok (break t))

-- The body of the loop.
unfoldable pub condition_step : Text → ℕ → ℕ → ConditionState → Lexed (Flow ConditionState)
condition_step input_chars offset depth s = elim (get_elem? input_chars s.index) [
  | none ↦ condition_end offset depth s
  | some c ↦
      if c == b' '
      then condition_blank offset s.expected_lexeme s
      else if c == b')'
      then condition_closing offset s
      else condition_char offset c s.expected_lexeme s
]

-- Each round that goes on adds one to the index.
unfoldable pub condition_loop : ℕ → Text → ℕ → ℕ → ConditionState → Lexed ConditionState
unfolding condition_step condition_end condition_blank condition_closing condition_char
condition_loop zero cs offset depth s = out_of_fuel
condition_loop (suc f) cs offset depth s = do
  flow ← condition_step cs offset depth s
  elim flow [
    | break t ↦ ok t
    | continue t ↦ condition_loop f cs offset depth (record t { index = t.index + 1 })
  ]

unfoldable pub condition_start : ℕ → ConditionState
condition_start i = record {
  index = i;
  expected_lexeme = expects_attribute;
  attr = [];
  fop = [];
  value = [];
  text_mode = false;
  tokens = [];
}

-- At most one round for each character, one at the end, and two that only change the lexeme
-- expected. The result is the tokens read and the new index.
unfoldable pub condition_lexer_index : Text → ℕ → ℕ → ℕ → Lexed (Tokens × ℕ)
unfolding condition_loop condition_start append_attribute append_fop append_value
    is_valid_char_attribute find_possible_operator_with starts_some_fop
condition_lexer_index input_chars offset depth i = do
  s ← condition_loop (length input_chars + 4) input_chars offset depth (condition_start i)
  ok (s.tokens, s.index)
