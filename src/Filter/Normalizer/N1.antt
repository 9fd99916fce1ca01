-- ===== src/Filter/Normalizer/N1.antt =====
-- filter_normalizer.rs: `n1_remove_successive_logical_open_close`.
use doka_one.Prelude.{
  ℕ, ◌+◌, ◌-◌, Bool, true, false, Option, none, some, List, [], ◌∷◌, ◌++◌, ◌==◌, if◌then◌else◌, ok,
  ◌>>=◌, vec_remove, sort_desc,
}
use doka_one.Prelude.Int.{ℤ, pos, negsuc, increment, decrement, ◌==ℤ◌}
use doka_one.Filter.Token.{Token, Tokens, logical_open, logical_close}
use doka_one.Filter.Lexer.Pieces.{Lexed}

pub record PairPosition : Type 0 where
  pub position : ℕ
  pub x : ℤ
  pub y : ℤ

-- The local variables of the function.
pub record Scan : Type 0 where
  pub open_delta_zero : List PairPosition
  pub depth : ℤ
  pub last_open_info : Option (ℤ × ℕ)
  pub last_close_info : Option (ℤ × ℕ)
  pub position_counter : ℕ
  pub to_be_removed : List ℕ

-- The position of the first pair with this `x`, and the pairs with that one made unusable.
unfoldable pub use_pair : ℤ → List PairPosition → Option (ℕ × List PairPosition)
use_pair d [] = none
use_pair d (p ∷ ps) = elim (p.x ==ℤ d) [
  | true ↦ some (p.position, record p { x = negsuc 0; y = negsuc 0 } ∷ ps)
  | false ↦ elim (use_pair d ps) [ none ↦ none | some (at, qs) ↦ some (at, p ∷ qs) ]
]

-- Is this token right behind the one at the position noted? (A noted position is always smaller.)
unfoldable pub is_next : ℕ → ℕ → Bool
is_next position_counter last = position_counter - (last + 1) == 0

unfoldable pub scan_open : Option (ℤ × ℕ) → Scan → Scan
unfolding is_next
scan_open last s =
    let depth = increment s.depth in
    let pairs : List PairPosition = elim last [
      | none ↦ s.open_delta_zero
      | some (d, at) ↦
          if is_next s.position_counter at
          then s.open_delta_zero ++ (record { position = at; x = d; y = depth } ∷ [])
          else s.open_delta_zero
    ] in
    record s {
      depth = depth;
      open_delta_zero = pairs;
      last_open_info = some (depth, s.position_counter);
    }

-- The closing's own matching pair is at `depth + 1`; it marks the pair's outer couple for removal.
unfoldable pub remove_pair : Scan → Scan
unfolding use_pair
remove_pair s = elim (use_pair (increment s.depth) s.open_delta_zero) [
  | none ↦ s
  | some (at, pairs) ↦ record s {
    to_be_removed = s.to_be_removed ++ at ∷ s.position_counter ∷ [];
    open_delta_zero = pairs;
  }
]

unfoldable pub scan_close : Option (ℤ × ℕ) → Scan → Scan
unfolding is_next remove_pair
scan_close last s =
    let t = record s { depth = decrement s.depth } in
    let u : Scan = elim last [
      | none ↦ t
      | some (d, at) ↦ if is_next s.position_counter at then remove_pair t else t
    ] in
    record u { last_close_info = some (decrement s.depth, s.position_counter) }

-- Another token right behind a closing makes that closing's pair unusable.
unfoldable pub scan_other : Option (ℤ × ℕ) → Scan → Scan
unfolding is_next use_pair
scan_other none s = s
scan_other (some (d, at)) s =
    if is_next s.position_counter at
    then elim (use_pair d s.open_delta_zero) [
      | none ↦ s
      | some (_, pairs) ↦ record s { open_delta_zero = pairs }
    ]
    else s

unfoldable pub scan_token : Token → Scan → Scan
unfolding scan_open scan_close scan_other
scan_token (logical_open p) s = scan_open s.last_open_info s
scan_token (logical_close p) s = scan_close s.last_close_info s
scan_token _ s = scan_other s.last_close_info s

unfoldable pub scan : Tokens → Scan → Scan
unfolding scan_token
scan [] s = s
scan (t ∷ ts) s =
    let u = scan_token t s in scan ts (record u { position_counter = s.position_counter + 1 })

unfoldable pub remove_all : Tokens → List ℕ → Lexed Tokens
unfolding vec_remove
remove_all ts [] = ok ts
remove_all ts (p ∷ ps) = do us ← vec_remove ts p; remove_all us ps

abbrev pub first_scan : Scan
first_scan = record {
  open_delta_zero = [];
  depth = pos 0;
  last_open_info = none;
  last_close_info = none;
  position_counter = 0;
  to_be_removed = [];
}

unfoldable pub n1_remove_successive_logical_open_close : Tokens → Lexed Tokens
unfolding scan remove_all sort_desc
n1_remove_successive_logical_open_close tokens =
    remove_all tokens (sort_desc (λ p. p) (scan tokens first_scan).to_be_removed)
