-- ===== src/Filter/Normalizer/Wrapped/Scanned.antt =====
-- filter_normalizer.rs: what the scan of `n1` keeps on tokens in several parentheses.
use doka_one.Prelude.{
  ℕ, zero, suc, ◌+◌, ◌≤◌, ◌≡◌, refl, ap, sym, ◌∙◌, true, false, none, some, List, [], ◌∷◌, ◌++◌,
  append_assoc, append-nil, length, All, All-append, ==_self, arith,
}
use doka_one.Prelude.Int.{ℤ, pos, negsuc, increment, decrement, ◌==ℤ◌}
use doka_one.Filter.Token.{Token, Tokens, logical_open, logical_close}
use doka_one.Filter.Normalizer.N1.{
  PairPosition, Scan, use_pair, is_next, scan_open, remove_pair, scan_close, scan_other, scan_token,
  scan, first_scan,
}

abbrev pub opens : List ℕ → Tokens
opens [] = []
opens (p ∷ ps) = logical_open p ∷ opens ps

abbrev pub closes : List ℕ → Tokens
closes [] = []
closes (p ∷ ps) = logical_close p ∷ closes ps

abbrev pub IsInside : Token → Type 0
IsInside (logical_open p) = ⊥
IsInside (logical_close p) = ⊥
IsInside _ = Unit

-- The pair of the openings at `j` and `j + 1`, and the pairs below.
abbrev pair : ℕ → PairPosition
pair j = record { position = j; x = pos (suc j); y = pos (suc (suc j)) }

abbrev dead : ℕ → PairPosition
dead j = record { position = j; x = negsuc 0; y = negsuc 0 }

abbrev all_pairs : ℕ → List PairPosition
all_pairs zero = []
all_pairs (suc j) = all_pairs j ++ pair j ∷ []

all_pairs-differ : (j d : ℕ) → j ≤ d → All (λ p. (p.x ==ℤ pos (suc d)) ≡ false) (all_pairs j)
all_pairs-differ zero d h = tt
all_pairs-differ (suc j) d h =
    All-append (λ p. (p.x ==ℤ pos (suc d)) ≡ false) (all_pairs j) (pair j ∷ [])
      (all_pairs-differ j d (omega arith)) (ground arith, tt)

use_pair-found :
    (d : ℤ) (ps : List PairPosition) (p : PairPosition) (qs : List PairPosition)
    → All (λ p. (p.x ==ℤ d) ≡ false) ps
    → (p.x ==ℤ d) ≡ true
    → use_pair d (ps ++ p ∷ qs)
      ≡ some (p.position, ps ++ record p { x = negsuc 0; y = negsuc 0 } ∷ qs)
unfolding use_pair
use_pair-found d [] p qs h e =
    ap
      (λ b. elim b [
        | true ↦ some (p.position, record p { x = negsuc 0; y = negsuc 0 } ∷ qs)
        | false ↦ elim (use_pair d qs) [ none ↦ none | some (at, us) ↦ some (at, p ∷ us) ]
      ])
      e
use_pair-found d (a ∷ ps) p qs (f, h) e =
    ap
      (λ b. elim b [
        | true ↦ some (a.position, record a { x = negsuc 0; y = negsuc 0 } ∷ ps ++ p ∷ qs)
        | false ↦ elim (use_pair d (ps ++ p ∷ qs)) [
          | none ↦ none
          | some (at, us) ↦ some (at, a ∷ us)
        ]
      ])
      f
    ∙ ap (λ r. elim r [ none ↦ none | some (at, us) ↦ some (at, a ∷ us) ])
        (use_pair-found d ps p qs h e)

use_pair-all_pairs :
    (j : ℕ) (used : List PairPosition)
    → use_pair (pos (suc j)) (all_pairs (suc j) ++ used) ≡ some (j, all_pairs j ++ dead j ∷ used)
use_pair-all_pairs j used =
    ap (use_pair (pos (suc j))) (append_assoc (all_pairs j) (pair j ∷ []) used)
    ∙ use_pair-found (pos (suc j)) (all_pairs j) (pair j) used (all_pairs-differ j j (omega arith))
        (==_self (suc j))

-- Behind `j + 1` openings, at the token `n`.
abbrev pub opened_at : ℕ → ℕ → Scan
opened_at j n = record {
  open_delta_zero = all_pairs j;
  depth = pos (suc j);
  last_open_info = some (pos (suc j), j);
  last_close_info = none;
  position_counter = n;
  to_be_removed = [];
}

abbrev pub opened : ℕ → Scan
opened j = opened_at j (suc j)

pub is_next-suc : (n : ℕ) → is_next (suc n) n ≡ true
unfolding is_next
is_next-suc n = ground arith

open_step :
    (j : ℕ)
    → record (scan_open (some (pos (suc j), j)) (opened j)) { position_counter = suc j + 1 }
      ≡ opened (suc j)
unfolding scan_open
open_step j = rw (is_next-suc j) (ap (λ n. opened_at (suc j) n) (omega arith))

scan-opens :
    (ps : List ℕ) (rest : Tokens) (j : ℕ)
    → scan (opens ps ++ rest) (opened j) ≡ scan rest (opened (j + length ps))
unfolding scan scan_token
scan-opens [] rest j =
    let none_more : j ≡ j + 0 = omega arith in ap (λ n. scan rest (opened n)) none_more
scan-opens (p ∷ ps) rest j =
    let one_more : suc j + length ps ≡ j + suc (length ps) = omega arith in
    ap (scan (opens ps ++ rest)) (open_step j)
    ∙ scan-opens ps rest (suc j)
    ∙ ap (λ n. scan rest (opened n)) one_more

pub scan_all_opens :
    (ps : List ℕ) (p : ℕ) (rest : Tokens)
    → scan (opens ps ++ logical_open p ∷ rest) first_scan ≡ scan rest (opened (length ps))
unfolding scan scan_token scan_open
scan_all_opens [] p rest = refl
scan_all_opens (a ∷ ps) p rest =
    let all : 0 + length ps ≡ length ps = omega arith in
    scan-opens ps (logical_open p ∷ rest) 0
    ∙ ap (λ n. scan (logical_open p ∷ rest) (opened n)) all
    ∙ ap (scan rest) (open_step (length ps))

-- What is inside changes nothing but the position, behind openings only.
abbrev pub at_token : Scan → ℕ → Scan
at_token s n = record s { last_close_info = none; position_counter = n }

scan_token-IsInside :
    (t : Token) (s : Scan) (n : ℕ) → IsInside t → scan_token t (at_token s n) ≡ at_token s n
unfolding scan_token scan_other
scan_token-IsInside (logical_open p) s n h = absurd h
scan_token-IsInside (logical_close p) s n h = absurd h
scan_token-IsInside _ s n h = refl

pub scan_inside :
    (inner rest : Tokens) (s : Scan) (n : ℕ)
    → All IsInside inner
    → scan (inner ++ rest) (at_token s n) ≡ scan rest (at_token s (n + length inner))
unfolding scan
scan_inside [] rest s n h =
    let none_more : n ≡ n + 0 = omega arith in ap (λ m. scan rest (at_token s m)) none_more
scan_inside (t ∷ inner) rest s n (g, h) =
    let one_more : n + 1 + length inner ≡ n + suc (length inner) = omega arith in
    ap (λ u. scan (inner ++ rest) (record u { position_counter = n + 1 }))
      (scan_token-IsInside t s n g)
    ∙ scan_inside inner rest s (n + 1) h
    ∙ ap (λ m. scan rest (at_token s m)) one_more

-- Behind closings, the last of them at `at`, with the pairs below `j` not used.
abbrev pub closed : ℕ → ℕ → List PairPosition → List ℕ → ℕ → Scan
closed k at used removed j = record {
  open_delta_zero = all_pairs j ++ used;
  depth = pos j;
  last_open_info = some (pos (suc k), k);
  last_close_info = some (pos j, at);
  position_counter = suc at;
  to_be_removed = removed;
}

abbrev moved : ℕ → ℕ → List PairPosition → List ℕ → ℕ → ℕ → Scan
moved k at used removed j n = record (closed k at used removed j) { position_counter = n }

pub first_close :
    (k n : ℕ)
    → record (scan_close none (opened_at k n)) { position_counter = n + 1 } ≡ closed k n [] [] k
unfolding scan_close
first_close k n =
    let next : n + 1 ≡ suc n = omega arith in
    let pairs : all_pairs k ≡ all_pairs k ++ [] = sym (append-nil (all_pairs k)) in
    λ i. record (closed k n [] [] k) { open_delta_zero = pairs i; position_counter = next i }

-- What `remove_pair` does behind a closing, with a pair that it finds.
removed_pair :
    (s : Scan) (at : ℕ) (pairs : List PairPosition)
    → use_pair (increment s.depth) s.open_delta_zero ≡ some (at, pairs)
    → remove_pair s ≡ record s {
      to_be_removed = s.to_be_removed ++ at ∷ s.position_counter ∷ [];
      open_delta_zero = pairs;
    }
unfolding remove_pair
removed_pair s at pairs e = rw (remove_pair, e) refl

pub closes_next :
    (s : Scan) (d : ℤ) (at : ℕ)
    → is_next s.position_counter at ≡ true
    → scan_close (some (d, at)) s ≡ record (remove_pair (record s { depth = decrement s.depth })) {
      last_close_info = some (decrement s.depth, s.position_counter);
    }
unfolding scan_close
closes_next s d at e = rw e refl

close_step :
    (k at j : ℕ) (used : List PairPosition) (removed : List ℕ)
    → record (scan_close (some (pos (suc j), at)) (closed k at used removed (suc j))) {
      position_counter = suc at + 1;
    }
      ≡ closed k (suc at) (dead j ∷ used) (removed ++ j ∷ suc at ∷ []) j
close_step k at j used removed =
    let s : Scan = closed k at used removed (suc j) in
    let next : suc at + 1 ≡ suc (suc at) = omega arith in
    let inner = removed_pair (record s { depth = pos j }) j _ (use_pair-all_pairs j used) in
    let after = closes_next s (pos (suc j)) at (is_next-suc at) in
    ap (λ (u : Scan). record u { position_counter = suc at + 1 }) after
    ∙ ap
        (λ (u : Scan). record u {
          last_close_info = some (pos j, suc at);
          position_counter = suc at + 1;
        })
        inner
    ∙ ap (λ n. moved k (suc at) (dead j ∷ used) (removed ++ j ∷ suc at ∷ []) j n) next

-- The positions that are removed: of each opening but the innermost, and of its closing.
abbrev pub removals : ℕ → ℕ → List ℕ
removals zero at = []
removals (suc j) at = j ∷ at ∷ removals j (suc at)

pub scan-closes :
    (k at : ℕ) (used : List PairPosition) (removed qs : List ℕ)
    → (scan (closes qs) (closed k at used removed (length qs))).to_be_removed
      ≡ removed ++ removals (length qs) (suc at)
unfolding scan scan_token
scan-closes k at used removed [] = sym (append-nil removed)
scan-closes k at used removed (q ∷ qs) =
    ap (λ s. (scan (closes qs) s).to_be_removed) (close_step k at (length qs) used removed)
    ∙ scan-closes k (suc at) (dead (length qs) ∷ used) (removed ++ length qs ∷ suc at ∷ []) qs
    ∙ append_assoc removed (length qs ∷ suc at ∷ []) (removals (length qs) (suc (suc at)))
