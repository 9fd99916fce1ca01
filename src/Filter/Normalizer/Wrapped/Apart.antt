-- ===== src/Filter/Normalizer/Wrapped/Apart.antt =====
-- filter_normalizer.rs: what the scan of `n1` keeps where tokens stand between two openings.
use doka_one.Prelude.{
  ℕ, suc, ◌+◌, ◌≡◌, refl, ap, ◌∙◌, Bool, true, false, if◌then◌else◌, none, some, [], ◌∷◌, ◌++◌,
  length, All, arith,
}
use doka_one.Prelude.Int.{pos}
use doka_one.Filter.Token.{Token, Tokens, logical_open, logical_close}
use doka_one.Filter.Normalizer.N1.{
  Scan, is_next, scan_open, scan_token, scan_close, scan, first_scan, remove_pair, use_pair,
}
use doka_one.Filter.Normalizer.Wrapped.Scanned.{IsInside, opened, at_token, scan_inside}

is_next-far : (n : ℕ) → is_next (suc (suc n)) 0 ≡ false
unfolding is_next
is_next-far n = ground arith

-- Behind the second opening, at `m`, no pair is noted.
abbrev second_open : ℕ → Scan
second_open m = record {
  open_delta_zero = [];
  depth = pos 2;
  last_open_info = some (pos 2, m);
  last_close_info = none;
  position_counter = m + 1;
  to_be_removed = [];
}

open_far :
    (n : ℕ)
    → record (scan_open (some (pos 1, 0)) (at_token (opened 0) (suc (suc n)))) {
      position_counter = suc (suc n) + 1;
    }
      ≡ second_open (suc (suc n))
unfolding scan_open
open_far n = rw (is_next-far n) refl

either :
    (b : Bool) (u v : Scan)
    → u.to_be_removed ≡ []
    → v.to_be_removed ≡ []
    → (if b then u else v).to_be_removed ≡ []
either true u v e f = e
either false u v e f = f

two_closes :
    (m n q u : ℕ)
    → (scan (logical_close q ∷ logical_close u ∷ []) (at_token (second_open m) n)).to_be_removed
      ≡ []
unfolding scan scan_token scan_close remove_pair use_pair
two_closes m n q u = either (is_next (n + 1) n) _ _ refl refl

pub scan_apart :
    (p q r u : ℕ) (t : Token) (between inner : Tokens)
    → All IsInside (t ∷ between)
    → All IsInside inner
    → (scan
        (logical_open r
          ∷ ((t ∷ between)
              ++ (logical_open p ∷ (inner ++ (logical_close q ∷ logical_close u ∷ [])))))
        first_scan).to_be_removed
      ≡ []
unfolding scan scan_token scan_open
scan_apart p q r u t between inner h g =
    let tail : Tokens = logical_close q ∷ logical_close u ∷ [] in
    let rest : Tokens = inner ++ tail in
    let far : 1 + length (t ∷ between) ≡ suc (suc (length between)) = omega arith in
    let m = suc (suc (length between)) in
    ap (λ (s : Scan). s.to_be_removed)
      (scan_inside (t ∷ between) (logical_open p ∷ rest) (opened 0) 1 h
        ∙ ap (λ n. scan (logical_open p ∷ rest) (at_token (opened 0) n)) far
        ∙ ap (scan rest) (open_far (length between))
        ∙ scan_inside inner tail (second_open m) (m + 1) g)
    ∙ two_closes m (m + 1 + length inner) q u
