-- ===== src/Filter/Normalizer/Wrapped.antt =====
-- filter_normalizer.rs: the pass `n1` on tokens in several parentheses.
mod Scanned
mod Removed
mod Apart
use doka_one.Prelude.{
  ℕ, suc, ◌+◌, ◌≤◌, ◌≡◌, refl, ap, sym, ◌∙◌, List, [], ◌∷◌, ◌++◌, append_assoc, length,
  length-append, All, arith, ok, sort_desc,
}
use doka_one.Filter.Token.{Token, Tokens, logical_open, logical_close}
use doka_one.Filter.Normalizer.N1.{
  Scan, scan_token, scan, remove_all, first_scan, n1_remove_successive_logical_open_close,
}
use doka_one.Filter.Normalizer.Wrapped.Scanned.{
  opens, closes, IsInside, removals, opened, scan_all_opens, scan_inside, closed, first_close,
  scan-closes,
}
use doka_one.Filter.Normalizer.Wrapped.Apart.{scan_apart}
use doka_one.Filter.Normalizer.Wrapped.Removed.{
  rise, down, sort_desc-removals, remove_rise, remove_down,
}

-- The tokens without their last closings, and what is left of them without their first openings.
abbrev kept : ℕ → Tokens → ℕ → Tokens
kept p inner q = logical_open p ∷ (inner ++ (logical_close q ∷ []))

wrapped_assoc :
    (ps qs : List ℕ) (p q : ℕ) (inner : Tokens)
    → opens ps ++ (logical_open p ∷ (inner ++ (logical_close q ∷ closes qs)))
      ≡ (opens ps ++ kept p inner q) ++ closes qs
wrapped_assoc ps qs p q inner =
    ap (λ l. opens ps ++ (logical_open p ∷ l))
      (sym (append_assoc inner (logical_close q ∷ []) (closes qs)))
    ∙ sym (append_assoc (opens ps) (kept p inner q) (closes qs))

length-opens : (ps : List ℕ) → length (opens ps) ≡ length ps
length-opens [] = refl
length-opens (p ∷ ps) = let rest = length-opens ps in ap suc rest

length-kept :
    (ps : List ℕ) (p q : ℕ) (inner : Tokens)
    → length (opens ps ++ kept p inner q) ≡ suc (suc (length ps) + length inner)
length-kept ps p q inner =
    let all = length-append (opens ps) (kept p inner q) in
    let inside = length-append inner (logical_close q ∷ []) in
    let before = length-opens ps in omega arith

scan_wrapped :
    (ps qs : List ℕ) (p q : ℕ) (inner : Tokens)
    → All IsInside inner
    → length ps ≡ length qs
    → (scan
        (opens ps ++ (logical_open p ∷ (inner ++ (logical_close q ∷ closes qs))))
        first_scan).to_be_removed
      ≡ removals (length qs) (suc (suc (length ps) + length inner))
unfolding scan scan_token
scan_wrapped ps qs p q inner h e =
    let n = suc (length ps) + length inner in
    let tail : Tokens = logical_close q ∷ closes qs in
    ap (λ (s : Scan). s.to_be_removed)
      (scan_all_opens ps p (inner ++ tail)
        ∙ scan_inside inner tail (opened (length ps)) (suc (length ps)) h
        ∙ ap (scan (closes qs)) (first_close (length ps) n)
        ∙ ap (λ j. scan (closes qs) (closed (length ps) n [] [] j)) e)
    ∙ scan-closes (length ps) n [] [] qs

n1-nested :
    (ps qs : List ℕ) (p q : ℕ) (inner : Tokens)
    → All IsInside inner
    → length ps ≡ length qs
    → n1_remove_successive_logical_open_close
        (opens ps ++ (logical_open p ∷ (inner ++ (logical_close q ∷ closes qs))))
      ≡ ok (logical_open p ∷ (inner ++ (logical_close q ∷ [])))
unfolding n1_remove_successive_logical_open_close
n1-nested ps qs p q inner h e =
    let at = suc (suc (length ps) + length inner) in
    let tokens : Tokens = opens ps ++ (logical_open p ∷ (inner ++ (logical_close q ∷ closes qs))) in
    let low : length qs ≤ at = omega arith in
    ap (λ l. remove_all tokens (sort_desc (λ n. n) l)) (scan_wrapped ps qs p q inner h e)
    ∙ ap (remove_all tokens) (sort_desc-removals (length qs) at low)
    ∙ ap (λ l. remove_all l (rise (length qs) at ++ down (length qs)))
        (wrapped_assoc ps qs p q inner)
    ∙ remove_rise qs (opens ps ++ kept p inner q) at (down (length qs)) (length-kept ps p q inner)
    ∙ remove_down (length qs) (opens ps) (kept p inner q) (length-opens ps ∙ e)

-- An opening behind which `t` and others stand before the next one.
abbrev apart : ℕ → ℕ → ℕ → ℕ → Token → Tokens → Tokens → Tokens
apart p q r u t between inner =
    logical_open r
    ∷ ((t ∷ between) ++ (logical_open p ∷ (inner ++ (logical_close q ∷ logical_close u ∷ []))))

n1-apart :
    (p q r u : ℕ) (t : Token) (between inner : Tokens)
    → All IsInside (t ∷ between)
    → All IsInside inner
    → n1_remove_successive_logical_open_close (apart p q r u t between inner)
      ≡ ok (apart p q r u t between inner)
unfolding n1_remove_successive_logical_open_close remove_all sort_desc
n1-apart p q r u t between inner h g =
    ap (λ l. remove_all (apart p q r u t between inner) (sort_desc (λ n. n) l))
      (scan_apart p q r u t between inner h g)

-- Of parentheses that stand directly inside each other around tokens without parentheses, `n1`
-- leaves the innermost opening and the first closing, which closes it. Where at least one token,
-- and no parenthesis, stands between two openings, the tokens stay as they are, although the two
-- closings stand next to each other.
pub n1-wrapped :
    (ps qs : List ℕ) (p q r u : ℕ) (t : Token) (between inner : Tokens)
    → All IsInside (t ∷ between)
    → All IsInside inner
    → length ps ≡ length qs
    → (n1_remove_successive_logical_open_close
          (opens ps ++ (logical_open p ∷ (inner ++ (logical_close q ∷ closes qs))))
        ≡ ok (logical_open p ∷ (inner ++ (logical_close q ∷ []))))
      × (n1_remove_successive_logical_open_close (apart p q r u t between inner)
          ≡ ok (apart p q r u t between inner))
n1-wrapped ps qs p q r u t between inner h g e =
    (n1-nested ps qs p q inner g e, n1-apart p q r u t between inner h g)
