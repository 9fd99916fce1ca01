-- ===== src/Admin/Tests.antt =====
-- The passwords of the repository's own tests.
use doka_one.Prelude.{codes, ◌≡◌, refl, true, false, arith}
use doka_one.Admin.Password.{valid_password}
use doka_one.Admin.Password.Rule.{rule, valid_password-rule}

valid_password-rule_example : valid_password (codes "dokA1234_") ≡ rule (codes "dokA1234_")
valid_password-rule_example = valid_password-rule (codes "dokA1234_") (omega arith)

accepted : valid_password (codes "dokA1234_") ≡ true
unfolding valid_password
accepted = refl

too_short : valid_password (codes "dA1234_") ≡ false
unfolding valid_password
too_short = refl
