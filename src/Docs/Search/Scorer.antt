-- ===== src/Docs/Search/Scorer.antt =====
-- docs/_build/html/_static/searchtools.js: `Scorer`.
use forwarding_explorer.Base.{ℕ, zero, suc, Option, none, some}
use forwarding_explorer.Base.Int.{ℤ, pos, negsuc}

abbrev pub obj_name_match : ℕ
obj_name_match = 11

abbrev pub obj_partial_match : ℕ
obj_partial_match = 6

abbrev pub obj_prio : ℕ → Option ℤ
obj_prio zero = some (pos 15)
obj_prio (suc zero) = some (pos 5)
obj_prio (suc (suc zero)) = some (negsuc 4)
obj_prio _ = none

abbrev pub obj_prio_default : ℤ
obj_prio_default = pos 0

-- `title` and `term`
abbrev pub title_score : ℕ
title_score = 15

abbrev pub term_score : ℕ
term_score = 5
