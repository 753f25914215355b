-- ===== src/Docs/Autogrow/Rows.antt =====
-- The height of a text field is that of its text in rows.
use forwarding_explorer.Base.{ℕ, zero, suc, ◌+◌, ◌-◌, List, [], ◌∷◌, length, if◌then◌else◌, ◌==◌}
use forwarding_explorer.Docs.Text.{Text}
use forwarding_explorer.Docs.Autogrow.{ceil_div, or_one}

-- The rows of a text that is written from left to right into rows of so many columns, with `room`
-- characters left in the current one. A row that is full breaks before the next character.
abbrev pub rows : (columns room : ℕ) → Text → ℕ
rows columns room [] = 1
rows columns zero (c ∷ text) =
    if c == 10 then suc (rows columns columns text) else suc (rows columns (columns - 1) text)
rows columns (suc room) (c ∷ text) =
    if c == 10 then suc (rows columns columns text) else rows columns room text

abbrev total : (columns : ℕ) → List Text → ℕ
total columns [] = 0
total columns (line ∷ lines) = or_one (ceil_div (length line) columns) + total columns lines

-- The rows of the lines, where the first has some room left in its row.
abbrev from_room : (columns room : ℕ) → List Text → ℕ
from_room columns room [] = 0
from_room columns room (line ∷ lines) =
    suc (ceil_div (length line - room) columns) + total columns lines
