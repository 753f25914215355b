-- ===== src/Docs/Autogrow.antt =====
-- docs/_build/html/_static/websupport.js: `$.fn.autogrow`, by which a text field grows with its
-- text.
pub mod Rows
use forwarding_explorer.Base.{
  ℕ, zero, suc, ◌+◌, ◌-◌, ◌*◌, ◌/◌, Bool, true, false, List, [], ◌∷◌, length, if◌then◌else◌,
}
use forwarding_explorer.Docs.Text.{Text}
use forwarding_explorer.Docs.Tools.Address.{split_at}

-- A field, with whether its timer is set; `columns` is positive. The line height is in pixels.
pub record Area : Type 0 where
  pub value : Text
  pub columns : ℕ
  pub line_height : ℕ
  pub height : ℕ
  pub interval : Bool

-- `Math.ceil(n / columns)` and `|| 1`
abbrev pub ceil_div : (n columns : ℕ) → ℕ
ceil_div n columns = (n + columns - 1) / columns

abbrev pub or_one : ℕ → ℕ
or_one zero = 1
or_one (suc n) = suc n

-- `lineCount` after the lines.
abbrev pub count_lines : (columns : ℕ) → (lines : List Text) → ℕ → ℕ
count_lines columns [] line_count = line_count
count_lines columns (line ∷ lines) line_count =
    count_lines columns lines (line_count + or_one (ceil_div (length line) columns))

unfoldable pub resize : Area → Area
resize textarea =
    let line_count = count_lines textarea.columns (split_at 10 textarea.value) 0 in
    record textarea { height = textarea.line_height * (line_count + 1) }

unfoldable pub autogrow : Area → Area
unfolding resize
autogrow textarea = resize textarea

-- What may happen to the field: text is put in, it gets or loses the focus, and half a second ends.
pub data AreaEvent : Type 0 where
  writes : Text → AreaEvent
  focus : AreaEvent
  blur : AreaEvent
  tick : AreaEvent

unfoldable pub area_step : AreaEvent → Area → Area
unfolding resize
area_step (writes value) textarea = record textarea { value = value }
area_step focus textarea = record textarea { interval = true }
area_step blur textarea = record textarea { interval = false }
area_step tick textarea = if textarea.interval then resize textarea else textarea
