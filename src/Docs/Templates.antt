-- ===== src/Docs/Templates.antt =====
-- docs/_build/html/_static/websupport.js: `renderTemplate`.
pub mod Texts
pub mod Escapes
use forwarding_explorer.Base.{
  ℕ, zero, suc, ◌+◌, Bool, true, false, ◌&&◌, ◌||◌, Option, none, some, List, [], ◌∷◌, ◌++◌, ◌==◌,
  leb, length, if◌then◌else◌,
}
use forwarding_explorer.Docs.Text.{Text, units}

-- `[\w\.]`
abbrev pub is_word : ℕ → Bool
is_word c =
    (leb b'a' c && leb c b'z')
    || (leb b'A' c && leb c b'Z')
    || (leb b'0' c && leb c b'9')
    || (c == b'_')
    || (c == b'.')

abbrev pub span_word : Text → Text × Text
span_word [] = ([], [])
span_word (c ∷ text) =
    let (word, rest) = span_word text in if is_word c then (c ∷ word, rest) else ([], c ∷ text)

-- `\1>`
abbrev pub closes : ℕ → Text → Bool
closes mark (c ∷ d ∷ rest) = (c == mark) && (d == b'>')
closes mark _ = false

-- `<([%#])([\w\.]*)\1>` behind its "<": the mark and the name.
abbrev pub placeholder : Text → Option (ℕ × Text)
placeholder [] = none
placeholder (mark ∷ text) =
    let (name, rest) = span_word text in
    if ((mark == b'%') || (mark == b'#')) && closes mark rest then some (mark, name) else none

abbrev pub placeholder_at : ℕ → Text → Option (ℕ × Text)
placeholder_at c text = if c == b'<' then placeholder text else none

-- `cur || ""`, and how a missing value reads in a text.
abbrev pub or_empty : Option Text → Text
or_empty none = []
or_empty (some text) = text

abbrev pub or_undefined : Option Text → Text
or_undefined none = units "undefined"
or_undefined (some text) = text

-- The fields of a context by their path, none for undefined. `escape` is what a div makes of a
-- text, `esc.text(...).html()`.
module _ (escape : Text → Text) (context : Text → Option Text) where
  abbrev pub handle_placeholder : ℕ → Text → Text
  handle_placeholder mark name =
      if mark == b'%' then escape (or_empty (context name)) else or_undefined (context name)

  -- `template.replace`, where the next `skip` characters belong to a placeholder that has been
  -- replaced.
  abbrev pub replaced : (skip : ℕ) → Text → Text
  replaced skip [] = []
  replaced (suc skip) (c ∷ text) = replaced skip text
  replaced zero (c ∷ text) = elim (placeholder_at c text) [
    | none ↦ c ∷ replaced zero text
    | some (mark, name) ↦ handle_placeholder mark name ++ replaced (length name + 3) text
  ]

  unfoldable pub render_template : Text → Text
  render_template template = replaced zero template
