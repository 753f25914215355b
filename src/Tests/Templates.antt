-- ===== src/Tests/Templates.antt =====
-- An example of a rendered comment.
use forwarding_explorer.Base.{
  zero, ◌+◌, ◌≡◌, refl, Option, none, some, [], ◌∷◌, count, arith, ◌==◌, if◌then◌else◌,
}
use forwarding_explorer.Docs.Text.{Text, units, same}
use forwarding_explorer.Docs.Templates.{or_undefined, render_template}
use forwarding_explorer.Docs.Templates.Texts.{comment_template}
use forwarding_explorer.Docs.Templates.Escapes.{literal_tags, render_comment-tags}

-- "<" becomes "&lt;".
abbrev escape : Text → Text
escape [] = []
escape (c ∷ text) =
    let rest = escape text in if c == b'<' then b'&' ∷ b'l' ∷ b't' ∷ b';' ∷ rest else c ∷ rest

escape-count : (text : Text) → count b'<' (escape text) ≡ 0
escape-count [] = refl
escape-count (c ∷ text) = ground (arith, escape-count text)

abbrev fields : Text → Option Text
fields name =
    if same name (units "username")
    then some (units "<script>")
    else if same name (units "text")
    then some (units "<p>good</p>")
    else if same name (units "id")
    then some (units "7")
    else none

render_comment-tags_example :
    count b'<' (render_template escape fields comment_template)
    ≡ literal_tags zero comment_template
      + (count b'<' (or_undefined (fields (units "text")))
          + (count b'<' (or_undefined (fields (units "proposal_diff"))) + 0))
render_comment-tags_example = render_comment-tags escape fields escape-count
