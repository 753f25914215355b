-- ===== src/Docs/Templates/Escapes.antt =====
-- Where the tags of a rendered template come from.
use forwarding_explorer.Base.{
  ℕ, zero, suc, ◌+◌, ◌≡◌, refl, ap, ◌∙◌, Option, none, some, List, [], ◌∷◌, ◌==◌, length, count,
  count-append, Option-cases, Bool-cases, inl, inr, arith, if◌then◌else◌,
}
use forwarding_explorer.Docs.Text.{Text, units}
use forwarding_explorer.Docs.Templates.{
  placeholder_at, or_undefined, or_empty, replaced, render_template,
}
use forwarding_explorer.Docs.Templates.Texts.{comment_template}

-- How many "<" of a template are no placeholder's, and the names of its placeholders that are not
-- escaped.
abbrev pub literal_tags : (skip : ℕ) → Text → ℕ
literal_tags skip [] = 0
literal_tags (suc skip) (c ∷ text) = literal_tags skip text
literal_tags zero (c ∷ text) = elim (placeholder_at c text) [
  | none ↦ (if b'<' == c then 1 else 0) + literal_tags zero text
  | some (mark, name) ↦ literal_tags (length name + 3) text
]

abbrev pub raw_names : (skip : ℕ) → Text → List Text
raw_names skip [] = []
raw_names (suc skip) (c ∷ text) = raw_names skip text
raw_names zero (c ∷ text) = elim (placeholder_at c text) [
  | none ↦ raw_names zero text
  | some (mark, name) ↦
      if mark == b'%'
      then raw_names (length name + 3) text
      else name ∷ raw_names (length name + 3) text
]

raw_names_of_comment : raw_names zero comment_template ≡ units "text" ∷ units "proposal_diff" ∷ []
raw_names_of_comment = refl

module _ (escape : Text → Text) (context : Text → Option Text)
    (escape-tags : (text : Text) → count b'<' (escape text) ≡ 0) where
  abbrev pub raw_tags : List Text → ℕ
  raw_tags [] = 0
  raw_tags (name ∷ names) = count b'<' (or_undefined (context name)) + raw_tags names

  replaced-tags :
      (skip : ℕ) (text : Text)
      → count b'<' (replaced escape context skip text)
        ≡ literal_tags skip text + raw_tags (raw_names skip text)
  replaced-tags zero [] = omega arith
  replaced-tags (suc skip) [] = omega arith
  replaced-tags (suc skip) (c ∷ text) = replaced-tags skip text
  replaced-tags zero (c ∷ text) = elim (Option-cases (placeholder_at c text)) [
    | inl e ↦ rw (e, replaced, literal_tags, raw_names) (omega (arith, replaced-tags zero text))
    | inr ((mark, name), e) ↦
        let later = replaced-tags (length name + 3) text in
        elim (Bool-cases (mark == b'%')) [
          | inl m ↦
              rw (e, replaced, literal_tags, raw_names, m)
                (omega (
                  arith,
                  count-append b'<' (escape (or_empty (context name)))
                      (replaced escape context (length name + 3) text),
                  escape-tags (or_empty (context name)),
                  later,
                ))
          | inr m ↦
              rw (e, replaced, literal_tags, raw_names, m)
                (omega (
                  arith,
                  count-append b'<' (or_undefined (context name))
                      (replaced escape context (length name + 3) text),
                  later,
                ))
        ]
  ]

  -- If escaped text has no "<", those of a rendered template are its own, its placeholders not
  -- counted, and those of the values of its placeholders that are not escaped.
  pub render_template-tags :
      (template : Text)
      → count b'<' (render_template escape context template)
        ≡ literal_tags zero template + raw_tags (raw_names zero template)
  unfolding render_template
  render_template-tags template = replaced-tags zero template

  -- If escaped text has no "<", those of a rendered comment are the ones of its template that are no
  -- placeholder's, and those of its text and of the change that it proposes.
  pub render_comment-tags :
      count b'<' (render_template escape context comment_template)
      ≡ literal_tags zero comment_template
        + (count b'<' (or_undefined (context (units "text")))
            + (count b'<' (or_undefined (context (units "proposal_diff"))) + 0))
  render_comment-tags =
      render_template-tags comment_template
      ∙ ap (λ names. literal_tags zero comment_template + raw_tags names) raw_names_of_comment
