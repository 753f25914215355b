-- ===== src/Docs/Tools/Pages/Addresses.antt =====
-- The current address of a page.
use forwarding_explorer.Base.{
  ℕ, ◌-◌, ◌≡◌, refl, sym, ap, ap₂, ◌∙◌, List, [], ◌∷◌, ◌==◌, ==_iff, length, Bool-cases, inl, inr,
}
use forwarding_explorer.Docs.Text.{Text}
use forwarding_explorer.Docs.Tools.Address.{split_at, before_first}
use forwarding_explorer.Docs.Tools.Pages.{
  join, pop_each, behind_last_slash, substring, get_current_url,
}

split_at_some :
    (c : ℕ) (text : Text)
    → (piece : Text) × (pieces : List Text) × (split_at c text ≡ piece ∷ pieces)
split_at_some c [] = ([], [], refl)
split_at_some c (d ∷ text) =
    let (piece, pieces, e) = split_at_some c text in
    elim (Bool-cases (d == c)) [
      | inl h ↦ ([], piece ∷ pieces, rw (h, e) refl)
      | inr h ↦ (d ∷ piece, pieces, rw (h, e) refl)
    ]

join-before_first :
    (c : ℕ) (piece : Text) (pieces : List Text)
    → join (before_first c (piece ∷ pieces)) ≡ c ∷ join (piece ∷ pieces)
join-before_first c piece [] = refl
join-before_first c piece (next ∷ pieces) = refl

join-split_at : (text : Text) → join (split_at b'/' text) ≡ text
join-split_at [] = refl
join-split_at (c ∷ text) =
    let (piece, pieces, e) = split_at_some b'/' text in
    let later : join (piece ∷ pieces) ≡ text = ap join (sym e) ∙ join-split_at text in
    elim (Bool-cases (c == b'/')) [
      | inl h ↦ rw (h, e) (ap₂ (λ d t. d ∷ t) (sym ((==_iff c b'/').0 h)) later)
      | inr h ↦ rw (h, e) (join-before_first c piece pieces ∙ ap (λ t. c ∷ t) later)
    ]

pop_each_lem : (roots parts : List Text) → pop_each roots parts ≡ parts
pop_each_lem [] parts = refl
pop_each_lem (root ∷ roots) parts = pop_each_lem roots parts

-- The current address is what the path has behind its last "/", without its last character,
-- whatever the root is.
pub get_current_url_lem :
    (url_root path : Text)
    → get_current_url url_root path ≡ substring path (behind_last_slash 0 0 path) (length path - 1)
unfolding get_current_url
get_current_url_lem url_root path =
    ap (λ url. substring path (behind_last_slash 0 0 url) (length path - 1))
      (ap join (pop_each_lem (split_at b'/' url_root) (split_at b'/' path)) ∙ join-split_at path)
