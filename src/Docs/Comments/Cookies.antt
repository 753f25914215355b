-- ===== src/Docs/Comments/Cookies.antt =====
-- The order that a cookie keeps.
use forwarding_explorer.Base.{
  ◌≡◌, refl, true, false, [], ◌∷◌, ◌++◌, ◌==◌, All, Bool-cases, inl, inr,
}
use forwarding_explorer.Docs.Text.{Text, units}
use forwarding_explorer.Docs.Comments.{has_semicolon, init_by}

has_semicolon-none :
    (value : Text) → All (λ c. (c == b';') ≡ false) value → has_semicolon value ≡ false
has_semicolon-none [] h = refl
has_semicolon-none (c ∷ value) (e, h) = rw e (has_semicolon-none value h)

has_semicolon-some : (value rest : Text) → has_semicolon (value ++ b';' ∷ rest) ≡ true
has_semicolon-some [] rest = refl
has_semicolon-some (c ∷ value) rest = elim (Bool-cases (c == b';')) [
  | inl e ↦ rw e refl
  | inr e ↦ rw e (has_semicolon-some value rest)
]

-- Of a cookie that begins with the order, a value without ";" is read if the cookie ends with it,
-- and dropped for the default, the rating, if another cookie follows.
pub init_by_lem :
    (unescape : Text → Text) (value rest : Text)
    → All (λ c. (c == b';') ≡ false) value
    → (init_by unescape (units "sortBy=" ++ value) ≡ unescape value)
      × (init_by unescape (units "sortBy=" ++ (value ++ b';' ∷ rest)) ≡ units "rating")
unfolding init_by
init_by_lem unescape value rest h =
    (rw (has_semicolon-none value h) refl, rw (has_semicolon-some value rest) refl)
