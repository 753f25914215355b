-- ===== src/Docs/Paragraphs/Anchors.antt =====
-- Which comments the address of a page opens.
use forwarding_explorer.Base.{ℕ, ◌≡◌, refl, ap, false, Option, some, List, [], ◌∷◌, ◌++◌, drop, All}
use forwarding_explorer.Docs.Text.{Text, units, same}
use forwarding_explorer.Docs.Text.Laws.{same_self}
use forwarding_explorer.Docs.Panels.{Panel, show}
use forwarding_explorer.Docs.Paragraphs.{
  SupportOptions, linked, comment, show_at, clicked, open_requested,
}

module _ (show_number : ℕ → Text) (metadata : Text → Option ℕ) (options : SupportOptions) where
  -- None of these paragraphs has the id "s" and `id`, or another letter for the "s".
  abbrev pub Others : Text → List (Text × Panel) → Type 0
  Others id = All (λ p. same (drop 1 (p.0)) id ≡ false)

  clicked-comment :
      (id : Text) (panel : Panel) (front back : List (Text × Panel))
      → Others id front
      → clicked id (comment show_number metadata options (front ++ (b's' ∷ id, panel) ∷ back))
        ≡ some (units "ao" ++ id)
  clicked-comment id panel [] back h = rw (same_self id) refl
  clicked-comment id panel ((other, p) ∷ front) back (e, h) =
      rw e (clicked-comment id panel front back h)

  show_at-comment :
      (id : Text) (panel : Panel) (front back : List (Text × Panel))
      → Others id front
      → show_at id (comment show_number metadata options (front ++ (b's' ∷ id, panel) ∷ back))
        ≡ comment show_number metadata options (front ++ (b's' ∷ id, show panel) ∷ back)
  show_at-comment id panel [] back h = rw (same_self id) refl
  show_at-comment id panel ((other, p) ∷ front) back (e, h) = rw e (
      ap (λ ps. linked show_number metadata options (drop 1 other) p ∷ ps)
        (show_at-comment id panel front back h))

  -- The address "#comment-" and an id opens the comments of the first paragraph whose id is "s" and
  -- that, changes no other paragraph, and goes to that paragraph.
  pub open_requested-comment :
      (id : Text) (panel : Panel) (front back : List (Text × Panel))
      → Others id front
      → open_requested
          (units "#comment-" ++ id)
          (comment show_number metadata options (front ++ (b's' ∷ id, panel) ∷ back))
        ≡ (
          comment show_number metadata options (front ++ (b's' ∷ id, show panel) ∷ back),
          b'#' ∷ (b's' ∷ id),
        )
  unfolding open_requested
  open_requested-comment id panel front back h =
      rw (clicked-comment id panel front back h)
        (ap (λ ps. (ps, b'#' ∷ (b's' ∷ id))) (show_at-comment id panel front back h))
