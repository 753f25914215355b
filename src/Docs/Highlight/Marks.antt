-- ===== src/Docs/Highlight/Marks.antt =====
-- What is highlighted, and that the text of a page stays.
use forwarding_explorer.Base.{
  ℕ, zero, suc, ◌+◌, ◌≡◌, refl, sym, ap, ap₂, ◌∙◌, false, Option, none, some, [], ◌∷◌, ◌++◌, length,
  take, drop, append_assoc, append-nil, map, Bool-cases, inl, inr, arith,
}
use forwarding_explorer.Docs.Text.{Text}
use forwarding_explorer.Docs.Search.Page.{index_of, substr}
use forwarding_explorer.Docs.Highlight.{
  Element, Node, text_node, element, Nodes, no_nodes, nodes, append_nodes, count_nodes, is_field,
  Around, around_children, marker, visit, is_closed, highlight_at, highlight_value, highlight,
  rects, add_items, highlight_each, depth, highlight_text,
}

-- `textContent`
abbrev pub text_of : Nodes → Text
text_of no_nodes = []
text_of (nodes (text_node val) rest) = val ++ text_of rest
text_of (nodes (element e children) rest) = text_of children ++ text_of rest

take-drop : (n : ℕ) (val : Text) → val ≡ take n val ++ drop n val
take-drop zero val = refl
take-drop (suc n) [] = refl
take-drop (suc n) (c ∷ val) = ap (λ t. c ∷ t) (take-drop n val)

nothing_left : (n m : ℕ) → ◌≡◌ {A = Text} [] (take n [] ++ drop m [])
nothing_left zero zero = refl
nothing_left zero (suc m) = refl
nothing_left (suc n) zero = refl
nothing_left (suc n) (suc m) = refl

regroup : (a b c d : Text) → (a ++ (b ++ c)) ++ d ≡ a ++ ((b ++ []) ++ (c ++ d))
regroup a b c d = simp (append_assoc, append-nil, map, append-nil)

split_lem :
    (pos n : ℕ) (val : Text) → val ≡ take pos val ++ (substr val pos n ++ drop (pos + n) val)
split_lem zero n val = take-drop n val ∙ ap (λ k. take n val ++ drop k val) (omega arith)
split_lem (suc pos) n [] = nothing_left n (suc pos + n)
split_lem (suc pos) n (c ∷ val) =
    let e : suc pos + n ≡ suc (pos + n) = omega arith in
    rw e (ap (λ t. c ∷ t) (split_lem pos n val))

module _ (lower : Text → Text) (text class_name : Text) (Fits : Text → Type 0) where
  -- The second list is the first, where texts that have a match are split at the first one into
  -- what is before it, an element for the match and what is behind it, which may be split again.
  pub data Marked : Around → Nodes → Nodes → Type 0 where
    unchanged : {around : Around} {ns : Nodes} → Marked around ns ns
    next :
        {around : Around} {ns ns' : Nodes} (node : Node)
        → Marked around ns ns'
        → Marked around (nodes node ns) (nodes node ns')
    inside :
        {around : Around} {ns ns' children children' : Nodes} (e : Element) (items : ℕ)
        → is_field e ≡ false
        → Marked (around_children around e) children children'
        → Marked around ns ns'
        → Marked around
            (nodes (element e children) ns)
            (nodes (element (record e { items = items }) children') ns')
    marked :
        {around : Around} {ns ns' : Nodes} (val before hit behind : Text)
        → val ≡ before ++ (hit ++ behind)
        → Fits hit
        → is_closed lower text class_name around ≡ false
        → Marked around
            (nodes (marker class_name around.in_svg hit) (nodes (text_node behind) ns))
            ns'
        → Marked around (nodes (text_node val) ns) (nodes (text_node before) ns')

  module _
      (fits : (val : Text) (pos : ℕ)
        → index_of (lower val) text ≡ some pos
        → Fits (substr val pos (length text))) where
    -- The rest of the loop, once it has been marked, for a child and those behind it.
    outcome-Marked :
        (around : Around) (val : Text) (found : Option ℕ) (rest after : Nodes)
        → index_of (lower val) text ≡ found
        → Marked around
            (append_nodes ((highlight_at lower text class_name around val found).inserted) rest)
            after
        → Marked around
            (nodes (text_node val) rest)
            (nodes ((highlight_at lower text class_name around val found).node) after)
    outcome-Marked around val none rest after e = λ m. next (text_node val) m
    outcome-Marked around val (some pos) rest after e =
        elim (Bool-cases (is_closed lower text class_name around)) [
          | inl closed ↦ rw (closed, append_nodes) (λ m. next (text_node val) m)
          | inr free ↦
              rw (free, append_nodes)
                (λ m.
                  marked val (take pos val) (substr val pos (length text))
                    (drop (pos + length text) val) (split_lem pos (length text) val)
                    (fits val pos e) free m)
        ]

    visit-Marked :
        (fuel : ℕ) (around : Around) (rounds : ℕ) (children : Nodes)
        → Marked around children
            ((visit (highlight lower text class_name fuel around) rounds children).0)
    unfolding highlight
    visit-Marked fuel around zero children = unchanged
    visit-Marked fuel around (suc rounds) no_nodes = unchanged
    visit-Marked zero around (suc rounds) (nodes child rest) =
        next child (visit-Marked zero around rounds rest)
    visit-Marked (suc fuel) around (suc rounds) (nodes (text_node val) rest) =
        outcome-Marked around val (index_of (lower val) text) rest _ refl (
          visit-Marked (suc fuel) around rounds
            (append_nodes ((highlight_value lower text class_name around val).inserted) rest))
    visit-Marked (suc fuel) around (suc rounds) (nodes (element e children) rest) =
        elim (Bool-cases (is_field e)) [
          | inl field ↦
              rw field (next (element e children) (visit-Marked (suc fuel) around rounds rest))
          | inr free ↦ rw free (
              inside e _ free
                (visit-Marked fuel (around_children around e) (count_nodes children) children)
                (visit-Marked (suc fuel) around rounds rest))
        ]

    element-Marked :
        (fuel : ℕ) (around : Around) (e : Element) (children rest after : Nodes)
        → Marked around rest after
        → Marked around
            (nodes (element e children) rest)
            (nodes ((highlight lower text class_name fuel around (element e children)).node) after)
    unfolding highlight
    element-Marked zero around e children rest after m = next (element e children) m
    element-Marked (suc fuel) around e children rest after m = elim (Bool-cases (is_field e)) [
      | inl field ↦ rw field (next (element e children) m)
      | inr free ↦ rw free (
          inside e _ free
            (visit-Marked fuel (around_children around e) (count_nodes children) children) m)
    ]

    highlight_each-Marked :
        (fuel : ℕ) (around : Around) (roots : Nodes)
        → Marked around roots (highlight_each lower text class_name fuel around roots)
    highlight_each-Marked fuel around no_nodes = unchanged
    highlight_each-Marked fuel around (nodes (text_node val) roots) =
        next (text_node val) (highlight_each-Marked fuel around roots)
    highlight_each-Marked fuel around (nodes (element e children) roots) =
        element-Marked fuel around e children roots _ (highlight_each-Marked fuel around roots)

  Marked-text_of :
      {around : Around} {ns ns' : Nodes} → Marked around ns ns' → text_of ns ≡ text_of ns'
  Marked-text_of unchanged = refl
  Marked-text_of (next (text_node val) m) = ap (λ t. val ++ t) (Marked-text_of m)
  Marked-text_of (next (element e children) m) = ap (λ t. text_of children ++ t) (Marked-text_of m)
  Marked-text_of (inside e items free inner m) =
      ap₂ (λ s t. s ++ t) (Marked-text_of inner) (Marked-text_of m)
  Marked-text_of (marked {ns = ns} val before hit behind e f free m) =
      rw e (regroup before hit behind (text_of ns)) ∙ ap (λ t. before ++ t) (Marked-text_of m)

text_of-rects :
    (class_name : Text) (n : ℕ) (ns : Nodes) → text_of (rects class_name n ns) ≡ text_of ns
text_of-rects class_name zero ns = refl
text_of-rects class_name (suc n) ns = text_of-rects class_name n ns

text_of-add_items :
    (class_name : Text) (ns : Nodes) → text_of (add_items class_name ns) ≡ text_of ns
text_of-add_items class_name no_nodes = refl
text_of-add_items class_name (nodes (text_node val) rest) =
    ap (λ t. val ++ t) (text_of-add_items class_name rest)
text_of-add_items class_name (nodes (element e children) rest) =
    text_of-rects class_name e.items _
    ∙ ap₂ (λ s t. s ++ t) (text_of-add_items class_name children)
        (text_of-add_items class_name rest)

-- `highlightText` keeps the text of what it is called on.
pub highlight_text-text_of :
    (lower : Text → Text) (text class_name : Text) (around : Around) (roots : Nodes)
    → text_of (highlight_text lower text class_name around roots) ≡ text_of roots
unfolding highlight_text
highlight_text-text_of lower text class_name around roots =
    text_of-add_items class_name
      (highlight_each lower text class_name (depth roots + 1) around roots)
    ∙ sym (
        Marked-text_of lower text class_name (λ hit. Unit {0})
          (highlight_each-Marked lower text class_name (λ hit. Unit {0}) (λ val pos e. tt)
            (depth roots + 1) around roots))
