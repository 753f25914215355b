-- ===== src/Docs/Highlight/Fuel.antt =====
-- One more than its depth is enough fuel for a tree.
use forwarding_explorer.Base.{
  ℕ, zero, suc, ◌+◌, ◌≤◌, ◌<◌, ◌≡◌, refl, sym, if◌then◌else◌, ap, ap₂, ◌∙◌, Bool, true, false,
  Option, none, some, length, arith, Bool-cases, inl, inr,
}
use forwarding_explorer.Docs.Text.{Text}
use forwarding_explorer.Docs.Search.Page.{index_of, substr}
use forwarding_explorer.Docs.Highlight.{
  Element, Node, text_node, element, Nodes, no_nodes, nodes, append_nodes, count_nodes, is_field,
  Around, around_children, Outcome, kept, visit, marker, is_closed, highlight_at, highlight_value,
  highlight, with_children, larger_of, depth, highlight_each, highlight_text, add_items,
}

larger_of_bounds : (a b : ℕ) → (a ≤ larger_of a b) × (b ≤ larger_of a b)
larger_of_bounds zero b = omega arith
larger_of_bounds (suc a) zero = omega arith
larger_of_bounds (suc a) (suc b) = omega (arith, larger_of_bounds a b)

depth_pos : (child : Node) (rest : Nodes) → 0 < depth (nodes child rest)
depth_pos (text_node val) rest = omega (arith, larger_of_bounds 1 (depth rest))
depth_pos (element e children) rest =
    omega (arith, larger_of_bounds (suc (depth children)) (depth rest))

visit_same :
    (handle other : Node → Outcome) (child : Node) (rest : Nodes) (rounds : ℕ)
    → handle child ≡ other child
    → (other child).inserted ≡ no_nodes
    → visit handle rounds rest ≡ visit other rounds rest
    → visit handle (suc rounds) (nodes child rest) ≡ visit other (suc rounds) (nodes child rest)
visit_same handle other child rest rounds same none_inserted later = rw same (
    rw (none_inserted, append_nodes)
      (ap (λ (l : Nodes × ℕ). (nodes ((other child).node) l.0, (other child).items + l.1)) later))

module _ (lower : Text → Text) (text class_name : Text) where
  -- More fuel changes nothing for these nodes.
  abbrev AreSettled : (fuel : ℕ) → Around → Nodes → Type 0
  AreSettled fuel around no_nodes = Unit
  AreSettled fuel around (nodes node rest) =
      (highlight lower text class_name (suc fuel) around node
        ≡ highlight lower text class_name fuel around node)
      × AreSettled fuel around rest

  marker_settled :
      (fuel : ℕ) (around : Around) (in_svg : Bool) (hit : Text)
      → highlight lower text class_name (suc (suc (suc fuel))) around (marker class_name in_svg hit)
        ≡ highlight lower text class_name (suc (suc fuel)) around (marker class_name in_svg hit)
  unfolding highlight
  marker_settled fuel around true hit = refl
  marker_settled fuel around false hit = refl

  inserted-AreSettled :
      (fuel : ℕ) (around : Around) (val : Text) (found : Option ℕ) (rest : Nodes)
      → AreSettled (suc (suc fuel)) around rest
      → AreSettled
          (suc (suc fuel))
          around
          (append_nodes ((highlight_at lower text class_name around val found).inserted) rest)
  unfolding highlight
  inserted-AreSettled fuel around val none rest s = s
  inserted-AreSettled fuel around val (some pos) rest s =
      elim (Bool-cases (is_closed lower text class_name around)) [
        | inl closed ↦ rw (closed, append_nodes) s
        | inr free ↦
            rw (free, append_nodes)
              (marker_settled fuel around around.in_svg (substr val pos (length text)), (refl, s))
      ]

  element-inserted :
      (fuel : ℕ) (around : Around) (e : Element) (children : Nodes)
      → (highlight lower text class_name fuel around (element e children)).inserted ≡ no_nodes
  unfolding highlight
  element-inserted zero around e children = refl
  element-inserted (suc fuel) around e children = ground arith

  visit_settled :
      (fuel : ℕ) (around : Around) (rounds : ℕ) (children : Nodes)
      → AreSettled (suc (suc fuel)) around children
      → visit (highlight lower text class_name (suc (suc (suc fuel))) around) rounds children
        ≡ visit (highlight lower text class_name (suc (suc fuel)) around) rounds children
  unfolding highlight
  visit_settled fuel around zero children s = refl
  visit_settled fuel around (suc rounds) no_nodes s = refl
  visit_settled fuel around (suc rounds) (nodes (text_node val) rest) (same, s) =
      let outcome = highlight_value lower text class_name around val in
      ap (λ (later : Nodes × ℕ). (nodes outcome.node later.0, outcome.items + later.1))
        (visit_settled fuel around rounds (append_nodes outcome.inserted rest)
          (inserted-AreSettled fuel around val (index_of (lower val) text) rest s))
  visit_settled fuel around (suc rounds) (nodes (element e children) rest) (same, s) =
      visit_same (highlight lower text class_name (suc (suc (suc fuel))) around)
        (highlight lower text class_name (suc (suc fuel)) around) (element e children) rest rounds
        same (element-inserted (suc (suc fuel)) around e children)
        (visit_settled fuel around rounds rest s)

  highlight-AreSettled :
      (fuel : ℕ) (around : Around) (children : Nodes)
      → depth children < fuel
      → AreSettled fuel around children
  unfolding highlight
  highlight-AreSettled fuel around no_nodes l = tt
  highlight-AreSettled zero around (nodes child rest) l = absurd (omega arith)
  highlight-AreSettled (suc fuel) around (nodes (text_node val) rest) l = (
    refl,
    highlight-AreSettled (suc fuel) around rest (omega (arith, larger_of_bounds 1 (depth rest))),
  )
  highlight-AreSettled (suc zero) around (nodes (element e children) rest) l =
      absurd (omega (arith, larger_of_bounds (suc (depth children)) (depth rest)))
  highlight-AreSettled (suc (suc zero)) around (nodes (element e no_nodes) rest) l = (
    refl,
    highlight-AreSettled (suc (suc zero)) around rest
        (omega (arith, larger_of_bounds 1 (depth rest))),
  )
  highlight-AreSettled (suc (suc zero)) around (nodes (element e (nodes child children)) rest) l =
      absurd (
        omega (
          arith,
          depth_pos child children,
          larger_of_bounds (suc (depth (nodes child children))) (depth rest),
        ))
  highlight-AreSettled (suc (suc (suc fuel))) around (nodes (element e children) rest) l = (
    ap
        (λ (found : Nodes × ℕ).
          if is_field e
          then kept (element e children)
          else kept (with_children lower text class_name e found))
        (visit_settled fuel (around_children around e) (count_nodes children) children (
          highlight-AreSettled (suc (suc fuel)) (around_children around e) children
            (omega (arith, larger_of_bounds (suc (depth children)) (depth rest))))),
    highlight-AreSettled (suc (suc (suc fuel))) around rest
        (omega (arith, larger_of_bounds (suc (depth children)) (depth rest))),
  )

  highlight_each_settled :
      (fuel : ℕ) (around : Around) (roots : Nodes)
      → AreSettled fuel around roots
      → highlight_each lower text class_name (suc fuel) around roots
        ≡ highlight_each lower text class_name fuel around roots
  highlight_each_settled fuel around no_nodes s = refl
  highlight_each_settled fuel around (nodes (text_node val) roots) (same, s) =
      ap (λ ns. nodes (text_node val) ns) (highlight_each_settled fuel around roots s)
  highlight_each_settled fuel around (nodes (element e children) roots) (same, s) =
      ap₂ nodes (ap (λ o. o.node) same) (highlight_each_settled fuel around roots s)

  each_enough :
      (more : ℕ) (around : Around) (roots : Nodes)
      → highlight_each lower text class_name (more + (depth roots + 1)) around roots
        ≡ highlight_each lower text class_name (depth roots + 1) around roots
  each_enough zero around roots =
      ap (λ fuel. highlight_each lower text class_name fuel around roots) (omega arith)
  each_enough (suc more) around roots =
      let fuel = more + (depth roots + 1) in
      let e : suc more + (depth roots + 1) ≡ suc fuel = omega arith in
      rw e (
        highlight_each_settled fuel around roots
          (highlight-AreSettled fuel around roots (omega arith))
        ∙ each_enough more around roots)

  -- The recursion of `highlightText` ends by itself: with any more fuel, the result is the same.
  pub highlight_text-ends :
      (more : ℕ) (around : Around) (roots : Nodes)
      → highlight_text lower text class_name around roots
        ≡ add_items class_name
            (highlight_each lower text class_name (more + (depth roots + 1)) around roots)
  unfolding highlight_text
  highlight_text-ends more around roots =
      ap (λ ns. add_items class_name ns) (sym (each_enough more around roots))
