-- ===== src/Docs/Highlight/Rounds.antt =====
-- The children of an element that the loop of `highlight` does not reach.
use forwarding_explorer.Base.{ℕ, zero, suc, ◌+◌, ◌≤◌, ◌≡◌, refl, ap, false, some, take, arith}
use forwarding_explorer.Docs.Text.{Text}
use forwarding_explorer.Docs.Search.Page.{index_of}
use forwarding_explorer.Docs.Highlight.{
  Element, Node, text_node, element, Nodes, no_nodes, nodes, append_nodes, count_nodes, is_field,
  Around, around_children, Outcome, visit, wrap, is_closed, highlight,
}

append_nodes_assoc :
    (a b c : Nodes) → append_nodes (append_nodes a b) c ≡ append_nodes a (append_nodes b c)
append_nodes_assoc no_nodes b c = refl
append_nodes_assoc (nodes node a) b c = ap (λ ns. nodes node ns) (append_nodes_assoc a b c)

count_nodes-append_nodes :
    (a b : Nodes) → count_nodes (append_nodes a b) ≡ count_nodes a + count_nodes b
count_nodes-append_nodes no_nodes b = omega arith
count_nodes-append_nodes (nodes node a) b = omega (arith, count_nodes-append_nodes a b)

-- The rounds see nothing of the children behind as many as there are rounds.
visit-append_nodes :
    (handle : Node → Outcome) (rounds : ℕ) (front back : Nodes)
    → rounds ≤ count_nodes front
    → (visit handle rounds (append_nodes front back)).0
      ≡ append_nodes ((visit handle rounds front).0) back
visit-append_nodes handle zero front back l = refl
visit-append_nodes handle (suc rounds) no_nodes back l = absurd (omega arith)
visit-append_nodes handle (suc rounds) (nodes child front) back l =
    let inserted = (handle child).inserted in
    rw (← append_nodes_assoc inserted front back) (
      ap (λ ns. nodes ((handle child).node) ns)
        (visit-append_nodes handle rounds (append_nodes inserted front) back
          (omega (arith, count_nodes-append_nodes inserted front))))

module _ (lower : Text → Text) (text class_name : Text) where
  -- If the first child of an element is a text with a match, which may be highlighted there, it ends
  -- before the match, and the last two children of the element, or fewer, are left as they are.
  pub highlight-misses :
      (fuel : ℕ) (around : Around) (e : Element) (val : Text) (pos : ℕ) (front back : Nodes)
      → is_field e ≡ false
      → is_closed lower text class_name (around_children around e) ≡ false
      → index_of (lower val) text ≡ some pos
      → count_nodes back ≤ 2
      → (items : ℕ) × (after : Nodes) × ((highlight lower text class_name
            (suc (suc fuel))
            around
            (element e (nodes (text_node val) (append_nodes front back)))).node
          ≡ element
              (record e { items = items })
              (nodes (text_node (take pos val)) (append_nodes after back)))
  unfolding highlight
  highlight-misses fuel around e val pos front back field free found l =
      let inside = around_children around e in
      let handle = highlight lower text class_name (suc fuel) inside in
      let rounds = count_nodes (append_nodes front back) in
      let inserted = (wrap lower text class_name inside val pos).inserted in
      let items =
        e.items
        + ((wrap lower text class_name inside val pos).items
            + (visit handle rounds (append_nodes inserted (append_nodes front back))).1) in
      (
        items,
        (visit handle rounds (append_nodes inserted front)).0,
        rw (field, found, free)
            (ap (λ ns. element (record e { items = items }) (nodes (text_node (take pos val)) ns))
              (visit-append_nodes handle rounds (append_nodes inserted front) back
                (omega (arith, count_nodes-append_nodes front back)))),
      )
