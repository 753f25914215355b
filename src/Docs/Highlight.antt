-- ===== src/Docs/Highlight.antt =====
-- docs/_build/html/_static/doctools.js: `jQuery.fn.highlightText`, on the tree of a page.
pub mod Marks
pub mod Rounds
pub mod Fuel
pub mod Words
use forwarding_explorer.Base.{
  ℕ, zero, suc, ◌+◌, Bool, true, false, ◌||◌, Option, none, some, List, [], ◌∷◌, length, take, drop,
  if◌then◌else◌,
}
use forwarding_explorer.Docs.Text.{Text, units, same, contains}
use forwarding_explorer.Docs.Search.Page.{index_of, substr}

-- An element, with the number of entries of `addItems` whose parent it is.
pub record Element : Type 0 where
  pub tag : Text
  pub classes : List Text
  pub items : ℕ

mutual
  pub data Node : Type 0 where
    text_node : Text → Node
    element : Element → Nodes → Node

  pub data Nodes : Type 0 where
    no_nodes : Nodes
    nodes : Node → Nodes → Nodes

abbrev pub append_nodes : Nodes → Nodes → Nodes
append_nodes no_nodes back = back
append_nodes (nodes node front) back = nodes node (append_nodes front back)

abbrev pub count_nodes : Nodes → ℕ
count_nodes no_nodes = 0
count_nodes (nodes node rest) = suc (count_nodes rest)

-- `is("button, select, textarea")`
abbrev pub is_field : Element → Bool
is_field e =
    same e.tag (units "button") || same e.tag (units "select") || same e.tag (units "textarea")

-- What a node sees of the elements around it: the classes of its parent, and whether the first
-- "body", "svg" or "foreignObject" around it is an "svg".
pub record Around : Type 0 where
  pub classes : List Text
  pub in_svg : Bool

abbrev pub around_children : Around → Element → Around
around_children around e = record {
  classes = e.classes;
  in_svg =
      if same e.tag (units "svg")
      then true
      else if same e.tag (units "body") || same e.tag (units "foreignObject")
      then false
      else around.in_svg;
}

-- The span or tspan for a match.
abbrev pub marker : (class_name : Text) (in_svg : Bool) (hit : Text) → Node
marker class_name in_svg hit =
    element
      (if in_svg
        then record { tag = units "tspan"; classes = []; items = 0 }
        else record { tag = units "span"; classes = class_name ∷ []; items = 0 })
      (nodes (text_node hit) no_nodes)

-- What `highlight` makes of a node: the node itself, the siblings that it inserts behind it, and the
-- number of entries of `addItems` for its parent.
pub record Outcome : Type 0 where
  pub node : Node
  pub inserted : Nodes
  pub items : ℕ

abbrev pub kept : Node → Outcome
kept node = record { node = node; inserted = no_nodes; items = 0 }

-- `jQuery.each(node.childNodes, ...)`: as many rounds as there were children at first, each on the
-- child that has its place then.
abbrev pub visit : (Node → Outcome) → (rounds : ℕ) → Nodes → Nodes × ℕ
visit handle zero children = (children, 0)
visit handle (suc rounds) no_nodes = (no_nodes, 0)
visit handle (suc rounds) (nodes child rest) =
    let outcome = handle child in
    let (later, items) = visit handle rounds (append_nodes outcome.inserted rest) in
    (nodes outcome.node later, outcome.items + items)

-- `lower` is toLowerCase.
module _ (lower : Text → Text) (text class_name : Text) where
  -- A text node whose first match begins at `pos`.
  abbrev pub wrap : Around → (val : Text) (pos : ℕ) → Outcome
  wrap around val pos = record {
    node = text_node (take pos val);
    inserted =
        nodes (marker class_name around.in_svg (substr val pos (length text)))
          (nodes (text_node (drop (pos + length text) val)) no_nodes);
    items = if around.in_svg then 1 else 0;
  }

  abbrev pub is_closed : Around → Bool
  is_closed around =
      contains around.classes class_name || contains around.classes (units "nohighlight")

  abbrev pub highlight_at : Around → Text → Option ℕ → Outcome
  highlight_at around val none = kept (text_node val)
  highlight_at around val (some pos) =
      if is_closed around then kept (text_node val) else wrap around val pos

  abbrev pub highlight_value : Around → Text → Outcome
  highlight_value around val = highlight_at around val (index_of (lower val) text)

  abbrev pub with_children : Element → Nodes × ℕ → Node
  with_children e (children, items) = element (record e { items = e.items + items }) children

  -- `highlight`. The recursion runs on fuel.
  unfoldable pub highlight : (fuel : ℕ) → Around → Node → Outcome
  highlight zero around node = kept node
  highlight (suc fuel) around (text_node val) = highlight_value around val
  highlight (suc fuel) around (element e children) =
      if is_field e
      then kept (element e children)
      else kept (
          with_children e
            (visit (highlight fuel (around_children around e)) (count_nodes children) children))

  -- `this.each(...)`, where the elements of the jQuery object are those among `roots`.
  abbrev pub highlight_each : (fuel : ℕ) → Around → Nodes → Nodes
  highlight_each fuel around no_nodes = no_nodes
  highlight_each fuel around (nodes (text_node val) roots) =
      nodes (text_node val) (highlight_each fuel around roots)
  highlight_each fuel around (nodes (element e children) roots) =
      nodes ((highlight fuel around (element e children)).node) (highlight_each fuel around roots)

-- `jQuery(addItems[i].parent).before(addItems[i].target)`, for every entry. Where a rectangle is
-- and how big is not modelled.
abbrev pub rects : (class_name : Text) → ℕ → Nodes → Nodes
rects class_name zero rest = rest
rects class_name (suc n) rest =
    nodes (element (record { tag = units "rect"; classes = class_name ∷ []; items = 0 }) no_nodes)
      (rects class_name n rest)

abbrev pub add_items : (class_name : Text) → Nodes → Nodes
add_items class_name no_nodes = no_nodes
add_items class_name (nodes (text_node val) rest) =
    nodes (text_node val) (add_items class_name rest)
add_items class_name (nodes (element e children) rest) =
    let inner = add_items class_name children in
    rects class_name e.items
      (nodes (element (record e { items = 0 }) inner) (add_items class_name rest))

-- One more than the depth of a tree is enough fuel.
abbrev larger_of : ℕ → ℕ → ℕ
larger_of zero b = b
larger_of (suc a) zero = suc a
larger_of (suc a) (suc b) = suc (larger_of a b)

abbrev pub depth : Nodes → ℕ
depth no_nodes = 0
depth (nodes (text_node val) rest) = larger_of 1 (depth rest)
depth (nodes (element e children) rest) = larger_of (suc (depth children)) (depth rest)

unfoldable pub highlight_text :
    (lower : Text → Text) (text class_name : Text) → Around → Nodes → Nodes
unfolding highlight
highlight_text lower text class_name around roots =
    add_items class_name (highlight_each lower text class_name (depth roots + 1) around roots)
