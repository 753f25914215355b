-- ===== src/Tests/Highlights.antt =====
-- Examples for the highlighting of text in a page.
use forwarding_explorer.Base.{
  ℕ, ◌+◌, ◌≡◌, refl, Bool, false, if◌then◌else◌, leb, ◌&&◌, Option, some, [], ◌∷◌, ◌==◌, ◌||◌, map,
  arith,
}
use forwarding_explorer.Docs.Text.{Text, units}
use forwarding_explorer.Docs.Tools.Address.{Parameters, urldecode, get_query_parameters}
use forwarding_explorer.Docs.Highlight.{
  Element, Node, text_node, element, Nodes, no_nodes, nodes, Around, highlight, highlight_each,
  highlight_text, add_items, depth, append_nodes,
}
use forwarding_explorer.Docs.Highlight.Rounds.{highlight-misses}
use forwarding_explorer.Docs.Highlight.Fuel.{highlight_text-ends}
use forwarding_explorer.Docs.Highlight.Words.{
  split_spaces, read_words, highlight_query, MarkedPage, summary_context,
}
use forwarding_explorer.Docs.Highlight.Words.Links.{read_words-highlight_query}
use forwarding_explorer.Docs.Tools.Address.Values.{pairs_text}
use forwarding_explorer.Docs.Search.Session.{index_arrives, searches, timer_ends, steps_of}
use forwarding_explorer.Docs.Search.Session.Runs.{asked}
use forwarding_explorer.Docs.Search.Session.Opening.{
  init_search, load_index, new_page, opened_query_runs,
}
use forwarding_explorer.Tests.Searches.{pages}

abbrev unit : ℕ → ℕ
unit c = if leb b'A' c && leb c b'Z' then c + 32 else c

abbrev lower : Text → Text
lower = map unit

abbrev is_space : ℕ → Bool
is_space c = (c == b' ') || (c == 10)

abbrev decode : Text → Option Text
decode text = some text

abbrev keep : Text → Text
keep text = text

abbrev around : Around
around = record { classes = []; in_svg = false }

abbrev plain_element : Text → Element
plain_element tag = record { tag = tag; classes = []; items = 0 }

abbrev leaf : Text → Nodes
leaf text = nodes (text_node text) no_nodes

abbrev bold : Node
bold = element (plain_element (units "b")) (leaf (units "io"))

-- <div>IO and io<b>io</b>io</div>
abbrev children : Nodes
children = nodes (text_node (units "IO and io")) (nodes bold (leaf (units "io")))

abbrev body : Nodes
body = nodes (element (plain_element (units "div")) children) no_nodes

abbrev page : MarkedPage
page = record { body = body; links = 0 }

abbrev word : Text
word = units "io"

-- <svg><text>io</text></svg>
abbrev drawing : Nodes
drawing =
    nodes
      (element (plain_element (units "svg"))
        (nodes (element (plain_element (units "text")) (leaf (units "IO"))) no_nodes))
      no_nodes

abbrev span : Text → Node
span hit =
    element (record { tag = units "span"; classes = units "highlighted" ∷ []; items = 0 })
      (leaf hit)

-- Those in the bold text and behind it are left.
highlight_text_test :
    highlight_text lower word (units "highlighted") around body
    ≡ nodes
        (element (plain_element (units "div")) (
          nodes (text_node []) (
            nodes (span (units "IO")) (
              nodes (text_node (units " and ")) (
                nodes
                  (span (units "io"))
                  (nodes (text_node []) (nodes bold (leaf (units "io")))))))))
        no_nodes
unfolding highlight_text
highlight_text_test = refl

svg_test :
    highlight_text lower word (units "highlighted") around drawing
    ≡ nodes
        (element (plain_element (units "svg")) (
          nodes
            (element
              (record { tag = units "rect"; classes = units "highlighted" ∷ []; items = 0 })
              no_nodes)
            (nodes
              (element (plain_element (units "text")) (
                nodes
                  (text_node [])
                  (nodes (element (plain_element (units "tspan")) (leaf (units "IO"))) (leaf []))))
              no_nodes)))
        no_nodes
unfolding highlight_text
svg_test = refl

split_spaces_test :
    split_spaces is_space false (units " a  b ") ≡ [] ∷ units "a" ∷ units "b" ∷ [] ∷ []
split_spaces_test = refl

summary_test :
    summary_context lower around (units "io" ∷ []) (units "an io")
    ≡ nodes
        (element
          (record { tag = units "div"; classes = units "context" ∷ []; items = 0 })
          (nodes (text_node (units "an ")) (nodes (span (units "io")) (leaf []))))
        no_nodes
unfolding summary_context highlight_text
summary_test = refl

highlight-misses_example :
    (items : ℕ) × (after : Nodes) × ((highlight lower word
        (units "highlighted")
        2
        around
        (element (plain_element (units "div")) children)).node
      ≡ element
          (record { tag = units "div"; classes = []; items = items })
          (nodes (text_node []) (append_nodes after (nodes bold (leaf (units "io"))))))
highlight-misses_example =
    highlight-misses lower word (units "highlighted") 0 around (plain_element (units "div"))
      (units "IO and io") 0 no_nodes (nodes bold (leaf (units "io"))) refl refl refl (omega arith)

highlight_text-ends_example :
    highlight_text lower word (units "highlighted") around body
    ≡ add_items
        (units "highlighted")
        (highlight_each lower word (units "highlighted") (5 + (depth body + 1)) around body)
highlight_text-ends_example = highlight_text-ends lower word (units "highlighted") 5 around body

read_words-highlight_query_example :
    (params : Parameters) × (get_query_parameters decode
        (highlight_query keep (units "io" ∷ units "job" ∷ []))
      ≡ some params)
    × (read_words is_space (units "highlight") params ≡ units "io" ∷ units "job" ∷ [])
unfolding urldecode
read_words-highlight_query_example =
    read_words-highlight_query decode keep is_space (units "io") (units "job" ∷ []) refl
      ((omega arith, (refl, (refl, tt))), ((omega arith, (refl, (refl, (refl, tt)))), tt)) refl
      (
        refl,
        (refl, (refl, (refl, (refl, (refl, (refl, (refl, (refl, (refl, tt))))))))),
        (refl, (refl, (refl, (refl, (refl, (refl, (refl, (refl, (refl, tt))))))))),
      )
      (
        refl,
        (refl, (refl, (refl, (refl, (refl, (refl, tt)))))),
        (refl, (refl, (refl, (refl, (refl, (refl, tt)))))),
      )

opened_query_runs_example :
    (params : Parameters) × (get_query_parameters decode
        (b'?' ∷ pairs_text keep (units "q", units "io") ((units "a", units "b") ∷ []))
      ≡ some params)
    × ((init_search params new_page).box ≡ units "io")
    × ((steps_of
          (index_arrives pages ∷ searches (units "job") ∷ timer_ends ∷ [])
          (init_search params new_page).session).queries
        ≡ (units "io", pages) ∷ asked pages (searches (units "job") ∷ timer_ends ∷ []))
unfolding urldecode
opened_query_runs_example =
    opened_query_runs decode keep (units "io") ((units "a", units "b") ∷ []) pages
      (searches (units "job") ∷ timer_ends ∷ [])
      (
        ((refl, (refl, tt), (refl, tt)), (refl, (refl, (refl, tt)), (refl, (refl, tt))), refl),
        (((refl, (refl, tt), (refl, tt)), (refl, (refl, tt), (refl, tt)), refl), tt),
      )
      tt

load_index_test :
    (load_index (units "searchindex.js") (units "error") new_page).loader
    ≡ some (units "searchindex.js")
unfolding load_index
load_index_test = refl
