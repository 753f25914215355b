-- ===== src/Docs/Highlight/Words.antt =====
-- The words that are highlighted: docs/_build/html/_static/doctools.js in
-- `Documentation.highlightSearchWords` and `hideSearchWords`, websupport.js in the results of a
-- search, and searchtools.js in `Search.query` and `Search.makeSearchSummary`.
pub mod Links
use forwarding_explorer.Base.{
  ℕ, ◌+◌, Bool, true, false, Option, none, some, List, [], ◌∷◌, ◌++◌, if◌then◌else◌,
}
use forwarding_explorer.Docs.Text.{Text, units, same, contains}
use forwarding_explorer.Docs.Tools.Address.{Parameters}
use forwarding_explorer.Docs.Highlight.{
  Element, Node, text_node, element, Nodes, no_nodes, nodes, Around, highlight_text,
}

-- `text.split(/\s+/)`, where `is_space` is `\s`: a run of spaces separates two pieces, and
-- `in_run` tells whether the character before is one.
abbrev pub put_first : ℕ → List Text → List Text
put_first c [] = (c ∷ []) ∷ []
put_first c (piece ∷ pieces) = (c ∷ piece) ∷ pieces

abbrev pub split_spaces : (is_space : ℕ → Bool) (in_run : Bool) → Text → List Text
split_spaces is_space in_run [] = [] ∷ []
split_spaces is_space in_run (c ∷ text) =
    let pieces = split_spaces is_space (is_space c) text in
    if is_space c then (if in_run then pieces else [] ∷ pieces) else put_first c pieces

-- `params[name][0]`, none where there is no such field.
abbrev pub first_of : List Text → Option Text
first_of [] = none
first_of (value ∷ values) = some value

abbrev pub first_value : (name : Text) → Parameters → Option Text
first_value name [] = none
first_value name ((key, values) ∷ params) =
    if same name key then first_of values else first_value name params

abbrev pub words_in : (is_space : ℕ → Bool) → Option Text → List Text
words_in is_space none = []
words_in is_space (some value) = split_spaces is_space false value

unfoldable pub read_words : (is_space : ℕ → Bool) (name : Text) → Parameters → List Text
read_words is_space name params = words_in is_space (first_value name params)

-- `$.each(terms, ...)`
abbrev pub highlight_terms : (lower : Text → Text) → Around → (terms : List Text) → Nodes → Nodes
highlight_terms lower around [] body = body
highlight_terms lower around (term ∷ terms) body =
    highlight_terms lower around terms
      (highlight_text lower (lower term) (units "highlighted") around body)

-- A page, where `body` is `div.body`, or the body of a page without one, and the links "Hide Search
-- Matches". Timers are taken as run out.
pub record MarkedPage : Type 0 where
  pub body : Nodes
  pub links : ℕ

abbrev pub mark_page :
    (lower : Text → Text) → Around → (terms : List Text) → MarkedPage → MarkedPage
mark_page lower around [] page = page
mark_page lower around (term ∷ terms) page = record {
  body = highlight_terms lower around (term ∷ terms) page.body;
  links = page.links + 1;
}

unfoldable pub highlight_search_words :
    (lower : Text → Text) (is_space : ℕ → Bool) → Around → Parameters → MarkedPage → MarkedPage
unfolding read_words
highlight_search_words lower is_space around params page =
    mark_page lower around (read_words is_space (units "highlight") params) page

-- `$('span.highlighted').removeClass('highlighted')`
abbrev pub without : (class_name : Text) → List Text → List Text
without class_name [] = []
without class_name (name ∷ classes) =
    let rest = without class_name classes in if same name class_name then rest else name ∷ rest

abbrev pub plain : (class_name : Text) → Element → Element
plain class_name e = record e {
  classes = if same e.tag (units "span") then without class_name e.classes else e.classes;
}

abbrev pub remove_class : (class_name : Text) → Nodes → Nodes
remove_class class_name no_nodes = no_nodes
remove_class class_name (nodes (text_node val) rest) =
    nodes (text_node val) (remove_class class_name rest)
remove_class class_name (nodes (element e children) rest) =
    nodes (element (plain class_name e) (remove_class class_name children))
      (remove_class class_name rest)

unfoldable pub hide_search_words : MarkedPage → MarkedPage
hide_search_words page = record { body = remove_class (units "highlighted") page.body; links = 0 }

-- The contexts of the results of a search on the server.
abbrev pub highlight_results :
    (lower : Text → Text) (is_space : ℕ → Bool) → Around → Parameters → (contexts : Nodes) → Nodes
highlight_results lower is_space around params contexts =
    highlight_terms lower around (read_words is_space (units "q") params) contexts

-- `'?highlight=' + $.urlencode(hlterms.join(" "))`
abbrev pub join_words : List Text → Text
join_words [] = []
join_words (word ∷ []) = word
join_words (word ∷ next ∷ words) = word ++ b' ' ∷ join_words (next ∷ words)

unfoldable pub highlight_query : (encode : Text → Text) → (hlterms : List Text) → Text
highlight_query encode hlterms = units "?highlight=" ++ encode (join_words hlterms)

-- The summary of a result, a new div, where the words are in lower case already.
abbrev pub highlight_summary :
    (lower : Text → Text) → Around → (hlwords : List Text) → Nodes → Nodes
highlight_summary lower around [] rv = rv
highlight_summary lower around (word ∷ hlwords) rv =
    highlight_summary lower around hlwords
      (highlight_text lower word (units "highlighted") around rv)

unfoldable pub summary_context :
    (lower : Text → Text) → Around → (hlwords : List Text) → (excerpt : Text) → Nodes
summary_context lower around hlwords excerpt = highlight_summary lower around hlwords (
    nodes
      (element (record { tag = units "div"; classes = units "context" ∷ []; items = 0 })
        (nodes (text_node excerpt) no_nodes))
      no_nodes)
