-- ===== src/Docs/Search/Page.antt =====
-- docs/_build/html/_static/searchtools.js: the second half of `Search.query`, from the terms to the
-- list of results on the page, and `Search.makeSearchSummary`.
pub mod Summary
pub mod Display
use forwarding_explorer.Base.{
  ℕ, zero, suc, ◌+◌, ◌-◌, Bool, true, false, not, ◌&&◌, ◌||◌, Option, none, some, List, [], ◌∷◌,
  ◌++◌, ◌==◌, ltb, length, take, drop, if◌then◌else◌,
}
use mathlib.Core.Option
use forwarding_explorer.Docs.Text.{Text, units, same, begins}
use forwarding_explorer.Docs.Search.{FileIds, Index, Result}
use forwarding_explorer.Docs.Search.Query.{Terms, read_query}
use forwarding_explorer.Docs.Search.Terms.{perform_terms_search}
use forwarding_explorer.Docs.Search.Objects.{perform_object_search, pushed, shown}

-- `DOCUMENTATION_OPTIONS`
pub record Options : Type 0 where
  pub url_root : Text
  pub file_suffix : Text
  pub has_source : Bool

-- A text that ends so.
abbrev pub ends_so : (text suffix : Text) → Bool
ends_so [] suffix = same [] suffix
ends_so (c ∷ text) suffix = same (c ∷ text) suffix || ends_so text suffix

abbrev pub is_empty : Text → Bool
is_empty [] = true
is_empty (c ∷ text) = false

-- `dirname` of a file for the builder that makes a directory for each page.
abbrev pub dir_name : Text → Text
dir_name file =
    let dirname = file ++ units "/" in
    if ends_so dirname (units "/index/")
    then take (length dirname - 6) dirname
    else if same dirname (units "index/")
    then []
    else dirname

-- The address of a result.
abbrev pub href : Options → (highlightstring : Text) → Result → Text
href options highlightstring item =
    if is_empty options.file_suffix
    then options.url_root ++ dir_name (shown item.filename) ++ highlightstring ++ item.anchor
    else shown item.filename ++ options.file_suffix ++ highlightstring ++ item.anchor

-- What stands behind the link of a result: its description, the summary of a source, or nothing.
pub data Behind : Type 0 where
  description : Text → Behind
  summary_of : (url : Text) → Behind
  nothing : Behind

abbrev pub behind : Options → Result → Behind
behind options item = elim item.descr [
  | some [] ↦ source
  | some (c ∷ text) ↦ description (units " (" ++ (c ∷ text) ++ units ")")
  | none ↦ source
]
  where
    source : Behind
    source =
        if options.has_source
        then summary_of
            (options.url_root ++ units "_sources/" ++ shown item.filename ++ units ".txt")
        else nothing

-- An entry of the list on the page.
pub record Item : Type 0 where
  pub address : Text
  pub title : Option Text
  pub tail : Behind

-- `displayNextItem`, and the calls that follow it when an entry has been shown: `results.pop()`
-- takes the last.
abbrev pub display_item : Options → (highlightstring : Text) → Result → Item
display_item options highlightstring item = record {
  address = href options highlightstring item;
  title = item.title;
  tail = behind options item;
}

abbrev pub display_items : Options → (highlightstring : Text) → List Result → List Item
display_items options highlightstring [] = []
display_items options highlightstring (item ∷ results) =
    display_items options highlightstring results ++ display_item options highlightstring item ∷ []

-- The message at the end.
pub data Status : Type 0 where
  no_match : Status
  pages_found : ℕ → Status

abbrev pub status_of : (resultCount : ℕ) → Status
status_of zero = no_match
status_of (suc n) = pages_found (suc n)

pub record Page : Type 0 where
  pub items : List Item
  pub status : Status

-- The other terms: all but the one at `i`.
abbrev pub others : ℕ → List Text → List Text
others i terms = take i terms ++ drop (suc i) terms

-- `Search.makeSearchSummary`

-- `text.indexOf(part)`, none for -1.
abbrev pub index_of : (text part : Text) → Option ℕ
index_of [] part = if is_empty part then some 0 else none
index_of (c ∷ text) part =
    if begins part (c ∷ text) then some 0 else Option.map suc (index_of text part)

-- The place of the last keyword that occurs, and 0 if none does.
abbrev pub keyword_start : (lower : Text → Text) (text_lower : Text) → List Text → ℕ → ℕ
keyword_start lower text_lower [] start = start
keyword_start lower text_lower (keyword ∷ keywords) start =
    keyword_start lower text_lower keywords
      (elim (index_of text_lower (lower keyword)) [ none ↦ start | some i ↦ i ])

-- `Math.max(start - 120, 0)`
abbrev pub excerpt_start : (lower : Text → Text) (text : Text) (keywords : List Text) → ℕ
excerpt_start lower text keywords = keyword_start lower (lower text) keywords 0 - 120

-- `text.substr(start, 240)`
abbrev pub substr : Text → ℕ → ℕ → Text
substr text start n = take n (drop start text)

-- `$.trim` is a parameter.
unfoldable pub excerpt : (lower trim : Text → Text) (text : Text) (keywords : List Text) → Text
excerpt lower trim text keywords =
    let start = excerpt_start lower text keywords in
    (if ltb 0 start then units "..." else [])
    ++ trim (substr text start 240)
    ++ (if not (start + 240 == length text) then units "..." else [])

-- The parameters: `toLowerCase`, `_`, `sort` with the comparison, and `$.urlencode`
-- of the terms to highlight with "?highlight=" before it.
module _ (lower translate : Text → Text) (sort : List Result → Option (List Result))
    (highlight_query : List Text → Text) (options : Options) (index : Index) where
  -- The loop on the object terms from `i` on.
  abbrev pub search_objects : List Text → ℕ → List Text → Option (List Result)
  search_objects all i [] = some []
  search_objects all i (term ∷ terms) =
      pushed (perform_object_search lower translate index term (others i all))
        (search_objects all (suc i) terms)

  unfoldable pub unsorted_results : Terms → Option (List Result)
  unsorted_results t =
      pushed (search_objects t.objectterms 0 t.objectterms)
        (some (perform_terms_search index t.searchterms t.excluded))

  abbrev pub page_of : (highlightstring : Text) → List Result → Page
  page_of highlightstring results = record {
    items = display_items options highlightstring results;
    status = status_of (length results);
  }

  -- The page for a query, and none for a TypeError.
  unfoldable pub query_page : Text → Option Page
  query_page query =
      let t = read_query lower query in
      elim (unsorted_results t) [
        | none ↦ none
        | some results ↦ Option.map (page_of (highlight_query t.hlterms)) (sort results)
      ]
