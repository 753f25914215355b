-- ===== src/Tests/Searches.antt =====
-- An index of three pages, and examples of searches in it.
use forwarding_explorer.Base.{
  ℕ, zero, suc, ◌≤◌, ◌<◌, ◌≡◌, ◌≢◌, ◌↔◌, refl, true, Option, none, some, List, [], ◌∷◌, ◌++◌, map,
  leb, ◌&&◌, ◌+◌, count, All, arith, if◌then◌else◌,
}
use forwarding_explorer.Base.Int.{pos}
use forwarding_explorer.Docs.Text.{Text, units, same, contains}
use forwarding_explorer.Docs.Text.Laws.{Distinct}
use forwarding_explorer.Docs.Stemmer.{stem_word}
use forwarding_explorer.Docs.Stemmer.Length.{first}
use forwarding_explorer.Docs.Splitter.{split_query, split_chars}
use forwarding_explorer.Docs.Search.{
  FileIds, undefined, single, several, Index, Result, Object, ObjectKind,
}
use forwarding_explorer.Docs.Search.Query.{read_query, is_skipped}
use forwarding_explorer.Docs.Search.Query.Read.{searched, read_query_lem}
use forwarding_explorer.Docs.Search.Terms.{perform_terms_search}
use forwarding_explorer.Docs.Search.Terms.Excluded.{NoneAlone}
use forwarding_explorer.Docs.Search.Terms.Scores.{HasAll}
use forwarding_explorer.Docs.Search.Terms.Matches.{
  AreOnce, Ascending, found_file, perform_terms_search_lem,
}
use forwarding_explorer.Docs.Search.Terms.Unknown.{perform_terms_search-unknown}
use forwarding_explorer.Docs.Search.Objects.{perform_object_search, object_result}
use forwarding_explorer.Docs.Search.Objects.Hits.{IsSound, perform_object_search-IsSound}
use forwarding_explorer.Docs.Search.Order.{compare_results, greater}
use forwarding_explorer.Docs.Search.Order.Laws.{compare_results_trans}
use forwarding_explorer.Docs.Search.Page.{Options, display_item, display_items, excerpt_start}
use forwarding_explorer.Docs.Search.Page.Summary.{excerpt_start-keyword}
use forwarding_explorer.Docs.Search.Page.Display.{backwards, BestFirst, display_items-BestFirst}
use forwarding_explorer.Docs.Search.Session.{
  searches, index_arrives, timer_ends, results_end, fresh, perform_search, steps_of,
}
use forwarding_explorer.Docs.Search.Session.Runs.{asked, last_asked, one_query, queries_run}
use forwarding_explorer.Docs.Search.Session.Pulse.{IsPulsing, pulse_goes_on}

-- Lower case of ASCII.
abbrev lower : Text → Text
lower [] = []
lower (c ∷ text) = (if leb b'A' c && leb c b'Z' then c + 32 else c) ∷ lower text

abbrev keep : Text → Text
keep text = text

abbrev term_files : Text → FileIds
term_files word =
    if same word (units "server")
    then several (0 ∷ 2 ∷ [])
    else if same word (units "agio")
    then several (1 ∷ 2 ∷ [])
    else if same word (units "forg")
    then single 0
    else undefined

abbrev title_files : Text → FileIds
title_files word =
    if same word (units "setup")
    then single 1
    else if same word (units "forg")
    then single 0
    else undefined

abbrev main_object : Object
main_object = record { file = 0; kind = 0; priority = 1; anchor = [] }

abbrev function_kind : ObjectKind
function_kind = record { short = units "c:function"; long = units "C function" }

abbrev object_names : List (Text × Object)
object_names = (units "main", main_object) ∷ []

abbrev kinds : ℕ → Option ObjectKind
kinds zero = some function_kind
kinds (suc n) = none

abbrev pub pages : Index
pages = record {
  filenames = units "index" ∷ units "setup" ∷ units "usage" ∷ [];
  titles = units "FORGE" ∷ units "Setup" ∷ units "Usage" ∷ [];
  terms = term_files;
  titleterms = title_files;
  objects = (units "forge", object_names) ∷ [];
  objnames = kinds;
}

abbrev both_words : List Text
both_words = units "server" ∷ units "agio" ∷ []

-- A page that an excluded word has among others stays; one that it has alone does not.
excluded_among_others :
    perform_terms_search pages (units "server" ∷ []) (units "agio" ∷ units "forg" ∷ [])
    ≡ found_file pages (units "server" ∷ []) 2 ∷ []
unfolding perform_terms_search
excluded_among_others = refl

found_both : perform_terms_search pages both_words [] ≡ found_file pages both_words 2 ∷ []
unfolding perform_terms_search
found_both = refl

-- A word that a page has in its title and in its text does not find the page.
title_and_text_not_found : perform_terms_search pages (units "forg" ∷ []) [] ≡ []
unfolding perform_terms_search
title_and_text_not_found = refl

once_lem : AreOnce pages both_words
once_lem = (λ file. ground arith, (λ file. ground arith, tt))

perform_terms_search_lem_example :
    (files : List ℕ) × Ascending files
    × (perform_terms_search pages both_words (units "forg" ∷ [])
        ≡ map (found_file pages both_words) files)
    × ((file : ℕ)
        → (0 < count file files)
          ↔ (HasAll pages file both_words × NoneAlone pages (units "forg" ∷ []) file))
perform_terms_search_lem_example =
    perform_terms_search_lem pages (units "server") (units "agio" ∷ []) (units "forg" ∷ [])
      (refl, (refl, tt)) (refl, (refl, tt)) once_lem

perform_terms_search-unknown_test :
    perform_terms_search pages (units "server" ∷ units "mpi" ∷ []) [] ≡ []
perform_terms_search-unknown_test =
    perform_terms_search-unknown pages (units "server" ∷ units "mpi" ∷ []) [] (units "mpi") refl
      refl (λ file. ground arith, tt)

first-lower : (w : Text) → first (lower w) ≡ some b'-' → first w ≡ some b'-'
first-lower [] e = e
first-lower (c ∷ w) e = ground arith

abbrev a_query : Text
a_query = units "The FORGE servers"

read_query_lem_example :
    ((read_query lower a_query).excluded ≡ [])
    × ((read_query lower a_query).objectterms ≡ map lower (split_query a_query))
    × ((read_query lower a_query).hlterms ≡ searched lower (split_query a_query))
    × Distinct (read_query lower a_query).searchterms
    × ((x : Text)
        → contains (read_query lower a_query).searchterms x
          ≡ contains (map stem_word (searched lower (split_query a_query))) x)
read_query_lem_example = read_query_lem lower first-lower a_query

terms_of_query : (read_query lower a_query).searchterms ≡ units "forg" ∷ units "server" ∷ []
unfolding read_query split_query split_chars stem_word is_skipped
terms_of_query = refl

abbrev main_results : List Result
main_results =
    object_result lower keep pages (units "main") [] (units "forge.main") main_object function_kind
    ∷ []

found_main : perform_object_search lower keep pages (units "main") [] ≡ some main_results
unfolding perform_object_search
found_main = refl

main_results-IsSound : All (IsSound lower keep pages (units "main") []) main_results
main_results-IsSound =
    perform_object_search-IsSound lower keep pages (units "main") [] main_results found_main

abbrev titled : Text → ℕ → Result
titled title score = record {
  filename = some title;
  title = some title;
  anchor = [];
  descr = none;
  score = some (pos score);
}

abbrev low : Result
low = titled (units "Usage") 5

abbrev middle : Result
middle = titled (units "Setup") 15

abbrev high : Result
high = titled (units "API") 15

low-middle : compare_results lower low middle ≢ some greater
low-middle = cc

middle-high : compare_results lower middle high ≢ some greater
middle-high = cc

low-high : compare_results lower low high ≢ some greater
low-high =
    compare_results_trans lower low middle high (pos 5) (pos 15) (pos 15) (units "Usage")
      (units "Setup") (units "API") refl refl refl refl refl refl low-middle middle-high

abbrev html : Options
html = record { url_root = []; file_suffix = units ".html"; has_source = true }

two_displayed :
    (display_items html [] (low ∷ high ∷ [])
      ≡ map (display_item html []) (backwards (low ∷ high ∷ [])))
    × BestFirst (backwards (low ∷ high ∷ []))
two_displayed = display_items-BestFirst lower html [] (low ∷ high ∷ []) ((cc, tt), (tt, tt))

excerpt_of_agios :
    (excerpt_start lower (units "The servers run AGIOS") (units "run" ∷ units "agio" ∷ []) ≤ 16)
    × (16
        ≤ excerpt_start lower (units "The servers run AGIOS") (units "run" ∷ units "agio" ∷ [])
          + 120)
excerpt_of_agios =
    excerpt_start-keyword lower (units "The servers run AGIOS") (units "run" ∷ []) (units "agio") 16
      refl

queries_run_example :
    (steps_of
      (searches (units "a")
        ∷ searches (units "b")
        ∷ index_arrives pages
        ∷ searches (units "c")
        ∷ [])
      fresh).queries
    ≡ one_query (last_asked none (searches (units "a") ∷ searches (units "b") ∷ [])) pages
      ++ asked pages (searches (units "c") ∷ [])
queries_run_example =
    queries_run pages (searches (units "a") ∷ searches (units "b") ∷ []) (searches (units "c") ∷ [])
      tt tt

pulse_goes_on_example :
    IsPulsing (steps_of (results_end ∷ timer_ends ∷ []) (perform_search (units "a") fresh))
pulse_goes_on_example = pulse_goes_on (units "a") (results_end ∷ timer_ends ∷ [])
