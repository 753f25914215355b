-- ===== src/Docs/Search/Session/Opening.antt =====
-- docs/_build/html/_static/searchtools.js: `Search.init`, on a page that is opened with a query, and
-- `Search.loadIndex`.
use forwarding_explorer.Base.{◌≡◌, refl, Option, none, some, All, List, [], ◌∷◌, if◌then◌else◌}
use forwarding_explorer.Docs.Text.{Text, units, same}
use forwarding_explorer.Docs.Tools.Address.{Parameters, get_query_parameters}
use forwarding_explorer.Docs.Tools.Address.Values.{
  values_of, pairs_text, AreCoded, get_query_parameters-pairs,
}
use forwarding_explorer.Docs.Highlight.Words.{first_value}
use forwarding_explorer.Docs.Highlight.Words.Links.{first_value-lookup}
use forwarding_explorer.Docs.Search.{Index}
use forwarding_explorer.Docs.Search.Session.{
  Session, fresh, perform_search, Event, searches, index_arrives, steps_of,
}
use forwarding_explorer.Docs.Search.Session.Runs.{queries_run, NoIndex, asked}

-- The search page: its `Search`, the text in the field for a query, and the address of the script
-- element for the index, none if it has none yet.
pub record SearchPage : Type 0 where
  pub session : Session
  pub box : Text
  pub loader : Option Text

abbrev pub new_page : SearchPage
new_page = record { session = fresh; box = []; loader = none }

-- `params.q[0]`, if it is there.
abbrev pub init_query : Option Text → SearchPage → SearchPage
init_query none page = page
init_query (some query) page = record page {
  box = query;
  session = perform_search query page.session;
}

unfoldable pub init_search : Parameters → SearchPage → SearchPage
init_search params page = init_query (first_value (units "q") params) page

-- The request for the index, when it is complete: if it failed, the script element loads it.
unfoldable pub load_index : (url : Text) (textstatus : Text) → SearchPage → SearchPage
load_index url textstatus page =
    if same textstatus (units "success") then page else record page { loader = some url }

module _ (decode : Text → Option Text) (encode : Text → Text) where
  -- A page that is opened with a query "q", and other pairs of keys and values, encoded and joined in
  -- its address, shows the first query in its field; when the index arrives, that query is run on it
  -- first, before the searches to come. As for getQueryParameters, urldecode decodes the keys and
  -- values from codes without "=" and "&", and no key is a field of Object.prototype.
  pub opened_query_runs :
      (query : Text) (pairs : List (Text × Text)) (index : Index) (later : List Event)
      → All (AreCoded decode encode) ((units "q", query) ∷ pairs)
      → NoIndex later
      → (params : Parameters) × (get_query_parameters decode
            (b'?' ∷ pairs_text encode (units "q", query) pairs)
          ≡ some params)
        × ((init_search params new_page).box ≡ query)
        × ((steps_of (index_arrives index ∷ later) (init_search params new_page).session).queries
            ≡ (query, index) ∷ asked index later)
  unfolding init_search
  opened_query_runs query pairs index later coded n =
      let (params, read, values) =
        get_query_parameters-pairs decode encode (units "q", query) pairs coded in
      let found =
        first_value-lookup (units "q") query (values_of (units "q") pairs) params
          (values (units "q")) in
      (params, read, rw found refl, rw found (queries_run index (searches query ∷ []) later tt n))
