-- ===== src/Tests/Scripts.antt =====
-- Examples for the tools and the comments of the documentation.
use mathlib.Core.List.{Perm}
use forwarding_explorer.Base.{◌≡◌, none, refl, true, Option, some, List, [], ◌∷◌, ◌++◌, inl}
use forwarding_explorer.Base.Int.{ℤ, pos, negsuc}
use forwarding_explorer.Docs.Text.{Text, units}
use forwarding_explorer.Docs.Tools.Address.{Parameters, urldecode, read_part, get_query_parameters}
use forwarding_explorer.Docs.Tools.Address.Values.{
  lookup, values_of, pairs_text, get_query_parameters-pairs,
}
use forwarding_explorer.Docs.Tools.Browser.{ua_match, reloads_anchor}
use forwarding_explorer.Docs.Votes.{
  Comment, Link, up_vote, up_unvote, down_vote, neutral, arrows_of, click_links,
}
use forwarding_explorer.Docs.Votes.Ratings.{IsVoted, click_links-IsVoted}
use forwarding_explorer.Docs.Comments.{Posted, comp, insert_comment, init_by}
use forwarding_explorer.Docs.Comments.Cookies.{init_by_lem}
use forwarding_explorer.Docs.Comments.Insertion.{IsSorted, insert_comment-IsSorted}

abbrev decode : Text → Option Text
decode text = some text

abbrev pub keep : Text → Text
keep text = text

abbrev first_pair : Text × Text
first_pair = (units "q", units "io")

abbrev more_pairs : List (Text × Text)
more_pairs = (units "hl", units "a") ∷ (units "q", units "b") ∷ []

get_query_parameters-pairs_example :
    (result : Parameters) × (get_query_parameters decode
        (b'?' ∷ pairs_text keep first_pair more_pairs)
      ≡ some result)
    × ((key : Text) → lookup key result ≡ values_of key (first_pair ∷ more_pairs))
unfolding urldecode
get_query_parameters-pairs_example = get_query_parameters-pairs decode keep first_pair more_pairs (
  ((refl, (refl, tt), (refl, tt)), (refl, (refl, (refl, tt)), (refl, (refl, tt))), refl),
  (
    ((refl, (refl, (refl, tt)), (refl, (refl, tt))), (refl, (refl, tt), (refl, tt)), refl),
    (((refl, (refl, tt), (refl, tt)), (refl, (refl, tt), (refl, tt)), refl), tt),
  ),
)

-- A key that every object has.
constructor_fails : get_query_parameters decode (units "?constructor=1") ≡ none
unfolding get_query_parameters read_part urldecode
constructor_fails = refl

abbrev new_comment : Comment
new_comment = record { vote = neutral; rating = pos 3; arrows = arrows_of neutral; sent = [] }

abbrev some_clicks : List Link
some_clicks = down_vote ∷ up_vote ∷ up_unvote ∷ down_vote ∷ []

click_links-IsVoted_example : IsVoted (pos 3) (click_links some_clicks new_comment)
click_links-IsVoted_example = click_links-IsVoted (pos 3) some_clicks new_comment (refl, refl)

abbrev pub rated : Text → ℤ → Posted
rated id rating = record { id = id; rating = rating; age = pos 0; others = λ name. none }

abbrev siblings : List Posted
siblings = rated (units "1") (pos 5) ∷ rated (units "2") (negsuc 0) ∷ []

siblings-IsSorted : IsSorted (units "rating") siblings
unfolding comp
siblings-IsSorted = ((refl, tt), (tt, tt))

insert_comment-IsSorted_test :
    IsSorted (units "rating") (insert_comment (units "rating") (rated (units "3") (pos 2)) siblings)
    × Perm
        (insert_comment (units "rating") (rated (units "3") (pos 2)) siblings)
        (rated (units "3") (pos 2) ∷ siblings)
insert_comment-IsSorted_test =
    insert_comment-IsSorted (units "rating") (inl refl) (rated (units "3") (pos 2)) siblings
      siblings-IsSorted

-- In an order that is no field, as after a click on the link of the order in use, comp gives NaN.
no_field_test : comp (units "l") (rated (units "1") (pos 5)) (rated (units "2") (pos 2)) ≡ none
unfolding comp
no_field_test = refl

two_cookies :
    (init_by keep (units "sortBy=" ++ units "age") ≡ units "age")
    × (init_by keep (units "sortBy=" ++ (units "age" ++ b';' ∷ units " a=b")) ≡ units "rating")
two_cookies = init_by_lem keep (units "age") (units " a=b") (refl, (refl, (refl, tt)))

abbrev firefox : Text
firefox = units "mozilla/5.0 (x11; rv:82.0) gecko"

ua_match_test :
    (ua_match keep firefox ≡ record { browser = units "mozilla"; version = units "82.0" })
    × (ua_match keep (units "opera/9.8 version/12.1")
        ≡ record { browser = units "opera"; version = units "12.1" })
    × (reloads_anchor keep firefox (units "#top") ≡ true)
unfolding ua_match reloads_anchor
ua_match_test = (refl, refl, refl)
