-- ===== src/Docs/Votes/Ratings.antt =====
-- The rating of a comment and its arrows, over any clicks.
use forwarding_explorer.Base.{
  ◌≡◌, refl, ap, ◌∙◌, true, List, [], ◌∷◌, arith, subst, Bool-cases, inl, inr, if◌then◌else◌,
}
use forwarding_explorer.Base.Int.{ℤ, pos, negsuc}
use forwarding_explorer.Docs.Votes.{
  ◌+ℤ◌, Vote, down, neutral, up, number, same_vote, minus, Link, up_vote, up_unvote, down_vote,
  down_unvote, Comment, arrows_of, value_of, unpress, swap_links, is_shown, handle_vote, click_link,
  click_links,
}

-- The rating without the user's vote stays the same.
change_lem :
    (others : ℤ) (old value : Vote)
    → (others +ℤ number old) +ℤ (if same_vote old neutral then number value else minus value old)
      ≡ others +ℤ number value
change_lem (pos n) down down = ground arith
change_lem (pos n) down neutral = ground arith
change_lem (pos n) down up = ground arith
change_lem (pos n) neutral down = ground arith
change_lem (pos n) neutral neutral = ground arith
change_lem (pos n) neutral up = ground arith
change_lem (pos n) up down = ground arith
change_lem (pos n) up neutral = ground arith
change_lem (pos n) up up = ground arith
change_lem (negsuc n) down down = ground arith
change_lem (negsuc n) down neutral = ground arith
change_lem (negsuc n) down up = ground arith
change_lem (negsuc n) neutral down = ground arith
change_lem (negsuc n) neutral neutral = ground arith
change_lem (negsuc n) neutral up = ground arith
change_lem (negsuc n) up down = ground arith
change_lem (negsuc n) up neutral = ground arith
change_lem (negsuc n) up up = ground arith

abbrev pub IsVoted : (others : ℤ) → Comment → Type 0
IsVoted others c = (c.rating ≡ others +ℤ number c.vote) × (c.arrows ≡ arrows_of c.vote)

-- A click on a link that is shown leaves the arrows of its vote.
arrows_lem :
    (link : Link) (vote : Vote)
    → is_shown link (arrows_of vote) ≡ true
    → unpress (value_of link) vote (swap_links link (arrows_of vote)) ≡ arrows_of (value_of link)
arrows_lem up_vote down e = refl
arrows_lem up_vote neutral e = refl
arrows_lem up_vote up e = absurd cc
arrows_lem up_unvote down e = absurd cc
arrows_lem up_unvote neutral e = absurd cc
arrows_lem up_unvote up e = refl
arrows_lem down_vote down e = absurd cc
arrows_lem down_vote neutral e = refl
arrows_lem down_vote up e = refl
arrows_lem down_unvote down e = refl
arrows_lem down_unvote neutral e = absurd cc
arrows_lem down_unvote up e = absurd cc

click_link-IsVoted :
    (others : ℤ) (link : Link) (c : Comment) → IsVoted others c → IsVoted others (click_link link c)
unfolding handle_vote
click_link-IsVoted others link c (r, a) = elim (Bool-cases (is_shown link c.arrows)) [
  | inr h ↦ rw h (r, a)
  | inl h ↦
      let shown : is_shown link (arrows_of c.vote) ≡ true =
        subst (λ z. is_shown link z ≡ true) a h in
      rw h (
        ap
              (λ z.
                z
                +ℤ (if same_vote c.vote neutral
                    then number (value_of link)
                    else minus (value_of link) c.vote))
              r
            ∙ change_lem others c.vote (value_of link),
        ap (λ z. unpress (value_of link) c.vote (swap_links link z)) a
            ∙ arrows_lem link c.vote shown,
      )
]

-- If the rating of a comment is what others gave and the user's vote, and its arrows are those of
-- this vote, then so they are after any clicks on links that are shown.
pub click_links-IsVoted :
    (others : ℤ) (links : List Link) (c : Comment)
    → IsVoted others c
    → IsVoted others (click_links links c)
click_links-IsVoted others [] c h = h
click_links-IsVoted others (link ∷ links) c h =
    click_links-IsVoted others links (click_link link c) (click_link-IsVoted others link c h)
