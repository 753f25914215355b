-- ===== src/Docs/Votes.antt =====
-- docs/_build/html/_static/websupport.js: `handleVote`, and the arrows of `createCommentDiv`.
pub mod Ratings
use forwarding_explorer.Base.{
  ℕ, suc, ◌+◌, ◌-◌, Bool, true, false, not, ◌&&◌, List, [], ◌∷◌, ltb, if◌then◌else◌,
}
use forwarding_explorer.Base.Int.{ℤ, pos, negsuc, int_eq}

-- `m - n`, `a + b` and `- a`
abbrev pub sub_nat : ℕ → ℕ → ℤ
sub_nat m n = if ltb m n then negsuc (n - m - 1) else pos (m - n)

infixl 60 ◌+ℤ◌
abbrev pub ◌+ℤ◌ : ℤ → ℤ → ℤ
pos a +ℤ pos b = pos (a + b)
pos a +ℤ negsuc b = sub_nat a (suc b)
negsuc a +ℤ pos b = sub_nat b (suc a)
negsuc a +ℤ negsuc b = negsuc (suc (a + b))

-- A vote: -1, 0 or 1.
pub data Vote : Type 0 where
  down : Vote
  neutral : Vote
  up : Vote

abbrev pub number : Vote → ℤ
number down = negsuc 0
number neutral = pos 0
number up = pos 1

abbrev pub opposite : Vote → Vote
opposite down = up
opposite neutral = neutral
opposite up = down

abbrev pub same_vote : Vote → Vote → Bool
same_vote down down = true
same_vote neutral neutral = true
same_vote up up = true
same_vote _ _ = false

-- `d.value - data.vote`
abbrev pub minus : Vote → Vote → ℤ
minus value vote = number value +ℤ number (opposite vote)

-- The links of a comment, by the first two letters of their ids: "uv", "uu", "dv" and "du".
pub data Link : Type 0 where
  up_vote : Link
  up_unvote : Link
  down_vote : Link
  down_unvote : Link

-- Which of them are shown.
pub record Arrows : Type 0 where
  pub uv : Bool
  pub uu : Bool
  pub dv : Bool
  pub du : Bool

abbrev pub is_shown : Link → Arrows → Bool
is_shown up_vote a = a.uv
is_shown up_unvote a = a.uu
is_shown down_vote a = a.dv
is_shown down_unvote a = a.du

-- `vote` and `rating` in the data of a comment, its links, and the votes sent to the server.
pub record Comment : Type 0 where
  pub vote : Vote
  pub rating : ℤ
  pub arrows : Arrows
  pub sent : List Vote

-- The links of a new comment: those for an unvote are hidden, but for the arrow of its vote.
abbrev pub arrows_of : Vote → Arrows
arrows_of down = record { uv = true; uu = false; dv = false; du = true }
arrows_of neutral = record { uv = true; uu = false; dv = true; du = false }
arrows_of up = record { uv = false; uu = true; dv = true; du = false }

abbrev pub value_of : Link → Vote
value_of up_vote = up
value_of up_unvote = neutral
value_of down_vote = down
value_of down_unvote = neutral

-- `link.hide()`, and the other link of its arrow is shown.
abbrev pub swap_links : Link → Arrows → Arrows
swap_links up_vote a = record a { uv = false; uu = true }
swap_links up_unvote a = record a { uu = false; uv = true }
swap_links down_vote a = record a { dv = false; du = true }
swap_links down_unvote a = record a { du = false; dv = true }

-- The other arrow, which a vote of 1 or -1 releases if it is pressed.
abbrev pub release_other : Vote → Arrows → Arrows
release_other up a = record a { du = false; dv = true }
release_other _ a = record a { uu = false; uv = true }

abbrev pub unpress : (value vote : Vote) → Arrows → Arrows
unpress value vote a =
    if not (same_vote value neutral) && same_vote vote (opposite value)
    then release_other value a
    else a

-- A click on a link, where `voting` is `opts.voting`.
unfoldable pub handle_vote : (voting : Bool) → Link → Comment → Comment
handle_vote voting link c =
    let value = value_of link in
    if not voting then c else record {
      vote = value;
      rating = c.rating +ℤ (if same_vote c.vote neutral then number value else minus value c.vote);
      arrows = unpress value c.vote (swap_links link c.arrows);
      sent = value ∷ c.sent;
    }

-- Clicks on links, of which one that is hidden takes none.
abbrev pub click_link : Link → Comment → Comment
click_link link c = if is_shown link c.arrows then handle_vote true link c else c

abbrev pub click_links : List Link → Comment → Comment
click_links [] c = c
click_links (link ∷ links) c = click_links links (click_link link c)
