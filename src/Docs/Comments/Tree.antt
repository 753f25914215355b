-- ===== src/Docs/Comments/Tree.antt =====
-- docs/_build/html/_static/websupport.js: the tree of comments, as it is sent and as the page holds
-- it.
pub mod Sorting
use forwarding_explorer.Base.{ℕ, zero, suc, Bool, true, false, ◌&&◌, ◌||◌, not, if◌then◌else◌}
use forwarding_explorer.Docs.Comments.{Posted}

-- A comment with its children, and whether it is displayed.
mutual
  pub data Thread : Type 0 where
    thread : (comment : Posted) (displayed : Bool) (children : Threads) → Thread

  pub data Threads : Type 0 where
    no_threads : Threads
    threads : Thread → Threads → Threads

-- The list items of a list of comments: the message for a comment that waits for a moderator, or
-- the comment with the list of its children.
mutual
  pub data Li : Type 0 where
    message_li : Li
    comment_li : (comment : Posted) (displayed : Bool) (children : Lis) → Li

  pub data Lis : Type 0 where
    no_lis : Lis
    lis : Li → Lis → Lis

-- What `appendComments` makes of comments, where `moderator` is `opts.moderator`. The message has no
-- list for the children, and they are lost.
abbrev pub items_of : (moderator : Bool) → Threads → Lis
items_of moderator no_threads = no_lis
items_of moderator (threads (thread comment displayed children) rest) =
    let list = items_of moderator children in
    let later = items_of moderator rest in
    if not displayed && not moderator
    then lis message_li later
    else lis (comment_li comment displayed list) later

abbrev pub append_lis : Lis → Lis → Lis
append_lis no_lis more = more
append_lis (lis li ul) more = lis li (append_lis ul more)

abbrev pub append_comments : (moderator : Bool) → Threads → (ul : Lis) → Lis
append_comments moderator comments ul = append_lis ul (items_of moderator comments)

-- `getChildren(ul, true)`: a message has no id that begins with "cd".
abbrev pub get_children : Lis → Threads
get_children no_lis = no_threads
get_children (lis message_li ul) = get_children ul
get_children (lis (comment_li comment displayed children) ul) =
    threads (thread comment displayed (get_children children)) (get_children ul)

-- `this.children = ...` for each comment.
abbrev pub sort_children : (Threads → Threads) → Threads → Threads
sort_children deeper no_threads = no_threads
sort_children deeper (threads (thread comment displayed children) rest) =
    threads (thread comment displayed (deeper children)) (sort_children deeper rest)

-- `sort` is `comments.sort(comp)`. The recursion runs on fuel, the depth of the tree.
module _ (sort : Threads → Threads) where
  unfoldable pub sort_comments : ℕ → Threads → Threads
  sort_comments zero comments = comments
  sort_comments (suc fuel) comments = sort_children (sort_comments fuel) (sort comments)

  -- What `handleReSort` does to a list of comments.
  unfoldable pub resort : (fuel : ℕ) (moderator : Bool) → Lis → Lis
  unfolding sort_comments
  resort fuel moderator ul = append_comments moderator (sort_comments fuel (get_children ul)) no_lis
