-- ===== src/Docs/Comments/Tree/Sorting.antt =====
-- The comments that a page holds, and their order.
use forwarding_explorer.Base.{
  ℕ, zero, suc, ◌≡◌, refl, ap₂, Bool, not, ◌&&◌, Bool-cases, inl, inr, if◌then◌else◌,
}
use forwarding_explorer.Docs.Text.{Text}
use forwarding_explorer.Docs.Comments.{Posted}
use forwarding_explorer.Docs.Comments.Insertion.{IsBefore}
use forwarding_explorer.Docs.Comments.Tree.{
  Thread, thread, Threads, no_threads, threads, no_lis, items_of, append_comments, get_children,
  sort_children, sort_comments,
}

-- The comments without those that wait for a moderator and what answers them, unless the user is
-- one.
abbrev pub visible : (moderator : Bool) → Threads → Threads
visible moderator no_threads = no_threads
visible moderator (threads (thread comment displayed children) rest) =
    let inner = visible moderator children in
    let later = visible moderator rest in
    if not displayed && not moderator then later else threads (thread comment displayed inner) later

get_children-items_of :
    (moderator : Bool) (comments : Threads)
    → get_children (items_of moderator comments) ≡ visible moderator comments
get_children-items_of moderator no_threads = refl
get_children-items_of moderator (threads (thread comment displayed children) rest) =
    elim (Bool-cases (not displayed && not moderator)) [
      | inl e ↦ rw e (get_children-items_of moderator rest)
      | inr e ↦ rw e (
          ap₂ (λ c r. threads (thread comment displayed c) r)
            (get_children-items_of moderator children) (get_children-items_of moderator rest))
    ]

-- What the page holds of the comments that are put on it are all that are displayed, with their
-- answers; the others are lost with theirs, unless the user is a moderator.
pub get_children-append_comments :
    (moderator : Bool) (comments : Threads)
    → get_children (append_comments moderator comments no_lis) ≡ visible moderator comments
get_children-append_comments moderator comments = get_children-items_of moderator comments

-- Every comment of a list, without those of its children.
abbrev pub AllThreads : (Thread → Type 0) → Threads → Type 0
AllThreads P no_threads = Unit
AllThreads P (threads t rest) = P t × AllThreads P rest

abbrev pub posted : Thread → Posted
posted (thread comment displayed children) = comment

abbrev pub answers : Thread → Threads
answers (thread comment displayed children) = children

-- No comment comes after a later one.
abbrev pub IsOrdered : Text → Threads → Type 0
IsOrdered by no_threads = Unit
IsOrdered by (threads t rest) =
    AllThreads (λ u. IsBefore by (posted t) (posted u)) rest × IsOrdered by rest

-- So at every level, down to a depth.
abbrev pub IsDeepOrdered : Text → ℕ → Threads → Type 0
IsDeepOrdered by zero comments = Unit
IsDeepOrdered by (suc depth) comments =
    IsOrdered by comments × AllThreads (λ t. IsDeepOrdered by depth (answers t)) comments

-- A tree of at most so many levels.
abbrev pub IsWithin : ℕ → Threads → Type 0
IsWithin zero comments = comments ≡ no_threads
IsWithin (suc depth) comments = AllThreads (λ t. IsWithin depth (answers t)) comments

AllThreads-sort_children :
    (by : Text) (deeper : Threads → Threads) (comment : Posted) (rest : Threads)
    → AllThreads (λ u. IsBefore by comment (posted u)) rest
    → AllThreads (λ u. IsBefore by comment (posted u)) (sort_children deeper rest)
AllThreads-sort_children by deeper comment no_threads h = tt
AllThreads-sort_children by deeper comment (threads (thread c displayed children) rest) (h, hs) =
    (h, AllThreads-sort_children by deeper comment rest hs)

sort_children-IsOrdered :
    (by : Text) (deeper : Threads → Threads) (comments : Threads)
    → IsOrdered by comments
    → IsOrdered by (sort_children deeper comments)
sort_children-IsOrdered by deeper no_threads h = tt
sort_children-IsOrdered by deeper (threads (thread c displayed children) rest) (h, hs) =
    (AllThreads-sort_children by deeper c rest h, sort_children-IsOrdered by deeper rest hs)

sort_children-AllThreads :
    (deeper : Threads → Threads) (depth : ℕ) (P : Threads → Type 0)
    → ((children : Threads) → IsWithin depth children → P (deeper children))
    → (comments : Threads) → AllThreads (λ t. IsWithin depth (answers t)) comments
    → AllThreads (λ t. P (answers t)) (sort_children deeper comments)
sort_children-AllThreads deeper depth P f no_threads h = tt
sort_children-AllThreads deeper depth P f (threads (thread c displayed children) rest) (h, hs) =
    (f children h, sort_children-AllThreads deeper depth P f rest hs)

no_threads-IsDeepOrdered : (by : Text) (levels : ℕ) → IsDeepOrdered by levels no_threads
no_threads-IsDeepOrdered by zero = tt
no_threads-IsDeepOrdered by (suc levels) = (tt, tt)

module _ (by : Text) (sort : Threads → Threads)
    (sort-ordered : (comments : Threads) → IsOrdered by (sort comments))
    (sort-keeps : (P : Thread → Type 0) (comments : Threads)
      → AllThreads P comments
      → AllThreads P (sort comments)) where
  -- If `sort` puts comments in order and brings in no others, then with as much fuel as the tree
  -- has levels, comments are sorted at every level.
  pub sort_comments-IsDeepOrdered :
      (fuel : ℕ) (comments : Threads)
      → IsWithin fuel comments
      → (levels : ℕ) → IsDeepOrdered by levels (sort_comments sort fuel comments)
  unfolding sort_comments
  sort_comments-IsDeepOrdered zero comments h levels = rw h (no_threads-IsDeepOrdered by levels)
  sort_comments-IsDeepOrdered (suc fuel) comments h zero = tt
  sort_comments-IsDeepOrdered (suc fuel) comments h (suc levels) = (
    sort_children-IsOrdered by (sort_comments sort fuel) (sort comments) (sort-ordered comments),
    sort_children-AllThreads (sort_comments sort fuel) fuel (IsDeepOrdered by levels)
        (λ children w. sort_comments-IsDeepOrdered fuel children w levels) (sort comments)
        (sort-keeps (λ t. IsWithin fuel (answers t)) comments h),
  )
