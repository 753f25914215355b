-- ===== src/Docs/Comments/Loading/Lists.antt =====
-- What the list of a popup holds after its comments have been loaded and others added.
use forwarding_explorer.Base.{
  ℕ, suc, ◌≡◌, refl, ap, ◌∙◌, Bool, true, not, ◌&&◌, List, [], ◌∷◌, All, Bool-cases, inl, inr,
}
use forwarding_explorer.Docs.Text.{Text}
use forwarding_explorer.Docs.Comments.{Posted, comp, is_not_positive, insert_comment}
use forwarding_explorer.Docs.Comments.Insertion.{
  IsOrder, IsBefore, IsSorted, insert_comment-IsSorted,
}
use forwarding_explorer.Docs.Comments.Tree.{
  Thread, thread, Threads, no_threads, threads, message_li, comment_li, Lis, no_lis, lis, items_of,
  append_lis, sort_children, sort_comments,
}
use forwarding_explorer.Docs.Comments.Tree.Sorting.{AllThreads, posted, IsOrdered}
use forwarding_explorer.Docs.Comments.Loading.{
  Popup, new_popup, comments_loaded, item_of, insert_item, comment_inserted, insert_each,
}

-- The comments of a list, without their answers.
abbrev pub held : Lis → List Posted
held no_lis = []
held (lis message_li ul) = held ul
held (lis (comment_li comment displayed children) ul) = comment ∷ held ul

held-insert_message :
    (by : Text) (comment : Posted) (ul : Lis)
    → held (insert_item by comment message_li ul) ≡ held ul
held-insert_message by comment no_lis = refl
held-insert_message by comment (lis message_li ul) = held-insert_message by comment ul
held-insert_message by comment (lis (comment_li sibling shown children) ul) =
    elim (Bool-cases (is_not_positive (comp by comment sibling))) [
      | inl e ↦ rw e refl
      | inr e ↦ rw e (ap (λ cs. sibling ∷ cs) (held-insert_message by comment ul))
    ]

held-insert_comment :
    (by : Text) (comment : Posted) (displayed : Bool) (ul : Lis)
    → held (insert_item by comment (comment_li comment displayed no_lis) ul)
      ≡ insert_comment by comment (held ul)
held-insert_comment by comment displayed no_lis = refl
held-insert_comment by comment displayed (lis message_li ul) =
    held-insert_comment by comment displayed ul
held-insert_comment by comment displayed (lis (comment_li sibling shown children) ul) =
    elim (Bool-cases (is_not_positive (comp by comment sibling))) [
      | inl e ↦ rw e refl
      | inr e ↦ rw e (ap (λ cs. sibling ∷ cs) (held-insert_comment by comment displayed ul))
    ]

insert_item-IsSorted :
    (by : Text)
    → IsOrder by
    → (moderator : Bool) (comment : Posted) (displayed : Bool) (ul : Lis) → IsSorted by (held ul)
    → IsSorted by (held (insert_item by comment (item_of moderator comment displayed) ul))
insert_item-IsSorted by order moderator comment displayed ul s =
    elim (Bool-cases (not displayed && not moderator)) [
      | inl e ↦ rw (e, held-insert_message by comment ul) s
      | inr e ↦
          rw (e, held-insert_comment by comment displayed ul)
            ((insert_comment-IsSorted by order comment (held ul) s).0)
    ]

held-All :
    (P : Posted → Type 0) (moderator : Bool) (deeper : Threads → Threads) (comments : Threads)
    → AllThreads (λ t. P (posted t)) comments
    → All P (held (items_of moderator (sort_children deeper comments)))
held-All P moderator deeper no_threads h = tt
held-All P moderator deeper (threads (thread comment displayed children) rest) (h, hs) =
    elim (Bool-cases (not displayed && not moderator)) [
      | inl e ↦ rw e (held-All P moderator deeper rest hs)
      | inr e ↦ rw e (h, held-All P moderator deeper rest hs)
    ]

held-IsSorted :
    (by : Text) (moderator : Bool) (deeper : Threads → Threads) (comments : Threads)
    → IsOrdered by comments
    → IsSorted by (held (items_of moderator (sort_children deeper comments)))
held-IsSorted by moderator deeper no_threads h = tt
held-IsSorted by moderator deeper (threads (thread comment displayed children) rest) (h, hs) =
    elim (Bool-cases (not displayed && not moderator)) [
      | inl e ↦ rw e (held-IsSorted by moderator deeper rest hs)
      | inr e ↦ rw e (
        held-All (λ b. IsBefore by comment b) moderator deeper rest h,
        held-IsSorted by moderator deeper rest hs,
      )
    ]

-- The message that there are no comments is there exactly while `empty` says so, then alone, and
-- the comments are in order.
abbrev pub IsTidy : (by : Text) → Popup → Type 0
IsTidy by p = (p.note ≡ p.empty) × (p.empty ≡ true → p.items ≡ no_lis) × IsSorted by (held p.items)

comment_inserted-IsTidy :
    (by : Text)
    → IsOrder by
    → (moderator : Bool) (comment : Posted) (displayed : Bool) (p : Popup) → IsTidy by p
    → IsTidy by (comment_inserted by moderator (comment, displayed) p)
unfolding comment_inserted
comment_inserted-IsTidy by order moderator comment displayed p (n, e, s) =
    elim (Bool-cases p.empty) [
      | inl yes_empty ↦ rw yes_empty (
        refl,
        λ h. absurd (cc),
        insert_item-IsSorted by order moderator comment displayed no_lis tt,
      )
      | inr filled ↦ rw filled (
        n ∙ filled,
        λ h. absurd (cc),
        insert_item-IsSorted by order moderator comment displayed p.items s,
      )
    ]

insert_each-IsTidy :
    (by : Text)
    → IsOrder by
    → (moderator : Bool) (added : List (Posted × Bool)) (p : Popup) → IsTidy by p
    → IsTidy by (insert_each by moderator added p)
insert_each-IsTidy by order moderator [] p t = t
insert_each-IsTidy by order moderator ((comment, displayed) ∷ added) p t =
    insert_each-IsTidy by order moderator added
      (comment_inserted by moderator (comment, displayed) p)
      (comment_inserted-IsTidy by order moderator comment displayed p t)

module _ (by : Text) (order : IsOrder by) (sort : Threads → Threads)
    (sort-ordered : (comments : Threads) → IsOrdered by (sort comments)) (fuel : ℕ)
    (moderator : Bool) where
  comments_loaded-IsTidy :
      (source : Text) (comments : Threads)
      → IsTidy by (comments_loaded sort (suc fuel) moderator source comments new_popup)
  unfolding comments_loaded sort_comments
  comments_loaded-IsTidy source no_threads = (refl, λ h. refl, tt)
  comments_loaded-IsTidy source (threads t rest) = (
    refl,
    λ h. absurd (cc),
    held-IsSorted by moderator (sort_comments sort fuel) (sort (threads t rest))
        (sort-ordered (threads t rest)),
  )

  -- When the comments for a new popup have been loaded and sorted by a `sort` that puts comments in
  -- an order that the page has a link for, with fuel for a level at least, and any others added, then those in its list are in order,
  -- and "No comments yet." is there exactly while the data say that the list is empty, and alone.
  pub popup-IsTidy :
      (source : Text) (comments : Threads) (added : List (Posted × Bool))
      → IsTidy by (
          insert_each by moderator added
            (comments_loaded sort (suc fuel) moderator source comments new_popup))
  popup-IsTidy source comments added =
      insert_each-IsTidy by order moderator added
        (comments_loaded sort (suc fuel) moderator source comments new_popup)
        (comments_loaded-IsTidy source comments)

module _ (sort : Threads → Threads) (fuel : ℕ) (moderator : Bool) where
  -- A second answer, such as that for a popup that was closed and opened again meanwhile, appends
  -- its comments, if it has any, to those that are there.
  pub comments_loaded-again :
      (source : Text) (t : Thread) (rest : Threads) (p : Popup)
      → (comments_loaded sort fuel moderator source (threads t rest) p).items
        ≡ append_lis p.items
            ((comments_loaded sort fuel moderator source (threads t rest) new_popup).items)
  unfolding comments_loaded
  comments_loaded-again source t rest p = refl
