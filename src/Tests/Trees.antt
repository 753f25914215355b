-- ===== src/Tests/Trees.antt =====
-- An insertion sort for the sort of JavaScript, and examples of trees of comments.
use forwarding_explorer.Base.{◌≡◌, refl, true, false, Bool-cases, inl, inr, if◌then◌else◌}
use forwarding_explorer.Base.Int.{pos}
use forwarding_explorer.Docs.Text.{Text, units}
use forwarding_explorer.Docs.Comments.{Posted, comp, is_not_positive}
use forwarding_explorer.Docs.Comments.Insertion.{IsOrder, IsBefore, IsBefore-trans, IsBefore-total}
use forwarding_explorer.Docs.Comments.Tree.{
  Thread, thread, Threads, no_threads, threads, no_lis, append_comments, get_children,
  sort_comments,
}
use forwarding_explorer.Docs.Comments.Tree.Sorting.{
  visible, AllThreads, posted, IsOrdered, IsDeepOrdered, get_children-append_comments,
  sort_comments-IsDeepOrdered,
}
use forwarding_explorer.Tests.Scripts.{rated}

abbrev insert : Text → Thread → Threads → Threads
insert by t no_threads = threads t no_threads
insert by t (threads u rest) =
    let later = insert by t rest in
    if is_not_positive (comp by (posted t) (posted u))
    then threads t (threads u rest)
    else threads u later

abbrev pub sort : Text → Threads → Threads
sort by no_threads = no_threads
sort by (threads t rest) = insert by t (sort by rest)

insert-AllThreads :
    (P : Thread → Type 0) (by : Text) (t : Thread) (list : Threads)
    → P t
    → AllThreads P list
    → AllThreads P (insert by t list)
insert-AllThreads P by t no_threads p h = (p, tt)
insert-AllThreads P by t (threads u rest) p (h, hs) =
    elim (Bool-cases (is_not_positive (comp by (posted t) (posted u)))) [
      | inl e ↦ rw e (p, (h, hs))
      | inr e ↦ rw e (h, insert-AllThreads P by t rest p hs)
    ]

sort-AllThreads :
    (by : Text) (P : Thread → Type 0) (list : Threads)
    → AllThreads P list
    → AllThreads P (sort by list)
sort-AllThreads by P no_threads h = tt
sort-AllThreads by P (threads t rest) (h, hs) =
    insert-AllThreads P by t (sort by rest) h (sort-AllThreads by P rest hs)

behind_lem :
    (by : Text)
    → IsOrder by
    → (a b : Posted) (list : Threads) → IsBefore by a b
    → AllThreads (λ u. IsBefore by b (posted u)) list
    → AllThreads (λ u. IsBefore by a (posted u)) list
behind_lem by order a b no_threads e h = tt
behind_lem by order a b (threads u rest) e (h, hs) =
    (IsBefore-trans by order a b (posted u) e h, behind_lem by order a b rest e hs)

insert-IsOrdered :
    (by : Text)
    → IsOrder by
    → (t : Thread) (list : Threads) → IsOrdered by list
    → IsOrdered by (insert by t list)
insert-IsOrdered by order t no_threads h = (tt, tt)
insert-IsOrdered by order t (threads u rest) (h, hs) =
    elim (Bool-cases (is_not_positive (comp by (posted t) (posted u)))) [
      | inl e ↦ rw e ((e, behind_lem by order (posted t) (posted u) rest e h), (h, hs))
      | inr e ↦ rw e (
        insert-AllThreads (λ v. IsBefore by (posted u) (posted v)) by t rest
            (IsBefore-total by order (posted t) (posted u) e) h,
        insert-IsOrdered by order t rest hs,
      )
    ]

pub sort-IsOrdered : (by : Text) → IsOrder by → (list : Threads) → IsOrdered by (sort by list)
sort-IsOrdered by order no_threads = tt
sort-IsOrdered by order (threads t rest) =
    insert-IsOrdered by order t (sort by rest) (sort-IsOrdered by order rest)

abbrev answer : Thread
answer = thread (rated (units "3") (pos 1)) true no_threads

abbrev waiting : Thread
waiting = thread (rated (units "4") (pos 9)) false no_threads

abbrev pub page_comments : Threads
page_comments =
    threads (thread (rated (units "1") (pos 2)) true (threads answer (threads waiting no_threads)))
      (threads (thread (rated (units "2") (pos 7)) true no_threads) no_threads)

get_children-append_comments_example :
    get_children (append_comments false page_comments no_lis) ≡ visible false page_comments
get_children-append_comments_example = get_children-append_comments false page_comments

sort_comments-IsDeepOrdered_example :
    IsDeepOrdered (units "rating") 2 (sort_comments (sort (units "rating")) 2 page_comments)
sort_comments-IsDeepOrdered_example =
    sort_comments-IsDeepOrdered (units "rating") (sort (units "rating"))
      (sort-IsOrdered (units "rating") (inl refl)) (sort-AllThreads (units "rating")) 2
      page_comments ((refl, (refl, tt)), (tt, tt)) 2
