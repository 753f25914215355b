-- ===== src/FwdList.antt =====
-- src/fwd_list.c and include/fwd_list.h: circular lists that are linked both ways, as the incoming
-- and the ready queue are. A node is the `struct fwd_list_head` inside a request, named by its
-- address; `Links` is the memory that holds the nodes. Each assignment is one update, in order.
pub mod Ring
pub mod Insert
pub mod Remove
use forwarding_explorer.Base.{
  ℕ, zero, suc, Bool, List, [], ◌∷◌, Option, none, some, ◌==◌, if◌then◌else◌,
}
use mathlib.Core.Option

pub record Links : Type 0 where
  pub prev : ℕ → ℕ
  pub next : ℕ → ℕ

abbrev write : (ℕ → ℕ) → ℕ → ℕ → ℕ → ℕ
write f p v a = if a == p then v else f a

set_next : ℕ → ℕ → Links → Links
set_next p v m = record m { next = write m.next p v }

set_prev : ℕ → ℕ → Links → Links
set_prev p v m = record m { prev = write m.prev p v }

unfoldable pub init_fwd_list_head : ℕ → Links → Links
unfolding set_next set_prev
init_fwd_list_head list m = set_prev list list (set_next list list m)

-- `__fwd_list_add`
unfoldable pub fwd_list_add_between : (new prev next : ℕ) → Links → Links
unfolding set_next set_prev
fwd_list_add_between new prev next m =
    set_next prev new (set_prev new prev (set_next new next (set_prev next new m)))

unfoldable pub fwd_list_add : (new head : ℕ) → Links → Links
fwd_list_add new head m = fwd_list_add_between new head (m.next head) m

unfoldable pub fwd_list_add_tail : (new head : ℕ) → Links → Links
fwd_list_add_tail new head m = fwd_list_add_between new (m.prev head) head m

-- `__fwd_list_del`
unfoldable pub fwd_list_del_between : (prev next : ℕ) → Links → Links
unfolding set_next set_prev
fwd_list_del_between prev next m = set_next prev next (set_prev next prev m)

unfoldable pub fwd_list_del : (entry : ℕ) → Links → Links
unfolding set_next set_prev fwd_list_del_between
fwd_list_del entry m =
    set_prev entry entry
      (set_next entry entry (fwd_list_del_between (m.prev entry) (m.next entry) m))

-- `__fwd_list_del_entry`
unfoldable pub fwd_list_del_entry : (entry : ℕ) → Links → Links
unfolding fwd_list_del_between
fwd_list_del_entry entry m = fwd_list_del_between (m.prev entry) (m.next entry) m

unfoldable pub fwd_list_del_init : (entry : ℕ) → Links → Links
unfolding init_fwd_list_head fwd_list_del_entry
fwd_list_del_init entry m = init_fwd_list_head entry (fwd_list_del_entry entry m)

unfoldable pub fwd_list_empty : (head : ℕ) → Links → Bool
fwd_list_empty head m = m.next head == head

-- `fwd_list_for_each_entry`: the entries that the loop visits from `pos` on; `none` means that the
-- fuel ran out.
for_each_from : (fuel pos head : ℕ) → Links → Option (List ℕ)
for_each_from zero pos head m = none
for_each_from (suc fuel) pos head m =
    let rest = Option.map (λ l. pos ∷ l) (for_each_from fuel (m.next pos) head m) in
    if pos == head then some [] else rest

unfoldable pub fwd_list_for_each_entry : (fuel head : ℕ) → Links → Option (List ℕ)
unfolding for_each_from
fwd_list_for_each_entry fuel head m = for_each_from fuel (m.next head) head m
