-- ===== src/Tests/Queues.antt =====
-- Examples for the lists of fwd_list.c and for the dispatcher's batches.
use forwarding_explorer.Base.{ℕ, ◌≡◌, refl, arith, Option, some, List, [], ◌∷◌, ◌==◌, if◌then◌else◌}
use forwarding_explorer.Base.Int.{pos}
use forwarding_explorer.FwdList.{
  Links, init_fwd_list_head, fwd_list_add, fwd_list_add_tail, fwd_list_del, fwd_list_del_init,
  fwd_list_empty, fwd_list_for_each_entry,
}
use forwarding_explorer.FwdList.Ring.{
  IsRing, SameOutside, is_nil, init-IsRing, empty-is_nil, for_each_entry-IsRing,
}
use forwarding_explorer.FwdList.Insert.{add-IsRing, add_tail-IsRing}
use forwarding_explorer.FwdList.Remove.{del-IsRing, del-alone}
use forwarding_explorer.Server.Types.{ForwardingRequest, ok, op_read}
use forwarding_explorer.Server.Batch.{take_ready, aggregate}
use forwarding_explorer.Server.Batch.Aggregate.{IsBatch, dispatcher-IsBatch}

abbrev memory : Links
memory = record { prev = λ a. 0; next = λ a. 0 }

abbrev empty_queue : Links
empty_queue = init_fwd_list_head 9 memory

abbrev one_queue : Links
one_queue = fwd_list_add_tail 4 9 empty_queue

abbrev two_queue : Links
two_queue = fwd_list_add_tail 5 9 one_queue

empty_queue-IsRing : IsRing empty_queue 9 []
empty_queue-IsRing = init-IsRing memory 9

one_queue-IsRing : IsRing one_queue 9 (4 ∷ [])
one_queue-IsRing = (add_tail-IsRing empty_queue 4 9 [] (init-IsRing memory 9) refl).0

two_queue-IsRing : IsRing two_queue 9 (4 ∷ 5 ∷ [])
two_queue-IsRing = (add_tail-IsRing one_queue 5 9 (4 ∷ []) one_queue-IsRing refl).0

add_tail-IsRing_example :
    IsRing (fwd_list_add_tail 6 9 two_queue) 9 (4 ∷ 5 ∷ 6 ∷ [])
    × SameOutside (6 ∷ 9 ∷ 4 ∷ 5 ∷ []) two_queue (fwd_list_add_tail 6 9 two_queue)
add_tail-IsRing_example = add_tail-IsRing two_queue 6 9 (4 ∷ 5 ∷ []) two_queue-IsRing refl

one_more-IsRing :
    IsRing (fwd_list_add 6 9 two_queue) 9 (6 ∷ 4 ∷ 5 ∷ [])
    × SameOutside (6 ∷ 9 ∷ 4 ∷ 5 ∷ []) two_queue (fwd_list_add 6 9 two_queue)
one_more-IsRing = add-IsRing two_queue 6 9 (4 ∷ 5 ∷ []) two_queue-IsRing refl

del-IsRing_example :
    IsRing (fwd_list_del 4 two_queue) 9 (5 ∷ [])
    × SameOutside (9 ∷ 4 ∷ 5 ∷ []) two_queue (fwd_list_del 4 two_queue)
del-IsRing_example = del-IsRing two_queue 4 9 [] (5 ∷ []) two_queue-IsRing

alone_after_del :
    IsRing (fwd_list_del 4 two_queue) 4 [] × IsRing (fwd_list_del_init 4 two_queue) 4 []
alone_after_del = del-alone two_queue 4

two_queue-is_nil : fwd_list_empty 9 two_queue ≡ is_nil (4 ∷ 5 ∷ [])
two_queue-is_nil = empty-is_nil (4 ∷ 5 ∷ []) two_queue-IsRing

for_each_entry-IsRing_test : fwd_list_for_each_entry 3 9 two_queue ≡ some (4 ∷ 5 ∷ [])
for_each_entry-IsRing_test = for_each_entry-IsRing 3 two_queue-IsRing (omega arith)

abbrev reading : ℕ → ℕ → ForwardingRequest
reading id fh = record {
  id = id;
  rank = 2;
  file_name = [];
  file_handle = pos fh;
  operation = op_read;
  offset = 0;
  size = 8;
  buffer = 0;
}

-- Request 3 is for another file.
abbrev pub table : ℕ → Option ForwardingRequest
table id = some (reading id (if id == 3 then 7 else 6))

dispatcher-IsBatch_example :
    (r : ForwardingRequest) × (batch : List ForwardingRequest) × (rest : List ℕ) × (take_ready table
        (1 ∷ 2 ∷ 3 ∷ [])
      ≡ ok (r, 2 ∷ 3 ∷ []))
    × (aggregate table r (r ∷ []) (2 ∷ 3 ∷ []) ≡ ok (r ∷ batch, rest))
    × (r.id ≡ 1)
    × IsBatch table r 1 (2 ∷ 3 ∷ []) batch rest
dispatcher-IsBatch_example =
    dispatcher-IsBatch table 1 (2 ∷ 3 ∷ [])
      ((_, refl, refl), ((_, refl, refl), ((_, refl, refl), tt)))
