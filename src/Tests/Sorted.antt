-- ===== src/Tests/Sorted.antt =====
-- An insertion sort for qsort, and examples for aggregated requests to PVFS.
use forwarding_explorer.Base.{ℕ, ◌≡◌, refl, List, [], ◌∷◌, ◌==◌, if◌then◌else◌}
use forwarding_explorer.Base.Int.{pos}
use forwarding_explorer.Server.Types.{ForwardingRequest, op_write}
use forwarding_explorer.Server.Pvfs.{indexed, compare_offsets, describe}

abbrev insert :
    (ForwardingRequest → ForwardingRequest → ℕ)
    → ForwardingRequest
    → List ForwardingRequest
    → List ForwardingRequest
insert compare x [] = x ∷ []
insert compare x (y ∷ ys) =
    let rest = insert compare x ys in if compare x y == 0 then x ∷ y ∷ ys else y ∷ rest

abbrev pub sort :
    (ForwardingRequest → ForwardingRequest → ℕ) → List ForwardingRequest → List ForwardingRequest
sort compare [] = []
sort compare (x ∷ xs) = insert compare x (sort compare xs)

abbrev to_file : (size buffer offset : ℕ) → ForwardingRequest
to_file size buffer offset = record {
  id = 1000001;
  rank = 1;
  file_name = [];
  file_handle = pos 100;
  operation = op_write;
  offset = offset;
  size = size;
  buffer = buffer;
}

-- The sizes are stored before the requests are sorted: with two sizes they are swapped.
swapped_sizes :
    describe sort (to_file 2 10 8 ∷ to_file 4 20 0 ∷ [])
    ≡ indexed (pos 2 ∷ pos 4 ∷ []) (20 ∷ 10 ∷ []) (0 ∷ 8 ∷ [])
unfolding describe compare_offsets
swapped_sizes = refl
