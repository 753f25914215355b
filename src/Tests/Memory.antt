-- ===== src/Tests/Memory.antt =====
-- An example for the calls that free.
use forwarding_explorer.Base.{
  Bool, ◌≡◌, refl, none, some, false, true, [], ◌∷◌, ◌==◌, if◌then◌else◌,
}
use forwarding_explorer.Server.Types.{Result, ok, fault}
use forwarding_explorer.Pointers.{Heap, free, safe_memory_free, free_all}

-- Only the variable 0 holds a block.
abbrev one_block : Heap
one_block = record { pointers = λ v. if v == 0 then some 7 else none; allocated = λ b. b == 7 }

-- Two variables hold the same block.
abbrev shared_block : Heap
shared_block = record { pointers = λ v. some 7; allocated = λ b. b == 7 }

abbrev ends : Result Heap → Bool
ends (ok h) = true
ends _ = false

freed_twice : ends (free_all (0 ∷ 0 ∷ []) one_block) ≡ true
unfolding free_all safe_memory_free free
freed_twice = refl

-- A second variable is not noticed.
freed_by_two : free_all (0 ∷ 1 ∷ []) shared_block ≡ fault
unfolding free_all safe_memory_free free
freed_by_two = refl
