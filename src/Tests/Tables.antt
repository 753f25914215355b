-- ===== src/Tests/Tables.antt =====
-- Association lists for the hash tables of uthash.h, and one file in memory for the file system.
use forwarding_explorer.Base.{
  ℕ, ◌+◌, ◌≡◌, refl, arith, Option, none, some, List, [], ◌∷◌, ◌++◌, length, take, drop, ℕ_discrete,
  false,
}
use mathlib.Core.Logic.{ite}
use forwarding_explorer.Base.Int.{pos}
use forwarding_explorer.Server.Types.{FileName}
use forwarding_explorer.Server.Env.{HashTable, FileSystem, Env}

module _ {K V : Type 0} (eq : Discrete K) where
  abbrev find : K → List (K × V) → Option V
  find k [] = none
  find k ((j, v) ∷ t) = ite (eq j k) (some v) (find k t)

  abbrev delete : K → List (K × V) → List (K × V)
  delete k [] = []
  delete k ((j, v) ∷ t) = ite (eq k j) (delete k t) ((j, v) ∷ delete k t)

  pub find-delete :
      (k j : K) (t : List (K × V)) → find j (delete k t) ≡ ite (eq k j) none (find j t)
  find-delete k j [] = ground arith
  find-delete k j ((i, v) ∷ t) = ground (arith, find-delete k j t)

abbrev pub association_list : {K V : Type 0} → Discrete K → HashTable K V
association_list {K} {V} eq = record {
  Table = List (K × V);
  key_eq = eq;
  empty = [];
  find = find eq;
  add = λ k v t. (k, v) ∷ t;
  delete = delete eq;
  find-empty = λ k. refl;
  find-add = λ k j v t e. refl;
  find-delete = find-delete eq;
}

-- The equality of file names.
unfoldable pub same_name : Discrete FileName
unfolding ℕ_discrete
same_name [] [] = yes refl
same_name [] (y ∷ ys) = no (λ e. cc)
same_name (x ∷ xs) [] = no (λ e. cc)
same_name (x ∷ xs) (y ∷ ys) = elim (ℕ_discrete x y) [
  | no n ↦ no (λ e. n cc)
  | yes p ↦ elim (same_name xs ys) [ yes q ↦ yes cc | no n ↦ no (λ e. n cc) ]
]

abbrev pub one_file : FileSystem
one_file = record {
  Disk = List ℕ;
  open_file = λ name disk. (pos 3, disk);
  close_file = λ fh disk. disk;
  pread = λ fh size offset disk. take size (drop offset disk);
  pwrite = λ fh bytes offset disk. take offset disk ++ bytes ++ drop (offset + length bytes) disk;
}

abbrev pub env : Env
env = record {
  requests = association_list ℕ_discrete;
  handles = association_list same_name;
  files = one_file;
  direct_io = false;
  unset = λ buffer size. [];
}
