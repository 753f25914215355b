-- ===== src/Server/Dispatch/Bytes.antt =====
-- The bytes that src/dispatcher/posix.c writes for a batch.
use forwarding_explorer.Base.{
  ℕ, zero, suc, ◌+◌, ◌≤◌, ◌≡◌, ◌⊎◌, refl, ap, List, [], ◌∷◌, length, take, All, arith,
}
use forwarding_explorer.Base.Int.{ℤ}
use forwarding_explorer.Server.Types.{ForwardingRequest}
use forwarding_explorer.Server.Env.{Env}
use forwarding_explorer.Server.System.{Server}

-- Two extents of a file.
abbrev pub IsApart : (offset size offset' size' : ℕ) → Type 0
IsApart offset size offset' size' = (offset + size ≤ offset') ⊎ (offset' + size' ≤ offset)

abbrev pub AllApart : List ForwardingRequest → Type 0
AllApart [] = Unit
AllApart (r ∷ rs) = All (λ q. IsApart r.offset r.size q.offset q.size) rs × AllApart rs

pub take_all : (n : ℕ) (bytes : List ℕ) → length bytes ≡ n → take n bytes ≡ bytes
take_all zero [] e = refl
take_all zero (b ∷ bytes) e = absurd (omega arith)
take_all (suc n) [] e = refl
take_all (suc n) (b ∷ bytes) e = ap (λ l. b ∷ l) (take_all n bytes (omega arith))

module _ (env : Env) where
  open env use {files}

  -- What POSIX says of a regular file on which no call fails: a read returns what was written last
  -- at its place, and a write elsewhere in the file, or in another file, does not change that.
  pub record IsPosix : Type 0 where
    pub read_back :
        (fh : ℤ) (bytes : List ℕ) (offset : ℕ) (d : files.Disk)
        → files.pread fh (length bytes) offset (files.pwrite fh bytes offset d) ≡ bytes
    pub elsewhere :
        (fh fh' : ℤ) (size offset offset' : ℕ) (bytes : List ℕ) (d : files.Disk)
        → IsApart offset size offset' (length bytes)
        → files.pread fh size offset (files.pwrite fh' bytes offset' d)
          ≡ files.pread fh size offset d

  -- The buffer of a request has its size.
  abbrev pub IsFilled : (ℕ → List ℕ) → ForwardingRequest → Type 0
  IsFilled memory r = length (memory r.buffer) ≡ r.size

  abbrev pub IsInFile : (ℕ → List ℕ) → files.Disk → ForwardingRequest → Type 0
  IsInFile memory d r = files.pread r.file_handle r.size r.offset d ≡ memory r.buffer
