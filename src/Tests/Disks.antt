-- ===== src/Tests/Disks.antt =====
-- A disk without an end, which behaves as POSIX says, and an example of a batch that is written.
use forwarding_explorer.Base.{
  ℕ, zero, suc, ◌+◌, ◌≤◌, ◌<◌, ◌≡◌, ◌⊎◌, refl, List, [], ◌∷◌, length, arith, ◌==◌, ◌∙◌,
  if◌then◌else◌, ℕ_discrete, ap₂, true,
}
use forwarding_explorer.Base.Int.{pos}
use forwarding_explorer.Server.Types.{ForwardingRequest, op_write}
use forwarding_explorer.Server.Env.{Env, FileSystem}
use forwarding_explorer.Server.System.{Server}
use forwarding_explorer.Server.Dispatch.Bytes.{IsPosix}
use forwarding_explorer.Server.Step.{init}
use forwarding_explorer.Tests.Tables.{association_list, same_name}

abbrev bytes_at : ℕ → (ℕ → ℕ) → ℕ → List ℕ
bytes_at zero disk offset = []
bytes_at (suc n) disk offset = disk offset ∷ bytes_at n disk (offset + 1)

abbrev put : List ℕ → ℕ → (ℕ → ℕ) → ℕ → ℕ
put [] offset disk a = disk a
put (b ∷ bytes) offset disk a = if a == offset then b else put bytes (offset + 1) disk a

abbrev pub endless : FileSystem
endless = record {
  Disk = ℕ → ℕ;
  open_file = λ name disk. (pos 3, disk);
  close_file = λ fh disk. disk;
  pread = λ fh size offset disk. bytes_at size disk offset;
  pwrite = λ fh bytes offset disk. put bytes offset disk;
}

abbrev pub disk_env : Env
disk_env = record {
  requests = association_list ℕ_discrete;
  handles = association_list same_name;
  files = endless;
  direct_io = true;
  unset = λ buffer size. bytes_at size (λ a. 255) buffer;
}

-- Bytes are read alike from disks that agree on them.
bytes_at-eq :
    (n : ℕ) (d e : ℕ → ℕ) (offset : ℕ)
    → ((a : ℕ) → offset ≤ a → a < offset + n → d a ≡ e a)
    → bytes_at n d offset ≡ bytes_at n e offset
bytes_at-eq zero d e offset same = refl
bytes_at-eq (suc n) d e offset same =
    ap₂ ◌∷◌ (same offset (omega arith) (omega arith))
      (bytes_at-eq n d e (offset + 1) (λ a lo hi. same a (omega arith) (omega arith)))

put-outside :
    (bytes : List ℕ) (offset : ℕ) (d : ℕ → ℕ) (a : ℕ)
    → (a < offset) ⊎ (offset + length bytes ≤ a)
    → put bytes offset d a ≡ d a
put-outside [] offset d a out = refl
put-outside (b ∷ bytes) offset d a out = ground (arith, put-outside bytes (offset + 1) d a)

bytes_at-put :
    (bytes : List ℕ) (offset : ℕ) (d : ℕ → ℕ)
    → bytes_at (length bytes) (put bytes offset d) offset ≡ bytes
bytes_at-put [] offset d = refl
bytes_at-put (b ∷ bytes) offset d = ap₂ ◌∷◌ (ground arith) (
    bytes_at-eq (length bytes) (put (b ∷ bytes) offset d) (put bytes (offset + 1) d) (offset + 1)
      (λ a lo hi. ground arith)
    ∙ bytes_at-put bytes (offset + 1) d)

pub endless-IsPosix : IsPosix disk_env
endless-IsPosix = record {
  read_back = λ fh bytes offset d. bytes_at-put bytes offset d;
  elsewhere = λ fh fh' size offset offset' bytes d apart.
      bytes_at-eq size (put bytes offset' d) d offset
        (λ a lo hi. put-outside bytes offset' d a (ground arith));
}

abbrev piece : (buffer offset : ℕ) → ForwardingRequest
piece buffer offset = record {
  id = 1000001;
  rank = 1;
  file_name = [];
  file_handle = pos 3;
  operation = op_write;
  offset = offset;
  size = 2;
  buffer = buffer;
}

abbrev batch : List ForwardingRequest
batch = piece 0 6 ∷ piece 1 4 ∷ []

abbrev filled : Server disk_env
filled = record (init disk_env (λ a. 0)) { memory = λ b. if b == 0 then 1 ∷ 2 ∷ [] else 3 ∷ 4 ∷ [] }
