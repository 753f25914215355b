-- ===== src/Tests/Callbacks.antt =====
-- An example for the callbacks of PVFS, with two requests in the table.
use forwarding_explorer.Base.{ℕ, ◌≡◌, refl, arith, List, [], ◌∷◌, ◌==◌, if◌then◌else◌, ℕ_discrete}
use forwarding_explorer.Base.Int.{pos}
use forwarding_explorer.Server.Types.{ForwardingRequest, ok, op_read}
use forwarding_explorer.Server.System.{Server, content}
use forwarding_explorer.Server.Dispatch.{reply_read}
use forwarding_explorer.Server.Step.{init}
use forwarding_explorer.Server.Pvfs.{pvfs_callback_read}
use forwarding_explorer.Server.Pvfs.Replies.{
  IsKeyed, AreAlike, with_memory, empty-IsKeyed, add-IsKeyed, pvfs_callback_read-reply_read,
}
use forwarding_explorer.Tests.Disks.{disk_env}

abbrev waiting : (id buffer : ℕ) → ForwardingRequest
waiting id buffer = record {
  id = id;
  rank = 5;
  file_name = [];
  file_handle = pos 3;
  operation = op_read;
  offset = 0;
  size = 2;
  buffer = buffer;
}

abbrev two_waiting : Server disk_env
two_waiting = record (init disk_env (λ a. 0)) {
  requests = (2, waiting 2 1) ∷ (1, waiting 1 0) ∷ [];
  memory = λ b. if b == 0 then 7 ∷ 8 ∷ [] else 9 ∷ 9 ∷ [];
}

abbrev one_waiting : Server disk_env
one_waiting = record two_waiting {
  requests = (2, waiting 2 1) ∷ [];
  sent = content 5 1 (7 ∷ 8 ∷ []) ∷ [];
}

is_answered : reply_read disk_env (waiting 1 0 ∷ []) two_waiting ≡ ok one_waiting
unfolding reply_read ℕ_discrete
is_answered = refl

two_waiting-IsKeyed : IsKeyed disk_env two_waiting.requests
unfolding ℕ_discrete
two_waiting-IsKeyed =
    add-IsKeyed disk_env (waiting 2 1) ((1, waiting 1 0) ∷ []) refl (λ k q e. ground arith)
      (add-IsKeyed disk_env (waiting 1 0) [] refl (λ k q e. cc) (empty-IsKeyed disk_env))

pvfs_callback_read-reply_read_example :
    (m : ℕ → List ℕ) × (pvfs_callback_read disk_env (waiting 1 0 ∷ []) two_waiting
      ≡ ok (with_memory disk_env m one_waiting))
    × AreAlike disk_env one_waiting.requests one_waiting.memory m
pvfs_callback_read-reply_read_example =
    pvfs_callback_read-reply_read disk_env (waiting 1 0 ∷ []) two_waiting one_waiting
      two_waiting-IsKeyed is_answered
