-- ===== src/Tests/Files.antt =====
-- Examples for the table of open files.
use forwarding_explorer.Base.{
  ℕ, ◌-◌, ◌≡◌, ◌⊎◌, refl, arith, true, none, some, [], ◌∷◌, ◌==◌, if◌then◌else◌,
}
use mathlib.Core.Logic.{ite}
use forwarding_explorer.Base.Int.{ℤ, pos, is_negative}
use forwarding_explorer.Server.Types.{FileName, ok, abort, error_posix_open, error_failed_to_close}
use forwarding_explorer.Server.Handles.{Handles, handle_open, handle_close}
use forwarding_explorer.Server.Handles.Users.{
  Counts, Opened, handle_of, update, open_first, open_shared, close_unused, close_used,
}
use forwarding_explorer.Tests.Tables.{env, same_name}

abbrev name : FileName
name = 102 ∷ []

abbrev no_files : Handles env
no_files = record { opened_files = []; disk = 5 ∷ [] }

abbrev no_users : FileName → ℕ
no_users p = 0

no_files_counted : Counts env no_files no_users
no_files_counted p = refl

abbrev two_users : FileName → ℕ
two_users p = ite (same_name name p) 2 0

abbrev shared_file : Handles env
shared_file = record {
  opened_files = (name, record { fh = pos 3; path = name; references = 2 }) ∷ [];
  disk = 5 ∷ [];
}

shared_file_counted : Counts env shared_file two_users
shared_file_counted p = ground arith

two_users_at_name : two_users name ≡ 2
two_users_at_name = ground arith

open_first_test :
    (s' : Handles env) × (handle_open env name no_files ≡ (
      if is_negative (env.files.open_file name (5 ∷ [])).0
      then abort error_posix_open
      else ok ((env.files.open_file name (5 ∷ [])).0, s')))
    × (is_negative (env.files.open_file name (5 ∷ [])).0 ≡ true
        ⊎ ((s'.disk ≡ (env.files.open_file name (5 ∷ [])).1)
            × Opened env name no_users no_files ((env.files.open_file name (5 ∷ [])).0, s')))
open_first_test = open_first env name no_users no_files no_files_counted refl

open_shared_test :
    (fh : ℤ) × (s' : Handles env) × (handle_open env name shared_file ≡ ok (fh, s'))
    × (handle_of env name shared_file ≡ some fh)
    × (s'.disk ≡ shared_file.disk)
    × Opened env name two_users shared_file (fh, s')
open_shared_test =
    open_shared env name two_users shared_file shared_file_counted
      (omega (arith, two_users_at_name))

nothing_to_close : handle_close env name no_files ≡ abort error_failed_to_close
nothing_to_close = close_unused env name no_users no_files no_files_counted refl

close_used_example :
    (fh : ℤ) × (s' : Handles env) × (handle_close env name shared_file ≡ ok s')
    × (handle_of env name shared_file ≡ some fh)
    × (s'.disk ≡ (
        if two_users name == 1 then env.files.close_file fh shared_file.disk else shared_file.disk))
    × (handle_of env name s' ≡ (if two_users name == 1 then none else some fh))
    × Counts env s' (update env two_users name (two_users name - 1))
close_used_example =
    close_used env name two_users shared_file shared_file_counted (omega (arith, two_users_at_name))
