-- ===== src/Server/Handles.antt =====
-- OPEN and CLOSE in src/server/handler.c: the table of open files with its reference counts.
pub mod Users
use forwarding_explorer.Base.{ℕ, ◌+◌, ◌-◌, Option, none, some, ◌==◌, if◌then◌else◌}
use forwarding_explorer.Base.Int.{ℤ, is_negative}
use forwarding_explorer.Server.Types.{
  FileName, OpenedHandle, Result, ok, abort, error_posix_open, error_failed_to_close,
}
use forwarding_explorer.Server.Env.{HashTable, FileSystem, Env}

-- `opened_files`, and what the system calls change.
pub record Handles (env : Env) : Type 0 where
  pub opened_files : env.handles.Table
  pub disk : env.files.Disk

module _ (env : Env) where
  open env use {handles, files}

  -- HASH_REPLACE
  unfoldable pub replace : FileName → OpenedHandle → handles.Table → handles.Table
  replace k v t = handles.add k v (handles.delete k t)

  -- The branch of a file that is not open yet.
  unfoldable pub open_new : FileName → Handles env → Result (ℤ × Handles env)
  open_new name s =
      let (fh, disk) = files.open_file name s.disk in
      if is_negative fh
      then abort error_posix_open
      else ok (
        fh,
        record {
          opened_files =
              handles.add name (record { fh = fh; path = name; references = 1 }) s.opened_files;
          disk = disk;
        },
      )

  unfoldable pub open_again : FileName → OpenedHandle → Handles env → ℤ × Handles env
  unfolding replace
  open_again name h s = (
    h.fh,
    record s {
      opened_files = replace name (record h { references = h.references + 1 }) s.opened_files;
    },
  )

  -- Under `handles_rwlock`; the result is the handle that is sent to the client.
  unfoldable pub handle_open : FileName → Handles env → Result (ℤ × Handles env)
  unfolding open_new open_again
  handle_open name s = elim (handles.find name s.opened_files) [
    | none ↦ open_new name s
    | some h ↦ ok (open_again name h s)
  ]

  -- `h->references - 1` is 0 exactly if there was one reference; a count of 0 is never in the table.
  unfoldable pub close_one : FileName → OpenedHandle → Handles env → Handles env
  unfolding replace
  close_one name h s =
      if h.references == 1
      then record {
        opened_files = handles.delete name s.opened_files;
        disk = files.close_file h.fh s.disk;
      }
      else record s {
        opened_files = replace name (record h { references = h.references - 1 }) s.opened_files;
      }

  unfoldable pub handle_close : FileName → Handles env → Result (Handles env)
  unfolding close_one
  handle_close name s = elim (handles.find name s.opened_files) [
    | none ↦ abort error_failed_to_close
    | some h ↦ ok (close_one name h s)
  ]
