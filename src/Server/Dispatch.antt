-- ===== src/Server/Dispatch.antt =====
-- src/dispatcher/posix.c: an aggregated request is issued, and its clients are answered.
pub mod Bytes
use forwarding_explorer.Base.{
  none, some, List, [], ◌∷◌, ◌++◌, ◌==◌, if◌then◌else◌, length, take, drop,
}
use forwarding_explorer.Server.Types.{
  ForwardingRequest, AggregatedRequest, Result, ok, fault, op_read,
}
use forwarding_explorer.Server.Env.{Env}
use forwarding_explorer.Server.System.{
  callback_read, callback_write, content, write_done, Server, store, add_work, send,
}

module _ (env : Env) where
  open env use {requests as table, files}

  -- The loop of `dispatch_read`. A read that is short leaves the rest of the buffer alone; a
  -- result other than the size is only logged.
  unfoldable pub read_all : List ForwardingRequest → Server env → Server env
  read_all [] s = s
  read_all (r ∷ rs) s =
      let bytes = files.pread r.file_handle r.size r.offset s.handles.disk in
      let buffer = bytes ++ drop (length bytes) (s.memory r.buffer) in
      read_all rs (record s { memory = store s.memory r.buffer buffer })

  -- The loop of `dispatch_write`.
  unfoldable pub write_all : List ForwardingRequest → Server env → Server env
  write_all [] s = s
  write_all (r ∷ rs) s =
      let bytes = take r.size (s.memory r.buffer) in
      let disk = files.pwrite r.file_handle bytes r.offset s.handles.disk in
      write_all rs (record s { handles = record s.handles { disk = disk } })

  unfoldable pub dispatch_read : AggregatedRequest → Server env → Server env
  unfolding read_all
  dispatch_read a s = add_work env (callback_read a) (read_all a.requests s)

  unfoldable pub dispatch_write : AggregatedRequest → Server env → Server env
  unfolding write_all
  dispatch_write a s = add_work env (callback_write a) (write_all a.requests s)

  unfoldable pub dispatch_operation : AggregatedRequest → Server env → Server env
  unfolding dispatch_read dispatch_write
  dispatch_operation a s = if a.operation == op_read then dispatch_read a s else dispatch_write a s

  -- `callback_read` keeps the buffers.
  unfoldable pub reply_read : List ForwardingRequest → Server env → Result (Server env)
  reply_read [] s = ok s
  reply_read (r ∷ rs) s = elim (table.find r.id s.requests) [
    | none ↦ fault
    | some current ↦ reply_read rs (
        send env (content current.rank current.id (take current.size (s.memory current.buffer)))
          (record s { requests = table.delete current.id s.requests }))
  ]

  -- `callback_write` frees them.
  unfoldable pub reply_write : List ForwardingRequest → Server env → Result (Server env)
  reply_write [] s = ok s
  reply_write (r ∷ rs) s = elim (table.find r.id s.requests) [
    | none ↦ fault
    | some current ↦ reply_write rs (
        send env (write_done current.rank current.id) (record s {
          requests = table.delete current.id s.requests;
          memory = store s.memory current.buffer [];
        }))
  ]
