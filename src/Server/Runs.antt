-- ===== src/Server/Runs.antt =====
-- Runs of the threads of a server (src/server/, src/handler/, src/dispatcher/) one behind another, and
-- the data that they send.
use forwarding_explorer.Base.{
  ℕ, ◌≡◌, refl, ap, ◌∙◌, List, [], ◌∷◌, ◌++◌, ◌==◌, ==_self, arith, append-nil, if◌then◌else◌,
}
use forwarding_explorer.Server.Types.{Result, ok, abort, fault, blocked, ◌>>=◌}
use forwarding_explorer.Server.Env.{Env}
use forwarding_explorer.Server.System.{
  Server, Message, content, file_handle, closed, identifier, write_done,
}
use forwarding_explorer.Server.Step.{Event, step, run}

-- The data that are sent to a process.
abbrev pub contents : (rank : ℕ) → List Message → List (List ℕ)
contents rank [] = []
contents rank (content r id bytes ∷ ms) =
    let rest = contents rank ms in if r == rank then bytes ∷ rest else rest
contents rank (file_handle r fh ∷ ms) = contents rank ms
contents rank (closed r ∷ ms) = contents rank ms
contents rank (identifier r id ∷ ms) = contents rank ms
contents rank (write_done r id ∷ ms) = contents rank ms

contents-append :
    (rank : ℕ) (ms ns : List Message)
    → contents rank (ms ++ ns) ≡ contents rank ms ++ contents rank ns
contents-append rank [] ns = refl
contents-append rank (content r id bytes ∷ ms) ns = rw (contents-append rank ms ns) (ground arith)
contents-append rank (file_handle r fh ∷ ms) ns = contents-append rank ms ns
contents-append rank (closed r ∷ ms) ns = contents-append rank ms ns
contents-append rank (identifier r id ∷ ms) ns = contents-append rank ms ns
contents-append rank (write_done r id ∷ ms) ns = contents-append rank ms ns

run-split :
    (env : Env) (es fs : List Event) (s : Server env)
    → run env (es ++ fs) s ≡ (run env es s >>= run env fs)
unfolding run
run-split env [] fs s = refl
run-split env (e ∷ es) fs s = after_step (step env e s) (λ t. run-split env es fs t)
  where
    after_step :
        (m : Result (Server env))
        → ((t : Server env) → run env (es ++ fs) t ≡ (run env es t >>= run env fs))
        → (m >>= run env (es ++ fs)) ≡ ((m >>= run env es) >>= run env fs)
    after_step (ok t) rest = rest t
    after_step (abort c) rest = refl
    after_step fault rest = refl
    after_step blocked rest = refl

-- A run goes on where another has come.
pub run-append :
    (env : Env) (es fs : List Event) (s t : Server env)
    → run env es s ≡ ok t
    → run env (es ++ fs) s ≡ run env fs t
run-append env es fs s t h = run-split env es fs s ∙ ap (λ m. m >>= run env fs) h

-- The messages for a WRITE have no data, and those for a READ have them.
pub contents-written :
    (rank r id : ℕ) (ms : List Message)
    → contents rank ((ms ++ identifier r id ∷ []) ++ write_done r id ∷ []) ≡ contents rank ms
contents-written rank r id ms =
    rw
      (
        contents-append rank (ms ++ identifier r id ∷ []) (write_done r id ∷ []),
        contents-append rank ms (identifier r id ∷ []),
      )
      simp append-nil

pub contents-was_read :
    (r id : ℕ) (bytes : List ℕ) (ms : List Message)
    → contents r ((ms ++ identifier r id ∷ []) ++ content r id bytes ∷ [])
      ≡ contents r ms ++ bytes ∷ []
contents-was_read r id bytes ms =
    rw
      (
        contents-append r (ms ++ identifier r id ∷ []) (content r id bytes ∷ []),
        contents-append r ms (identifier r id ∷ []),
        ==_self r,
      )
      (rw append-nil refl)
