-- ===== src/Client/Actions.antt =====
-- How many messages of each kind a client exchanges.
use forwarding_explorer.Base.{
  ℕ, ◌+◌, ◌≡◌, refl, ap, ◌∙◌, Bool, true, false, List, [], ◌∷◌, ◌++◌, length, count, count-append,
  arith, if◌then◌else◌,
}
use forwarding_explorer.Base.Int.{ℤ}
use forwarding_explorer.Server.Types.{FileName, op_read, op_write, op_open, op_close}
use forwarding_explorer.Workload.{Layout}
use forwarding_explorer.Client.{
  Action, sends, sends_data, sends_empty, receives_handle, receives_ack, receives_data, barrier,
  close_request, write_rounds, read_rounds, write_phase, read_phase, rounds_from, client_actions,
}

-- Numbers for the kinds of actions: a request has that of its operation.
abbrev pub empty_kind : ℕ
empty_kind = 10

abbrev pub data_kind : ℕ
data_kind = 11

abbrev pub handle_kind : ℕ
handle_kind = 12

abbrev pub ack_kind : ℕ
ack_kind = 13

abbrev pub received_kind : ℕ
received_kind = 14

abbrev pub barrier_kind : ℕ
barrier_kind = 15

abbrev pub kinds : List Action → List ℕ
kinds [] = []
kinds (sends r ∷ actions) = r.operation ∷ kinds actions
kinds (sends_data bytes ∷ actions) = data_kind ∷ kinds actions
kinds (sends_empty ∷ actions) = empty_kind ∷ kinds actions
kinds (receives_handle ∷ actions) = handle_kind ∷ kinds actions
kinds (receives_ack ∷ actions) = ack_kind ∷ kinds actions
kinds (receives_data size ∷ actions) = received_kind ∷ kinds actions
kinds (barrier ∷ actions) = barrier_kind ∷ kinds actions

abbrev pub how_often : ℕ → List Action → ℕ
how_often kind actions = count kind (kinds actions)

kinds-append : (front back : List Action) → kinds (front ++ back) ≡ kinds front ++ kinds back
kinds-append [] back = refl
kinds-append (sends r ∷ front) back = ap (λ k. r.operation ∷ k) (kinds-append front back)
kinds-append (sends_data bytes ∷ front) back = ap (λ k. data_kind ∷ k) (kinds-append front back)
kinds-append (sends_empty ∷ front) back = ap (λ k. empty_kind ∷ k) (kinds-append front back)
kinds-append (receives_handle ∷ front) back = ap (λ k. handle_kind ∷ k) (kinds-append front back)
kinds-append (receives_ack ∷ front) back = ap (λ k. ack_kind ∷ k) (kinds-append front back)
kinds-append (receives_data size ∷ front) back =
    ap (λ k. received_kind ∷ k) (kinds-append front back)
kinds-append (barrier ∷ front) back = ap (λ k. barrier_kind ∷ k) (kinds-append front back)

how_often-append :
    (kind : ℕ) (front back : List Action)
    → how_often kind (front ++ back) ≡ how_often kind front + how_often kind back
how_often-append kind front back =
    ap (count kind) (kinds-append front back) ∙ count-append kind (kinds front) (kinds back)

-- The actions have so many WRITEs with their data, READs with theirs, OPENs with their handles, and
-- CLOSEs, with an answer for each READ and CLOSE and two for each WRITE; and so many empty messages
-- and barriers.
abbrev pub Fit : (writes reads opens closes empties barriers : ℕ) → List Action → Type 0
Fit writes reads opens closes empties barriers actions =
    (how_often op_write actions ≡ writes)
    × (how_often data_kind actions ≡ writes)
    × (how_often op_read actions ≡ reads)
    × (how_often received_kind actions ≡ reads)
    × (how_often op_open actions ≡ opens)
    × (how_often handle_kind actions ≡ opens)
    × (how_often op_close actions ≡ closes)
    × (how_often ack_kind actions ≡ writes + writes + reads + closes)
    × (how_often empty_kind actions ≡ empties)
    × (how_often barrier_kind actions ≡ barriers)

module _ (w r o c e b w' r' o' c' e' b' : ℕ) (front back : List Action) where
  Fit-append :
      Fit w r o c e b front
      → Fit w' r' o' c' e' b' back
      → Fit (w + w') (r + r') (o + o') (c + c') (e + e') (b + b') (front ++ back)
  Fit-append f g = (
    omega (arith, how_often-append op_write front back),
    omega (arith, how_often-append data_kind front back),
    omega (arith, how_often-append op_read front back),
    omega (arith, how_often-append received_kind front back),
    omega (arith, how_often-append op_open front back),
    omega (arith, how_often-append handle_kind front back),
    omega (arith, how_often-append op_close front back),
    omega (arith, how_often-append ack_kind front back),
    omega (arith, how_often-append empty_kind front back),
    omega (arith, how_often-append barrier_kind front back),
  )

abbrev pub one_if : Bool → ℕ → ℕ
one_if b n = if b then n else 0

nothing : (b : Bool) → one_if b 0 ≡ 0
nothing true = refl
nothing false = refl

module _ (to_double : ℕ → ℕ) (l : Layout) (path : FileName) (client_rank : ℕ)
    (any_name : FileName) where
  write_rounds-Fit :
      (handle : ℤ) (rounds : List ℕ)
      → Fit
          (length rounds)
          0
          0
          0
          0
          0
          (write_rounds to_double l path client_rank any_name handle rounds)
  write_rounds-Fit handle [] = omega arith
  write_rounds-Fit handle (i ∷ rounds) = let rest = write_rounds-Fit handle rounds in omega arith

  read_rounds-Fit :
      (handle : ℤ) (rounds : List ℕ)
      → Fit 0
          (length rounds)
          0
          0
          0
          0
          (read_rounds to_double l path client_rank any_name handle rounds)
  read_rounds-Fit handle [] = omega arith
  read_rounds-Fit handle (i ∷ rounds) = let rest = read_rounds-Fit handle rounds in omega arith

  write_phase-Fit :
      (handle : ℤ) (rounds : List ℕ)
      → Fit
          (length rounds)
          0
          1
          1
          0
          4
          (write_phase to_double l path client_rank any_name handle rounds)
  write_phase-Fit handle rounds =
      let behind : List Action =
        barrier ∷ barrier ∷ sends (close_request path) ∷ receives_ack ∷ barrier ∷ [] in
      let rest =
        Fit-append (length rounds) 0 0 0 0 0 0 0 0 1 0 3
          (write_rounds to_double l path client_rank any_name handle rounds) behind
          (write_rounds-Fit handle rounds) (omega arith) in
      omega arith

  read_phase-Fit :
      (handle : ℤ) (rounds : List ℕ)
      → Fit 0
          (length rounds)
          1
          1
          0
          3
          (read_phase to_double l path client_rank any_name handle rounds)
  read_phase-Fit handle rounds =
      let behind : List Action =
        barrier ∷ sends (close_request path) ∷ receives_ack ∷ barrier ∷ [] in
      let rest =
        Fit-append 0 (length rounds) 0 0 0 0 0 0 0 1 0 2
          (read_rounds to_double l path client_rank any_name handle rounds) behind
          (read_rounds-Fit handle rounds) (omega arith) in
      omega arith

  part-Fit :
      (b : Bool) (w r k : ℕ) (part : List Action)
      → Fit w r 1 1 0 k part
      → Fit
          (one_if b w)
          (one_if b r)
          (one_if b 1)
          (one_if b 1)
          0
          (one_if b k)
          (if b then part else [])
  part-Fit true w r k part f = f
  part-Fit false w r k part f = omega arith

  -- How many messages of each kind a client exchanges, whether it writes, reads or both, and wherever a
  -- stone wall ends its loops; the number of barriers is the same for every client.
  pub client_actions-Fit :
      (writes reads : Bool) (stone write_handle read_handle : ℤ) (late_write late_read : ℕ → Bool)
      → Fit
          (one_if writes (length (rounds_from stone late_write 0 l.operations)))
          (one_if reads (length (rounds_from stone late_read 0 l.operations)))
          (one_if writes 1 + one_if reads 1)
          (one_if writes 1 + one_if reads 1)
          1
          (one_if writes 4 + (one_if reads 3 + 3))
          (client_actions to_double l path client_rank any_name writes reads stone write_handle
            read_handle late_write late_read)
  unfolding client_actions
  client_actions-Fit writes reads stone write_handle read_handle late_write late_read =
      let w = rounds_from stone late_write 0 l.operations in
      let r = rounds_from stone late_read 0 l.operations in
      let written =
        part-Fit writes (length w) 0 4
          (write_phase to_double l path client_rank any_name write_handle w)
          (write_phase-Fit write_handle w) in
      let read =
        part-Fit reads 0 (length r) 3
          (read_phase to_double l path client_rank any_name read_handle r)
          (read_phase-Fit read_handle r) in
      let behind : List Action = barrier ∷ barrier ∷ sends_empty ∷ barrier ∷ [] in
      let second =
        Fit-append _ _ _ _ _ _ 0 0 0 0 1 3
          (if reads then read_phase to_double l path client_rank any_name read_handle r else [])
          behind read (omega arith) in
      let whole = Fit-append _ _ _ _ _ _ _ _ _ _ _ _ _ _ written second in
      omega (arith, nothing reads, nothing writes)
