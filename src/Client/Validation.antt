-- ===== src/Client/Validation.antt =====
-- The check of what is read finds no error.
use forwarding_explorer.Base.{
  ℕ, ◌^◌, ◌≤◌, ◌<◌, ◌≡◌, ◌≢◌, ◌⊎◌, inl, inr, ◌∙◌, List, [], ◌∷◌, All, arith, ℕ_discrete,
}
use forwarding_explorer.Base.Int.{ℤ}
use forwarding_explorer.Server.Env.{Env}
use forwarding_explorer.Server.Dispatch.Bytes.{IsPosix}
use forwarding_explorer.Workload.{individual, Layout, offset, ranks_from}
use forwarding_explorer.Workload.Extents.{
  data_size, IsExact, slot, IsSlot, offset-slot, slot_injective,
}
use forwarding_explorer.Client.Answers.{length-buffer_of}
use forwarding_explorer.Client.{buffer_of, write_round, write_all_rounds}
use forwarding_explorer.Client.Rounds.{
  Occurs, slots-IsApart, Files-cases, same_client, ranks_from-All, All-both,
}

-- What the rounds of a client read.
abbrev pub buffers : (size r : ℕ) → List ℕ → List (List ℕ)
buffers size r [] = []
buffers size r (i ∷ rounds) = buffer_of size r ∷ buffers size r rounds

module _ (to_double : ℕ → ℕ) (exact : IsExact to_double) (l : Layout) (fits : data_size l ≤ 2 ^ 53)
    (env : Env) (posix : IsPosix env) (write_handle read_handle : ℕ → ℤ) where
  open env use {files}

  -- A client reads the file that it has written, and of individual files each client has its own.
  pub record AreOwn : Type 0 where
    pub same_file :
        (r size o : ℕ) (d : files.Disk)
        → files.pread (read_handle r) size o d ≡ files.pread (write_handle r) size o d
    pub other_file :
        (r r' size o o' : ℕ) (bytes : List ℕ) (d : files.Disk)
        → l.files ≡ individual
        → r ≢ r'
        → files.pread (read_handle r) size o (files.pwrite (write_handle r') bytes o' d)
          ≡ files.pread (read_handle r) size o d

  module _ (own : AreOwn) where
    abbrev pub IsRead : (r i : ℕ) → files.Disk → Type 0
    IsRead r i d =
        files.pread (read_handle r) l.request_size (offset to_double l r i) d
        ≡ buffer_of l.request_size r

    written-IsRead :
        (r i : ℕ) (d : files.Disk) → IsRead r i (write_round to_double l env (write_handle r) r i d)
    written-IsRead r i d =
        let bytes = buffer_of l.request_size r in
        let o = offset to_double l r i in
        let back = posix.read_back (write_handle r) bytes o d in
        own.same_file r l.request_size o (files.pwrite (write_handle r) bytes o d)
        ∙ rw (length-buffer_of l.request_size r) at back

    apart-IsRead :
        (r i r' i' : ℕ) (d : files.Disk)
        → IsSlot l r i
        → IsSlot l r' i'
        → slot l r i ≢ slot l r' i'
        → IsRead r i d
        → IsRead r i (write_round to_double l env (write_handle r') r' i' d)
    apart-IsRead r i r' i' d h h' differ e =
        posix.elsewhere (read_handle r) (write_handle r') l.request_size (offset to_double l r i)
          (offset to_double l r' i') (buffer_of l.request_size r') d
          (rw
            (
              length-buffer_of l.request_size r',
              offset-slot to_double exact l r i fits h,
              offset-slot to_double exact l r' i' fits h',
            )
            (slots-IsApart l.request_size (slot l r i) (slot l r' i') differ))
        ∙ e

    -- A round of any client keeps what has been read, and its own is read then.
    round-IsRead :
        (r i r' i' : ℕ) (d : files.Disk)
        → IsSlot l r i
        → IsSlot l r' i'
        → (((r ≡ r') × (i ≡ i')) ⊎ IsRead r i d)
        → IsRead r i (write_round to_double l env (write_handle r') r' i' d)
    round-IsRead r i r' i' d h h' known = elim (ℕ_discrete r r') [
      | yes p ↦ elim (ℕ_discrete i i') [
        | yes q ↦ rw (← p, ← q) (written-IsRead r i d)
        | no n ↦
            apart-IsRead r i r' i' d h h' (same_client l r i r' i' h h' p n)
              (was_read (λ (_, q). n q) known)
      ]
      | no n ↦ elim (Files-cases l.files) [
        | inl s ↦
            apart-IsRead r i r' i' d h h' (λ q. n (slot_injective l r i r' i' s h h' q).0)
              (was_read (λ (p, _). n p) known)
        | inr s ↦
            own.other_file r r' l.request_size (offset to_double l r i) (offset to_double l r' i')
              (buffer_of l.request_size r') d s n
            ∙ was_read (λ (p, _). n p) known
      ]
    ]
      where
        was_read : {A B : Type 0} → (A → ⊥) → A ⊎ B → B
        was_read f (inl a) = absurd (f a)
        was_read f (inr b) = b

    write_all_rounds-IsRead :
        (order : List (ℕ × ℕ)) (r i : ℕ) (d : files.Disk)
        → IsSlot l r i
        → All (λ a. IsSlot l a.0 a.1) order
        → (Occurs r i order ⊎ IsRead r i d)
        → IsRead r i (write_all_rounds to_double l env write_handle order d)
    unfolding write_all_rounds
    write_all_rounds-IsRead [] r i d h hs (inl o) = absurd o
    write_all_rounds-IsRead [] r i d h hs (inr e) = e
    write_all_rounds-IsRead ((r', i') ∷ order) r i d h (h', hs) (inl (inl same)) =
        write_all_rounds-IsRead order r i (write_round to_double l env (write_handle r') r' i' d) h
          hs (inr (round-IsRead r i r' i' d h h' (inl same)))
    write_all_rounds-IsRead ((r', i') ∷ order) r i d h (h', hs) (inl (inr later)) =
        write_all_rounds-IsRead order r i (write_round to_double l env (write_handle r') r' i' d) h
          hs (inl later)
    write_all_rounds-IsRead ((r', i') ∷ order) r i d h (h', hs) (inr e) =
        write_all_rounds-IsRead order r i (write_round to_double l env (write_handle r') r' i' d) h
          hs (inr (round-IsRead r i r' i' d h h' (inr e)))

    -- Once each client has written all its rounds, all of them are read.
    pub rounds-IsRead :
        (order : List (ℕ × ℕ)) (r : ℕ) (d : files.Disk)
        → All (λ a. IsSlot l a.0 a.1) order
        → r < l.client_size
        → All (λ i. Occurs r i order) (ranks_from 0 l.operations)
        → All
            (λ i. IsRead r i (write_all_rounds to_double l env write_handle order d))
            (ranks_from 0 l.operations)
    rounds-IsRead order r d slots lt all =
        All-both (λ i below o. write_all_rounds-IsRead order r i d (lt, below) slots (inl o))
          (ranks_from 0 l.operations) (ranks_from-All l.operations 0 l.operations (omega arith)) all
