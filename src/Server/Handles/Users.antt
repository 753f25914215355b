-- ===== src/Server/Handles/Users.antt =====
-- The table of open files counts, for each file, the OPENs that no CLOSE has followed.
use forwarding_explorer.Base.{
  ℕ, ◌+◌, ◌-◌, ◌<◌, ◌≡◌, ◌⊎◌, inl, inr, refl, subst, ◌∙◌, true, false, Option, none, some, ◌==◌,
  if◌then◌else◌, arith, Option-cases, Bool-cases,
}
use mathlib.Core.Logic.{ite, if_pos, if_neg}
use mathlib.Core.Option
use forwarding_explorer.Base.Int.{ℤ, is_negative}
use forwarding_explorer.Server.Types.{
  FileName, OpenedHandle, ok, abort, error_posix_open, error_failed_to_close,
}
use forwarding_explorer.Server.Env.{Env}
use forwarding_explorer.Server.Handles.{
  Handles, replace, open_again, close_one, handle_open, handle_close,
}

-- An entry of the table for a file with `n` users.
abbrev pub Entry : Option OpenedHandle → FileName → ℕ → Type 0
Entry none p n = n ≡ 0
Entry (some h) p n = (h.references ≡ n) × (0 < n) × (h.path ≡ p)

module _ (env : Env) where
  open env use {handles, files}

  abbrev pub Counts : Handles env → (FileName → ℕ) → Type 0
  Counts s users = (p : FileName) → Entry (handles.find p s.opened_files) p (users p)

  -- The handle under which a file is open.
  abbrev pub handle_of : FileName → Handles env → Option ℤ
  handle_of p s = Option.map (λ h. h.fh) (handles.find p s.opened_files)

  abbrev pub update : (FileName → ℕ) → FileName → ℕ → FileName → ℕ
  update users name n p = ite (handles.key_eq name p) n (users p)

  find-replace :
      (k j : FileName) (v : OpenedHandle) (t : handles.Table)
      → handles.find j (replace env k v t) ≡ ite (handles.key_eq k j) (some v) (handles.find j t)
  unfolding replace
  find-replace k j v t = ground (
    arith,
    handles.find-add k j v (handles.delete k t),
    handles.find-delete k k t,
    handles.find-delete k j t,
  )

  -- What an OPEN of `name` with the result `fh` does to the table.
  abbrev pub Opened : FileName → (FileName → ℕ) → Handles env → ℤ × Handles env → Type 0
  Opened name users s (fh, s') =
      Counts s' (update users name (users name + 1))
      × ((p : FileName) → handle_of p s' ≡ ite (handles.key_eq name p) (some fh) (handle_of p s))

  Opened-of :
      (name : FileName) (users : FileName → ℕ) (s s' : Handles env) (h : OpenedHandle)
      → Counts s users
      → ((j : FileName)
          → handles.find j s'.opened_files
            ≡ ite (handles.key_eq name j) (some h) (handles.find j s.opened_files))
      → h.references ≡ users name + 1
      → h.path ≡ name
      → Opened name users s (h.fh, s')
  Opened-of name users s s' h c find r q = (
    λ p. elim (handles.key_eq name p) [
      | yes e ↦ rw (find p) (rw (if_pos _ e) (rw (if_pos _ e) (r, omega arith, q ∙ e)))
      | no n ↦ rw (find p) (rw (if_neg _ n) (rw (if_neg _ n) (c p)))
    ],
    λ p. elim (handles.key_eq name p) [
      | yes e ↦ rw (find p) (rw (if_pos _ e) (rw (if_pos _ e) refl))
      | no n ↦ rw (find p) (rw (if_neg _ n) (rw (if_neg _ n) refl))
    ],
  )

  -- What an OPEN does, by the users of the file.
  handle_open_lem :
      (name : FileName) (users : FileName → ℕ) (s : Handles env)
      → Counts s users
      → (users name ≡ 0
          → is_negative (files.open_file name s.disk).0 ≡ true
          → handle_open env name s ≡ abort error_posix_open)
        × (users name ≡ 0
            → is_negative (files.open_file name s.disk).0 ≡ false
            → (s' : Handles env) × (handle_open env name s
                ≡ ok ((files.open_file name s.disk).0, s'))
              × (s'.disk ≡ (files.open_file name s.disk).1)
              × Opened name users s ((files.open_file name s.disk).0, s'))
        × (0 < users name
            → (fh : ℤ) × (s' : Handles env) × (handle_open env name s ≡ ok (fh, s'))
              × (handle_of name s ≡ some fh)
              × (s'.disk ≡ s.disk)
              × Opened name users s (fh, s'))
  unfolding handle_open
  handle_open_lem name users s c = elim (Option-cases (handles.find name s.opened_files)) [
    | inl e ↦
        let none_used = rw e at (c name) in
        let first : OpenedHandle = record {
          fh = (files.open_file name s.disk).0;
          path = name;
          references = 1;
        } in
        let opened_first : Handles env = record {
          opened_files = handles.add name first s.opened_files;
          disk = (files.open_file name s.disk).1;
        } in
        (
          λ z neg. ground arith,
          λ z neg. (
            opened_first,
            ground arith,
            refl,
            Opened-of name users s opened_first first c
                (λ j. handles.find-add name j _ s.opened_files e) (omega arith) refl,
          ),
          λ p. absurd (omega arith),
        )
    | inr (h, e) ↦
        let (r, p, q) = rw e at (c name) in
        (
          λ z neg. absurd (omega arith),
          λ z neg. absurd (omega arith),
          λ p. (
            h.fh,
            (open_again env name h s).1,
            ground arith,
            rw e,
            refl,
            Opened-of name users s (open_again env name h s).1
                (record h { references = h.references + 1 }) c
                (λ j. find-replace name j _ s.opened_files) (omega arith) q,
          ),
        )
  ]

  -- If the table counts no users of a file, an OPEN asks the system for it: it aborts with
  -- ERROR_POSIX_OPEN if the system fails, and else answers the system's handle, which the table
  -- then has for this file, with one user; the entries of other files stay.
  pub open_first :
      (name : FileName) (users : FileName → ℕ) (s : Handles env)
      → Counts s users
      → users name ≡ 0
      → (s' : Handles env) × (handle_open env name s ≡ (
          if is_negative (files.open_file name s.disk).0
          then abort error_posix_open
          else ok ((files.open_file name s.disk).0, s')))
        × (is_negative (files.open_file name s.disk).0 ≡ true
            ⊎ ((s'.disk ≡ (files.open_file name s.disk).1)
                × Opened name users s ((files.open_file name s.disk).0, s')))
  open_first name users s c z =
      let (fails, opens, shares) = handle_open_lem name users s c in
      elim (Bool-cases (is_negative (files.open_file name s.disk).0)) [
        | inl e ↦ (s, rw e (fails z e), inl e)
        | inr e ↦ let (s', done, disk, o) = opens z e in (s', rw e done, inr (disk, o))
      ]

  -- If the table counts users of a file, an OPEN answers the handle that the table has for it and
  -- adds a user; the system is not asked, and the entries of other files stay.
  pub open_shared :
      (name : FileName) (users : FileName → ℕ) (s : Handles env)
      → Counts s users
      → 0 < users name
      → (fh : ℤ) × (s' : Handles env) × (handle_open env name s ≡ ok (fh, s'))
        × (handle_of name s ≡ some fh)
        × (s'.disk ≡ s.disk)
        × Opened name users s (fh, s')
  open_shared name users s c p = (handle_open_lem name users s c).2 p

  -- What a CLOSE leaves of the entry.
  abbrev left_of : OpenedHandle → Option OpenedHandle
  left_of h = if h.references == 1 then none else some (record h { references = h.references - 1 })

  find-close :
      (name : FileName) (h : OpenedHandle) (s : Handles env) (j : FileName)
      → handles.find j (close_one env name h s).opened_files
        ≡ ite (handles.key_eq name j) (left_of h) (handles.find j s.opened_files)
  unfolding close_one
  find-close name h s j = elim (Bool-cases (h.references == 1)) [
    | inl e ↦ rw e (handles.find-delete name j s.opened_files)
    | inr e ↦ rw e (find-replace name j _ s.opened_files)
  ]

  close-Counts :
      (name : FileName) (users : FileName → ℕ) (s s' : Handles env) (o : Option OpenedHandle)
      → Counts s users
      → ((j : FileName)
          → handles.find j s'.opened_files
            ≡ ite (handles.key_eq name j) o (handles.find j s.opened_files))
      → Entry o name (users name - 1)
      → Counts s' (update users name (users name - 1))
  close-Counts name users s s' o c find new p = elim (handles.key_eq name p) [
    | yes e ↦
        rw (find p)
          (rw (if_pos _ e) (rw (if_pos _ e) (subst (λ q. Entry o q (users name - 1)) e new)))
    | no n ↦ rw (find p) (rw (if_neg _ n) (rw (if_neg _ n) (c p)))
  ]

  -- What a CLOSE does, by the users of the file.
  handle_close_lem :
      (name : FileName) (users : FileName → ℕ) (s : Handles env)
      → Counts s users
      → (users name ≡ 0 → handle_close env name s ≡ abort error_failed_to_close)
        × (0 < users name
            → (fh : ℤ) × (s' : Handles env) × (handle_close env name s ≡ ok s')
              × (handle_of name s ≡ some fh)
              × (s'.disk ≡ (if users name == 1 then files.close_file fh s.disk else s.disk))
              × (handle_of name s' ≡ (if users name == 1 then none else some fh))
              × Counts s' (update users name (users name - 1)))
  unfolding handle_close
  handle_close_lem name users s c = elim (Option-cases (handles.find name s.opened_files)) [
    | inl e ↦ let none_used = rw e at (c name) in (λ z. ground arith, λ p. absurd (omega arith))
    | inr (h, e) ↦
        let (r, p, q) = rw e at (c name) in
        (
          λ z. absurd (omega arith),
          λ p. (
            h.fh,
            close_one env name h s,
            ground arith,
            rw e,
            ground arith,
            rw (find-close name h s name) (rw (if_pos _ refl) (ground arith)),
            close-Counts name users s (close_one env name h s) _ c (find-close name h s)
                (ground arith),
          ),
        )
  ]

  -- If the table counts no users of a file, a CLOSE aborts with ERROR_FAILED_TO_CLOSE.
  pub close_unused :
      (name : FileName) (users : FileName → ℕ) (s : Handles env)
      → Counts s users
      → users name ≡ 0
      → handle_close env name s ≡ abort error_failed_to_close
  close_unused name users s c z = (handle_close_lem name users s c).0 z

  -- If the table counts users of a file, a CLOSE takes one away; the last one closes the handle
  -- that the table has for the file and takes the file off the table, and the others keep both.
  pub close_used :
      (name : FileName) (users : FileName → ℕ) (s : Handles env)
      → Counts s users
      → 0 < users name
      → (fh : ℤ) × (s' : Handles env) × (handle_close env name s ≡ ok s')
        × (handle_of name s ≡ some fh)
        × (s'.disk ≡ (if users name == 1 then files.close_file fh s.disk else s.disk))
        × (handle_of name s' ≡ (if users name == 1 then none else some fh))
        × Counts s' (update users name (users name - 1))
  close_used name users s c p = (handle_close_lem name users s c).1 p
