-- ===== src/Config/Document.antt =====
-- What src/main.c reads from the keys and values of a configuration file.
use Prim.Native.String.{String}
use text.Mathlib.Text.{◌==◌ as ◌is◌}
use forwarding_explorer.Base.{
  ℕ, ◌≡◌, ◌≢◌, ◌⊎◌, refl, sym, subst, ◌∙◌, Option-cases, inl, inr, Bool, none, some, List, [], ◌∷◌,
  if◌then◌else◌, All, arith,
}
use forwarding_explorer.Base.Int.{ℤ}
use forwarding_explorer.Workload.{Files, individual, shared, Spatiality, contiguous, strided}
use forwarding_explorer.Server.Types.{Result, ok, abort, fault, blocked, ◌>>=◌}
use forwarding_explorer.Config.{
  Token, Libc, Settings, Key, forwarders_key, handlers_key, dispatchers_key, path_key,
  operations_key, number_of_files_key, spatiality_key, total_size_key, request_size_key,
  stone_wall_key, direct_io_key, validation_key, key_of, assign, read_tokens, to_int,
}

-- The tokens of an object whose values are no objects or lists.
abbrev pub tokens_of : List (Token × Token) → List Token
tokens_of [] = []
tokens_of ((key, value) ∷ pairs) = key ∷ value ∷ tokens_of pairs

-- A key that is not known has a value that does not look like a known one.
abbrev pub IsPlain : Token × Token → Type 0
IsPlain (key, value) =
    ((k : Key) × (key_of key ≡ some k)) ⊎ ((key_of key ≡ none) × (key_of value ≡ none))

-- What the variables of a key hold.
pub data Value : Type 0 where
  int : ℤ → Value
  unsigned : ℕ → Value
  string : String → Value
  operations : (write read : Bool) → Value
  files : Files → Value
  spatiality : Spatiality → Value

abbrev pub held : Key → Settings → Value
held forwarders_key s = int s.forwarders
held handlers_key s = int s.handlers
held dispatchers_key s = int s.dispatchers
held path_key s = string s.base_path
held operations_key s = operations s.operations_write s.operations_read
held number_of_files_key s = files s.files
held spatiality_key s = spatiality s.spatiality
held total_size_key s = unsigned s.total_size
held request_size_key s = unsigned s.request_size
held stone_wall_key s = int s.stone_wall
held direct_io_key s = int s.direct_io
held validation_key s = int s.validation

module _ (libc : Libc) where
  -- What a value means for its key.
  abbrev pub meant : Key → String → Value
  meant forwarders_key v = int (libc.atoi v)
  meant handlers_key v = int (libc.atoi v)
  meant dispatchers_key v = int (libc.atoi v)
  meant path_key v = string v
  meant operations_key v = operations (libc.strstr v "write") (libc.strstr v "read")
  meant number_of_files_key v = files (if v is "shared" then shared else individual)
  meant spatiality_key v = spatiality (if v is "contiguous" then contiguous else strided)
  meant total_size_key v = unsigned (libc.strtoul v)
  meant request_size_key v = unsigned (libc.strtoul v)
  meant stone_wall_key v = int (to_int (libc.strtoul v))
  meant direct_io_key v = int (to_int (libc.strtoul v))
  meant validation_key v = int (libc.atoi v)

  -- The settings after the pairs, one by one; unknown keys say nothing.
  abbrev pub assign_all : List (Token × Token) → Settings → Result Settings
  assign_all [] s = ok s
  assign_all ((key, value) ∷ pairs) s = elim (key_of key) [
    | none ↦ assign_all pairs s
    | some k ↦ assign libc k value.text s >>= assign_all pairs
  ]

  bind_same :
      (m : Result Settings) (f g : Settings → Result Settings)
      → ((t : Settings) → f t ≡ g t)
      → (m >>= f) ≡ (m >>= g)
  bind_same (ok u) f g h = h u
  bind_same (abort c) f g h = refl
  bind_same fault f g h = refl
  bind_same blocked f g h = refl

  -- A token that is no key is skipped.
  skip_last : (t : Token) (s : Settings) → key_of t ≡ none → read_tokens libc (t ∷ []) s ≡ ok s
  unfolding read_tokens
  skip_last t s e = rw (e, read_tokens)

  skip :
      (t v : Token) (ts : List Token) (s : Settings)
      → key_of t ≡ none
      → read_tokens libc (t ∷ v ∷ ts) s ≡ read_tokens libc (v ∷ ts) s
  unfolding read_tokens
  skip t v ts s e = rw (e, read_tokens)

  -- On the pairs of a plain object, the loop over the tokens is the loop over the pairs.
  read-tokens_of :
      (pairs : List (Token × Token)) (s : Settings)
      → All IsPlain pairs
      → read_tokens libc (tokens_of pairs) s ≡ assign_all pairs s
  unfolding read_tokens
  read-tokens_of [] s p = refl
  read-tokens_of ((key, value) ∷ pairs) s (inl (k, e), p) =
      rw (e, read_tokens, assign_all)
        (bind_same (assign libc k value.text s) _ _ (λ t. read-tokens_of pairs t p))
  read-tokens_of ((key, value) ∷ []) s (inr (e, e'), p) =
      skip key value [] s e ∙ skip_last value s e' ∙ sym (rw (e, assign_all))
  read-tokens_of ((key, value) ∷ pair ∷ pairs) s (inr (e, e'), p) =
      skip key value (tokens_of (pair ∷ pairs)) s e
      ∙ skip value pair.0 (pair.1 ∷ tokens_of pairs) s e'
      ∙ read-tokens_of (pair ∷ pairs) s p
      ∙ sym (rw (e, assign_all))

  abbrev Ends : Result Settings → Type 0
  Ends (ok s) = Unit
  Ends (abort c) = Unit
  Ends _ = ⊥

  assign-Ends : (k : Key) (v : String) (s : Settings) → Ends (assign libc k v s)
  unfolding assign
  assign-Ends k v s = ground arith

  bind-Ends :
      (m : Result Settings) (f : Settings → Result Settings)
      → Ends m
      → ((s : Settings) → Ends (f s))
      → Ends (m >>= f)
  bind-Ends (ok s) f e g = g s
  bind-Ends (abort c) f e g = tt
  bind-Ends fault f e g = e
  bind-Ends blocked f e g = e

  assign_all-Ends : (pairs : List (Token × Token)) (s : Settings) → Ends (assign_all pairs s)
  assign_all-Ends [] s = tt
  assign_all-Ends ((key, value) ∷ pairs) s = elim (Option-cases (key_of key)) [
    | inl unknown ↦ rw (unknown, assign_all) (assign_all-Ends pairs s)
    | inr (k, known) ↦
        rw (known, assign_all)
          (bind-Ends (assign libc k value.text s) _ (assign-Ends k value.text s)
            (assign_all-Ends pairs))
  ]

  -- On a plain object, the loop over the tokens comes to its end or aborts, and reads no token that
  -- the parser did not write.
  pub read_tokens-ends :
      (pairs : List (Token × Token)) (s : Settings)
      → All IsPlain pairs
      → (read_tokens libc (tokens_of pairs) s ≢ fault)
        × (read_tokens libc (tokens_of pairs) s ≢ blocked)
  read_tokens-ends pairs s plain =
      let same = read-tokens_of pairs s plain in
      (
        λ e. subst Ends (sym same ∙ e) (assign_all-Ends pairs s),
        λ e. subst Ends (sym same ∙ e) (assign_all-Ends pairs s),
      )
