-- ===== src/Tests/Configs.antt =====
-- Examples for the configuration.
use Prim.Native.String.{String}
use text.Mathlib.Text.{◌==◌ as ◌is◌}
use forwarding_explorer.Base.{
  ℕ, ◌≡◌, ◌≢◌, ◌↔◌, refl, inl, inr, true, false, List, [], ◌∷◌, ◌++◌, if◌then◌else◌,
}
use forwarding_explorer.Base.Int.{pos}
use forwarding_explorer.Workload.Servers.{IsSetup}
use forwarding_explorer.Server.Types.{ok, abort, fault, blocked}
use forwarding_explorer.Config.{
  Token, Libc, Settings, defaults, key_of, assign, read_tokens, check, check_pattern,
  check_processes, configure, error_invalid_operation,
}
use forwarding_explorer.Config.Checks.{IsAccepted, check-IsAccepted, check-IsSetup}
use forwarding_explorer.Config.Document.{tokens_of, read_tokens-ends}

abbrev number : String → ℕ
number s = if s is "2" then 2 else if s is "16" then 16 else if s is "4096" then 4096 else 0

abbrev pub libc : Libc
libc = record {
  atoi = λ s. pos (number s);
  strtoul = number;
  strstr = λ haystack needle. haystack is needle;
}

abbrev word : String → Token
word s = record { is_string = true; text = s }

abbrev size_key : Token
size_key = word "total_size"

abbrev size_value : Token
size_value = record { is_string = false; text = "4096" }

abbrev before : List (Token × Token)
before = (word "forwarders", word "2") ∷ (word "comment", word "none") ∷ []

abbrev after : List (Token × Token)
after = (word "operations", word "write") ∷ []

abbrev read_settings : Settings
read_settings = record defaults { forwarders = pos 2; total_size = 4096; operations_write = true }

is_checked : check 8 read_settings ≡ ok read_settings
unfolding check check_pattern check_processes
is_checked = refl

check-IsSetup_test : IsSetup 8 2
check-IsSetup_test = check-IsSetup 8 2 read_settings read_settings refl is_checked

check-IsAccepted_example :
    (check 8 read_settings ≡ ok read_settings)
    ↔ (IsAccepted 8 read_settings × (read_settings ≡ read_settings))
check-IsAccepted_example = check-IsAccepted 8 read_settings read_settings refl

-- The keys of the example in the README, which has none for the operations.
readme_example :
    configure libc 8 (
      tokens_of (
        (word "forwarders", word "2")
        ∷ (word "handlers", word "16")
        ∷ (word "dispatchers", word "16")
        ∷ (word "path", word "/mnt/pfs/test")
        ∷ (word "number_of_files", word "shared")
        ∷ (word "spatiality", word "contiguous")
        ∷ (word "total_size", word "4096")
        ∷ (word "request_size", word "16")
        ∷ []))
    ≡ abort error_invalid_operation
unfolding configure read_tokens key_of assign check check_pattern check_processes
readme_example = refl

-- Without a number of forwarders, a division by zero.
no_forwarders : configure libc 8 (word "operations" ∷ word "write" ∷ []) ≡ fault
unfolding configure read_tokens key_of assign check check_pattern check_processes
no_forwarders = refl

read_tokens-ends_test :
    (read_tokens libc (tokens_of (before ++ after)) defaults ≢ fault)
    × (read_tokens libc (tokens_of (before ++ after)) defaults ≢ blocked)
unfolding key_of
read_tokens-ends_test =
    read_tokens-ends libc (before ++ after) defaults
      (inl (_, refl), (inr (refl, refl), (inl (_, refl), tt)))

-- The value of an unknown key is read as a key, and the next key as its value.
comment_as_key :
    read_tokens libc
      (tokens_of ((word "comment", word "forwarders") ∷ (word "16", word "2") ∷ []))
      defaults
    ≡ ok (record defaults { forwarders = pos 16 })
unfolding read_tokens key_of assign
comment_as_key = refl
