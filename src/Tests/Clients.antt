-- ===== src/Tests/Clients.antt =====
-- Examples for the clients, on files in memory.
use forwarding_explorer.Base.{
  ◌↔◌, ◌≢◌, length, none, some, ℕ, ◌≡◌, refl, true, false, List, [], ◌∷◌,
}
use forwarding_explorer.Base.Int.{ℤ, pos}
use forwarding_explorer.Config.{Settings, defaults}
use forwarding_explorer.Server.Types.{ok, abort, fault}
use forwarding_explorer.Workload.{shared, contiguous, Layout}
use forwarding_explorer.Client.{
  Action, sends_data, receive_read, buffer_of, error_validation_failed, client_actions,
}
use forwarding_explorer.Client.Answers.{receive_read-ok}
use forwarding_explorer.Client.Actions.{how_often, barrier_kind}
use forwarding_explorer.Client.Session.{IsSession, after_actions, writing, client_actions_lem}
use forwarding_explorer.Server.System.{Server}
use forwarding_explorer.Server.Step.{init}
use forwarding_explorer.Client.Service.{after_writes}
use forwarding_explorer.Tests.Disks.{disk_env}

abbrev identity : ℕ → ℕ
identity x = x

-- Two clients, each with two requests of two bytes.
abbrev two_clients : Layout
two_clients = record {
  files = shared;
  spatiality = contiguous;
  request_size = 2;
  operations = 2;
  client_size = 2;
}

abbrev both_operations : Settings
both_operations = record defaults {
  forwarders = pos 2;
  files = shared;
  operations_write = true;
  operations_read = true;
}

abbrev third_handle : ℕ → ℤ
third_handle r = pos 3

-- Their WRITEs, as they come to the servers.
abbrev mixed_order : List (ℕ × ℕ)
mixed_order = (0, 0) ∷ (1, 0) ∷ (1, 1) ∷ (0, 1) ∷ []

-- What the first client does.
abbrev first_actions : List Action
first_actions =
    client_actions identity two_clients (b'a' ∷ []) 0 [] true true (pos 5) (pos 3) (pos 4)
      (λ i. true) (λ i. false)

client_actions_lem_example : IsSession first_actions × (how_often barrier_kind first_actions ≡ 10)
client_actions_lem_example =
    client_actions_lem identity two_clients (b'a' ∷ []) 0 [] true true (pos 5) (pos 3) (pos 4)
      (λ i. true) (λ i. false)

-- The data of a WRITE are not sent before its first answer.
data_too_early : after_actions (sends_data (b'a' ∷ []) ∷ []) (some (writing 1)) ≡ none
data_too_early = refl

-- What the clients 1 and 26 write.
abbrev answer : List ℕ
answer = b'b' ∷ b'b' ∷ []

receive_read-ok_example :
    ((receive_read (pos 1) 2 26 answer ≡ ok answer) ↔ (answer ≡ buffer_of 2 26))
    × (length answer ≡ 2
        → answer ≢ buffer_of 2 26
        → receive_read (pos 1) 2 26 answer ≡ abort error_validation_failed)
    × (length answer ≢ 2 → receive_read (pos 1) 2 26 answer ≡ fault)
receive_read-ok_example = receive_read-ok (pos 1) 2 26 answer refl

-- The server before it, and after the WRITEs.
abbrev started : Server disk_env
started = init disk_env (λ a. 0)

abbrev in_between : Server disk_env
in_between = after_writes identity two_clients disk_env third_handle mixed_order started
