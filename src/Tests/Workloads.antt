-- ===== src/Tests/Workloads.antt =====
-- Examples for the identifiers and for the shares of servers and clients.
use forwarding_explorer.Base.{
  ℕ, ◌+◌, ◌*◌, ◌%◌, ◌≤◌, ◌≡◌, ◌≢◌, ◌↔◌, refl, arith, true, some, count, map,
}
use forwarding_explorer.Identifiers.{generate_identifier, generate_pfs_identifier, after_calls}
use forwarding_explorer.Identifiers.Cycle.{
  IsRequestId, IsPfsId, request_ids_distinct, pfs_ids_distinct,
}
use forwarding_explorer.Workload.{
  Layout, shared, individual, strided, contiguous, get_forwarding_server, is_forwarding,
  client_ranks, operations_of, offset,
}
use forwarding_explorer.Workload.Servers.{IsSetup, share, server-is_forwarding, clients_balanced}
use forwarding_explorer.Workload.Extents.{
  IsExact, Accesses, data_size, shared_file_tiled, individual_file_tiled, offset-le,
}
use forwarding_explorer.Workload.Totals.{data_le_total}

request_ids_distinct_example :
    (after_calls generate_identifier 1 8999999 ≢ after_calls generate_identifier 3 8999999)
    × IsRequestId (after_calls generate_identifier 1 8999999)
    × IsRequestId (after_calls generate_identifier 3 8999999)
request_ids_distinct_example =
    request_ids_distinct 8999999 1 3 (omega arith, omega arith) (omega arith) (omega arith)

pfs_ids_distinct_test :
    (after_calls generate_pfs_identifier 1 89999 ≢ after_calls generate_pfs_identifier 3 89999)
    × IsPfsId (after_calls generate_pfs_identifier 1 89999)
    × IsPfsId (after_calls generate_pfs_identifier 3 89999)
pfs_ids_distinct_test =
    pfs_ids_distinct 89999 1 3 (omega arith, omega arith) (omega arith) (omega arith)

-- Two servers with three clients each.
six_clients : IsSetup 8 2
six_clients = record { some_forwarder = omega arith; enough = omega arith; balanced = refl }

second : is_forwarding 1 2 ≡ true
unfolding is_forwarding
second = refl

server-is_forwarding_test : is_forwarding (get_forwarding_server 7 8 2) 2 ≡ true
server-is_forwarding_test = server-is_forwarding six_clients 7 (omega arith) (omega arith)

clients_balanced_example :
    count 1 (map (λ r. get_forwarding_server r 8 2) (client_ranks 8 2)) ≡ share 8 2
clients_balanced_example = clients_balanced six_clients 1 second

abbrev pub exactly : ℕ → ℕ
exactly x = x

is_exact : IsExact exactly
is_exact x h = refl

abbrev pub strided_layout : Layout
strided_layout = record {
  files = shared;
  spatiality = strided;
  request_size = 4;
  operations = 2;
  client_size = 3;
}

abbrev pub own_layout : Layout
own_layout = record {
  files = individual;
  spatiality = contiguous;
  request_size = 4;
  operations = 2;
  client_size = 3;
}

shared_file_tiled_example :
    (r : ℕ) × (i : ℕ) × Accesses exactly is_exact strided_layout r i 9
    × ((r' i' : ℕ) → Accesses exactly is_exact strided_layout r' i' 9 → (r ≡ r') × (i ≡ i'))
shared_file_tiled_example =
    shared_file_tiled exactly is_exact strided_layout refl (omega arith) 9 (omega arith)

own_file_tiled :
    (i : ℕ) × Accesses exactly is_exact own_layout 1 i 5
    × ((i' : ℕ) → Accesses exactly is_exact own_layout 1 i' 5 → i ≡ i')
own_file_tiled =
    individual_file_tiled exactly is_exact own_layout refl (omega arith) 1 5 (omega arith)
      (omega arith)

offset-le_test : offset exactly strided_layout 2 1 + 4 ≤ data_size strided_layout
offset-le_test =
    offset-le exactly is_exact strided_layout (omega arith) 2 1 (omega arith, omega arith)

data_le_total_example :
    (n : ℕ) × (operations_of exactly 26 3 4 ≡ some n)
    × (4 * (n * 3) ≤ 26)
    × ((4 * (n * 3) ≡ 26) ↔ (26 % (4 * 3) ≡ 0))
data_le_total_example =
    data_le_total exactly is_exact 26 3 4 (omega arith) (omega arith) (omega arith) (omega arith)
