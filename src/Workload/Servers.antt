-- ===== src/Workload/Servers.antt =====
-- Each forwarding server gets as many clients as its listener waits for (src/main.c,
-- src/server/listener.c).
use forwarding_explorer.Base.{
  ℕ, zero, suc, ◌+◌, ◌-◌, ◌*◌, ◌/◌, ◌%◌, ◌≤◌, ◌<◌, ◌≡◌, ◌↔◌, count, arith, map, sym, ◌∙◌, ltb→lt,
  lt→ltb, true, ℕ_discrete,
}
use Prim.Native.Nat.{min, max}
use forwarding_explorer.Workload.{get_forwarding_server, is_forwarding, ranks_from, client_ranks}

-- A setup that the checks of main.c let through, with a number of forwarders that is not negative.
pub record IsSetup (world_size forwarders : ℕ) : Type 0 where
  pub some_forwarder : 0 < forwarders
  pub enough : forwarders * 2 ≤ world_size
  pub balanced : world_size % forwarders ≡ 0

-- The clients of one server, as listener.c computes it.
abbrev pub share : (world_size forwarders : ℕ) → ℕ
share world_size forwarders = (world_size - forwarders) / forwarders

-- How many of `from`, ..., `from + k - 1` lie in `[lo, hi)`.
abbrev overlap : (from k lo hi : ℕ) → ℕ
overlap from k lo hi = min (from + k) hi - max from lo

-- A function that takes the value `s` on an interval takes it as often as the interval says.
count-ranks_from :
    (g : ℕ → ℕ) (s lo hi f : ℕ)
    → ((r : ℕ) → f ≤ r → (g r ≡ s) ↔ ((lo ≤ r) × (r < hi)))
    → (from k : ℕ) → f ≤ from
    → count s (map g (ranks_from from k)) ≡ overlap from k lo hi
unfolding ranks_from
count-ranks_from g s lo hi f interval from zero h = omega arith
count-ranks_from g s lo hi f interval from (suc k) h =
    let rest = count-ranks_from g s lo hi f interval (from + 1) k (omega arith) in
    let (inside, outside) = interval from h in
    elim (ℕ_discrete s (g from)) [
      | yes e ↦ let b = inside (sym e) in ground arith
      | no ne ↦ ground (arith, λ (b : (lo ≤ from) × (from < hi)). ne (sym (outside b)))
    ]

div-mul-share : (w f k : ℕ) → 0 < f → w ≡ f * k → 0 < k → (w - f) / f ≡ k - 1
div-mul-share w f k pos e pos_k = grind arith

module _ {w f : ℕ} (s : IsSetup w f) where
  open s use {some_forwarder, enough, balanced}

  share-eq : share w f ≡ w / f - 1
  share-eq = div-mul-share w f (w / f) some_forwarder (grind arith) (grind arith)

  pub share-mul : w ≡ f + f * share w f
  share-mul = rw share-eq (grind arith)

  pub share-pos : 0 < share w f
  share-pos = rw share-eq (grind arith)

  server-bounds :
      (r : ℕ)
      → f ≤ r
      → (get_forwarding_server r w f * share w f ≤ r - f)
        × (r - f < (get_forwarding_server r w f + 1) * share w f)
  unfolding get_forwarding_server
  server-bounds r h = let p = share-pos in grind arith

  server-interval :
      (srv r : ℕ)
      → f ≤ r
      → (get_forwarding_server r w f ≡ srv)
        ↔ ((f + srv * share w f ≤ r) × (r < f + (srv + 1) * share w f))
  server-interval srv r h = (
    λ e. let b = server-bounds r h in grind arith,
    λ (lo, hi). let b = server-bounds r h in grind arith,
  )

  -- In an accepted setup, every client talks to a process that is a forwarding server.
  pub server-is_forwarding :
      (r : ℕ) → f ≤ r → r < w → is_forwarding (get_forwarding_server r w f) f ≡ true
  unfolding is_forwarding
  server-is_forwarding r ge lt =
      let b = server-bounds r ge in let m = share-mul in lt→ltb _ _ (grind arith)

  -- In an accepted setup, each forwarding server is the server of exactly as many client processes
  -- as its listener counts before it shuts down.
  pub clients_balanced :
      (srv : ℕ)
      → is_forwarding srv f ≡ true
      → count srv (map (λ r. get_forwarding_server r w f) (client_ranks w f)) ≡ share w f
  unfolding is_forwarding client_ranks
  clients_balanced srv h =
      count-ranks_from _ srv _ _ f (server-interval srv) f (w - f) (omega arith)
      ∙ (let lt = ltb→lt _ _ h in let m = share-mul in grind arith)
