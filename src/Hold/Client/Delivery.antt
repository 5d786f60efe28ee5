-- ===== src/Hold/Client/Delivery.antt =====
-- What happens to a resolution on its way to the goroutine that waits for it, for every hold queue
-- that starts empty.
use proxy_scope.Hold.Machine.Account.{start-Accounted}
use proxy_scope.Hold.Machine.Commit.{lost-Committed}
use proxy_scope.Prelude.{ap, arith, ◌≤◌, ℕ, ◌+◌, ◌<◌, length, List, ◌≡◌}
use proxy_scope.Hold.Client.{
  client-Committed, client_finishes, client_returns, step-next_id, done, client-next_id,
  client-step-Accounted, client-Accounted, Committed, Accounted, int64_limit, Client, run, ending,
}
use proxy_scope.Hold.Machine.{lost, start}

module _ {A R : Type 0} (client : Client A R) (s : client.State) (fresh : client.world s ≡ start)
    (cs : List client.Call) where
  open client use {State, Call, world, step, event}

  module _ (b : length cs < int64_limit) where
    pub queue-Accounted : Accounted (world (run client s cs))
    queue-Accounted =
        client-Accounted client s cs (rw fresh (omega arith)) (rw fresh start-Accounted)

    pub queue-next_id : (world (run client s cs)).next_id ≤ length cs
    queue-next_id =
        omega
          (arith, client-next_id client s cs (rw fresh (omega arith)), ap (λ w. w.next_id) fresh)

    pub queue_lost :
        (i : ℕ)
        → (world (run client s cs)).phase i ≡ lost
        → (r : R) × ((world (run client (run client s cs) (ending client i))).phase i ≡ done r)
    queue_lost i e =
        let (r, c) = lost-Committed (world (run client s cs)) i (queue-Accounted.balance i) e in
        (r, client_finishes client (run client s cs) i r queue-Accounted c)

  module _ (ds : List Call) (b : length cs + length ds + 1 < int64_limit) (i : ℕ) (c : Call) (r : R)
      (commits : Committed (world (step (run client s cs) c)) i r) where
    within : (world (step (run client s cs) c)).next_id + length ds < int64_limit
    within =
        let one : (world (step (run client s cs) c)).next_id
            ≤ (world (run client s cs)).next_id + 1 =
          rw (client.step-world (run client s cs) c) (
            step-next_id (event (run client s cs) c) (world (run client s cs))
              (omega (arith, queue-next_id (omega arith)))) in
        omega (arith, queue-next_id (omega arith))

    ready : Accounted (world (step (run client s cs) c))
    ready =
        client-step-Accounted client (run client s cs) c
          (omega (arith, queue-next_id (omega arith))) (queue-Accounted (omega arith))

    -- A call that commits a resolution decides what the goroutine returns.
    pub queue_returns :
        (q : R) → (world (run client (step (run client s cs) c) ds)).phase i ≡ done q → q ≡ r
    queue_returns q = client_returns client (step (run client s cs) c) ds i r q within ready commits

    -- And it can return, whatever was done since.
    pub queue_finishes :
        (world (run client (run client (step (run client s cs) c) ds) (ending client i))).phase i
        ≡ done r
    queue_finishes =
        client_finishes client (run client (step (run client s cs) c) ds) i r
          (client-Accounted client (step (run client s cs) c) ds within ready)
          (client-Committed client (step (run client s cs) c) ds i r within ready commits)
