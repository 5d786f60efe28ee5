-- ===== src/Hold/Client.antt =====
-- A hold queue as a client of the machine: each of its calls is one step of its world.
pub mod Delivery
use proxy_scope.Prelude.{◌≤◌, ℕ, ◌+◌, ◌<◌, ◌≡◌, refl, ◌∙◌, ap, List, [], ◌∷◌, ◌++◌, arith, length}
use proxy_scope.Prelude.Word.{int64_limit}
use proxy_scope.Hold.Machine.{World, Event, Phase, done, delivers, takes, receives, start}
use proxy_scope.Hold.Machine
use proxy_scope.Hold.Machine.Account.{step-next_id, step-Accounted, Accounted, run-Accounted}
use proxy_scope.Hold.Machine.Commit.{Committed-finishes, Committed, run-Committed, Committed-done}

pub record Client (A R : Type 0) : Type 1 where
  pub State : Type 0
  pub Call : Type 0
  pub world : State → World A R
  pub step : State → Call → State
  pub event : State → Call → Event A R
  pub send : ℕ → Call
  pub take : ℕ → Call
  pub receive : ℕ → Call
  pub step-world : (s : State) (c : Call) → world (step s c) ≡ Machine.step (event s c) (world s)
  pub event-send : (s : State) (i : ℕ) → event s (send i) ≡ delivers i
  pub event-take : (s : State) (i : ℕ) → event s (take i) ≡ takes i
  pub event-receive : (s : State) (i : ℕ) → event s (receive i) ≡ receives i

module _ {A R : Type 0} (client : Client A R) where
  open client use {State, Call, world, step, event, step-world}

  unfoldable pub run : State → List Call → State
  run s [] = s
  run s (c ∷ cs) = run (step s c) cs

  events : State → List Call → List (Event A R)
  events s [] = []
  events s (c ∷ cs) = event s c ∷ events (step s c) cs

  length-events : (s : State) (cs : List Call) → length (events s cs) ≡ length cs
  unfolding events
  length-events s [] = refl
  length-events s (c ∷ cs) = omega (arith, length-events (step s c) cs)

  run-world : (s : State) (cs : List Call) → world (run s cs) ≡ Machine.run (events s cs) (world s)
  unfolding run events Machine.run
  run-world s [] = refl
  run-world s (c ∷ cs) =
      run-world (step s c) cs ∙ ap (Machine.run (events (step s c) cs)) (step-world s c)

  pub client-Accounted :
      (s : State) (cs : List Call)
      → (world s).next_id + length cs < int64_limit
      → Accounted (world s)
      → Accounted (world (run s cs))
  client-Accounted s cs b a =
      rw (run-world s cs)
        (run-Accounted (events s cs) (world s) (omega (arith, length-events s cs)) a)

  -- What was committed stays committed, and is what the goroutine returns.
  pub client-Committed :
      (s : State) (cs : List Call) (i : ℕ) (r : R)
      → (world s).next_id + length cs < int64_limit
      → Accounted (world s)
      → Committed (world s) i r
      → Committed (world (run s cs)) i r
  client-Committed s cs i r b a c =
      rw (run-world s cs)
        (run-Committed i r (events s cs) (world s) (omega (arith, length-events s cs)) a c)

  pub client_returns :
      (s : State) (cs : List Call) (i : ℕ) (r q : R)
      → (world s).next_id + length cs < int64_limit
      → Accounted (world s)
      → Committed (world s) i r
      → (world (run s cs)).phase i ≡ done q
      → q ≡ r
  client_returns s cs i r q b a c =
      Committed-done (world (run s cs)) i r q ((client-Accounted s cs b a).balance i)
        (client-Committed s cs i r b a c)

  pub run-append : (s : State) (cs ds : List Call) → run s (cs ++ ds) ≡ run (run s cs) ds
  unfolding run
  run-append s [] ds = refl
  run-append s (c ∷ cs) ds = run-append (step s c) cs ds

  pub client-step-Accounted :
      (s : State) (c : Call)
      → (world s).next_id + 1 < int64_limit
      → Accounted (world s)
      → Accounted (world (step s c))
  client-step-Accounted s c b a = rw (step-world s c) (step-Accounted (event s c) (world s) b a)

  pub client-next_id :
      (s : State) (cs : List Call)
      → (world s).next_id + length cs < int64_limit
      → (world (run s cs)).next_id ≤ (world s).next_id + length cs
  unfolding run
  client-next_id s [] b = omega arith
  client-next_id s (c ∷ cs) b =
      let one : (world (step s c)).next_id ≤ (world s).next_id + 1 =
        rw (step-world s c) (step-next_id (event s c) (world s) (omega arith)) in
      omega (arith, client-next_id (step s c) cs (omega arith))

  -- The pending send, the goroutine's attempt to take the item, and its receive.
  abbrev pub ending : ℕ → List Call
  ending i = client.send i ∷ client.take i ∷ client.receive i ∷ []

  -- They bring a committed item to its end.
  pub client_finishes :
      (s : State) (i : ℕ) (r : R)
      → Accounted (world s)
      → Committed (world s) i r
      → (world (run s (ending i))).phase i ≡ done r
  client_finishes s i r a c =
      rw (run-world s (ending i), three) (Committed-finishes (world s) i r a c)
    where
      three : events s (ending i) ≡ delivers i ∷ takes i ∷ receives i ∷ []
      three =
          unfold events in
          cc (
            client.event-send s i,
            client.event-take (step s (client.send i)) i,
            client.event-receive (step (step s (client.send i)) (client.take i)) i,
          )
