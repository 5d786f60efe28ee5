-- ===== src/Intercept/Delivery.antt =====
-- What happens to a resolution on its way to the goroutine that waits for it.
use proxy_scope.Prelude.{
  ℕ, ◌+◌, ◌<◌, ◌≡◌, refl, List, [], ◌∷◌, none, some, arith, if◌then◌else◌, ltb, length,
}
use proxy_scope.Prelude.Word.{int64_limit}
use proxy_scope.Hold.Table.{lookup-select-some, lookup}
use proxy_scope.Hold.Client.{ending, Client, run}
use proxy_scope.Hold.Machine.{
  start, waiting, Event, idle, holds, resolves, releases, delivers, leaves, takes, receives, done,
  lost,
}
use proxy_scope.Hold.Client.Delivery.{queue-Accounted, queue_lost, queue_returns, queue_finishes}
use proxy_scope.Hold.Machine
use proxy_scope.Hold.Machine.Account.{Accounted, Account, send-chan_none}
use proxy_scope.Hold.Machine.Commit.{Committed, resolve-commits, release-commits}
use proxy_scope.Intercept.{
  true, get, Manager, Item, Settings, Resolution, Call, new, step, sets, enqueues, resolved,
  expires, disconnects, sends, taken, received, set_settings, enqueue, resolve, expire, disconnect,
  make_item, passes, turns_off, unmodified, turned_off, auto_forwarded, gone,
}

abbrev pub event : Manager → Call → Event Item Resolution
event m (sets s) = releases (turns_off m.settings s) (unmodified turned_off)
event m (enqueues kind req resp now) =
    if passes kind m.settings then idle else holds (make_item m.timeout kind req resp now)
event m (resolved id res) = resolves id res
event m (expires i) =
    if ltb 0 m.timeout then leaves i (unmodified (auto_forwarded m.timeout)) else idle
event m (disconnects i) = leaves i gone
event m (sends i) = delivers i
event m (taken i) = takes i
event m (received i) = receives i

pub step-world : (m : Manager) (c : Call) → (step m c).world ≡ Machine.step (event m c) m.world
unfolding step enqueue set_settings resolve expire disconnect Machine.step
step-world m (sets s) = refl
step-world m (enqueues kind req resp now) = ground arith
step-world m (resolved id res) = refl
step-world m (expires i) = ground arith
step-world m (disconnects i) = refl
step-world m (sends i) = refl
step-world m (taken i) = refl
step-world m (received i) = refl

abbrev pub client : Client Item Resolution
client = record {
  State = Manager;
  Call = Call;
  world = λ m. m.world;
  step = step;
  event = event;
  send = sends;
  take = taken;
  receive = received;
  step-world = step-world;
  event-send = λ m i. refl;
  event-take = λ m i. refl;
  event-receive = λ m i. refl;
}

-- The states that a manager reaches.
abbrev pub after : ℕ → List Call → Manager
after timeout cs = run client (new timeout) cs

new-world : (timeout : ℕ) → (new timeout).world ≡ start
unfolding new
new-world timeout = refl

module _ (timeout : ℕ) (cs : List Call) (b : length cs < int64_limit) where
  accounted : Accounted (after timeout cs).world
  accounted = queue-Accounted client (new timeout) (new-world timeout) cs b

  -- After any history of fewer than 2^63 calls, for every id: while its goroutine has not
  -- returned, exactly one of the table, a pending send and the channel holds the item; before and
  -- after that, none does.
  pub held_once : (i : ℕ) → Account (after timeout cs).world i
  held_once = accounted.balance

  -- After any history of fewer than 2^63 calls, whoever is about to send to an item finds its
  -- channel of size 1 empty, so that the send does not block.
  pub send_not_blocked :
      (i : ℕ) (r : Resolution)
      → lookup i (after timeout cs).world.sends ≡ some r
      → (after timeout cs).world.chan i ≡ none
  send_not_blocked i r = send-chan_none (after timeout cs).world i r accounted

  -- After any history of fewer than 2^63 calls, a goroutine that left the select and lost its item
  -- is owed a resolution: the pending send and its receive let it return one.
  pub lost_returns :
      (i : ℕ)
      → (after timeout cs).world.phase i ≡ lost
      → (r : Resolution) × ((run client (after timeout cs) (ending client i)).world.phase i
          ≡ done r)
  lost_returns = queue_lost client (new timeout) (new-world timeout) cs b

module _ (timeout : ℕ) (cs ds : List Call) (b : length cs + length ds + 1 < int64_limit) (i : ℕ)
    (it : Item) (held : get i (after timeout cs) ≡ some it) where
  resolve-Committed :
      (res : Resolution) → Committed (step (after timeout cs) (resolved i res)).world i res
  unfolding step resolve get
  resolve-Committed res = resolve-commits i res (after timeout cs).world held

  -- In histories of fewer than 2^63 calls: when a held item is resolved, its goroutine returns no
  -- other resolution than this one, whatever happens in between and however the timer and the
  -- client race with it.
  pub resolve_returns :
      (res q : Resolution)
      → (run client (resolve i res (after timeout cs)).0 ds).world.phase i ≡ done q
      → q ≡ res
  unfolding step
  resolve_returns res =
      queue_returns client (new timeout) (new-world timeout) cs ds b i (resolved i res) res
        (resolve-Committed res)

  -- In histories of fewer than 2^63 calls: when a held item is resolved, and after any further
  -- calls, the pending send, the goroutine's attempt to take the item and its receive let the
  -- goroutine return that resolution.
  pub resolve_finishes :
      (res : Resolution)
      → (run client
            (run client (resolve i res (after timeout cs)).0 ds)
            (ending client i)).world.phase
          i
        ≡ done res
  unfolding step
  resolve_finishes res =
      queue_finishes client (new timeout) (new-world timeout) cs ds b i (resolved i res) res
        (resolve-Committed res)

  sets-Committed :
      (s : Settings)
      → turns_off (after timeout cs).settings s it ≡ true
      → Committed (step (after timeout cs) (sets s)).world i (unmodified turned_off)
  unfolding step set_settings get
  sets-Committed s off =
      release-commits (turns_off (after timeout cs).settings s) i (unmodified turned_off)
        (after timeout cs).world (lookup-select-some _ i (after timeout cs).world.items it held off)

  -- In histories of fewer than 2^63 calls: when a pause point goes from on to off, the goroutine
  -- of an item that was held there returns no other resolution than the one that forwards the
  -- message unmodified, whatever happens next.
  pub set_settings_releases :
      (s : Settings) (q : Resolution)
      → turns_off (after timeout cs).settings s it ≡ true
      → (run client (set_settings s (after timeout cs)) ds).world.phase i ≡ done q
      → q ≡ unmodified turned_off
  unfolding step
  set_settings_releases s q off =
      queue_returns client (new timeout) (new-world timeout) cs ds b i (sets s)
        (unmodified turned_off) (sets-Committed s off) q

  -- In histories of fewer than 2^63 calls: when a pause point goes from on to off, and after any
  -- further calls, the pending send, the goroutine's attempt to take an item that was held there
  -- and its receive let the goroutine forward the message unmodified.
  pub set_settings_finishes :
      (s : Settings)
      → turns_off (after timeout cs).settings s it ≡ true
      → (run client
            (run client (set_settings s (after timeout cs)) ds)
            (ending client i)).world.phase
          i
        ≡ done (unmodified turned_off)
  unfolding step
  set_settings_finishes s off =
      queue_finishes client (new timeout) (new-world timeout) cs ds b i (sets s)
        (unmodified turned_off) (sets-Committed s off)

-- While a timeout is set, and a goroutine waits for an item that is in the table, the timer and
-- its taking the item make it forward the message unmodified.
pub expire_forwards :
    (m : Manager) (i : ℕ) (it : Item)
    → 0 < m.timeout
    → m.world.phase i ≡ waiting
    → get i m ≡ some it
    → (run client m (expires i ∷ taken i ∷ [])).world.phase i
      ≡ done (unmodified (auto_forwarded m.timeout))
unfolding run step expire get Machine.step Machine.leave_from Machine.take_from
expire_forwards m i it t w h = ground arith

-- While a goroutine waits for an item that is in the table, the end of the client's context and
-- its taking the item make it drop the message.
pub disconnect_drops :
    (m : Manager) (i : ℕ) (it : Item)
    → m.world.phase i ≡ waiting
    → get i m ≡ some it
    → (run client m (disconnects i ∷ taken i ∷ [])).world.phase i ≡ done gone
unfolding run step disconnect get Machine.step Machine.leave_from Machine.take_from
disconnect_drops m i it w h = ground arith
