-- ===== src/Capture/Hold/Delivery.antt =====
-- What happens to a resolution on its way to the goroutine that holds the packet.
use proxy_scope.Hold.Machine.Commit.{resolve-commits, release-commits, Committed}
use proxy_scope.Hold.Machine.Account.{Accounted, Account}
use proxy_scope.Hold.Client.Delivery.{queue-Accounted, queue_finishes, queue_lost, queue_returns}
use proxy_scope.Prelude.Word.{int64_limit}
use proxy_scope.Prelude.{
  true, ◌+◌, [], ◌∷◌, false, length, ltb, arith, List, some, refl, ◌<◌, if◌then◌else◌, ℕ, ◌≡◌,
}
use proxy_scope.Hold.Machine
use proxy_scope.Hold.Client.{Client, run, ending}
use proxy_scope.Hold.Table.{lookup-select-some, lookup}
use proxy_scope.Capture.Hold.{
  HoldQueue, HeldPacket, Call, new_hold_queue, step, sets, enqueues, resolved, expires, shuts,
  sends, taken, received, set_settings, enqueue, resolve, expire, shut_down, make_item, passes,
  turns_off, get, mismatch,
}
use proxy_scope.Chunk.{Settings, Resolution, unmodified, turned_off, shutting_down, auto_forwarded}
use proxy_scope.Hold.Machine.{
  Event, idle, holds, resolves, releases, delivers, leaves, takes, receives, start, done, lost,
  waiting,
}

abbrev pub event : HoldQueue → Call → Event HeldPacket Resolution
event q (sets s) = releases (turns_off q.settings s) (unmodified turned_off)
event q (enqueues session_id dir protocol filter chunk now) =
    if passes dir q.settings
    then idle
    else holds (make_item q.timeout filter session_id dir protocol chunk now)
event q (resolved id res) = if mismatch (lookup id q.world.items) res then idle else resolves id res
event q (expires i) =
    if ltb 0 q.timeout then leaves i (unmodified (auto_forwarded q.timeout)) else idle
event q (shuts i) = leaves i (unmodified shutting_down)
event q (sends i) = delivers i
event q (taken i) = takes i
event q (received i) = receives i

resolve-world :
    (id : ℕ) (res : Resolution) (q : HoldQueue)
    → (resolve id res q).0.world
      ≡ Machine.step
          (if mismatch (lookup id q.world.items) res then idle else resolves id res)
          q.world
unfolding resolve Machine.step Machine.resolve
resolve-world id res q = ground arith

resolve_accepts :
    (id : ℕ) (res : Resolution) (q : HoldQueue) (it : HeldPacket)
    → get id q ≡ some it
    → mismatch (some it) res ≡ false
    → (resolve id res q).0 ≡ record q { world = Machine.resolve id res q.world }
unfolding resolve get
resolve_accepts id res q it h f = ground arith

pub step-world : (q : HoldQueue) (c : Call) → (step q c).world ≡ Machine.step (event q c) q.world
unfolding step enqueue set_settings resolve expire shut_down Machine.step
step-world q (sets s) = refl
step-world q (enqueues session_id dir protocol filter chunk now) = ground arith
step-world q (resolved id res) = resolve-world id res q
step-world q (expires i) = ground arith
step-world q (shuts i) = refl
step-world q (sends i) = refl
step-world q (taken i) = refl
step-world q (received i) = refl

abbrev pub client : Client HeldPacket Resolution
client = record {
  State = HoldQueue;
  Call = Call;
  world = λ q. q.world;
  step = step;
  event = event;
  send = sends;
  take = taken;
  receive = received;
  step-world = step-world;
  event-send = λ q i. refl;
  event-take = λ q i. refl;
  event-receive = λ q i. refl;
}

-- The states that a queue reaches.
abbrev pub after : ℕ → List Call → HoldQueue
after timeout cs = run client (new_hold_queue timeout) cs

new-world : (timeout : ℕ) → (new_hold_queue timeout).world ≡ start
unfolding new_hold_queue
new-world timeout = refl

module _ (timeout : ℕ) (cs : List Call) (b : length cs < int64_limit) where
  accounted : Accounted (after timeout cs).world
  accounted = queue-Accounted client (new_hold_queue timeout) (new-world timeout) cs b

  -- After any history of fewer than 2^63 calls, for every id: while its goroutine has not
  -- returned, exactly one of the table, a pending send and the channel holds the packet; before
  -- and after that, none does.
  pub packet_held_once : (i : ℕ) → Account (after timeout cs).world i
  packet_held_once = accounted.balance

  -- After any history of fewer than 2^63 calls, a goroutine that left the select and lost its
  -- packet is owed a resolution: the pending send and its receive let it return one.
  pub packet_lost_returns :
      (i : ℕ)
      → (after timeout cs).world.phase i ≡ lost
      → (r : Resolution) × ((run client (after timeout cs) (ending client i)).world.phase i
          ≡ done r)
  packet_lost_returns = queue_lost client (new_hold_queue timeout) (new-world timeout) cs b

module _ (timeout : ℕ) (cs ds : List Call) (b : length cs + length ds + 1 < int64_limit) (i : ℕ)
    (it : HeldPacket) (held : get i (after timeout cs) ≡ some it) where
  resolve-Committed :
      (res : Resolution)
      → mismatch (some it) res ≡ false
      → Committed (step (after timeout cs) (resolved i res)).world i res
  unfolding step resolve get
  resolve-Committed res fits =
      rw (resolve_accepts i res (after timeout cs) it held fits)
        (resolve-commits i res (after timeout cs).world held)

  -- In histories of fewer than 2^63 calls: when a held packet is resolved with an edit that keeps
  -- the length of a TCP payload, its goroutine returns no other resolution than this one, whatever
  -- happens in between and however the timer and the shutdown race with it.
  pub packet_resolve_returns :
      (res r : Resolution)
      → mismatch (some it) res ≡ false
      → (run client (resolve i res (after timeout cs)).0 ds).world.phase i ≡ done r
      → r ≡ res
  unfolding step
  packet_resolve_returns res r fits =
      queue_returns client (new_hold_queue timeout) (new-world timeout) cs ds b i (resolved i res)
        res (resolve-Committed res fits) r

  -- In histories of fewer than 2^63 calls: when a held packet is resolved with an edit that keeps
  -- the length of a TCP payload, and after any further calls, the pending send, the goroutine's
  -- attempt to take the packet and its receive let the goroutine return that resolution.
  pub packet_resolve_finishes :
      (res : Resolution)
      → mismatch (some it) res ≡ false
      → (run client
            (run client (resolve i res (after timeout cs)).0 ds)
            (ending client i)).world.phase
          i
        ≡ done res
  unfolding step
  packet_resolve_finishes res fits =
      queue_finishes client (new_hold_queue timeout) (new-world timeout) cs ds b i (resolved i res)
        res (resolve-Committed res fits)

  sets-Committed :
      (s : Settings)
      → turns_off (after timeout cs).settings s it ≡ true
      → Committed (step (after timeout cs) (sets s)).world i (unmodified turned_off)
  unfolding step set_settings get
  sets-Committed s off =
      release-commits (turns_off (after timeout cs).settings s) i (unmodified turned_off)
        (after timeout cs).world (lookup-select-some _ i (after timeout cs).world.items it held off)

  -- In histories of fewer than 2^63 calls: when a direction goes from on to off, the goroutine of
  -- a packet that was held there returns no other resolution than the one that forwards it
  -- unmodified, whatever happens next.
  pub packet_set_settings_releases :
      (s : Settings) (r : Resolution)
      → turns_off (after timeout cs).settings s it ≡ true
      → (run client (set_settings s (after timeout cs)) ds).world.phase i ≡ done r
      → r ≡ unmodified turned_off
  unfolding step
  packet_set_settings_releases s r off =
      queue_returns client (new_hold_queue timeout) (new-world timeout) cs ds b i (sets s)
        (unmodified turned_off) (sets-Committed s off) r

-- While a timeout is set, and a goroutine waits for a packet that is in the table, both the timer
-- and the end of the service's context, with its taking the packet, make it forward the packet
-- unmodified.
pub packet_leave_forwards :
    (q : HoldQueue) (i : ℕ) (it : HeldPacket)
    → 0 < q.timeout
    → q.world.phase i ≡ waiting
    → get i q ≡ some it
    → ((run client q (expires i ∷ taken i ∷ [])).world.phase i
        ≡ done (unmodified (auto_forwarded q.timeout)))
      × ((run client q (shuts i ∷ taken i ∷ [])).world.phase i ≡ done (unmodified shutting_down))
unfolding run step expire shut_down get Machine.step Machine.leave_from Machine.take_from
packet_leave_forwards q i it t w h = (ground arith, ground arith)
