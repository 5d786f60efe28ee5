-- ===== src/Relay/Hold/Delivery.antt =====
-- What happens to a resolution on its way to the goroutine that holds the chunk.
use proxy_scope.Hold.Machine.Commit.{release-commits, resolve-commits, Committed}
use proxy_scope.Hold.Machine.Account.{Accounted, Account}
use proxy_scope.Hold.Client.Delivery.{queue-Accounted, queue_finishes, queue_lost, queue_returns}
use proxy_scope.Prelude.Word.{int64_limit}
use proxy_scope.Prelude.{
  true, [], ◌∷◌, ◌+◌, length, some, ltb, arith, List, refl, ◌<◌, if◌then◌else◌, ℕ, ◌≡◌,
}
use proxy_scope.Hold.Machine
use proxy_scope.Hold.Client.{Client, run, ending}
use proxy_scope.Hold.Table.{lookup-select-some}
use proxy_scope.Relay.Hold.{
  Bytes, HoldQueue, HeldChunk, Call, new_hold_queue, step, sets, enqueues, resolved, expires, shuts,
  sends, taken, received, set_settings, enqueue, resolve, expire, shut_down, make_item, passes,
  turns_off, get,
}
use proxy_scope.Chunk.{Settings, Resolution, unmodified, turned_off, shutting_down, auto_forwarded}
use proxy_scope.Hold.Machine.{
  Event, idle, holds, resolves, releases, delivers, leaves, takes, receives, start, done, lost,
  waiting,
}

abbrev pub event : HoldQueue → Call → Event HeldChunk Resolution
event q (sets target s) = releases (turns_off target (q.settings target) s) (unmodified turned_off)
event q (enqueues target session_id dir chunk now) =
    if passes dir (q.settings target)
    then idle
    else holds (make_item q.timeout target session_id dir chunk now)
event q (resolved id res) = resolves id res
event q (expires i) =
    if ltb 0 q.timeout then leaves i (unmodified (auto_forwarded q.timeout)) else idle
event q (shuts i) = leaves i (unmodified shutting_down)
event q (sends i) = delivers i
event q (taken i) = takes i
event q (received i) = receives i

pub step-world : (q : HoldQueue) (c : Call) → (step q c).world ≡ Machine.step (event q c) q.world
unfolding step enqueue set_settings resolve expire shut_down Machine.step
step-world q (sets target s) = refl
step-world q (enqueues target session_id dir chunk now) = ground arith
step-world q (resolved id res) = refl
step-world q (expires i) = ground arith
step-world q (shuts i) = refl
step-world q (sends i) = refl
step-world q (taken i) = refl
step-world q (received i) = refl

abbrev pub client : Client HeldChunk Resolution
client = record {
  State = HoldQueue;
  Call = Call;
  world = λ q. q.world;
  step = step;
  event = event;
  send = sends;
  take = taken;
  receive = received;
  step-world = step-world;
  event-send = λ q i. refl;
  event-take = λ q i. refl;
  event-receive = λ q i. refl;
}

-- The states that a queue reaches.
abbrev pub after : ℕ → List Call → HoldQueue
after timeout cs = run client (new_hold_queue timeout) cs

new-world : (timeout : ℕ) → (new_hold_queue timeout).world ≡ start
unfolding new_hold_queue
new-world timeout = refl

module _ (timeout : ℕ) (cs : List Call) (b : length cs < int64_limit) where
  accounted : Accounted (after timeout cs).world
  accounted = queue-Accounted client (new_hold_queue timeout) (new-world timeout) cs b

  -- After any history of fewer than 2^63 calls, for every id: while its goroutine has not
  -- returned, exactly one of the table, a pending send and the channel holds the chunk; before and
  -- after that, none does.
  pub chunk_held_once : (i : ℕ) → Account (after timeout cs).world i
  chunk_held_once = accounted.balance

  -- After any history of fewer than 2^63 calls, a goroutine that left the select and lost its
  -- chunk is owed a resolution: the pending send and its receive let it return one.
  pub chunk_lost_returns :
      (i : ℕ)
      → (after timeout cs).world.phase i ≡ lost
      → (r : Resolution) × ((run client (after timeout cs) (ending client i)).world.phase i
          ≡ done r)
  chunk_lost_returns = queue_lost client (new_hold_queue timeout) (new-world timeout) cs b

module _ (timeout : ℕ) (cs ds : List Call) (b : length cs + length ds + 1 < int64_limit) (i : ℕ)
    (it : HeldChunk) (held : get i (after timeout cs) ≡ some it) where
  resolve-Committed :
      (res : Resolution) → Committed (step (after timeout cs) (resolved i res)).world i res
  unfolding step resolve get
  resolve-Committed res = resolve-commits i res (after timeout cs).world held

  -- In histories of fewer than 2^63 calls: when a held chunk is resolved, its goroutine returns no
  -- other resolution than this one, whatever happens in between and however the timer and the
  -- shutdown race with it.
  pub chunk_resolve_returns :
      (res r : Resolution)
      → (run client (resolve i res (after timeout cs)).0 ds).world.phase i ≡ done r
      → r ≡ res
  unfolding step
  chunk_resolve_returns res =
      queue_returns client (new_hold_queue timeout) (new-world timeout) cs ds b i (resolved i res)
        res (resolve-Committed res)

  -- In histories of fewer than 2^63 calls: when a held chunk is resolved, and after any further
  -- calls, the pending send, the goroutine's attempt to take the chunk and its receive let the
  -- goroutine return that resolution.
  pub chunk_resolve_finishes :
      (res : Resolution)
      → (run client
            (run client (resolve i res (after timeout cs)).0 ds)
            (ending client i)).world.phase
          i
        ≡ done res
  unfolding step
  chunk_resolve_finishes res =
      queue_finishes client (new_hold_queue timeout) (new-world timeout) cs ds b i (resolved i res)
        res (resolve-Committed res)

  sets-Committed :
      (target : Bytes) (s : Settings)
      → turns_off target ((after timeout cs).settings target) s it ≡ true
      → Committed (step (after timeout cs) (sets target s)).world i (unmodified turned_off)
  unfolding step set_settings get
  sets-Committed target s off =
      release-commits (turns_off target ((after timeout cs).settings target) s) i
        (unmodified turned_off) (after timeout cs).world
        (lookup-select-some _ i (after timeout cs).world.items it held off)

  -- In histories of fewer than 2^63 calls: when a direction of a target goes from on to off, the
  -- goroutine of a chunk that was held there returns no other resolution than the one that
  -- forwards it unmodified, whatever happens next.
  pub chunk_set_settings_releases :
      (target : Bytes) (s : Settings) (r : Resolution)
      → turns_off target ((after timeout cs).settings target) s it ≡ true
      → (run client (set_settings target s (after timeout cs)) ds).world.phase i ≡ done r
      → r ≡ unmodified turned_off
  unfolding step
  chunk_set_settings_releases target s r off =
      queue_returns client (new_hold_queue timeout) (new-world timeout) cs ds b i (sets target s)
        (unmodified turned_off) (sets-Committed target s off) r

-- While a timeout is set, and a goroutine waits for a chunk that is in the table, both the timer
-- and the end of the service's context, with its taking the chunk, make it forward the chunk
-- unmodified.
pub chunk_leave_forwards :
    (q : HoldQueue) (i : ℕ) (it : HeldChunk)
    → 0 < q.timeout
    → q.world.phase i ≡ waiting
    → get i q ≡ some it
    → ((run client q (expires i ∷ taken i ∷ [])).world.phase i
        ≡ done (unmodified (auto_forwarded q.timeout)))
      × ((run client q (shuts i ∷ taken i ∷ [])).world.phase i ≡ done (unmodified shutting_down))
unfolding run step expire shut_down get Machine.step Machine.leave_from Machine.take_from
chunk_leave_forwards q i it t w h = (ground arith, ground arith)
