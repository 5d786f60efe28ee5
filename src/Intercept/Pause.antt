-- ===== src/Intercept/Pause.antt =====
-- Items are held only at pause points that are on, each under its own id.
use proxy_scope.Prelude.{
  ltb, inr, inl, Bool-cases, ℕ, ◌≡◌, refl, true, false, not, List, [], ◌∷◌, some, arith, map,
}
use proxy_scope.Prelude.Word.{rank64}
use proxy_scope.Hold.Table.{All, All-lookup}
use proxy_scope.Hold.Client.{run}
use proxy_scope.Hold.Machine.{waiting, add, hold, World, Phase, done, leaving, lost, unborn}
use proxy_scope.Hold.Machine
use proxy_scope.Hold.Listing.{IsAscending, sort_by-IsAscending, sort_by-perm}
use mathlib.Core.List.{Perm}
use proxy_scope.Hold.Machine.Entries.{
  hold-All, release-All, resolve-All, leave-All, take-All, deliver-All, receive-All,
}
use proxy_scope.Intercept.{
  Manager, Item, Settings, Summary, Kind, Call, new, step, sets, enqueues, resolved, expires,
  disconnects, sends, taken, received, set_settings, enqueue, resolve, expire, disconnect,
  make_item, passes, turns_off, get, kind_turns_off, pending_request, pending_response, listing,
}
use proxy_scope.Intercept.Delivery.{client, after}

-- An entry whose pause point is on, under its own id.
abbrev Held : Settings → ℕ → Item → Type 0
Held s k it = (passes it.sum.kind s ≡ false) × (it.sum.id ≡ k)

abbrev AllHeld : Manager → Type 0
AllHeld m = All (Held m.settings) m.world.items

passes-kind_turns_off :
    (k : Kind) (old s : Settings)
    → passes k old ≡ false
    → not (kind_turns_off k old s) ≡ true
    → passes k s ≡ false
unfolding passes kind_turns_off
passes-kind_turns_off pending_request old s h t = ground arith
passes-kind_turns_off pending_response old s h t = ground arith

step-AllHeld : (m : Manager) (c : Call) → AllHeld m → AllHeld (step m c)
unfolding step set_settings enqueue resolve expire disconnect make_item Machine.step
step-AllHeld m (sets s) a =
    release-All (Held m.settings) (Held s) (turns_off m.settings s) _ m.world
      (λ k it h t. (passes-kind_turns_off it.sum.kind m.settings s h.0 t, h.1)) a
step-AllHeld m (enqueues kind req resp now) a = elim (Bool-cases (passes kind m.settings)) [
  | inl e ↦ rw (e, enqueue) a
  | inr e ↦
      rw (e, enqueue)
        (hold-All (Held m.settings) (make_item m.timeout kind req resp now) m.world (e, refl) a)
]
step-AllHeld m (resolved i res) a = resolve-All (Held m.settings) i res m.world a
step-AllHeld m (expires i) a = elim (Bool-cases (ltb 0 m.timeout)) [
  | inl e ↦ rw (e, expire) (leave-All (Held m.settings) (m.world.phase i) i _ m.world a)
  | inr e ↦ rw (e, expire) a
]
step-AllHeld m (disconnects i) a = leave-All (Held m.settings) (m.world.phase i) i _ m.world a
step-AllHeld m (sends i) a = deliver-All (Held m.settings) i m.world a
step-AllHeld m (taken i) a = take-All (Held m.settings) (m.world.phase i) i m.world a
step-AllHeld m (received i) a = receive-All (Held m.settings) (m.world.phase i) i m.world a

run-AllHeld : (m : Manager) (cs : List Call) → AllHeld m → AllHeld (run client m cs)
unfolding run
run-AllHeld m [] a = a
run-AllHeld m (c ∷ cs) a = run-AllHeld (step m c) cs (step-AllHeld m c a)

-- After any history, every held item belongs to a pause point that is on, and its summary shows the
-- id under which it can be resolved.
pub held_while_on :
    (timeout : ℕ) (cs : List Call) (i : ℕ) (it : Item)
    → get i (after timeout cs) ≡ some it
    → (passes it.sum.kind (after timeout cs).settings ≡ false) × (it.sum.id ≡ i)
unfolding get new
held_while_on timeout cs i it =
    All-lookup (Held (after timeout cs).settings) i (after timeout cs).world.items it
      (run-AllHeld (new timeout) cs tt)

-- However the map is walked, `List` returns the summaries of the held items, each as often as it is
-- held, in ascending order of their ids.
pub listing_sorted :
    (items : List (ℕ × Item))
    → IsAscending (λ (s : Summary). rank64 s.id) (listing items)
      × Perm (listing items) (map (λ (entry : ℕ × Item). entry.1.sum) items)
unfolding listing
listing_sorted items = (
  sort_by-IsAscending (λ (s : Summary). rank64 s.id) _,
  sort_by-perm (λ (s : Summary). rank64 s.id) _,
)
