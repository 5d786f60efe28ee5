-- ===== src/Hold/Machine/Account.antt =====
-- Every item is accounted for: as long as its goroutine has not returned, exactly one of the table,
-- a pending send and the channel holds it.
use proxy_scope.Prelude.{
  ℕ, ◌+◌, ◌≤◌, ◌<◌, ◌≡◌, refl, Bool, List, [], ◌∷◌, Option, none, some, arith, ◌==◌, inl, inr,
  if◌then◌else◌, length, Option-cases,
}
use proxy_scope.Prelude.Word.{add64_small, int64_limit}
use proxy_scope.Hold.Table.{
  lookup, select, occurs, occurs-insert, occurs-delete, occurs-append, occurs-select,
  occurs-lookup-none, lookup-occurs-none,
}
use proxy_scope.Hold.Machine.{
  Phase, unborn, waiting, leaving, lost, done, World, Event, idle, holds, resolves, releases,
  delivers, leaves, takes, receives, add, tag, sent, hold, resolve, release, deliver, leave_from,
  take_from, receive_from, step, run, start,
}

abbrev pub full : {R : Type 0} → Option R → ℕ
full none = 0
full (some r) = 1

abbrev pub Balance : {R : Type 0} → Phase R → ℕ → ℕ → ℕ → Type 0
Balance unborn t s c = t + s + c ≡ 0
Balance waiting t s c = t + s + c ≡ 1
Balance (leaving r) t s c = t + s + c ≡ 1
Balance lost t s c = (t ≡ 0) × (s + c ≡ 1)
Balance (done r) t s c = t + s + c ≡ 0

-- Entries of the table, pending sends and the channel of an item, against its goroutine's phase.
abbrev pub Account : {A R : Type 0} → World A R → ℕ → Type 0
Account w i = Balance (w.phase i) (occurs i w.items) (occurs i w.sends) (full (w.chan i))

pub record Accounted {A R : Type 0} (w : World A R) : Type 0 where
  pub balance : (i : ℕ) → Account w i
  pub fresh : (i : ℕ) → w.next_id < i → w.phase i ≡ unborn

occurs-sent :
    {R : Type 0} (k j : ℕ) (r : R) (m : List (ℕ × R))
    → lookup k m ≡ some r
    → (if k == j then 1 else 0) + occurs j (sent k m) ≡ occurs j m
unfolding sent occurs lookup
occurs-sent k j r [] h = ground arith
occurs-sent k j r ((i, v) ∷ m) h = ground (arith, occurs-sent k j r m)

pub occurs_pos :
    {V : Type 0} (k : ℕ) {v : V} (m : List (ℕ × V)) → lookup k m ≡ some v → 0 < occurs k m
occurs_pos k m e = ground (arith, lookup-occurs-none k m)

module _ {A R : Type 0} where
  occurs-tag : (r : R) (k : ℕ) (m : List (ℕ × A)) → occurs k (tag r m) ≡ occurs k m
  unfolding tag occurs
  occurs-tag r k [] = refl
  occurs-tag r k ((i, v) ∷ m) = ground (arith, occurs-tag r k m)

  Account-unborn : (w : World A R) (i : ℕ) → w.phase i ≡ unborn → Account w i → occurs i w.items ≡ 0
  Account-unborn w i p h = ground arith

  hold-Account :
      (make : ℕ → A) (w : World A R) (i : ℕ)
      → w.next_id + 1 < int64_limit
      → Accounted w
      → Account (hold make w) i
  unfolding hold add
  hold-Account make w i b a = ground (
    arith,
    add64_small w.next_id 1,
    a.balance i,
    a.balance (w.next_id + 1),
    a.fresh (w.next_id + 1),
    occurs-insert (w.next_id + 1) i (make (w.next_id + 1)) w.items,
  )

  resolve-Account :
      (id : ℕ) (r : R) (w : World A R) (i : ℕ)
      → Account w id
      → Account w i
      → Account (resolve id r w) i
  unfolding occurs resolve
  resolve-Account id r w i a h = elim (Option-cases (lookup id w.items)) [
    | inl e ↦ rw (e, resolve) h
    | inr (it, e) ↦
        rw (e, resolve) (ground (arith, occurs_pos id w.items e, occurs-delete id i w.items))
  ]

  release-Account :
      (test : A → Bool) (r : R) (w : World A R) (i : ℕ) → Account w i → Account (release test r w) i
  unfolding release
  release-Account test r w i h = ground (
    arith,
    occurs-select test i w.items,
    occurs-append i (tag r (select test w.items)) w.sends,
    occurs-tag r i (select test w.items),
  )

  deliver-Account : (k : ℕ) (w : World A R) (i : ℕ) → Account w i → Account (deliver k w) i
  unfolding deliver
  deliver-Account k w i h = elim (Option-cases (lookup k w.sends)) [
    | inl e ↦ rw (e, deliver) h
    | inr (r, e) ↦ elim (Option-cases (w.chan k)) [
      | inl f ↦ rw (e, deliver) (rw (f, deliver) (ground (arith, occurs-sent k i r w.sends e)))
      | inr (q, f) ↦ rw (e, deliver) (rw (f, deliver) h)
    ]
  ]

  leave-Account :
      (k : ℕ) (r : R) (w : World A R) (p : Phase R) (i : ℕ)
      → w.phase k ≡ p
      → Account w i
      → Account (leave_from p k r w) i
  unfolding leave_from
  leave-Account k r w waiting i e h = ground arith
  leave-Account k r w _ i e h = h

  take-Account :
      (k : ℕ) (w : World A R) (p : Phase R) (i : ℕ)
      → w.phase k ≡ p
      → Account w k
      → Account w i
      → Account (take_from p k w) i
  unfolding take_from
  take-Account k w (leaving r) i e a h = elim (Option-cases (lookup k w.items)) [
    | inl f ↦ rw (f, take_from) (ground (arith, occurs-lookup-none k w.items f))
    | inr (it, f) ↦
        rw (f, take_from) (ground (arith, occurs_pos k w.items f, occurs-delete k i w.items))
  ]
  take-Account k w _ i e a h = h

  receive-Account :
      (k : ℕ) (w : World A R) (p : Phase R) (i : ℕ)
      → w.phase k ≡ p
      → Account w k
      → Account w i
      → Account (receive_from p k w) i
  unfolding receive_from
  receive-Account k w waiting i e a h = ground arith
  receive-Account k w lost i e a h = ground arith
  receive-Account k w _ i e a h = h

  abbrev Fresh : World A R → ℕ → Type 0
  Fresh w i = w.next_id < i → w.phase i ≡ unborn

  -- Only `hold` gives out an id.
  step-Fresh :
      (e : Event A R) (w : World A R) (i : ℕ)
      → w.next_id + 1 < int64_limit
      → Fresh w i
      → Fresh (step e w) i
  unfolding step hold add resolve release deliver leave_from take_from receive_from
  step-Fresh idle w i b h = h
  step-Fresh (holds make) w i b h = ground (arith, add64_small w.next_id 1)
  step-Fresh (resolves id r) w i b h = ground arith
  step-Fresh (releases test r) w i b h = ground arith
  step-Fresh (delivers k) w i b h = ground arith
  step-Fresh (leaves k r) w i b h = ground arith
  step-Fresh (takes k) w i b h = ground arith
  step-Fresh (receives k) w i b h = ground arith

  pub step-next_id :
      (e : Event A R) (w : World A R)
      → w.next_id + 1 < int64_limit
      → (step e w).next_id ≤ w.next_id + 1
  unfolding step hold add resolve release deliver leave_from take_from receive_from
  step-next_id (holds make) w b = ground (arith, add64_small w.next_id 1)
  step-next_id _ w b = ground arith

  pub step-Accounted :
      (e : Event A R) (w : World A R)
      → w.next_id + 1 < int64_limit
      → Accounted w
      → Accounted (step e w)
  unfolding step
  step-Accounted e w b a = record {
    balance = λ i. go e i;
    fresh = λ i. step-Fresh e w i b (a.fresh i);
  }
    where
      go : (e : Event A R) (i : ℕ) → Account (step e w) i
      go idle i = a.balance i
      go (holds make) i = hold-Account make w i b a
      go (resolves id r) i = resolve-Account id r w i (a.balance id) (a.balance i)
      go (releases test r) i = release-Account test r w i (a.balance i)
      go (delivers k) i = deliver-Account k w i (a.balance i)
      go (leaves k r) i = leave-Account k r w (w.phase k) i refl (a.balance i)
      go (takes k) i = take-Account k w (w.phase k) i refl (a.balance k) (a.balance i)
      go (receives k) i = receive-Account k w (w.phase k) i refl (a.balance k) (a.balance i)

  pub start-Accounted : Accounted (start {A = A} {R = R})
  unfolding occurs
  start-Accounted = record { balance = λ i. omega arith; fresh = λ i h. refl }

  -- No history of fewer than 2 ^ 63 steps loses an item or resolves one twice.
  pub run-Accounted :
      (es : List (Event A R)) (w : World A R)
      → w.next_id + length es < int64_limit
      → Accounted w
      → Accounted (run es w)
  unfolding run
  run-Accounted [] w b a = a
  run-Accounted (e ∷ es) w b a =
      run-Accounted es (step e w) (omega (arith, step-next_id e w))
        (step-Accounted e w (omega arith) a)

  -- A pending send finds its channel empty, so it never blocks.
  pub send-chan_none :
      (w : World A R) (i : ℕ) (r : R) → Accounted w → lookup i w.sends ≡ some r → w.chan i ≡ none
  send-chan_none w i r a e = ground (arith, a.balance i, occurs_pos i w.sends e)
