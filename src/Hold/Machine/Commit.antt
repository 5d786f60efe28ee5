-- ===== src/Hold/Machine/Commit.antt =====
-- A resolution that has been accepted for an item is the one its goroutine returns.
use proxy_scope.Prelude.{
  inl, inr, ◌⊎◌, Option-cases, ℕ, ◌+◌, ◌<◌, ◌≡◌, ◌≢◌, refl, Bool, List, [], ◌∷◌, ◌++◌, none, some,
  arith, length,
}
use native.Mathlib.Decide.{ℕ_discrete}
use proxy_scope.Prelude.Word.{add64_small, int64_limit}
use proxy_scope.Hold.Table.{
  occurs-lookup-none, lookup, select, occurs, occurs-select, lookup-occurs-none,
}
use proxy_scope.Hold.Machine.{
  Phase, unborn, waiting, leaving, lost, done, World, Event, idle, holds, resolves, releases,
  delivers, leaves, takes, receives, add, tag, sent, hold, resolve, release, deliver, leave_from,
  take_from, receive_from, step, run,
}
use proxy_scope.Hold.Machine.Account.{Account, Accounted, step-Accounted, step-next_id, occurs_pos}

-- The resolution `r` is in a pending send, in the channel, or returned.
pub data Committed {A R : Type 0} (w : World A R) (i : ℕ) (r : R) : Type 0 where
  in_flight : lookup i w.sends ≡ some r → Committed w i r
  buffered : w.chan i ≡ some r → Committed w i r
  returned : w.phase i ≡ done r → Committed w i r

lookup-sent : {R : Type 0} (k i : ℕ) (m : List (ℕ × R)) → k ≢ i → lookup i (sent k m) ≡ lookup i m
unfolding lookup sent
lookup-sent k i [] h = refl
lookup-sent k i ((j, r) ∷ m) h = ground (arith, lookup-sent k i m h)

lookup-append :
    {R : Type 0} (i : ℕ) (m n : List (ℕ × R)) → lookup i m ≡ none → lookup i (m ++ n) ≡ lookup i n
unfolding lookup
lookup-append i [] n h = refl
lookup-append i ((j, r) ∷ m) n h = ground (arith, lookup-append i m n)

lookup-tag :
    {A R : Type 0} (i : ℕ) (r : R) (m : List (ℕ × A))
    → lookup i m ≡ none
    → lookup i (tag r m) ≡ none
unfolding lookup tag
lookup-tag i r [] h = refl
lookup-tag i r ((j, v) ∷ m) h = ground (arith, lookup-tag i r m)

lookup-tag-some :
    {A R : Type 0} (i : ℕ) (r : R) (m : List (ℕ × A)) (n : List (ℕ × R)) (it : A)
    → lookup i m ≡ some it
    → lookup i (tag r m ++ n) ≡ some r
unfolding lookup tag
lookup-tag-some i r [] n it h = ground arith
lookup-tag-some i r ((j, v) ∷ m) n it h = ground (arith, lookup-tag-some i r m n it)

module _ {A R : Type 0} (w : World A R) (i : ℕ) (r : R) where
  -- A committed item has left the table.
  Committed-occurs : Account w i → Committed w i r → occurs i w.items ≡ 0
  Committed-occurs a (in_flight e) = ground (arith, occurs_pos i w.sends e)
  Committed-occurs a (buffered e) = ground arith
  Committed-occurs a (returned e) = ground arith

  Committed-born : Account w i → Committed w i r → w.phase i ≢ unborn
  Committed-born a (in_flight e) = ground (arith, occurs_pos i w.sends e)
  Committed-born a (buffered e) = ground arith
  Committed-born a (returned e) = ground arith

  pub Committed-done : (q : R) → Account w i → Committed w i r → w.phase i ≡ done q → q ≡ r
  Committed-done q a (in_flight e) d = ground (arith, occurs_pos i w.sends e)
  Committed-done q a (buffered e) d = ground arith
  Committed-done q a (returned e) d = ground arith

module _ {A R : Type 0} (i : ℕ) (r : R) where
  hold-Committed :
      (make : ℕ → A) (w : World A R)
      → w.next_id + 1 < int64_limit
      → Accounted w
      → Committed w i r
      → Committed (hold make w) i r
  unfolding hold add
  hold-Committed make w b a (in_flight e) = in_flight e
  hold-Committed make w b a (buffered e) = buffered (
      ground (
        arith,
        add64_small w.next_id 1,
        a.fresh i,
        Committed-born w i r (a.balance i) (buffered e),
      ))
  hold-Committed make w b a (returned e) = returned (
      ground (
        arith,
        add64_small w.next_id 1,
        a.fresh i,
        Committed-born w i r (a.balance i) (returned e),
      ))

  resolve-Committed :
      (k : ℕ) (q : R) (w : World A R)
      → lookup i w.items ≡ none
      → Committed w i r
      → Committed (resolve k q w) i r
  unfolding resolve lookup
  resolve-Committed k q w n (in_flight e) = in_flight (ground arith)
  resolve-Committed k q w n (buffered e) = buffered (ground arith)
  resolve-Committed k q w n (returned e) = returned (ground arith)

  release-Committed :
      (test : A → Bool) (q : R) (w : World A R)
      → occurs i w.items ≡ 0
      → Committed w i r
      → Committed (release test q w) i r
  unfolding release
  release-Committed test q w n (in_flight e) = in_flight (
      ground (
        arith,
        occurs-select test i w.items,
        lookup-occurs-none i (select test w.items),
        lookup-tag i q (select test w.items),
        lookup-append i (tag q (select test w.items)) w.sends,
      ))
  release-Committed test q w n (buffered e) = buffered e
  release-Committed test q w n (returned e) = returned e

  deliver-Committed :
      (k : ℕ) (w : World A R) → Account w i → Committed w i r → Committed (deliver k w) i r
  unfolding deliver
  deliver-Committed k w a (in_flight e) = elim (ℕ_discrete k i) [
    | yes same ↦ buffered (ground (arith, occurs_pos i w.sends e))
    | no other ↦ in_flight (ground (arith, lookup-sent k i w.sends other))
  ]
  deliver-Committed k w a (buffered e) = buffered (ground arith)
  deliver-Committed k w a (returned e) = returned (ground arith)

  leave-Committed :
      (k : ℕ) (q : R) (w : World A R) (p : Phase R)
      → w.phase k ≡ p
      → Committed w i r
      → Committed (leave_from p k q w) i r
  unfolding leave_from
  leave-Committed k q w waiting h (in_flight e) = in_flight e
  leave-Committed k q w waiting h (buffered e) = buffered e
  leave-Committed k q w waiting h (returned e) = returned (ground arith)
  leave-Committed k q w _ h c = c

  take-Committed :
      (k : ℕ) (w : World A R) (p : Phase R)
      → w.phase k ≡ p
      → lookup i w.items ≡ none
      → Committed w i r
      → Committed (take_from p k w) i r
  unfolding take_from
  take-Committed k w (leaving q) h n (in_flight e) = in_flight (ground arith)
  take-Committed k w (leaving q) h n (buffered e) = buffered (ground arith)
  take-Committed k w (leaving q) h n (returned e) = returned (ground arith)
  take-Committed k w _ h n c = c

  receive-Committed :
      (k : ℕ) (w : World A R) (p : Phase R)
      → w.phase k ≡ p
      → Account w i
      → Committed w i r
      → Committed (receive_from p k w) i r
  unfolding receive_from
  receive-Committed k w waiting h a (in_flight e) = in_flight (ground arith)
  receive-Committed k w waiting h a (buffered e) = elim (ℕ_discrete k i) [
    | yes same ↦ returned (ground arith)
    | no other ↦ buffered (ground arith)
  ]
  receive-Committed k w waiting h a (returned e) = returned (ground arith)
  receive-Committed k w lost h a (in_flight e) = in_flight (ground arith)
  receive-Committed k w lost h a (buffered e) = elim (ℕ_discrete k i) [
    | yes same ↦ returned (ground arith)
    | no other ↦ buffered (ground arith)
  ]
  receive-Committed k w lost h a (returned e) = returned (ground arith)
  receive-Committed k w _ h a c = c

  step-Committed :
      (e : Event A R) (w : World A R)
      → w.next_id + 1 < int64_limit
      → Accounted w
      → Committed w i r
      → Committed (step e w) i r
  unfolding step
  step-Committed e w b a c = go e
    where
      absent : occurs i w.items ≡ 0
      absent = Committed-occurs w i r (a.balance i) c

      go : (e : Event A R) → Committed (step e w) i r
      go idle = c
      go (holds make) = hold-Committed make w b a c
      go (resolves k q) = resolve-Committed k q w (lookup-occurs-none i w.items absent) c
      go (releases test q) = release-Committed test q w absent c
      go (delivers k) = deliver-Committed k w (a.balance i) c
      go (leaves k q) = leave-Committed k q w (w.phase k) refl c
      go (takes k) = take-Committed k w (w.phase k) refl (lookup-occurs-none i w.items absent) c
      go (receives k) = receive-Committed k w (w.phase k) refl (a.balance i) c

  pub run-Committed :
      (es : List (Event A R)) (w : World A R)
      → w.next_id + length es < int64_limit
      → Accounted w
      → Committed w i r
      → Committed (run es w) i r
  unfolding run
  run-Committed [] w b a c = c
  run-Committed (e ∷ es) w b a c =
      run-Committed es (step e w) (omega (arith, step-next_id e w))
        (step-Accounted e w (omega arith) a) (step-Committed e w (omega arith) a c)

module _ {A R : Type 0} where
  -- The item was in the table: `Resolve` commits its resolution.
  pub resolve-commits :
      (i : ℕ) (r : R) (w : World A R) {it : A}
      → lookup i w.items ≡ some it
      → Committed (resolve i r w) i r
  unfolding resolve lookup
  resolve-commits i r w e = in_flight (ground arith)

  -- Each item that `SetSettings` removes gets its resolution.
  pub release-commits :
      (test : A → Bool) (i : ℕ) (r : R) (w : World A R) {it : A}
      → lookup i (select test w.items) ≡ some it
      → Committed (release test r w) i r
  unfolding release
  release-commits test i r w {it} e =
      in_flight (lookup-tag-some i r (select test w.items) w.sends it e)

  -- A goroutine that owns its item on leaving returns what it left with.
  pub take-returns :
      (i : ℕ) (r : R) (w : World A R) {it : A}
      → w.phase i ≡ leaving r
      → lookup i w.items ≡ some it
      → (step (takes i) w).phase i ≡ done r
  unfolding step take_from
  take-returns i r w h e = ground arith

  -- The waiting goroutine of a committed item has a way to return: the send, the take that fails,
  -- and the receive.
  pub Committed-finishes :
      (w : World A R) (i : ℕ) (r : R)
      → Accounted w
      → Committed w i r
      → (run (delivers i ∷ takes i ∷ receives i ∷ []) w).phase i ≡ done r
  unfolding run step deliver take_from receive_from
  Committed-finishes w i r a (in_flight e) =
      ground (arith, a.balance i, occurs_pos i w.sends e, lookup-occurs-none i w.items)
  Committed-finishes w i r a (buffered e) =
      ground (arith, a.balance i, lookup-occurs-none i w.items, lookup-occurs-none i w.sends)
  Committed-finishes w i r a (returned e) =
      ground (arith, a.balance i, lookup-occurs-none i w.sends)

  -- Who has lost the item is owed a send.
  pub lost-Committed :
      (w : World A R) (i : ℕ) → Account w i → w.phase i ≡ lost → (r : R) × Committed w i r
  lost-Committed w i a e = elim (Option-cases (w.chan i)) [
    | inr (r, f) ↦ (r, buffered f)
    | inl f ↦ elim (Option-cases (lookup i w.sends)) [
      | inr (r, g) ↦ (r, in_flight g)
      | inl g ↦ absurd (ground (arith, occurs-lookup-none i w.sends g))
    ]
  ]

  -- The item of a goroutine that has left the select is still in the table, or committed.
  pub leaving-cases :
      (w : World A R) (i : ℕ) (r : R)
      → Account w i
      → w.phase i ≡ leaving r
      → ((it : A) × (lookup i w.items ≡ some it)) ⊎ ((q : R) × Committed w i q)
  leaving-cases w i r a e = elim (Option-cases (lookup i w.items)) [
    | inr held ↦ inl held
    | inl n ↦ elim (Option-cases (w.chan i)) [
      | inr (q, f) ↦ inr (q, buffered f)
      | inl f ↦ elim (Option-cases (lookup i w.sends)) [
        | inr (q, g) ↦ inr (q, in_flight g)
        | inl g ↦
            absurd (ground (arith, occurs-lookup-none i w.sends g, occurs-lookup-none i w.items n))
      ]
    ]
  ]
