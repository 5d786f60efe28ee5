-- ===== src/Hold/Machine.antt =====
-- The waiting goroutines, the channels and the table of a hold queue, step by step. One step is what
-- the source does at once: a critical section of the mutex, a send, a receive, or the choice of a
-- select. An item is named by its id; the pointers that `take` compares differ exactly when the ids
-- do, as long as `nextID` has not wrapped.
pub mod Account
pub mod Commit
pub mod Entries
use proxy_scope.Prelude.{
  ℕ, ◌+◌, ◌≡◌, refl, Bool, not, List, [], ◌∷◌, ◌++◌, Option, none, some, ◌==◌, if◌then◌else◌,
}
use proxy_scope.Prelude.Word.{add64}
use proxy_scope.Hold.Table.{lookup, insert, delete, select}

-- What the mutex guards, but for the settings.
pub record Board (A : Type 0) : Type 0 where
  pub next_id : ℕ
  pub items : List (ℕ × A)

abbrev pub empty : {A : Type 0} → Board A
empty = record { next_id = 0; items = [] }

-- Where the goroutine of an item stands: no such item yet; in the select; the timer or the context
-- won the select, so that it goes for the item and would return `r`; it lost the item and waits for
-- the send; it has returned.
pub data Phase (R : Type 0) : Type 0 where
  unborn : Phase R
  waiting : Phase R
  leaving : R → Phase R
  lost : Phase R
  done : R → Phase R

pub record World (A R : Type 0) : Type 0 where
  pub board : Board A
  pub open board use *
  pub phase : ℕ → Phase R
  pub chan : ℕ → Option R
  pub sends : List (ℕ × R)

abbrev pub update {ℓ} : {A : Type ℓ} → (ℕ → A) → ℕ → A → ℕ → A
update f k v j = if k == j then v else f j

module _ {R : Type 0} where
  -- The resolution `r` for each of the entries.
  unfoldable pub tag : {A : Type 0} → R → List (ℕ × A) → List (ℕ × R)
  tag r [] = []
  tag r ((i, v) ∷ m) = (i, r) ∷ tag r m

  -- One send has been made: the first that is pending for the item.
  unfoldable pub sent : ℕ → List (ℕ × R) → List (ℕ × R)
  sent k [] = []
  sent k ((j, r) ∷ m) = if j == k then m else (j, r) ∷ sent k m

-- `nextID++` and a new item under that id.
unfoldable pub add : {A : Type 0} → (ℕ → A) → Board A → Board A
add make b =
    let id = add64 b.next_id 1 in record { next_id = id; items = insert id (make id) b.items }

module _ {A R : Type 0} where
  -- The critical section of `enqueue`; its goroutine goes on to the select.
  unfoldable pub hold : (ℕ → A) → World A R → World A R
  hold make w =
      let b = add make w.board in
      record w {
        board = b;
        phase = update w.phase b.next_id waiting;
        chan = update w.chan b.next_id none;
      }

  -- The critical section of `Resolve`: whoever removes the item sends.
  unfoldable pub resolve : ℕ → R → World A R → World A R
  resolve id r w = elim (lookup id w.items) [
    | none ↦ w
    | some it ↦ record w {
      board = record { next_id = w.next_id; items = delete id w.items };
      sends = (id, r) ∷ w.sends;
    }
  ]

  -- The critical section of `SetSettings`: it removes what the test selects, and sends to each.
  unfoldable pub release : (A → Bool) → R → World A R → World A R
  release test r w = record w {
    board = record { next_id = w.next_id; items = select (λ v. not (test v)) w.items };
    sends = tag r (select test w.items) ++ w.sends;
  }

  -- A pending send goes into the channel, or blocks because the channel is full.
  unfoldable pub deliver : ℕ → World A R → World A R
  deliver i w = elim (lookup i w.sends) [
    | none ↦ w
    | some r ↦ elim (w.chan i) [
      | none ↦ record w { chan = update w.chan i (some r); sends = sent i w.sends }
      | some _ ↦ w
    ]
  ]

  -- The select takes the branch of the timer or of the context.
  unfoldable pub leave_from : Phase R → ℕ → R → World A R → World A R
  leave_from waiting i r w = record w { phase = update w.phase i (leaving r) }
  leave_from _ i r w = w

  -- `take`: the goroutine owns the item if it is still in the table.
  unfoldable pub take_from : Phase R → ℕ → World A R → World A R
  take_from (leaving r) i w = elim (lookup i w.items) [
    | none ↦ record w { phase = update w.phase i lost }
    | some it ↦ record w {
      board = record { next_id = w.next_id; items = delete i w.items };
      phase = update w.phase i (done r);
    }
  ]
  take_from _ i w = w

  abbrev collect : Option R → ℕ → World A R → World A R
  collect none i w = w
  collect (some r) i w = record w { phase = update w.phase i (done r); chan = update w.chan i none }

  -- A receive, in the select or after the item was lost.
  unfoldable pub receive_from : Phase R → ℕ → World A R → World A R
  receive_from waiting i w = collect (w.chan i) i w
  receive_from lost i w = collect (w.chan i) i w
  receive_from _ i w = w

pub data Event (A R : Type 0) : Type 0 where
  idle : Event A R
  holds : (ℕ → A) → Event A R
  resolves : ℕ → R → Event A R
  releases : (A → Bool) → R → Event A R
  delivers : ℕ → Event A R
  leaves : ℕ → R → Event A R
  takes : ℕ → Event A R
  receives : ℕ → Event A R

module _ {A R : Type 0} where
  unfoldable pub step : Event A R → World A R → World A R
  step idle w = w
  step (holds make) w = hold make w
  step (resolves id r) w = resolve id r w
  step (releases test r) w = release test r w
  step (delivers i) w = deliver i w
  step (leaves i r) w = leave_from (w.phase i) i r w
  step (takes i) w = take_from (w.phase i) i w
  step (receives i) w = receive_from (w.phase i) i w

  unfoldable pub run : List (Event A R) → World A R → World A R
  run [] w = w
  run (e ∷ es) w = run es (step e w)

  abbrev pub start : World A R
  start = record { board = empty; phase = λ i. unborn; chan = λ i. none; sends = [] }
