-- ===== src/Hold/Machine/Entries.antt =====
-- A property of the table's entries along the steps of the machine.
use proxy_scope.Prelude.{refl, true, arith, ◌≡◌, inr, inl, Option-cases, ℕ}
use mathlib.Core.Path.{sym, subst}
use proxy_scope.Hold.Machine.{
  lost, waiting, not, lookup, leaving, Bool, add, take_from, leave_from, hold, Phase, deliver,
  resolve, release, receive_from, World,
}
use proxy_scope.Hold.Table.{All-select, All-delete, All-insert, All}
use proxy_scope.Prelude.Word.{add64}

module _ {A R : Type 0} (P : ℕ → A → Type 0) where
  pub hold-All :
      (make : ℕ → A) (w : World A R)
      → P (add64 w.next_id 1) (make (add64 w.next_id 1))
      → All P w.items
      → All P (hold make w).items
  unfolding hold add
  hold-All make w p a = All-insert P (add64 w.next_id 1) (make (add64 w.next_id 1)) w.items p a

  pub resolve-All : (i : ℕ) (r : R) (w : World A R) → All P w.items → All P (resolve i r w).items
  resolve-All i r w a = elim (Option-cases (lookup i w.items)) [
    | inl e ↦ unfold resolve in rw (e, resolve) a
    | inr (it, e) ↦ unfold resolve in rw (e, resolve) (All-delete P i w.items a)
  ]

  -- Where the released entries fail the test, the others may have another property.
  pub release-All :
      (Q : ℕ → A → Type 0) (test : A → Bool) (r : R) (w : World A R)
      → ((k : ℕ) (v : A) → P k v → not (test v) ≡ true → Q k v)
      → All P w.items
      → All Q (release test r w).items
  unfolding release
  release-All Q test r w f a = All-select P Q (λ v. not (test v)) w.items f a

  deliver-items : (i : ℕ) (w : World A R) → (deliver i w).board ≡ w.board
  unfolding deliver
  deliver-items i w = ground arith

  pub deliver-All : (i : ℕ) (w : World A R) → All P w.items → All P (deliver i w).items
  deliver-All i w a = subst (λ b. All P b.items) (sym (deliver-items i w)) a

  pub leave-All :
      (p : Phase R) (i : ℕ) (r : R) (w : World A R)
      → All P w.items
      → All P (leave_from p i r w).items
  unfolding leave_from
  leave-All waiting i r w a = a
  leave-All _ i r w a = a

  pub take-All :
      (p : Phase R) (i : ℕ) (w : World A R) → All P w.items → All P (take_from p i w).items
  unfolding take_from
  take-All (leaving r) i w a = elim (Option-cases (lookup i w.items)) [
    | inl e ↦ rw (e, take_from) a
    | inr (it, e) ↦ rw (e, take_from) (All-delete P i w.items a)
  ]
  take-All _ i w a = a

  receive-items : (p : Phase R) (i : ℕ) (w : World A R) → (receive_from p i w).board ≡ w.board
  unfolding receive_from
  receive-items waiting i w = ground arith
  receive-items lost i w = ground arith
  receive-items _ i w = refl

  pub receive-All :
      (p : Phase R) (i : ℕ) (w : World A R) → All P w.items → All P (receive_from p i w).items
  receive-All p i w a = subst (λ b. All P b.items) (sym (receive-items p i w)) a
