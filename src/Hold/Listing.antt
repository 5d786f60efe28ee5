-- ===== src/Hold/Listing.antt =====
-- `List`: the summaries sorted by id, whatever the order in which the map was walked.
use proxy_scope.Prelude.{ℕ, ◌≤◌, List, [], ◌∷◌, arith, ltb, if◌then◌else◌, Bool-cases, inl, inr}
use mathlib.Core.List.{Perm}
use mathlib.Core.List.Perm

module _ {A : Type 0} (rank : A → ℕ) where
  -- sort.Slice in ascending order; the ranks of a map's entries are distinct.
  unfoldable pub insert_by : A → List A → List A
  insert_by a [] = a ∷ []
  insert_by a (b ∷ bs) = if ltb (rank b) (rank a) then b ∷ insert_by a bs else a ∷ b ∷ bs

  unfoldable pub sort_by : List A → List A
  unfolding insert_by
  sort_by [] = []
  sort_by (a ∷ xs) = insert_by a (sort_by xs)

  abbrev pub Above : ℕ → List A → Type 0
  Above n [] = Unit {0}
  Above n (a ∷ xs) = (n ≤ rank a) × Above (rank a) xs

  abbrev pub IsAscending : List A → Type 0
  IsAscending xs = Above 0 xs

  insert_by-Above :
      (n : ℕ) (a : A) (xs : List A) → n ≤ rank a → Above n xs → Above n (insert_by a xs)
  unfolding insert_by
  insert_by-Above n a [] h s = (h, tt)
  insert_by-Above n a (b ∷ bs) h s = ground (arith, insert_by-Above (rank b) a bs)

  pub sort_by-IsAscending : (xs : List A) → IsAscending (sort_by xs)
  unfolding sort_by
  sort_by-IsAscending [] = tt
  sort_by-IsAscending (a ∷ xs) =
      insert_by-Above 0 a (sort_by xs) (omega arith) (sort_by-IsAscending xs)

  insert_by-perm : (a : A) (xs : List A) → Perm (insert_by a xs) (a ∷ xs)
  unfolding insert_by
  insert_by-perm a [] = Perm.refl (a ∷ [])
  insert_by-perm a (b ∷ bs) = elim (Bool-cases (ltb (rank b) (rank a))) [
    | inl e ↦ rw e (Perm.trans (Perm.cons b (insert_by-perm a bs)) (Perm.swap a b bs))
    | inr e ↦ rw e (Perm.refl (a ∷ b ∷ bs))
  ]

  pub sort_by-perm : (xs : List A) → Perm (sort_by xs) xs
  unfolding sort_by
  sort_by-perm [] = Perm.refl []
  sort_by-perm (a ∷ xs) = Perm.trans (insert_by-perm a (sort_by xs)) (Perm.cons a (sort_by-perm xs))
