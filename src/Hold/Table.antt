-- ===== src/Hold/Table.antt =====
-- Go's map[int64]*T as a list of entries. The source never depends on the order of a map, and
-- neither does a theorem here.
use mathlib.Core.Path.{subst₂}
use proxy_scope.Prelude.{
  inl, inr, true, Bool-cases, ==_iff, ℕ, ◌+◌, ◌≡◌, refl, Bool, not, List, [], ◌∷◌, ◌++◌, Option,
  none, some, arith, ◌==◌, if◌then◌else◌,
}

module _ {ℓ} {A : Type ℓ} where
  unfoldable pub lookup : ℕ → List (ℕ × A) → Option A
  lookup k [] = none
  lookup k ((i, v) ∷ rest) = if i == k then some v else lookup k rest

  unfoldable pub insert : ℕ → A → List (ℕ × A) → List (ℕ × A)
  insert k v [] = (k, v) ∷ []
  insert k v ((i, w) ∷ rest) = if i == k then (k, v) ∷ rest else (i, w) ∷ insert k v rest

  unfoldable pub delete : ℕ → List (ℕ × A) → List (ℕ × A)
  delete k [] = []
  delete k ((i, v) ∷ rest) = if i == k then delete k rest else (i, v) ∷ delete k rest

  -- The entries that a test selects.
  unfoldable pub select : (A → Bool) → List (ℕ × A) → List (ℕ × A)
  select test [] = []
  select test ((j, v) ∷ m) = if test v then (j, v) ∷ select test m else select test m

  -- How many entries stand under a key.
  unfoldable pub occurs : ℕ → List (ℕ × A) → ℕ
  occurs k [] = 0
  occurs k ((j, v) ∷ m) = (if j == k then 1 else 0) + occurs k m

  pub lookup-insert :
      (k other : ℕ) (v : A) (entries : List (ℕ × A))
      → lookup other (insert k v entries) ≡ (if k == other then some v else lookup other entries)
  unfolding lookup insert
  lookup-insert k other v [] = refl
  lookup-insert k other v ((at, found) ∷ entries) = ground (arith, lookup-insert k other v entries)

  pub lookup-delete :
      (k j : ℕ) (m : List (ℕ × A)) → lookup j (delete k m) ≡ (if k == j then none else lookup j m)
  unfolding lookup delete
  lookup-delete k j [] = ground arith
  lookup-delete k j ((i, w) ∷ m) = ground (arith, lookup-delete k j m)

  pub occurs-delete :
      (k j : ℕ) (m : List (ℕ × A)) → occurs j (delete k m) ≡ (if k == j then 0 else occurs j m)
  unfolding occurs delete
  occurs-delete k j [] = ground arith
  occurs-delete k j ((i, w) ∷ m) = ground (arith, occurs-delete k j m)

  -- A new entry under a key that was free.
  pub occurs-insert :
      (k j : ℕ) (v : A) (m : List (ℕ × A))
      → occurs k m ≡ 0
      → occurs j (insert k v m) ≡ (if k == j then 1 else 0) + occurs j m
  unfolding occurs insert
  occurs-insert k j v [] h = refl
  occurs-insert k j v ((i, w) ∷ m) h = ground (arith, occurs-insert k j v m)

  pub occurs-append : (k : ℕ) (m n : List (ℕ × A)) → occurs k (m ++ n) ≡ occurs k m + occurs k n
  unfolding occurs
  occurs-append k [] n = ground arith
  occurs-append k ((i, w) ∷ m) n = ground (arith, occurs-append k m n)

  -- A test splits the table in two.
  pub occurs-select :
      (test : A → Bool) (k : ℕ) (m : List (ℕ × A))
      → occurs k (select test m) + occurs k (select (λ v. not (test v)) m) ≡ occurs k m
  unfolding occurs select
  occurs-select test k [] = ground arith
  occurs-select test k ((i, w) ∷ m) = ground (arith, occurs-select test k m)

  pub lookup-occurs-none : (k : ℕ) (m : List (ℕ × A)) → occurs k m ≡ 0 → lookup k m ≡ none
  unfolding lookup occurs
  lookup-occurs-none k [] h = refl
  lookup-occurs-none k ((i, w) ∷ m) h = ground (arith, lookup-occurs-none k m)

  pub occurs-lookup-none : (k : ℕ) (m : List (ℕ × A)) → lookup k m ≡ none → occurs k m ≡ 0
  unfolding lookup occurs
  occurs-lookup-none k [] h = refl
  occurs-lookup-none k ((i, w) ∷ m) h = ground (arith, occurs-lookup-none k m)

  -- Under a key that stands once, the test selects the entry that a lookup finds.
  pub lookup-select-some :
      (test : A → Bool) (k : ℕ) (m : List (ℕ × A)) (v : A)
      → lookup k m ≡ some v
      → test v ≡ true
      → lookup k (select test m) ≡ some v
  unfolding lookup select
  lookup-select-some test k [] v e h = cc
  lookup-select-some test k ((j, w) ∷ m) v e h = ground (arith, lookup-select-some test k m v)

  -- Every entry has the property.
  abbrev pub All {κ} : (ℕ → A → Type κ) → List (ℕ × A) → Type κ
  All P [] = Unit
  All P ((j, v) ∷ m) = P j v × All P m

  pub All-insert {κ} :
      (P : ℕ → A → Type κ) (k : ℕ) (v : A) (m : List (ℕ × A))
      → P k v
      → All P m
      → All P (insert k v m)
  unfolding insert
  All-insert P k v [] h a = (h, tt)
  All-insert P k v ((j, w) ∷ m) h a = elim (Bool-cases (j == k)) [
    | inl e ↦ rw e (h, a.1)
    | inr e ↦ rw e (a.0, All-insert P k v m h a.1)
  ]

  pub All-delete {κ} :
      (P : ℕ → A → Type κ) (k : ℕ) (m : List (ℕ × A)) → All P m → All P (delete k m)
  unfolding delete
  All-delete P k [] a = tt
  All-delete P k ((j, w) ∷ m) a = elim (Bool-cases (j == k)) [
    | inl e ↦ rw e (All-delete P k m a.1)
    | inr e ↦ rw e (a.0, All-delete P k m a.1)
  ]

  -- What a test keeps may have a weaker property, as far as the test gives the rest.
  pub All-select {κ μ} :
      (P : ℕ → A → Type κ) (Q : ℕ → A → Type μ) (test : A → Bool) (m : List (ℕ × A))
      → ((j : ℕ) (v : A) → P j v → test v ≡ true → Q j v)
      → All P m
      → All Q (select test m)
  unfolding select
  All-select P Q test [] f a = tt
  All-select P Q test ((j, w) ∷ m) f a = elim (Bool-cases (test w)) [
    | inl e ↦ rw e (f j w a.0 e, All-select P Q test m f a.1)
    | inr e ↦ rw e (All-select P Q test m f a.1)
  ]

  pub All-lookup {κ} :
      (P : ℕ → A → Type κ) (k : ℕ) (m : List (ℕ × A)) (v : A)
      → All P m
      → lookup k m ≡ some v
      → P k v
  unfolding lookup
  All-lookup P k [] v a e = cc
  All-lookup P k ((j, w) ∷ m) v a e = elim (Bool-cases (j == k)) [
    | inl same ↦ subst₂ P ((==_iff j k).0 same) (ground arith) a.0
    | inr other ↦ All-lookup P k m v a.1 (ground arith)
  ]
