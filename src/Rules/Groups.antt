-- ===== src/Rules/Groups.antt =====
-- The fuel of referencedGroups.
use Prim.Native.Nat.{zero}
use proxy_scope.Prelude.Text.{Bytes}
use proxy_scope.Prelude.{
  sym, ap, Option, ◌∙◌, List, refl, inr, ◌==◌, inl, Bool-cases, Option-cases, [], ◌∷◌, suc, some,
  ◌≡◌, arith, ◌<◌, ℕ, ◌≤◌, length,
}
use proxy_scope.Rules.Compile.{
  found, keep_ref, keep_word, groups, referenced_groups, cut, span_word,
}

length-span_word : (s : Bytes) → length (span_word s).1 ≤ length s
unfolding span_word
length-span_word [] = omega arith
length-span_word (c ∷ s) = ground (arith, length-span_word s)

length-cut : (c : ℕ) (s a b : Bytes) → cut c s ≡ some (a, b) → length b < length s
unfolding cut
length-cut c [] a b e = ground arith
length-cut c (d ∷ s) a b e = elim (Bool-cases (d == c)) [
  | inl f ↦ ground arith
  | inr f ↦ elim (Option-cases (cut c s)) [
    | inl g ↦ ground arith
    | inr (x, g) ↦ ground (arith, length-cut c s x.0 x.1)
  ]
]

keep_ref-some :
    (ref : Bytes) (o : Option (List Bytes)) (refs : List Bytes)
    → o ≡ some refs
    → keep_ref ref o ≡ some (ref ∷ refs)
keep_ref-some ref o refs e = ap (keep_ref ref) e

keep_word-some :
    (w : Bytes) (o : Option (List Bytes)) (refs : List Bytes)
    → o ≡ some refs
    → (refs' : List Bytes) × (keep_word w o ≡ some refs')
keep_word-some [] o refs e = (refs, e)
keep_word-some (c ∷ w) o refs e = ((c ∷ w) ∷ refs, keep_ref-some (c ∷ w) o refs e)

Ends : ℕ → Bytes → Type 0
Ends n s = (refs : List Bytes) × (groups n s ≡ some refs)

-- Fuel above the length of the text is enough.
groups_end : (n : ℕ) (s : Bytes) → length s < n → Ends n s
unfolding groups Ends
groups_end zero s h = absurd (omega arith)
groups_end (suc n) [] h = ([], refl)
groups_end (suc n) (c ∷ []) h = elim (Bool-cases (c == b'$')) [
  | inl e ↦ ([], rw e refl)
  | inr e ↦ rw e (groups_end n [] (ground arith))
]
groups_end (suc n) (c ∷ d ∷ t) h = elim (Bool-cases (c == b'$')) [
  | inr e ↦ rw e (groups_end n (d ∷ t) (ground arith))
  | inl e ↦ elim (Bool-cases (d == b'$')) [
    | inl f ↦ rw (e, f) (groups_end n t (ground arith))
    | inr f ↦ elim (Bool-cases (d == b'{')) [
      | inr g ↦
          let r = groups_end n (span_word (d ∷ t)).1 (ground (arith, length-span_word (d ∷ t))) in
          rw (e, f, g) (keep_word-some (span_word (d ∷ t)).0 _ r.0 r.1)
      | inl g ↦ elim (Option-cases (cut b'}' t)) [
        | inl k ↦ rw (e, f, g, k) ([], refl)
        | inr (x, k) ↦
            let r = groups_end n x.1 (ground (arith, length-cut b'}' t x.0 x.1 k)) in
            rw (e, f, g, k) (x.0 ∷ r.0, keep_ref-some x.0 _ r.0 r.1)
      ]
    ]
  ]
]

-- Whatever fuel exceeds the length of the text gives the same references.
groups_same : (n m : ℕ) (s : Bytes) → length s < n → length s < m → groups n s ≡ groups m s
unfolding groups
groups_same zero m s h k = absurd (omega arith)
groups_same (suc n) zero s h k = absurd (omega arith)
groups_same (suc n) (suc m) [] h k = refl
groups_same (suc n) (suc m) (c ∷ []) h k = ground (arith, groups_same n m [])
groups_same (suc n) (suc m) (c ∷ d ∷ t) h k = elim (Option-cases (cut b'}' t)) [
  | inl e ↦ ground (
    arith,
    groups_same n m (d ∷ t),
    groups_same n m t,
    length-span_word (d ∷ t),
    groups_same n m (span_word (d ∷ t)).1,
  )
  | inr (x, e) ↦ ground (
    arith,
    groups_same n m (d ∷ t),
    groups_same n m t,
    length-span_word (d ∷ t),
    groups_same n m (span_word (d ∷ t)).1,
    length-cut b'}' t x.0 x.1,
    groups_same n m x.1,
  )
]

-- The loop that finds the references to capture groups ends on every text: any fuel above the length of the text is enough, and
-- gives the references that are checked.
pub groups_finish : (n : ℕ) (s : Bytes) → length s < n → groups n s ≡ some (referenced_groups s)
unfolding Ends
groups_finish n s h =
    let r = groups_end (suc (length s)) s (omega arith) in
    groups_same n (suc (length s)) s h (omega arith) ∙ r.1 ∙ ap (λ o. some (found o)) (sym r.1)
