-- ===== src/Capture/Packet/Buffer.antt =====
-- Bytes of a buffer under append, take and set.
use Prim.Native.Nat.{zero}
use mathlib.Core.Path.{ap₂}
use proxy_scope.Prelude.{
  sym, length-drop, ◌∙◌, length-take, refl, [], ap, arith, ◌≡◌, ◌-◌, ◌+◌, drop, take, ◌≤◌, ◌≢◌, ◌<◌,
  length, ◌++◌, ℕ,
}
use proxy_scope.Capture.Packet.{suc, ◌∷◌, at, set}
use proxy_scope.Prelude.Text.{Bytes}

-- The bytes from a to b, where they exist.
abbrev pub range : Bytes → ℕ → ℕ → Bytes
range s a b = take (b - a) (drop a s)

pub at-append_left : (s t : Bytes) (i : ℕ) → i < length s → at (s ++ t) i ≡ at s i
at-append_left [] t i h = absurd (omega arith)
at-append_left (c ∷ s) t zero h = refl
at-append_left (c ∷ s) t (suc i) h = at-append_left s t i (omega arith)

pub at-take : (n : ℕ) (s : Bytes) (i : ℕ) → i < n → at (take n s) i ≡ at s i
at-take zero s i h = absurd (omega arith)
at-take (suc n) [] i h = refl
at-take (suc n) (c ∷ s) zero h = refl
at-take (suc n) (c ∷ s) (suc i) h = at-take n s i (omega arith)

pub length-set : (s : Bytes) (i v : ℕ) → length (set s i v) ≡ length s
length-set [] i v = refl
length-set (c ∷ s) zero v = refl
length-set (c ∷ s) (suc i) v = ap suc (length-set s i v)

pub at-set_self : (s : Bytes) (i v : ℕ) → i < length s → at (set s i v) i ≡ v
at-set_self [] i v h = absurd (omega arith)
at-set_self (c ∷ s) zero v h = refl
at-set_self (c ∷ s) (suc i) v h = at-set_self s i v (omega arith)

pub at-set_ne : (s : Bytes) (i j v : ℕ) → i ≢ j → at (set s i v) j ≡ at s j
at-set_ne [] i j v h = refl
at-set_ne (c ∷ s) zero zero v h = absurd (h refl)
at-set_ne (c ∷ s) zero (suc j) v h = refl
at-set_ne (c ∷ s) (suc i) zero v h = refl
at-set_ne (c ∷ s) (suc i) (suc j) v h = at-set_ne s i j v (λ e. h (ap suc e))

pub at-append_right : (s t : Bytes) (i : ℕ) → at (s ++ t) (length s + i) ≡ at t i
at-append_right [] t i = ap (at t) (omega arith)
at-append_right (c ∷ s) t i =
    ap (at (c ∷ (s ++ t))) {x = suc (length s) + i} {y = suc (length s + i)} (omega arith)
    ∙ at-append_right s t i

at-drop : (n : ℕ) (s : Bytes) (i : ℕ) → at (drop n s) i ≡ at s (n + i)
at-drop zero s i = ap (at s) (omega arith)
at-drop (suc n) [] i = refl
at-drop (suc n) (c ∷ s) i =
    at-drop n s i ∙ ap (at (c ∷ s)) {x = suc (n + i)} {y = suc n + i} (omega arith)

-- Two lists with the same bytes are equal.
pub at_ext :
    (s t : Bytes) → length s ≡ length t → ((i : ℕ) → i < length s → at s i ≡ at t i) → s ≡ t
at_ext [] [] l h = refl
at_ext [] (d ∷ t) l h = absurd (omega arith)
at_ext (c ∷ s) [] l h = absurd (omega arith)
at_ext (c ∷ s) (d ∷ t) l h =
    ap₂ ◌∷◌ (h 0 (omega arith)) (at_ext s t (omega arith) (λ i k. h (suc i) (omega arith)))

pub at-range : (s : Bytes) (a b i : ℕ) → i < b - a → at (range s a b) i ≡ at s (a + i)
at-range s a b i h = at-take (b - a) (drop a s) i h ∙ at-drop a s i

pub length-range : (s : Bytes) (a b : ℕ) → b ≤ length s → length (range s a b) ≡ b - a
length-range s a b h = omega (arith, length-take (b - a) (drop a s), length-drop a s)

-- Ranges of lists that agree there are equal.
pub range_ext :
    (s t : Bytes) (a b : ℕ)
    → b ≤ length s
    → b ≤ length t
    → ((i : ℕ) → a ≤ i → i < b → at s i ≡ at t i)
    → range s a b ≡ range t a b
range_ext s t a b hs ht h =
    at_ext (range s a b) (range t a b) (length-range s a b hs ∙ sym (length-range t a b ht)) λ i k.
      at-range s a b i (omega (arith, length-range s a b hs))
      ∙ h (a + i) (omega arith) (omega (arith, length-range s a b hs))
      ∙ sym (at-range t a b i (omega (arith, length-range s a b hs)))

-- A list stands in another behind its first bytes.
pub range_is :
    (s t : Bytes) (a : ℕ)
    → a + length t ≤ length s
    → ((i : ℕ) → i < length t → at s (a + i) ≡ at t i)
    → range s a (a + length t) ≡ t
range_is s t a h e =
    at_ext (range s a (a + length t)) t (omega (arith, length-range s a (a + length t) h)) λ i k.
      at-range s a (a + length t) i (omega (arith, length-range s a (a + length t) h))
      ∙ e i (omega (arith, length-range s a (a + length t) h))
