-- ===== src/Outbound/Request/Reads.antt =====
-- The bounded read of a body.
use Prim.Native.Nat.{zero}
use proxy_scope.Prelude.{
  Bool-cases, length-take, inr, inl, Option, false, arith, ◌⊎◌, true, leb, ap, [], suc, ◌≡◌, ℕ,
  refl, ◌+◌, ◌≤◌, ◌<◌, ◌++◌, length, take, drop, some, none,
}
use proxy_scope.Prelude.Word.{int64_limit, add64, lt64, add64_small, lt64_small}
use proxy_scope.Outbound.Request.{
  read_outcome, read_limited, ◌∷◌, Bytes, Stream, ReadResult, read_up_to, read_failed, read_whole,
  read_part,
}

take-drop : (n : ℕ) (s : Bytes) → take n s ++ drop n s ≡ s
take-drop zero s = refl
take-drop (suc n) [] = refl
take-drop (suc n) (c ∷ s) = ap (◌∷◌ c) (take-drop n s)

-- A whole body is within the limit, a part is one byte longer than it and the rest follows, and an error comes within
-- the limit.
abbrev pub ReadsTo : ℕ → Stream → ReadResult → Type 0
ReadsTo max s (read_failed e) = (s.fail ≡ some e) × (length s.bytes ≤ max)
ReadsTo max s (read_whole b) = (b ≡ s.bytes) × (s.fail ≡ none) × (length s.bytes ≤ max)
ReadsTo max s (read_part b rest) =
    (b ++ rest.bytes ≡ s.bytes) × (rest.fail ≡ s.fail) × (length b ≡ max + 1)

-- The bounded read gives the whole body, or the part up to one byte past the limit with the rest still to
-- read, or the error of the reader, as `ReadsTo` says. The limit is below 2^63 - 1.
pub read_up_to-ReadsTo :
    (max : ℕ) (s : Stream) → max + 1 < int64_limit → ReadsTo max s (read_up_to max s)
unfolding read_up_to
read_up_to-ReadsTo max s h = go (Bool-cases (leb (max + 1) (length s.bytes))) s.fail refl
  where
    limit : add64 max 1 ≡ max + 1
    limit = add64_small max 1 h

    positive : lt64 0 (max + 1) ≡ true
    positive = ground (arith, lt64_small 0 (max + 1) (omega arith) h)

    go :
        (leb (max + 1) (length s.bytes) ≡ true) ⊎ (leb (max + 1) (length s.bytes) ≡ false)
        → (o : Option Bytes) → s.fail ≡ o
        → ReadsTo max s (read_outcome max s (read_limited (add64 max 1) s))
    go (inl e) o q =
        let n : length (take (max + 1) s.bytes) ≡ max + 1 =
          ground (arith, length-take (max + 1) s.bytes) in
        let l : lt64 max (max + 1) ≡ true =
          ground (arith, lt64_small max (max + 1) (omega arith) h) in
        rw (limit, positive, e, n, l) (take-drop (max + 1) s.bytes, refl, n)
    go (inr e) none q =
        let l : lt64 max (length s.bytes) ≡ false =
          ground (arith, lt64_small max (length s.bytes)) in
        rw (limit, positive, e, q, l) (refl, refl, ground arith)
    go (inr e) (some x) q = rw (limit, positive, e, q) (refl, ground arith)
