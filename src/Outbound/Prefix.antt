-- ===== src/Outbound/Prefix.antt =====
-- What a body capture holds after any writes.
use mathlib.Core.List.{◌∷◌, append-nil, append_assoc}
use proxy_scope.Prelude.Text.{Bytes}
use proxy_scope.Prelude.{
  refl, inr, inl, ltb, arith, Bool-cases, ◌-◌, sym, ◌++◌, [], ◌≡◌, ◌+◌, ◌<◌, List, ℕ, length, take,
  concat, take_all, take-append, length-take, length-append,
}
use proxy_scope.Prelude.Word.{int64_limit, sub64, add64_small, sub64_small, lt64_small}
use proxy_scope.Outbound.{BodyCapture, new_capture, kept, write}

unfoldable pub write_all : List Bytes → BodyCapture → BodyCapture
write_all [] c = c
write_all (p ∷ ps) c = write_all ps (write p c).0

module _ (max : ℕ) (small : max < int64_limit) where
  abbrev Holds : Bytes → BodyCapture → Type 0
  Holds past c = (c.max ≡ max) × (c.buf ≡ take max past) × (c.total ≡ length past)

  kept-take :
      (past p : Bytes)
      → length past + length p < int64_limit
      → kept (sub64 max (length (take max past))) p ≡ take (max - length past) p
  unfolding kept
  kept-take past p b = elim (Bool-cases (ltb (length past) max)) [
    | inl e ↦ ground (
      arith,
      length-take max past,
      sub64_small max (length past),
      lt64_small 0 (max - length past),
      lt64_small (max - length past) (length p),
      take_all (max - length past) p,
    )
    | inr e ↦ ground (arith, length-take max past, sub64_small max max, lt64_small 0 0)
  ]

  write-Holds :
      (past p : Bytes) (c : BodyCapture)
      → length past + length p < int64_limit
      → Holds past c
      → Holds (past ++ p) (write p c).0
  unfolding write
  write-Holds past p c b (m, h, t) = (
    m,
    rw (m, h, kept-take past p b) (sym (take-append max past p)),
    ground (arith, add64_small (length past) (length p), length-append past p),
  )

  write_all-Holds :
      (ps : List Bytes) (past : Bytes) (c : BodyCapture)
      → length past + length (concat ps) < int64_limit
      → Holds past c
      → Holds (past ++ concat ps) (write_all ps c)
  unfolding write_all
  write_all-Holds [] past c b h = rw (append-nil past) h
  write_all-Holds (p ∷ ps) past c b h = rw (sym (append_assoc past p (concat ps))) (
      write_all-Holds ps (past ++ p) (write p c).0
        (ground (arith, length-append past p, length-append p (concat ps)))
        (write-Holds past p c (ground (arith, length-append p (concat ps))) h))

take_nothing : (n : ℕ) → ◌≡◌ {A = Bytes} [] (take n [])
take_nothing n = sym (take_all n [] (omega arith))

-- However a body is cut into writes, the buffer holds its first bytes up to the maximum, and the total
-- counts all of it. The maximum and the body are below 2^63 bytes.
pub capture_prefix :
    (max : ℕ) (ps : List Bytes)
    → max < int64_limit
    → length (concat ps) < int64_limit
    → ((write_all ps (new_capture max)).buf ≡ take max (concat ps))
      × ((write_all ps (new_capture max)).total ≡ length (concat ps))
capture_prefix max ps m b =
    let (x, h, t) =
      write_all-Holds max m ps [] (new_capture max) (omega arith) (refl, take_nothing max, refl) in
    (h, t)
