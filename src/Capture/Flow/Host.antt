-- ===== src/Capture/Flow/Host.antt =====
-- The text of an endpoint determines its host and its port.
use proxy_scope.Prelude.Decimal.{decimal_digits}
use mathlib.Core.List.{append_assoc}
use proxy_scope.Prelude.{
  ◌⊎◌, inr, ◌∙◌, inl, ◌-◌, Bool-cases, if◌then◌else◌, sym, ◌*◌, ◌%◌, ◌/◌, arith, ℕ, Bool, true,
  false, suc, zero, [], ◌∷◌, ◌++◌, ◌+◌, ◌≡◌, ◌<◌, ap, refl, ◌||◌, ◌^◌,
}
use proxy_scope.Prelude.Text.{Bytes, has_byte}
use proxy_scope.Capture.Flow.{port_string, join_host_port}

pub has_byte-append : (s t : Bytes) (c : ℕ) → has_byte (s ++ t) c ≡ (has_byte s c || has_byte t c)
unfolding has_byte
has_byte-append [] t c = refl
has_byte-append (x ∷ s) t c = ground (arith, has_byte-append s t c)

-- Without the byte in the parts before it, its first position is unique.
pub first_cut :
    (c : ℕ) (a b x y : Bytes)
    → has_byte a c ≡ false
    → has_byte b c ≡ false
    → a ++ c ∷ x ≡ b ++ c ∷ y
    → (a ≡ b) × (x ≡ y)
unfolding has_byte
first_cut c [] [] x y f g e = ground arith
first_cut c [] (d ∷ b) x y f g e = absurd (ground arith)
first_cut c (d ∷ a) [] x y f g e = absurd (ground arith)
first_cut c (d ∷ a) (d' ∷ b) x y f g e =
    let r = first_cut c a b x y (ground arith) (ground arith) (ground arith) in ground (arith, r)

-- Without the byte in the parts after it, its last position is unique.
pub last_cut :
    (c : ℕ) (a b x y : Bytes)
    → has_byte x c ≡ false
    → has_byte y c ≡ false
    → a ++ c ∷ x ≡ b ++ c ∷ y
    → (a ≡ b) × (x ≡ y)
unfolding has_byte
last_cut c [] [] x y f g e = ground arith
last_cut c [] (d ∷ b) x y f g e = absurd (ground (arith, has_byte-append b (c ∷ y) c))
last_cut c (d ∷ a) [] x y f g e = absurd (ground (arith, has_byte-append a (c ∷ x) c))
last_cut c (d ∷ a) (d' ∷ b) x y f g e =
    let r = last_cut c a b x y f g (ground arith) in ground (arith, r)

-- The digits are none of the separators.
pub decimal_digits-has_byte : (fuel n c : ℕ) → 57 < c → has_byte (decimal_digits fuel n) c ≡ false
unfolding has_byte
decimal_digits-has_byte zero n c h = refl
decimal_digits-has_byte (suc fuel) n c h = ground (
  arith,
  decimal_digits-has_byte fuel (n / 10) c h,
  has_byte-append (decimal_digits fuel (n / 10)) ((48 + n % 10) ∷ []) c,
)

pub port_string-has_byte : (n c : ℕ) → 57 < c → has_byte (port_string n) c ≡ false
unfolding port_string
port_string-has_byte n c h = decimal_digits-has_byte 5 n c h

-- The number that digits denote.
abbrev value_from : ℕ → Bytes → ℕ
value_from acc [] = acc
value_from acc (d ∷ s) = value_from (acc * 10 + (d - 48)) s

value_from-append :
    (acc : ℕ) (s t : Bytes) → value_from acc (s ++ t) ≡ value_from (value_from acc s) t
value_from-append acc [] t = refl
value_from-append acc (d ∷ s) t = value_from-append (acc * 10 + (d - 48)) s t

decimal_digits_value : (fuel n : ℕ) → n < 10 ^ fuel → value_from 0 (decimal_digits fuel n) ≡ n
decimal_digits_value zero n h = omega arith
decimal_digits_value (suc fuel) n h = ground (
  arith,
  decimal_digits_value fuel (n / 10) (omega arith),
  value_from-append 0 (decimal_digits fuel (n / 10)) ((48 + n % 10) ∷ []),
)

pub port_string_injective :
    (m n : ℕ) → m < 65536 → n < 65536 → port_string m ≡ port_string n → m ≡ n
unfolding port_string
port_string_injective m n h k e =
    sym (decimal_digits_value 5 m (omega arith))
    ∙ ap (value_from 0) e
    ∙ decimal_digits_value 5 n (omega arith)

abbrev bracketed : Bytes → Bool
bracketed host = has_byte host b':' || has_byte host b'%'

abbrev wrap : Bytes → Bytes
wrap host = if bracketed host then (b'[' ∷ host) ++ b']' ∷ [] else host

wrap-bracketed : (host : Bytes) → bracketed (wrap host) ≡ bracketed host
unfolding has_byte
wrap-bracketed host =
    ground (arith, has_byte-append host (b']' ∷ []) b':', has_byte-append host (b']' ∷ []) b'%')

wrap_injective : (h k : Bytes) → wrap h ≡ wrap k → h ≡ k
unfolding has_byte
wrap_injective h k e = go (Bool-cases (bracketed h)) (Bool-cases (bracketed k))
  where
    same : bracketed h ≡ bracketed k
    same = sym (wrap-bracketed h) ∙ ap bracketed e ∙ wrap-bracketed k

    go :
        (bracketed h ≡ true) ⊎ (bracketed h ≡ false)
        → (bracketed k ≡ true) ⊎ (bracketed k ≡ false)
        → h ≡ k
    go (inl a) (inl b) = (last_cut b']' h k [] [] refl refl (ground arith)).0
    go (inr a) (inr b) = ground arith
    go (inl a) (inr b) = absurd (ground (arith, same))
    go (inr a) (inl b) = absurd (ground (arith, same))

join-wrap : (host port : Bytes) → join_host_port host port ≡ wrap host ++ b':' ∷ port
unfolding join_host_port
join-wrap host port = ground (arith, append_assoc host (b']' ∷ []) (b':' ∷ port))

-- The text of an endpoint determines its parts, if the port is printed without a colon.
pub join_host_port_injective :
    (h k : Bytes) (m n : ℕ)
    → m < 65536
    → n < 65536
    → join_host_port h (port_string m) ≡ join_host_port k (port_string n)
    → (h ≡ k) × (m ≡ n)
join_host_port_injective h k m n a b e =
    let r =
      last_cut b':' (wrap h) (wrap k) (port_string m) (port_string n)
        (port_string-has_byte m b':' (omega arith)) (port_string-has_byte n b':' (omega arith))
        (sym (join-wrap h (port_string m)) ∙ e ∙ join-wrap k (port_string n)) in
    (wrap_injective h k r.0, port_string_injective m n a b r.1)
