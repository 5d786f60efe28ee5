-- ===== src/Proxy/Pipeline/Stripped.antt =====
-- Headers without hop-by-hop entries.
use proxy_scope.Prelude.{inl, [], inr, true, false, arith, ◌≡◌, ℕ, refl, Bool-cases}
use proxy_scope.Prelude.Text.{
  Bytes, codes, equal, equal_iff, has_byte, is_upper, is_lower, is_digit, byte_to_lower,
  byte_to_upper,
}
use proxy_scope.Http.Header.{
  Header, values, values-set, set, canonical, all_token, capitalise, is_token_byte,
}
use proxy_scope.Outbound.Request.{remove_hop_by_hop, hop_by_hop}
use proxy_scope.Outbound.Request.Hop.{named, named-canonical, values-remove_hop_by_hop}
use proxy_scope.Proxy.Exchange.{Reply, Problem}
use proxy_scope.Proxy.Forward.{plain_reply}

-- No value of a hop-by-hop header.
abbrev pub Stripped : Header → Type 0
Stripped h = (name : Bytes) → named name hop_by_hop ≡ true → values h name ≡ []

not_hop :
    (other : Bytes)
    → named other hop_by_hop ≡ false
    → (name : Bytes) → named name hop_by_hop ≡ true
    → equal (canonical other) (canonical name) ≡ false
not_hop other e name h = elim (Bool-cases (equal (canonical other) (canonical name))) [
  | inr q ↦ q
  | inl q ↦ absurd (
      ground (
        arith,
        e,
        named-canonical hop_by_hop other name ((equal_iff (canonical other) (canonical name)).0 q),
      ))
]

pub set-Stripped :
    (h : Header) (other value : Bytes)
    → named other hop_by_hop ≡ false
    → Stripped h
    → Stripped (set h other value)
set-Stripped h other value e f name q =
    ground (arith, values-set h other name value, not_hop other e name q, f name q)

pub own_headers :
    (named (codes "Content-Type") hop_by_hop ≡ false)
    × (named (codes "X-Content-Type-Options") hop_by_hop ≡ false)
    × (named (codes "Content-Length") hop_by_hop ≡ false)
unfolding canonical all_token capitalise equal is_token_byte byte_to_lower byte_to_upper is_lower
    is_upper is_digit has_byte
own_headers = (refl, refl, refl)

pub remove-Stripped : (h : Header) → Stripped (remove_hop_by_hop h)
remove-Stripped h name q = ground (arith, values-remove_hop_by_hop h name)

pub plain-Stripped :
    (status : ℕ) (cause : Problem) (r : Reply)
    → Stripped r.header
    → Stripped (plain_reply status cause r).header
unfolding plain_reply
plain-Stripped status cause r f =
    set-Stripped _ (codes "X-Content-Type-Options") (codes "nosniff") own_headers.1 (
      set-Stripped r.header (codes "Content-Type") (codes "text/plain; charset=utf-8") own_headers.0
        f)
