-- ===== src/Outbound/Request/Hop.antt =====
-- What removing hop-by-hop headers leaves, and what is sent to a server.
use proxy_scope.Prelude.Text.{has_byte, byte_to_lower, byte_to_upper, is_lower, is_upper, is_digit}
use proxy_scope.Http.Header.{all_token, capitalise, is_token_byte, values-set}
use proxy_scope.Prelude.{
  inl, inr, Option-cases, Bool-cases, true, refl, arith, false, [], ◌||◌, List, if◌then◌else◌, ◌≡◌,
  Bool,
}
use proxy_scope.Prelude.Text.{
  is_digit, is_upper, is_lower, equal_iff, byte_to_upper, byte_to_lower, Bytes, equal, codes,
}
use proxy_scope.Http.Header.{
  values-set, is_token_byte, lookup, capitalise, all_token, del, Header, values, values-del,
  canonical,
}
use proxy_scope.Outbound.Request.{
  sent_header, ◌∷◌, del_all, remove_hop_by_hop, connection_names, hop_by_hop,
}

-- Whether a name is one of the names, up to the case of their letters.
abbrev pub named : Bytes → List Bytes → Bool
named name [] = false
named name (n ∷ names) = equal (canonical n) (canonical name) || named name names

values-del_all :
    (names : List Bytes) (h : Header) (name : Bytes)
    → values (del_all names h) name ≡ (if named name names then [] else values h name)
unfolding del_all
values-del_all [] h name = refl
values-del_all (n ∷ names) h name =
    ground (arith, values-del_all names (del h n) name, values-del h n name)

-- The header keeps its values, but those of the hop-by-hop headers and of the headers that Connection names.
pub values-remove_hop_by_hop :
    (h : Header) (name : Bytes)
    → values (remove_hop_by_hop h) name ≡ (
        if named name hop_by_hop || named name (connection_names (values h (codes "Connection")))
        then []
        else values h name)
unfolding remove_hop_by_hop
values-remove_hop_by_hop h name = ground (
  arith,
  values-del_all hop_by_hop (del_all (connection_names (values h (codes "Connection"))) h) name,
  values-del_all (connection_names (values h (codes "Connection"))) h name,
)

pub named-canonical :
    (names : List Bytes) (a b : Bytes) → canonical a ≡ canonical b → named a names ≡ named b names
named-canonical [] a b e = refl
named-canonical (n ∷ names) a b e = ground (arith, named-canonical names a b e, e)

-- What is never sent.
abbrev pub never_sent : List Bytes
never_sent = codes "Host" ∷ hop_by_hop

agent_is_sent : named (codes "User-Agent") never_sent ≡ false
unfolding canonical all_token capitalise equal is_token_byte byte_to_lower byte_to_upper is_lower
    is_upper is_digit has_byte
agent_is_sent = refl

agent_is_other :
    (name : Bytes)
    → named name never_sent ≡ true
    → equal (canonical (codes "User-Agent")) (canonical name) ≡ false
agent_is_other name h =
    elim (Bool-cases (equal (canonical (codes "User-Agent")) (canonical name))) [
      | inr e ↦ e
      | inl e ↦ absurd (
          ground (
            arith,
            agent_is_sent,
            named-canonical never_sent (codes "User-Agent") name
                ((equal_iff (canonical (codes "User-Agent")) (canonical name)).0 e),
          ))
    ]

stripped_values :
    (h : Header) (name : Bytes)
    → named name never_sent ≡ true
    → values (remove_hop_by_hop (del h (codes "Host"))) name ≡ []
stripped_values h name e =
    ground (
      arith,
      values-remove_hop_by_hop (del h (codes "Host")) name,
      values-del h (codes "Host") name,
    )

-- A request that is sent has no Host header and no hop-by-hop header.
pub sent_header-stripped :
    (h : Header) (name : Bytes) → named name never_sent ≡ true → values (sent_header h) name ≡ []
unfolding sent_header
sent_header-stripped h name e =
    elim (Option-cases (lookup (codes "User-Agent") (remove_hop_by_hop (del h (codes "Host"))))) [
      | inr (v, q) ↦ rw (q, sent_header) (stripped_values h name e)
      | inl q ↦
          rw (q, sent_header)
            (ground (
              arith,
              values-set (remove_hop_by_hop (del h (codes "Host"))) (codes "User-Agent") name [],
              agent_is_other name e,
              stripped_values h name e,
            ))
    ]
