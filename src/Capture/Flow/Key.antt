-- ===== src/Capture/Flow/Key.antt =====
-- The key of a flow is the same for both directions, and different for different flows.
use proxy_scope.Chunk.{relay_udp, relay_tcp}
use proxy_scope.Capture.Flow.Host.{
  join_host_port_injective, has_byte-append, port_string-has_byte, first_cut,
}
use mathlib.Core.List.{◌∷◌}
use proxy_scope.Prelude.{
  ap, ◌∙◌, sym, inr, inl, ◌↔◌, ◌<◌, [], ◌++◌, refl, if◌then◌else◌, ◌⊎◌, arith, false, true, ◌≡◌, ℕ,
}
use proxy_scope.Prelude.Text.{Bytes, has_byte}
use proxy_scope.Capture.Flow.{
  Parsed, Protocol, string_after, flow_key, key_of, join_host_port, port_string, protocol_string,
}

after_asym : (a b : Bytes) → string_after a b ≡ true → string_after b a ≡ false
unfolding string_after
after_asym [] b h = absurd (ground arith)
after_asym (x ∷ xs) [] h = refl
after_asym (x ∷ xs) (y ∷ ys) h = ground (arith, after_asym xs ys)

after_total : (a b : Bytes) → string_after a b ≡ false → string_after b a ≡ false → a ≡ b
unfolding string_after
after_total [] [] h k = refl
after_total [] (y ∷ ys) h k = absurd (ground arith)
after_total (x ∷ xs) [] h k = absurd (ground arith)
after_total (x ∷ xs) (y ∷ ys) h k = ground (arith, after_total xs ys)

protocol_string_injective : (p q : Protocol) → protocol_string p ≡ protocol_string q → p ≡ q
unfolding protocol_string
protocol_string_injective relay_tcp relay_tcp e = refl
protocol_string_injective relay_udp relay_udp e = refl
protocol_string_injective relay_tcp relay_udp e = absurd (ground arith)
protocol_string_injective relay_udp relay_tcp e = absurd (ground arith)

protocol_string-has_byte : (p : Protocol) → has_byte (protocol_string p) b'|' ≡ false
unfolding protocol_string has_byte
protocol_string-has_byte relay_tcp = refl
protocol_string-has_byte relay_udp = refl

join-has_byte :
    (h : Bytes) (n : ℕ)
    → has_byte h b'|' ≡ false
    → has_byte (join_host_port h (port_string n)) b'|' ≡ false
unfolding join_host_port has_byte
join-has_byte h n e = ground (
  arith,
  port_string-has_byte n b'|',
  has_byte-append h (b']' ∷ b':' ∷ port_string n) b'|',
  has_byte-append h (b':' ∷ port_string n) b'|',
)

key_of_injective :
    (p q : Protocol) (a b c d : Bytes)
    → has_byte a b'|' ≡ false
    → has_byte c b'|' ≡ false
    → key_of p a b ≡ key_of q c d
    → (p ≡ q) × (a ≡ c) × (b ≡ d)
key_of_injective p q a b c d f g e =
    let r =
      first_cut b'|' (protocol_string p) (protocol_string q) (a ++ b'|' ∷ b) (c ++ b'|' ∷ d)
        (protocol_string-has_byte p) (protocol_string-has_byte q) e in
    let t = first_cut b'|' a c b d f g r.1 in (protocol_string_injective p q r.0, t.0, t.1)

-- A host and a port.
abbrev endpoint : Bytes → ℕ → Bytes × ℕ
endpoint host port = (host, port)

module _ (ip_string : Bytes → Bytes) where
  -- The endpoints of a packet.
  abbrev pub source : Parsed → Bytes × ℕ
  source p = (ip_string p.src_ip, p.src_port)

  abbrev pub destination : Parsed → Bytes × ℕ
  destination p = (ip_string p.dst_ip, p.dst_port)

  -- Two packets of one flow: the same protocol and the same endpoints, in the same or in the other direction.
  abbrev pub SameFlow : Parsed → Parsed → Type 0
  SameFlow p q =
      (p.protocol ≡ q.protocol)
      × (((source p ≡ source q) × (destination p ≡ destination q))
          ⊎ ((source p ≡ destination q) × (destination p ≡ source q)))

  abbrev text : Bytes × ℕ → Bytes
  text e = join_host_port e.0 (port_string e.1)

  -- The key in terms of the two texts.
  sorted_key : Protocol → Bytes → Bytes → Bytes
  sorted_key r a b = if string_after a b then key_of r b a else key_of r a b

  sorted_key_comm : (r : Protocol) (a b : Bytes) → sorted_key r a b ≡ sorted_key r b a
  unfolding sorted_key
  sorted_key_comm r a b = ground (arith, after_asym a b, after_asym b a, after_total a b)

  sorted_key_injective :
      (p q : Protocol) (a b c d : Bytes)
      → has_byte a b'|' ≡ false
      → has_byte b b'|' ≡ false
      → has_byte c b'|' ≡ false
      → has_byte d b'|' ≡ false
      → sorted_key p a b ≡ sorted_key q c d
      → (p ≡ q) × (((a ≡ c) × (b ≡ d)) ⊎ ((a ≡ d) × (b ≡ c)))
  unfolding sorted_key
  sorted_key_injective p q a b c d f g h i e = ground (
    arith,
    key_of_injective p q a b c d f h,
    key_of_injective p q a b d c f i,
    key_of_injective p q b a c d g h,
    key_of_injective p q b a d c g i,
  )

  flow_key-sorted :
      (p : Parsed)
      → flow_key ip_string p ≡ sorted_key p.protocol (text (source p)) (text (destination p))
  unfolding flow_key sorted_key
  flow_key-sorted p = refl

  ends_injective :
      (h k : Bytes) (m n : ℕ)
      → m < 65536
      → n < 65536
      → text (endpoint h m) ≡ text (endpoint k n)
      → endpoint h m ≡ endpoint k n
  ends_injective h k m n a b e = let r = join_host_port_injective h k m n a b e in ground (arith, r)

-- Packets have the same key exactly if they belong to one flow, in either direction. Ports are below 65536, and the
-- text of an address has no vertical bar.
pub flow_key_iff :
    (ip_string : Bytes → Bytes) (p q : Parsed)
    → ((a : Bytes) → has_byte (ip_string a) b'|' ≡ false)
    → p.src_port < 65536
    → p.dst_port < 65536
    → q.src_port < 65536
    → q.dst_port < 65536
    → (flow_key ip_string p ≡ flow_key ip_string q) ↔ SameFlow ip_string p q
flow_key_iff ip_string p q plain a b c d = (onto, from)
  where
    bare : (ip : Bytes) (n : ℕ) → has_byte (text ip_string (endpoint (ip_string ip) n)) b'|' ≡ false
    bare ip n = join-has_byte (ip_string ip) n (plain ip)

    ends :
        (i j : Bytes) (m n : ℕ)
        → m < 65536
        → n < 65536
        → text ip_string (endpoint (ip_string i) m) ≡ text ip_string (endpoint (ip_string j) n)
        → endpoint (ip_string i) m ≡ endpoint (ip_string j) n
    ends i j m n = ends_injective ip_string (ip_string i) (ip_string j) m n

    onto : flow_key ip_string p ≡ flow_key ip_string q → SameFlow ip_string p q
    onto e =
        let r =
          sorted_key_injective ip_string p.protocol q.protocol _ _ _ _ (bare p.src_ip p.src_port)
            (bare p.dst_ip p.dst_port) (bare q.src_ip q.src_port) (bare q.dst_ip q.dst_port)
            (sym (flow_key-sorted ip_string p) ∙ e ∙ flow_key-sorted ip_string q) in
        (r.0, sides r.1)
      where
        sides :
            ((text ip_string (source ip_string p) ≡ text ip_string (source ip_string q))
                × (text ip_string (destination ip_string p)
                    ≡ text ip_string (destination ip_string q)))
              ⊎ ((text ip_string (source ip_string p) ≡ text ip_string (destination ip_string q))
                  × (text ip_string (destination ip_string p)
                      ≡ text ip_string (source ip_string q)))
            → ((source ip_string p ≡ source ip_string q)
                × (destination ip_string p ≡ destination ip_string q))
              ⊎ ((source ip_string p ≡ destination ip_string q)
                  × (destination ip_string p ≡ source ip_string q))
        sides (inl (x, y)) = inl (
          ends p.src_ip q.src_ip p.src_port q.src_port a c x,
          ends p.dst_ip q.dst_ip p.dst_port q.dst_port b d y,
        )
        sides (inr (x, y)) = inr (
          ends p.src_ip q.dst_ip p.src_port q.dst_port a d x,
          ends p.dst_ip q.src_ip p.dst_port q.src_port b c y,
        )

    keyed :
        (r t : Protocol)
        → r ≡ t
        → (i j k l : Bytes) → i ≡ k
        → j ≡ l
        → sorted_key ip_string r i j ≡ sorted_key ip_string t k l
    keyed r t e i j k l x y = rw (e, x, y) refl

    from : SameFlow ip_string p q → flow_key ip_string p ≡ flow_key ip_string q
    from (e, inl (x, y)) =
        flow_key-sorted ip_string p
        ∙ keyed p.protocol q.protocol e _ _ _ _ (ap (text ip_string) x) (ap (text ip_string) y)
        ∙ sym (flow_key-sorted ip_string q)
    from (e, inr (x, y)) =
        flow_key-sorted ip_string p
        ∙ keyed p.protocol q.protocol e _ _ _ _ (ap (text ip_string) x) (ap (text ip_string) y)
        ∙ sorted_key_comm ip_string q.protocol (text ip_string (destination ip_string q))
            (text ip_string (source ip_string q))
        ∙ sym (flow_key-sorted ip_string q)
