-- ===== src/Capture/Flow.antt =====
-- internal/sysCapture/packet.go: the key of a packet's flow. The text of an address, net.IP.String, is the
-- parameter `ip_string`.
pub mod Host
pub mod Key
use proxy_scope.Prelude.Decimal.{decimal_digits}
use proxy_scope.Prelude.{
  ℕ, Bool, true, false, suc, zero, [], ◌∷◌, ◌++◌, ◌+◌, ◌/◌, ◌%◌, if◌then◌else◌, ltb, ◌==◌, ◌||◌,
}
use proxy_scope.Prelude.Text.{Bytes, codes, has_byte}
use proxy_scope.Chunk.{Protocol, relay_tcp, relay_udp}
use proxy_scope.Capture.Packet.{Parsed}

-- A uint16 has at most five digits.
unfoldable pub port_string : ℕ → Bytes
port_string port = decimal_digits 5 port

-- net.JoinHostPort.
unfoldable pub join_host_port : Bytes → Bytes → Bytes
join_host_port host port =
    if has_byte host b':' || has_byte host b'%'
    then (b'[' ∷ host) ++ b']' ∷ b':' ∷ port
    else host ++ b':' ∷ port

-- `a > b` on strings.
unfoldable pub string_after : Bytes → Bytes → Bool
string_after [] b = false
string_after (x ∷ xs) [] = true
string_after (x ∷ xs) (y ∷ ys) =
    if ltb y x then true else if ltb x y then false else string_after xs ys

unfoldable pub protocol_string : Protocol → Bytes
protocol_string relay_tcp = codes "tcp"
protocol_string relay_udp = codes "udp"

abbrev pub key_of : Protocol → Bytes → Bytes → Bytes
key_of protocol a b = protocol_string protocol ++ b'|' ∷ (a ++ b'|' ∷ b)

unfoldable pub flow_key : (Bytes → Bytes) → Parsed → Bytes
unfolding port_string join_host_port string_after
flow_key ip_string p =
    let a = join_host_port (ip_string p.src_ip) (port_string p.src_port) in
    let b = join_host_port (ip_string p.dst_ip) (port_string p.dst_port) in
    if string_after a b then key_of p.protocol b a else key_of p.protocol a b
