-- ===== src/Capture/Service/Sessions.antt =====
-- The sessions of the service: a flow has one.
use proxy_scope.Prelude.{
  inr, ◌∙◌, sym, inl, Option-cases, ◌<◌, false, refl, some, Bool, none, arith, ◌++◌, [], ◌∷◌, List,
  ◌≡◌, ℕ,
}
use proxy_scope.Prelude.Text.{equal_refl, has_byte, Bytes}
use proxy_scope.Capture.Flow.{flow_key}
use proxy_scope.Capture.Flow.Key.{SameFlow, flow_key_iff}
use proxy_scope.Capture.Service.{Parsed, Service, session_for, find, open_session}
use proxy_scope.Capture.Service.Fits.{session_for_found, session_for_new}

find-append :
    (key k : Bytes) (ptr : ℕ) (sessions : List (Bytes × ℕ))
    → find key sessions ≡ none
    → find key (sessions ++ (k, ptr) ∷ []) ≡ find key ((k, ptr) ∷ [])
unfolding find
find-append key k ptr [] e = refl
find-append key k ptr (x ∷ sessions) e = ground (arith, find-append key k ptr sessions)

find_here : (key : Bytes) (ptr : ℕ) → find key ((key, ptr) ∷ []) ≡ some ptr
unfolding find
find_here key ptr = rw (equal_refl key) refl

-- The next packet of a flow, in either direction, has the session of the one before, and opens none. Ports are
-- below 65536, and the text of an address has no vertical bar.
pub reply_finds_session :
    (ip_string : Bytes → Bytes) (p q : Parsed) (outbound inbound : Bool) (id id' now now' : ℕ)
    (s : Service)
    → ((a : Bytes) → has_byte (ip_string a) b'|' ≡ false)
    → p.src_port < 65536
    → p.dst_port < 65536
    → q.src_port < 65536
    → q.dst_port < 65536
    → SameFlow ip_string p q
    → session_for ip_string q inbound id' now' (session_for ip_string p outbound id now s).0
      ≡ session_for ip_string p outbound id now s
unfolding open_session
reply_finds_session ip_string p q outbound inbound id id' now now' s plain a b c d same =
    elim (Option-cases (find (flow_key ip_string p) s.sessions)) [
      | inl e ↦ rw (session_for_new ip_string p outbound id now s e) (
          session_for_found ip_string q inbound id' now' s.count _ (
            rw (sym k) (
              find-append (flow_key ip_string p) (flow_key ip_string p) s.count s.sessions e
              ∙ here)))
      | inr (ptr, e) ↦
          rw (session_for_found ip_string p outbound id now ptr s e)
            (session_for_found ip_string q inbound id' now' ptr s (rw (sym k) e))
    ]
  where
    k : flow_key ip_string p ≡ flow_key ip_string q
    k = (flow_key_iff ip_string p q plain a b c d).1 same

    here : find (flow_key ip_string p) ((flow_key ip_string p, s.count) ∷ []) ≡ some s.count
    here = find_here (flow_key ip_string p) s.count
