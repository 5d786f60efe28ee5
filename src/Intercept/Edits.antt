-- ===== src/Intercept/Edits.antt =====
-- What a resolution makes of the held message.
use mathlib.Core.Option.{none}
use proxy_scope.Prelude.{arith, inr, inl, Bool-cases, refl, ◌↔◌, false, Option, ◌≡◌, sym}
use proxy_scope.Http.Message.Same.{
  IsMap, SameRequest, SameResponse, request_equal_iff, response_equal_iff,
}
use proxy_scope.Http.Message.{response_equal, request_equal, Request, Response, verdict_forward}
use proxy_scope.Intercept.{
  edit_request, edit_response, some, Resolution, finish_request, finish_response,
}

-- The request that the user asked for.
abbrev wanted {ℓ} : {A : Type ℓ} → A → Option A → A
wanted held none = held
wanted held (some r) = r

abbrev pub wanted_request : Request → Resolution → Request
wanted_request held res = wanted held res.request

abbrev pub wanted_response : Response → Resolution → Response
wanted_response held res = wanted held res.response

SameRequest-refl : (r : Request) → SameRequest r r
SameRequest-refl r = (refl, refl, λ k. refl, refl)

SameResponse-refl : (r : Response) → SameResponse r r
SameResponse-refl r = (refl, λ k. refl, refl)

SameRequest-sym : (r o : Request) → SameRequest r o → SameRequest o r
SameRequest-sym r o s = (sym s.0, sym s.1, λ k. sym (s.2 k), sym s.3)

SameResponse-sym : (r o : Response) → SameResponse r o → SameResponse o r
SameResponse-sym r o s = (sym s.0, λ k. sym (s.1 k), sym s.2)

-- A request that is not dropped goes on as the user left it, up to the order of its header map,
-- and the outcome says that it was edited exactly when it differs from the held one. The names in
-- the headers of both are distinct.
pub finish_request_forwards :
    (held : Request) (res : Resolution)
    → IsMap held.header
    → IsMap (wanted_request held res).header
    → res.drop ≡ false
    → ((finish_request held res).1.verdict ≡ verdict_forward)
      × SameRequest (finish_request held res).0 (wanted_request held res)
      × (((finish_request held res).1.edited ≡ false) ↔ SameRequest (wanted_request held res) held)
unfolding finish_request
finish_request_forwards held res mh mr d = rw (d, finish_request) (go res.request mr)
  where
    Goal : Option Request → Type 0
    Goal o =
        ((edit_request held o res.note).1.verdict ≡ verdict_forward)
        × SameRequest (edit_request held o res.note).0 (wanted held o)
        × (((edit_request held o res.note).1.edited ≡ false) ↔ SameRequest (wanted held o) held)

    go : (o : Option Request) → IsMap (wanted held o).header → Goal o
    go none m = (refl, SameRequest-refl held, ((λ e. SameRequest-refl held), (λ s. refl)))
    go (some r) m = elim (Bool-cases (request_equal r held)) [
      | inl e ↦ rw e (
          let same = (request_equal_iff r held m mh).0 e in
          (refl, SameRequest-sym r held same, ((λ x. same), (λ s. refl))))
      | inr e ↦ rw e (
        refl,
        SameRequest-refl r,
        ((λ x. absurd (ground arith)), (λ s. ground (arith, (request_equal_iff r held m mh).1 s))),
      )
    ]

-- A response that is not dropped goes on as the user left it, up to the order of its header map,
-- and the outcome says that it was edited exactly when it differs from the held one. The names in
-- the headers of both are distinct.
pub finish_response_forwards :
    (held : Response) (res : Resolution)
    → IsMap held.header
    → IsMap (wanted_response held res).header
    → res.drop ≡ false
    → ((finish_response held res).1.verdict ≡ verdict_forward)
      × SameResponse (finish_response held res).0 (wanted_response held res)
      × (((finish_response held res).1.edited ≡ false)
          ↔ SameResponse (wanted_response held res) held)
unfolding finish_response
finish_response_forwards held res mh mr d = rw (d, finish_response) (go res.response mr)
  where
    Goal : Option Response → Type 0
    Goal o =
        ((edit_response held o res.note).1.verdict ≡ verdict_forward)
        × SameResponse (edit_response held o res.note).0 (wanted held o)
        × (((edit_response held o res.note).1.edited ≡ false) ↔ SameResponse (wanted held o) held)

    go : (o : Option Response) → IsMap (wanted held o).header → Goal o
    go none m = (refl, SameResponse-refl held, ((λ e. SameResponse-refl held), (λ s. refl)))
    go (some r) m = elim (Bool-cases (response_equal r held)) [
      | inl e ↦ rw e (
          let same = (response_equal_iff r held m mh).0 e in
          (refl, SameResponse-sym r held same, ((λ x. same), (λ s. refl))))
      | inr e ↦ rw e (
        refl,
        SameResponse-refl r,
        ((λ x. absurd (ground arith)), (λ s. ground (arith, (response_equal_iff r held m mh).1 s))),
      )
    ]
