-- ===== src/Http/Client/Bodies.antt =====
-- What body the requests of a call carry: redirects keep it or drop it.
use datazoo_oauth.Base.{◌≡◌, ◌∙◌, ap, ◌⊎◌, inl, inr, Bool-cases, List, [], ◌∷◌, Bytes, All}
use datazoo_oauth.Http.Message.{HttpRequest}
use datazoo_oauth.Http.Client.{Attempt, Network}
use datazoo_oauth.Http.Client.Hops.{
  Hop, retried, followed, Trail, becomes_get, becomes_get→BecomesGet, BecomesGet→becomes_get,
}

-- A request carries the body, or none.
abbrev pub CarriesOrNone : Bytes → HttpRequest → Type 0
CarriesOrNone body r = (r.content ≡ body) ⊎ (r.content ≡ [])

Hop-CarriesOrNone :
    (mp : Bytes → Bytes → Bytes) (a : Attempt) (body : Bytes) (r r' : HttpRequest)
    → CarriesOrNone body r
    → Hop mp a r r'
    → CarriesOrNone body r'
Hop-CarriesOrNone mp a body r r' (inl h) (retried may same) =
    inl (ap (λ (q : HttpRequest). q.content) same ∙ h)
Hop-CarriesOrNone mp a body r r' (inr h) (retried may same) =
    inr (ap (λ (q : HttpRequest). q.content) same ∙ h)
Hop-CarriesOrNone mp a body r r' h (followed status url asked moved) =
    elim (Bool-cases (becomes_get status r.method)) [
      | inl drops ↦ inr (moved.without_body (becomes_get→BecomesGet status r.method drops)).1
      | inr keeps ↦
          let same =
            (moved.with_body (λ g. cc (keeps, BecomesGet→becomes_get status r.method g))).1 in
          elim h [ inl is_body ↦ inl (same ∙ is_body) | inr none ↦ inr (same ∙ none) ]
    ]

pub Trail-CarriesOrNone :
    (mp : Bytes → Bytes → Bytes) (network : Network) (start : HttpRequest) (sent : List HttpRequest)
    → Trail mp network start sent
    → All (CarriesOrNone start.content) sent
Trail-CarriesOrNone mp network start [] t = tt
Trail-CarriesOrNone mp network start (r ∷ []) t = (inl (ap (λ (q : HttpRequest). q.content) t), tt)
Trail-CarriesOrNone mp network start (r' ∷ (r ∷ before)) (hop, t) =
    let earlier = Trail-CarriesOrNone mp network start (r ∷ before) t in
    (Hop-CarriesOrNone mp _ start.content r r' earlier.0 hop, earlier)
