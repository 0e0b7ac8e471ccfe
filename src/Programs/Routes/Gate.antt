-- ===== src/Programs/Routes/Gate.antt =====
-- What the ingester's server answers, and which of its routes reach the store.
use session_analysis_platfor.Prelude.{
  Bool-cases, arith, inl, inr, true, false, ◌≢◌, codes, str_eq, eq_of_str_eq, ne_of_str_eq, ℕ, ◌≡◌,
  refl, ◌⊎◌, [], ◌∷◌, ◌++◌, Option, none, some, Bytes,
}
use session_analysis_platfor.Webhook.{Exchange, Handler, Request}
use session_analysis_platfor.Webhook.Answer.{answer_to, status_of, serve_http-Answered}
use session_analysis_platfor.Webhook.Gate.{Recorded, serve_http_gate}
use session_analysis_platfor.Programs.Routes.{
  Route, liveness, readiness, livekit_webhook, method_not_allowed, not_found, is_get, route, answer,
  readyz, handle, serve_route,
}

abbrev IsGet : Bytes → Type 0
IsGet method = (method ≡ codes "GET") ⊎ (method ≡ codes "HEAD")

-- Which route serves a request, by the three patterns that the server registers: GET /healthz,
-- GET /readyz and POST /webhook/livekit.
pub data IsServed (method path : Bytes) : Route → Type 0 where
  by_liveness : path ≡ codes "/healthz" → IsGet method → IsServed method path liveness
  by_readiness : path ≡ codes "/readyz" → IsGet method → IsServed method path readiness
  by_webhook :
      path ≡ codes "/webhook/livekit" → method ≡ codes "POST" → IsServed method path livekit_webhook
  not_a_get :
      (path ≡ codes "/healthz") ⊎ (path ≡ codes "/readyz")
      → ¬ IsGet method
      → IsServed method path method_not_allowed
  not_a_post :
      path ≡ codes "/webhook/livekit"
      → method ≢ codes "POST"
      → IsServed method path method_not_allowed
  unknown :
      path ≢ codes "/healthz"
      → path ≢ codes "/readyz"
      → path ≢ codes "/webhook/livekit"
      → IsServed method path not_found

is_get-IsGet : (method : Bytes) → is_get method ≡ true → IsGet method
unfolding is_get
is_get-IsGet method h = elim (Bool-cases (str_eq method (codes "GET"))) [
  | inl g ↦ inl (eq_of_str_eq method _ g)
  | inr g ↦ inr (eq_of_str_eq method _ (ground (arith, h, g)))
]

is_get-not_IsGet : (method : Bytes) → is_get method ≡ false → ¬ IsGet method
unfolding is_get
is_get-not_IsGet method h (inl e) = ne_of_str_eq method _ (ground (arith, h)) e
is_get-not_IsGet method h (inr e) = ne_of_str_eq method _ (ground (arith, h)) e

route-IsServed : (method path : Bytes) → IsServed method path (route method path)
unfolding route
route-IsServed method path = elim (Bool-cases (str_eq path (codes "/healthz"))) [
  | inl p ↦ elim (Bool-cases (is_get method)) [
    | inl m ↦ rw (p, m) (by_liveness (eq_of_str_eq path _ p) (is_get-IsGet method m))
    | inr m ↦ rw (p, m) (not_a_get (inl (eq_of_str_eq path _ p)) (is_get-not_IsGet method m))
  ]
  | inr p ↦ elim (Bool-cases (str_eq path (codes "/readyz"))) [
    | inl q ↦ elim (Bool-cases (is_get method)) [
      | inl m ↦ rw (p, q, m) (by_readiness (eq_of_str_eq path _ q) (is_get-IsGet method m))
      | inr m ↦ rw (p, q, m) (not_a_get (inr (eq_of_str_eq path _ q)) (is_get-not_IsGet method m))
    ]
    | inr q ↦ elim (Bool-cases (str_eq path (codes "/webhook/livekit"))) [
      | inl k ↦ elim (Bool-cases (str_eq method (codes "POST"))) [
        | inl m ↦ rw (p, q, k, m) (by_webhook (eq_of_str_eq path _ k) (eq_of_str_eq method _ m))
        | inr m ↦ rw (p, q, k, m) (not_a_post (eq_of_str_eq path _ k) (ne_of_str_eq method _ m))
      ]
      | inr k ↦
          rw (p, q, k)
            (unknown (ne_of_str_eq path _ p) (ne_of_str_eq path _ q) (ne_of_str_eq path _ k))
    ]
  ]
]

-- what a ping makes of readiness
abbrev pub ready_status : Option Bytes → ℕ
ready_status none = 200
ready_status (some e) = 503

module _ {S : Type 0} (h : Handler S) where
  -- the status that a request is owed by its route; liveness does not look at the database
  abbrev pub route_status : Route → Option Bytes → Request → S → ℕ
  route_status liveness ping r s = 200
  route_status readiness ping r s = ready_status ping
  route_status livekit_webhook ping r s = status_of (answer_to h s r)
  route_status method_not_allowed ping r s = 405
  route_status not_found ping r s = 404

  -- what a request may do to the store: nothing, or what recording one signed delivery does, and that
  -- on the webhook's route alone
  abbrev pub Reaches : Route → Request → S → S → Type 0
  Reaches livekit_webhook r s s' = (s' ≡ s) ⊎ Recorded h r s s'
  Reaches _ r s s' = s' ≡ s

  readyz_lem :
      (ping : Option Bytes) (x : Exchange S)
      → ((readyz h ping x).statuses ≡ x.statuses ++ ready_status ping ∷ [])
        × ((readyz h ping x).store ≡ x.store)
  unfolding readyz answer
  readyz_lem none x = (refl, refl)
  readyz_lem (some e) x = (refl, refl)

  handle_gate :
      (t : Route) (ping : Option Bytes) (r : Request) (x : Exchange S)
      → ((handle h t ping r x).statuses ≡ x.statuses ++ route_status t ping r x.store ∷ [])
        × Reaches t r x.store (handle h t ping r x).store
  unfolding handle answer
  handle_gate liveness ping r x = (refl, refl)
  handle_gate readiness ping r x = readyz_lem ping x
  handle_gate livekit_webhook ping r x =
      ((serve_http-Answered h r x).statuses, serve_http_gate h r x)
  handle_gate method_not_allowed ping r x = (refl, refl)
  handle_gate not_found ping r x = (refl, refl)

  -- Every request is served by one of the registered patterns, GET /healthz, GET /readyz and
  -- POST /webhook/livekit, where GET stands for HEAD too, or is refused for its method or its path. It
  -- gets one status: liveness answers 200 whatever the database does, readiness 503 where the ping
  -- fails, the webhook what the delivery is owed, and the refusals 405 and 404; and the store changes
  -- on POST /webhook/livekit alone, by one signed delivery.
  pub serve_route_gate :
      (method path : Bytes) (ping : Option Bytes) (r : Request) (x : Exchange S)
      → (t : Route) × IsServed method path t
        × ((serve_route h method path ping r x).statuses
            ≡ x.statuses ++ route_status t ping r x.store ∷ [])
        × Reaches t r x.store (serve_route h method path ping r x).store
  unfolding serve_route
  serve_route_gate method path ping r x =
      let (status, reaches) = handle_gate (route method path) ping r x in
      (route method path, route-IsServed method path, status, reaches)
