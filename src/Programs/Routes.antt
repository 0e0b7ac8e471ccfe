-- ===== src/Programs/Routes.antt =====
-- cmd/ingester/main.go: the routes of the ingester's server. A path is taken as `ServeMux` has
-- cleaned it; a pattern for GET also matches HEAD.
pub mod Gate
use session_analysis_platfor.Prelude.{
  ℕ, Bool, true, false, ◌||◌, List, [], ◌∷◌, ◌++◌, Option, none, some, Bytes, codes, if◌then◌else◌,
  str_eq,
}
use session_analysis_platfor.Webhook.{Exchange, Handler, Request, serve_http}

pub data Route : Type 0 where
  liveness readiness livekit_webhook method_not_allowed not_found : Route

is_get : Bytes → Bool
is_get method = str_eq method (codes "GET") || str_eq method (codes "HEAD")

-- which handler `ServeMux` calls
unfoldable pub route : Bytes → Bytes → Route
unfolding is_get
route method path =
    if str_eq path (codes "/healthz")
    then (if is_get method then liveness else method_not_allowed)
    else if str_eq path (codes "/readyz")
    then (if is_get method then readiness else method_not_allowed)
    else if str_eq path (codes "/webhook/livekit")
    then (if str_eq method (codes "POST") then livekit_webhook else method_not_allowed)
    else not_found

module _ {S : Type 0} (h : Handler S) where
  answer : ℕ → Exchange S → Exchange S
  answer status x = record x { statuses = x.statuses ++ status ∷ [] }

  -- the readiness handler; the error is that of the ping
  readyz : Option Bytes → Exchange S → Exchange S
  unfolding answer
  readyz none x = answer 200 x
  readyz (some e) x = answer 503 x

  handle : Route → Option Bytes → Request → Exchange S → Exchange S
  unfolding readyz
  handle liveness ping r x = answer 200 x
  handle readiness ping r x = readyz ping x
  handle livekit_webhook ping r x = serve_http h r x
  handle method_not_allowed ping r x = answer 405 x
  handle not_found ping r x = answer 404 x

  -- one request to the ingester's server, and what a ping of the database would answer
  unfoldable pub serve_route : Bytes → Bytes → Option Bytes → Request → Exchange S → Exchange S
  unfolding handle
  serve_route method path ping r x = handle (route method path) ping r x
