-- ===== src/Process.antt =====
-- What the two programs do to the world outside them, as a list of calls, and the resources among
-- these calls that have to be given back.
use session_analysis_platfor.Prelude.{
  ℕ, Bool, List, [], ◌∷◌, Option, none, some, Bytes, ◌==◌, if◌then◌else◌,
}
use session_analysis_platfor.Prelude.Int.{ℤ}
use session_analysis_platfor.Livekit.Verify.{Verifier}

pub data Resource : Type 0 where
  signals tracer meter pool : Resource

pub data ExporterOption : Type 0 where
  with_endpoint : Bytes → ExporterOption
  with_insecure : ExporterOption

-- what an HTTP server is started with; the query API has neither verifier nor limit
pub record Served : Type 0 where
  pub addr : Bytes
  pub verifier : Option Verifier
  pub max_body_bytes : Option ℤ

pub data Call : Type 0 where
  acquire release : Resource → Call
  describe : List (Bytes × Bytes) → Call
  connect : Resource → List ExporterOption → Call
  install : Resource → Call
  set_propagator start_runtime ping : Call
  listen : Served → Call
  stop_listening : Call
  info warn fatal : Bytes → Call

place : Resource → ℕ
place signals = 0
place tracer = 1
place meter = 2
place pool = 3

unfoldable pub same_resource : Resource → Resource → Bool
unfolding place
same_resource r s = place r == place s

-- The resources that are held after some calls, the last one first; `none` where one is given back
-- that is not the last of those held.
unfoldable pub held : List Call → List Resource → Option (List Resource)
held [] open_ = some open_
held (acquire r ∷ calls) open_ = held calls (r ∷ open_)
held (release r ∷ calls) [] = none
held (release r ∷ calls) (o ∷ open_) =
    let rest = held calls open_ in if same_resource r o then rest else none
held (describe as_ ∷ calls) open_ = held calls open_
held (connect r os ∷ calls) open_ = held calls open_
held (install r ∷ calls) open_ = held calls open_
held (set_propagator ∷ calls) open_ = held calls open_
held (start_runtime ∷ calls) open_ = held calls open_
held (ping ∷ calls) open_ = held calls open_
held (listen s ∷ calls) open_ = held calls open_
held (stop_listening ∷ calls) open_ = held calls open_
held (info m ∷ calls) open_ = held calls open_
held (warn m ∷ calls) open_ = held calls open_
held (fatal m ∷ calls) open_ = held calls open_

-- the servers that were started
unfoldable pub served : List Call → List Served
served [] = []
served (listen s ∷ calls) = s ∷ served calls
served (_ ∷ calls) = served calls
