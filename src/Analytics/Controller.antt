-- ===== src/Analytics/Controller.antt =====
-- analytics/analytics.controller.ts.
use talent_flow_ai_backend.Prelude.{ℕ, Option, some, List, [], ◌∷◌, Bool, false, Table, or_else}
use talent_flow_ai_backend.Model.{Db, Role, recruiter, admin, ApplicationStage}
use talent_flow_ai_backend.Async.{Async, ok}
use talent_flow_ai_backend.Auth.Service.{PublicUser}
use talent_flow_ai_backend.Gateway.{Controller}
use talent_flow_ai_backend.Analytics.Service.{
  Queries, Overview, Calendar, TopJob, get_overview, get_pipeline, get_trends, get_top_jobs,
}

pub data Route : Type 0 where
  overview pipeline : Route
  trends : (days : Option ℕ) → Route
  top_jobs : (limit : Option ℕ) → Route

pub data Reply : Type 0 where
  statistics : Overview → Reply
  stages : List (ApplicationStage × ℕ) → Reply
  points : Table ℕ → Reply
  jobs : List TopJob → Reply

abbrev pub is_public : Route → Bool
is_public _ = false

-- `@Roles(…)` on the class
abbrev pub roles : Route → Option (List Role)
roles _ = some (recruiter ∷ admin ∷ [])

-- On a database that no other request writes to meanwhile
module _ (q : Queries) (calendar : Calendar) (now : ℕ) where
  unfoldable pub handle : Option PublicUser → Route → Async Db Reply
  handle user overview d = (
    ok (
        statistics (
          get_overview q (record {
            at_jobs = d;
            at_open_jobs = d;
            at_candidates = d;
            at_applications = d;
            at_hired = d;
          }))),
    d,
  )
  handle user pipeline d = (ok (stages (get_pipeline q d)), d)
  handle user (trends days) d = (ok (points (get_trends calendar q now (or_else days 30) d)), d)
  handle user (top_jobs limit) d = (ok (jobs (get_top_jobs q (or_else limit 5) d)), d)

  abbrev pub controller : Controller Db Route Reply
  controller = record { is_public = is_public; roles = roles; handle = handle }
