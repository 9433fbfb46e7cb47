-- ===== src/Analytics/Trends.antt =====
-- The numbers of applications by day.
use talent_flow_ai_backend.Prelude.{leb, ◌-◌, ℕ, Bool, ◌&&◌}
use talent_flow_ai_backend.Model.{Application}
use talent_flow_ai_backend.Analytics.Service.{Queries, Calendar}
use talent_flow_ai_backend.Analytics.Laws.{QueriesLaws, is_live, CalendarLaws}

module _ (calendar : Calendar) where
  module _ (q : Queries) (laws : QueriesLaws q) where
    module _ (dates : CalendarLaws calendar) where
      -- The live applications of the dates from `days` before that of `now`
      abbrev pub is_recent : (now days : ℕ) → Application → Bool
      is_recent now days a = is_live a && leb (dates.day now - days) (dates.day a.applied_at)
