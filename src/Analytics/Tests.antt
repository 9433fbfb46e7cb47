-- ===== src/Analytics/Tests.antt =====
-- Runs of the statistics in memory, and their theorems at them.
use talent_flow_ai_backend.Prelude.{
  leb, arith, true, ℕ, String, none, some, [], ◌∷◌, ◌≡◌, ◌≤◌, refl, lookup, insert, map, ◌+◌, ◌*◌,
  ◌-◌, ◌/◌, if◌then◌else◌, nat_eq,
}
use talent_flow_ai_backend.Model.{
  Db, Application, ApplicationStage, applied, hired, same_stage, ApplicationStage-discrete,
  ApplicationStatus,
}
use talent_flow_ai_backend.Analytics.Service.{
  Moments, Calendar, get_overview, get_pipeline, get_trends, all_stages, hire_rate_of, with_dates,
  counted, date_key, start_date, add_days, diff, ℤ, pos, negsuc, live_applications,
}
use talent_flow_ai_backend.Analytics.Laws.{
  CalendarLaws, count_rows, count_of, is_at, is_live, is_live_job, is_open_job, total_of,
}
use talent_flow_ai_backend.Analytics.Overview.{get_overview-hire_rate}
use talent_flow_ai_backend.Analytics.Pipeline.{get_pipeline-counts}
use talent_flow_ai_backend.Texts.{split}
use talent_flow_ai_backend.Analytics.Memory.{memory, memory-QueriesLaws, times}

abbrev application_at : ApplicationStage → ℕ → Application
application_at stage time = record {
  id = "a";
  job_id = "j1";
  candidate_id = "c";
  stage = stage;
  status = ApplicationStatus.submitted;
  cv_file_key = none;
  cv_file_url = none;
  cover_letter = none;
  notes = none;
  applied_at = time;
  reviewed_at = none;
  deleted_at = none;
}

abbrev full : Db
full = record {
  users = [];
  jobs = [];
  candidates = [];
  applications =
      ("a1", application_at applied 101)
      ∷ ("a2", application_at hired 205)
      ∷ ("a3", application_at applied 207)
      ∷ ("a4", record (application_at hired 208) { deleted_at = some 210 })
      ∷ [];
  interviews = [];
}

-- Days of a hundred units, in one month that has no end
date_text : ℕ → String
date_text day = if nat_eq day 1 then "1T00" else if nat_eq day 2 then "2T00" else "0T00"

days_to : ℤ → ℕ
days_to (pos day) = day
days_to (negsuc n) = 0

abbrev digits : Calendar
digits = record {
  get_date = λ time. time / 100;
  set_date = λ time day. days_to day * 100 + (time - time / 100 * 100);
  set_hours = λ time h m s ms. time / 100 * 100 + h + m + s + ms;
  to_iso_string = λ time. date_text (time / 100);
}

abbrev at_once : Moments
at_once = record {
  at_jobs = full;
  at_open_jobs = full;
  at_candidates = full;
  at_applications = full;
  at_hired = full;
}

a_third : (get_overview memory at_once).hire_rate ≡ 333
unfolding get_overview count_rows count_of same_stage ApplicationStage-discrete hire_rate_of
a_third = refl

two_days : get_trends digits memory 209 1 full ≡ ("1", 1) ∷ ("2", 2) ∷ []
unfolding get_trends with_dates counted times insert lookup date_key start_date add_days split diff
    date_text days_to
two_days = refl

get_overview-hire_rate_example :
    ((get_overview memory at_once).total_jobs ≡ count_rows is_live_job full.jobs)
    × ((get_overview memory at_once).open_jobs ≡ count_rows is_open_job full.jobs)
    × ((get_overview memory at_once).total_applications ≡ count_rows is_live full.applications)
    × ((get_overview memory at_once).hired_count ≡ count_rows (is_at hired) full.applications)
    × (at_once.at_hired ≡ at_once.at_applications
        → ((get_overview memory at_once).hired_count
            ≤ (get_overview memory at_once).total_applications)
          × (get_overview memory at_once).hire_rate ≤ 1000)
get_overview-hire_rate_example = get_overview-hire_rate memory memory-QueriesLaws at_once

get_pipeline-counts_example :
    (get_pipeline memory full ≡ map (λ s. (s, count_rows (is_at s) full.applications)) all_stages)
    × (total_of (get_pipeline memory full) ≡ count_rows is_live full.applications)
    × total_of (get_pipeline memory full) ≡ memory.count_applications live_applications full
get_pipeline-counts_example = get_pipeline-counts memory memory-QueriesLaws full

digits_laws : CalendarLaws digits
unfolding days_to diff
digits_laws = record {
  day = λ t. t / 100;
  midnight = λ k. k * 100;
  day_midnight = λ k. omega arith;
  midnight_leb = λ k t. ground arith;
  set_hours_zero = λ t. omega arith;
  set_date_back =
      λ t n h. let shown : leb n (t / 100) ≡ true = ground arith in rw shown (omega (arith, h));
  set_date_on = λ t n. omega arith;
}
