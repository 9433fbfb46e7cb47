-- ===== src/Applications/Listing.antt =====
-- `findAll`: what a user is shown.
use talent_flow_ai_backend.Prelude.{
  String, none, some, ◌≡◌, ◌≢◌, arith, eq_iff, or_else, All, All-map, ◌≤◌, length, subst,
}
use talent_flow_ai_backend.Dto.{when_truthy}
use talent_flow_ai_backend.Model.{Candidate, Application, Db}
use talent_flow_ai_backend.Async.{ok}
use talent_flow_ai_backend.Pagination.{PaginatedResult, skip_of}
use talent_flow_ai_backend.Prisma.{PrismaClient}
use talent_flow_ai_backend.Prisma.Laws.{Reads}
use talent_flow_ai_backend.Prisma.Where.{Satisfies, Equals, JobCreatedBy, OrderBy}
use talent_flow_ai_backend.Applications.Dto.{QueryApplicationsDto}
use talent_flow_ai_backend.Applications.Service.{order_of, find_candidate, where_of, find_all}
use talent_flow_ai_backend.Applications.Access.{IsJobOwner}

module _ (p : PrismaClient) where
  where_without_candidate :
      (user_id user_role admin_id : String) (query : QueryApplicationsDto) (d : Db)
      → user_role ≢ "RECRUITER"
      → find_candidate p user_id d ≡ none
      → query.candidate_id ≡ none
      → where_of p user_id user_role query d ≡ where_of p admin_id "ADMIN" query d
  unfolding where_of when_truthy
  where_without_candidate user_id user_role admin_id query d n no_candidate no_filter = ground (
    arith,
    eq_iff user_role "RECRUITER",
    eq_iff "ADMIN" "RECRUITER",
    eq_iff "ADMIN" "INTERVIEWER",
  )

  -- What `findAll` promises of an application that it shows.
  pub record IsShown (user_id user_role : String) (d : Db) (a : Application) : Type 0 where
    pub live : a.deleted_at ≡ none
    pub recruiter : user_role ≡ "RECRUITER" → IsJobOwner user_id a d
    pub other :
        (c : Candidate)
        → user_role ≢ "RECRUITER"
        → user_role ≢ "ADMIN"
        → find_candidate p user_id d ≡ some c
        → a.candidate_id ≡ c.id

  recruiter_where :
      (user_id user_role : String) (query : QueryApplicationsDto) (d : Db)
      → user_role ≡ "RECRUITER"
      → (where_of p user_id user_role query d).job_created_by_id ≡ some user_id
  unfolding where_of
  recruiter_where user_id user_role query d e = rw ((eq_iff user_role "RECRUITER").1 e)

  other_where :
      (user_id user_role : String) (query : QueryApplicationsDto) (d : Db) (c : Candidate)
      → user_role ≢ "RECRUITER"
      → user_role ≢ "ADMIN"
      → find_candidate p user_id d ≡ some c
      → (where_of p user_id user_role query d).candidate_id ≡ some c.id
  unfolding where_of
  other_where user_id user_role query d c n m found =
      ground (arith, eq_iff user_role "RECRUITER", eq_iff user_role "ADMIN")

  IsShown-of_Satisfies :
      (user_id user_role : String) (query : QueryApplicationsDto) (d : Db) (a : Application)
      → Satisfies (where_of p user_id user_role query d) d a
      → IsShown user_id user_role d a
  IsShown-of_Satisfies user_id user_role query d a s = record {
    live = unfold where_of in s.live;
    recruiter = λ e.
        subst (λ o. JobCreatedBy o d a.job_id) (recruiter_where user_id user_role query d e)
          s.job_created_by;
    other = λ c n m found.
        subst (λ o. Equals o a.candidate_id) (other_where user_id user_role query d c n m found)
          s.candidate;
  }

  -- Of the applications on a page of `findAll` none is deleted; a recruiter is shown those to the
  -- jobs that the recruiter made; who is no recruiter and no administrator, and has a candidate, is
  -- shown those of that candidate. There are at most `limit` of them (10 if it is not given).
  pub find_all-IsShown :
      Reads Satisfies p.application
      → (user_id user_role : String) (query : QueryApplicationsDto) (d : Db)
        (r : PaginatedResult Application)
      → find_all p user_id user_role query d ≡ (ok r, d)
      → All (IsShown user_id user_role d) r.rows × (length r.rows ≤ or_else query.limit 10)
  unfolding find_all
  find_all-IsShown reads user_id user_role query d r h =
      let w = where_of p user_id user_role query d in
      let o : OrderBy = order_of query in
      let skip = skip_of (or_else query.page 1) (or_else query.limit 10) in
      let limit = or_else query.limit 10 in
      let same : r.rows ≡ p.application.find_many w o skip limit d = ground arith in
      (
        rw same (
            All-map _ (IsShown-of_Satisfies user_id user_role query d)
              (reads.find_many_holds w o skip limit d)),
        rw same (reads.find_many_limit w o skip limit d),
      )

  -- Who is no recruiter and no administrator and has no candidate is shown what an administrator is:
  -- no filter is set, and the whole answer is the same, for every query that names no candidate.
  pub find_all_without_candidate :
      (user_id user_role admin_id : String) (query : QueryApplicationsDto) (d : Db)
      → user_role ≢ "RECRUITER"
      → find_candidate p user_id d ≡ none
      → query.candidate_id ≡ none
      → find_all p user_id user_role query d ≡ find_all p admin_id "ADMIN" query d
  unfolding find_all
  find_all_without_candidate user_id user_role admin_id query d n no_candidate no_filter =
      rw (where_without_candidate user_id user_role admin_id query d n no_candidate no_filter)
