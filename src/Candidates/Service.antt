-- ===== src/Candidates/Service.antt =====
-- candidates/candidates.service.ts and candidates/dto/*.ts
use Prim.Native.String
use talent_flow_ai_backend.Prelude.{ℕ, String, Option, none, some, lookup, or_else}
use talent_flow_ai_backend.Model.{Candidate, Db}
use talent_flow_ai_backend.Async.{Async, Result, ok, err, Exception, not_found, pure, ◌>>=◌, ◌>>◌}
use talent_flow_ai_backend.Dto.{Field, written, replaced, when_truthy}
use talent_flow_ai_backend.Pagination.{PaginatedResult, meta_of, skip_of}
use talent_flow_ai_backend.Prisma.{PrismaClient}
use talent_flow_ai_backend.Prisma.Where.{CandidateWhere, OrderBy, SortOrder, desc}

-- A `null` for `fullName`, which the database refuses, is left out.
pub record UpdateCandidateDto : Type 0 where
  pub full_name : Option String
  pub phone : Field String
  pub linkedin_url : Field String

pub record QueryCandidatesDto : Type 0 where
  pub page : Option ℕ
  pub limit : Option ℕ
  pub search : Option String
  pub sort_by : Option String
  pub sort_order : Option SortOrder

abbrev pub candidate_not_found : String → Exception
candidate_not_found id =
    not_found (String.◌++◌ "Candidate with ID \"" (String.◌++◌ id "\" not found"))

-- `findUnique({ where: { id } })`, and the test on what it gives
unfoldable pub known_candidate : String → Option Candidate → Result Candidate
known_candidate id none = err (candidate_not_found id)
known_candidate id (some c) = ok c

-- `findOne`, less the applications that come along
unfoldable pub find_one : String → Async Db Candidate
unfolding known_candidate
find_one id d = (known_candidate id (lookup id d.candidates), d)

-- The `data` of `update`
abbrev pub updated : UpdateCandidateDto → Candidate → Candidate
updated dto c = record c {
  full_name = replaced dto.full_name c.full_name;
  phone = written dto.phone c.phone;
  linkedin_url = written dto.linkedin_url c.linkedin_url;
}

abbrev pub order_of : QueryCandidatesDto → OrderBy
order_of query = record {
  sort_by = or_else query.sort_by "createdAt";
  sort_order = or_else query.sort_order desc;
}

abbrev pub where_of : QueryCandidatesDto → CandidateWhere
where_of query = record { search = when_truthy query.search }

module _ (p : PrismaClient) where
  -- `findAll`
  unfoldable pub find_all : QueryCandidatesDto → Async Db (PaginatedResult Candidate)
  find_all query d =
      let page = or_else query.page 1 in
      let limit = or_else query.limit 10 in
      let w = where_of query in
      (
        ok (record {
          rows = p.candidate.find_many w (order_of query) (skip_of page limit) limit d;
          meta = meta_of (p.candidate.count w d) page limit;
        }),
        d,
      )

  -- `update`
  unfoldable pub update : String → UpdateCandidateDto → Async Db Candidate
  update id dto = do existing ← find_one id; p.candidate.update id (updated dto)

  -- `remove`
  unfoldable pub remove : String → Async Db Unit
  remove id = do existing ← find_one id; p.delete_candidate id; pure tt
