-- ===== src/Users/Tests.antt =====
-- Runs of the accounts service in memory, and its theorems at concrete inputs.
use talent_flow_ai_backend.Prelude.{none, some, ◌≡◌, refl, lookup, insert, [], ◌∷◌}
use talent_flow_ai_backend.Dto.{when_truthy}
use talent_flow_ai_backend.Model.{User, Role, Db}
use talent_flow_ai_backend.Async.{ok, err, forbidden}
use talent_flow_ai_backend.Pagination.{PaginatedResult, skip_of, total_pages_of}
use talent_flow_ai_backend.Prisma.Memory.{memory}
use talent_flow_ai_backend.Prisma.Memory.Search.{search, select}
use talent_flow_ai_backend.Prisma.Memory.Filters.{satisfies_user}
use talent_flow_ai_backend.Prisma.Memory.Rows.{create_in, update_in}
use talent_flow_ai_backend.Users.Service.{
  SafeUser, QueryUsersDto, safe, find_live, find_one_profile, update_profile, update_role,
  soft_delete_user, find_all, where_of, create,
}

-- What a run computes with.
unfoldable run : Unit {0}
unfolding satisfies_user create find_live find_one_profile update_profile update_role
    soft_delete_user find_all where_of search select create_in update_in lookup insert when_truthy
    skip_of total_pages_of
run = tt

abbrev cleo : User
cleo = record {
  id = "k";
  email = "cleo@example.com";
  password = "hash";
  role = Role.recruiter;
  full_name = "Cleo";
  deleted_at = none;
}

abbrev empty : Db
empty = record { users = []; jobs = []; candidates = []; applications = []; interviews = [] }

abbrev with_cleo : Db
with_cleo = record empty { users = ("k", cleo) ∷ [] }

create_runs :
    create memory "cleo@example.com" "hash" "Cleo" Role.recruiter empty ≡ (ok cleo, with_cleo)
unfolding run
create_runs = refl

rename_runs :
    (update_profile memory "k" "k" "RECRUITER" (some "Cleo C.") with_cleo).0
    ≡ ok (safe (record cleo { full_name = "Cleo C." }))
unfolding run
rename_runs = refl

rename_refused :
    update_profile memory "k" "u2" "RECRUITER" (some "X") with_cleo
    ≡ (err (forbidden "You can only update your own profile"), with_cleo)
unfolding run
rename_refused = refl

role_runs :
    (update_role memory "k" Role.admin with_cleo).0 ≡ ok (safe (record cleo { role = Role.admin }))
unfolding run
role_runs = refl

delete_runs : (soft_delete_user memory 4 "k" with_cleo).0 ≡ ok tt
unfolding run
delete_runs = refl

abbrev everyone : QueryUsersDto
everyone = record {
  page = none;
  limit = some 5;
  search = none;
  role = none;
  sort_by = none;
  sort_order = none;
}

abbrev page_of_one : PaginatedResult SafeUser
page_of_one = record {
  rows = safe cleo ∷ [];
  meta = record { total = 1; page = 1; limit = 5; total_pages = 1 };
}

list_runs : find_all memory everyone with_cleo ≡ (ok page_of_one, with_cleo)
unfolding run
list_runs = refl
