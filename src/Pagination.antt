-- ===== src/Pagination.antt =====
-- The paginated answers of the services, and common/dto/pagination.dto.ts.
use talent_flow_ai_backend.Prelude.{ℕ, ◌+◌, ◌-◌, ◌*◌, ◌/◌, List}

pub record Meta : Type 0 where
  pub total : ℕ
  pub page : ℕ
  pub limit : ℕ
  pub total_pages : ℕ

pub record PaginatedResult (A : Type 0) : Type 0 where
  pub rows : List A
  pub meta : Meta

-- `(page - 1) * limit`; the validation asks for `page >= 1`.
unfoldable pub skip_of : (page limit : ℕ) → ℕ
skip_of page limit = (page - 1) * limit

-- `Math.ceil(total / limit)`; the validation asks for `limit >= 1`.
unfoldable pub total_pages_of : (total limit : ℕ) → ℕ
total_pages_of total limit = (total + limit - 1) / limit

abbrev pub meta_of : (total page limit : ℕ) → Meta
meta_of total page limit = record {
  total = total;
  page = page;
  limit = limit;
  total_pages = total_pages_of total limit;
}
