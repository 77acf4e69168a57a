-- ===== src/Pagination.antt =====
-- common/pagination.py: the rows of a page, and the links of a page to others. A link is the library's
-- URL for a query of a page and a size. The number of pages is taken as exact: the code divides by
-- floating point, which is exact for totals up to 2 ^ 53.
pub mod Cover
use git_hub_repository_resea.Base.{
  ℕ, zero, suc, ◌+◌, ◌-◌, ◌*◌, ◌/◌, Bool, Option, none, some, List, ltb, leb, if◌then◌else◌,
}

-- `page` is at least 1 and `size` at least 1 and at most 200: FastAPI refuses other queries.
pub record PageParams : Type 0 where
  pub page : ℕ
  pub size : ℕ

pub record RawParams : Type 0 where
  pub limit : ℕ
  pub offset : ℕ

unfoldable pub to_raw_params : PageParams → RawParams
to_raw_params params = record { limit = params.size; offset = params.size * (params.page - 1) }

-- ceil(total / size)
unfoldable pub ceil_div : ℕ → ℕ → ℕ
ceil_div total size = (total + size - 1) / size

pub record Links : Type 0 where
  pub first : PageParams
  pub last : PageParams
  pub next : Option PageParams
  pub prev : Option PageParams

pub record Page (T : Type 0) : Type 0 where
  pub items : List T
  pub total : ℕ
  pub page : ℕ
  pub size : ℕ
  pub total_pages : ℕ
  pub links : Links

module _ {T : Type 0} where
  unfoldable pub create : List T → PageParams → ℕ → Page T
  unfolding ceil_div
  create items params total =
      let page = params.page in
      let size = params.size in
      let total_pages = ceil_div total size in
      record {
        items = items;
        total = total;
        page = page;
        size = size;
        total_pages = total_pages;
        links = record {
          first = record { page = 1; size = size };
          last =
              if ltb 0 total
              then record { page = total_pages; size = size }
              else record { page = 1; size = size };
          next =
              if leb (page + 1) total_pages
              then some (record { page = page + 1; size = size })
              else none;
          prev = if leb 1 (page - 1) then some (record { page = page - 1; size = size }) else none;
        };
      }
