-- ===== src/Dashboard/Pagination.antt =====
-- dashboard/lib/api/pagination.ts: the query of a page. Parameters are strings as UTF-16 code units,
-- and `none` if they are missing.
pub mod Bounds
use vguardrail.Base.{
  ℕ, ◌+◌, ◌-◌, ◌*◌, String, Bool, true, false, not, ◌&&◌, ◌||◌, Option, none, some, List, [], ◌∷◌,
  ◌++◌, any, leb, ltb, take, Outcome, ok, err, if◌then◌else◌,
}
use vguardrail.Base.Units.{units, units_eq, is_space, is_empty, is_blank}
use vguardrail.Dashboard.Auth.{Failure, api_error}

abbrev pub max_per_page : ℕ
max_per_page = 100

abbrev pub max_page : ℕ
max_page = 10_000

-- `RawPagination`
pub record RawPagination : Type 0 where
  pub page : ℕ
  pub per_page : ℕ
  pub search : Option (List ℕ)
  pub sort_by : Option (List ℕ)
  pub sort_dir : Option (List ℕ)

abbrev is_digit : ℕ → Bool
is_digit c = leb 48 c && leb c 57

abbrev pub all_digits : List ℕ → Bool
all_digits [] = true
all_digits (c ∷ s) = is_digit c && all_digits s

-- `Number.parseInt` of digits, from what was read so far
abbrev pub number : ℕ → List ℕ → ℕ
number n [] = n
number n (c ∷ s) = number (n * 10 + (c - 48)) s

unfoldable pub in_range : ℕ → ℕ → ℕ → Outcome Failure ℕ
in_range min max n = if ltb n min || ltb max n then err (api_error 400 "bad_request") else ok n

unfoldable pub parse_digits : ℕ → ℕ → List ℕ → Outcome Failure ℕ
unfolding in_range
parse_digits min max raw =
    if not (all_digits raw)
    then err (api_error 400 "bad_request")
    else in_range min max (number 0 raw)

-- `parseBoundedInt`
unfoldable pub parse_bounded_int : Option (List ℕ) → ℕ → ℕ → ℕ → Outcome Failure ℕ
unfolding parse_digits
parse_bounded_int none fallback min max = ok fallback
parse_bounded_int (some raw) fallback min max =
    if is_empty raw then ok fallback else parse_digits min max raw

abbrev trim_start : List ℕ → List ℕ
trim_start [] = []
trim_start (c ∷ s) = let rest = trim_start s in if is_space c then rest else c ∷ s

abbrev trim_end : List ℕ → List ℕ
trim_end [] = []
trim_end (c ∷ s) = let rest = trim_end s in if is_blank (c ∷ s) then [] else c ∷ rest

-- `clampSearch`
unfoldable pub clamp_search : Option (List ℕ) → Option (List ℕ)
clamp_search none = none
clamp_search (some raw) =
    let trimmed = trim_end (trim_start raw) in
    if is_empty trimmed then none else some (take 200 trimmed)

-- `normalizeSort`
unfoldable pub normalize_sort : Option (List ℕ) → List (List ℕ) → Option (List ℕ)
normalize_sort none allowed = none
normalize_sort (some raw) allowed =
    if is_empty raw
    then none
    else if any (λ field. units_eq field raw) allowed
    then some raw
    else none

-- `normalizeDir`; `lower` is `toLowerCase`.
unfoldable pub normalize_dir : (List ℕ → List ℕ) → Option (List ℕ) → Option (List ℕ)
normalize_dir lower none = none
normalize_dir lower (some raw) =
    if units_eq (lower raw) (units "asc") || units_eq (lower raw) (units "desc")
    then some (lower raw)
    else none

unfoldable pub paginated :
    Outcome Failure ℕ
    → Outcome Failure ℕ
    → Option (List ℕ)
    → Option (List ℕ)
    → Option (List ℕ)
    → Outcome Failure RawPagination
paginated (err e) page search sort_by sort_dir = err e
paginated (ok per_page) (err e) search sort_by sort_dir = err e
paginated (ok per_page) (ok page) search sort_by sort_dir = ok (record {
  page = page;
  per_page = per_page;
  search = search;
  sort_by = sort_by;
  sort_dir = sort_dir;
})

-- `parsePagination`, from the parameters of the request
unfoldable pub parse_pagination :
    (String → Option (List ℕ))
    → (List ℕ → List ℕ)
    → List (List ℕ)
    → ℕ
    → Outcome Failure RawPagination
unfolding paginated parse_bounded_int clamp_search normalize_sort normalize_dir
parse_pagination params lower allowed_sort default_per_page =
    paginated (parse_bounded_int (params "per_page") default_per_page 1 max_per_page)
      (parse_bounded_int (params "page") 1 1 max_page) (clamp_search (params "search"))
      (normalize_sort (params "sort_by") allowed_sort) (normalize_dir lower (params "sort_dir"))
