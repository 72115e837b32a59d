-- ===== src/Dashboard/Pagination/Bounds.antt =====
-- A page that is asked for is within the bounds.
use vguardrail.Base.{
  ◌≡◌, refl, subst, arith, ℕ, ◌≤◌, String, ◌||◌, Option, none, some, List, Outcome, ok, err, ltb,
  Bool-cases, inl, inr,
}
use vguardrail.Base.Units.{is_empty}
use vguardrail.Dashboard.Auth.{Failure}
use vguardrail.Dashboard.Pagination.{
  RawPagination, max_per_page, max_page, in_range, parse_digits, parse_bounded_int, paginated,
  parse_pagination, number, all_digits,
}

in_range_bounds : (min max n m : ℕ) → in_range min max n ≡ ok m → (min ≤ m) × (m ≤ max)
unfolding in_range
in_range_bounds min max n m = elim (Bool-cases (ltb n min || ltb max n)) [
  | inl out ↦ rw out (λ e. absurd (cc))
  | inr inside ↦ rw inside (λ e.
      let same : n ≡ m = cc in
      let within : (min ≤ n) × (n ≤ max) = (ground arith, ground arith) in
      subst (λ x. (min ≤ x) × (x ≤ max)) same within)
]

parse_digits_bounds :
    (min max : ℕ) (raw : List ℕ) (m : ℕ) → parse_digits min max raw ≡ ok m → (min ≤ m) × (m ≤ max)
unfolding parse_digits
parse_digits_bounds min max raw m = elim (Bool-cases (all_digits raw)) [
  | inl digits ↦ rw digits (in_range_bounds min max (number 0 raw) m)
  | inr other ↦ rw other (λ e. absurd (cc))
]

parse_bounded_int_bounds :
    (o : Option (List ℕ)) (fallback min max m : ℕ)
    → min ≤ fallback
    → fallback ≤ max
    → parse_bounded_int o fallback min max ≡ ok m
    → (min ≤ m) × (m ≤ max)
unfolding parse_bounded_int
parse_bounded_int_bounds none fallback min max m low high =
    λ e. let same : fallback ≡ m = cc in subst (λ x. (min ≤ x) × (x ≤ max)) same (low, high)
parse_bounded_int_bounds (some raw) fallback min max m low high = elim (Bool-cases (is_empty raw)) [
  | inl empty ↦
      rw empty
        (λ e. let same : fallback ≡ m = cc in subst (λ x. (min ≤ x) × (x ≤ max)) same (low, high))
  | inr filled ↦ rw filled (parse_digits_bounds min max raw m)
]

-- What a page may be, with a default for its size.
abbrev pub IsPage : RawPagination → Type 0
IsPage r = (1 ≤ r.page) × (r.page ≤ max_page) × (1 ≤ r.per_page) × (r.per_page ≤ max_per_page)

paginated-IsPage :
    (a b : Outcome Failure ℕ) (search sort_by sort_dir : Option (List ℕ)) (r : RawPagination)
    → ((n : ℕ) → a ≡ ok n → (1 ≤ n) × (n ≤ max_per_page))
    → ((n : ℕ) → b ≡ ok n → (1 ≤ n) × (n ≤ max_page))
    → paginated a b search sort_by sort_dir ≡ ok r
    → IsPage r
unfolding paginated
paginated-IsPage (err e) b search sort_by sort_dir r h g q = absurd (cc)
paginated-IsPage (ok n) (err e) search sort_by sort_dir r h g q = absurd (cc)
paginated-IsPage (ok n) (ok m) search sort_by sort_dir r h g q =
    let (low, high) = h n refl in
    let (first, last) = g m refl in
    let page : RawPagination = record {
      page = m;
      per_page = n;
      search = search;
      sort_by = sort_by;
      sort_dir = sort_dir;
    } in
    let same : page ≡ r = cc in subst IsPage same (first, last, low, high)

-- Whatever the parameters of a request say, a page that is accepted is one of the first ten thousand
-- and has between one and a hundred entries, if the default is within these bounds.
pub parse_pagination-IsPage :
    (params : String → Option (List ℕ)) (lower : List ℕ → List ℕ) (allowed_sort : List (List ℕ))
    (default_per_page : ℕ) (r : RawPagination)
    → 1 ≤ default_per_page
    → default_per_page ≤ max_per_page
    → parse_pagination params lower allowed_sort default_per_page ≡ ok r
    → IsPage r
unfolding parse_pagination
parse_pagination-IsPage params lower allowed_sort default_per_page r low high =
    paginated-IsPage (parse_bounded_int (params "per_page") default_per_page 1 max_per_page)
      (parse_bounded_int (params "page") 1 1 max_page) _ _ _ r
      (λ n e.
        parse_bounded_int_bounds (params "per_page") default_per_page 1 max_per_page n low high e)
      (λ n e. parse_bounded_int_bounds (params "page") 1 1 max_page n (omega arith) (omega arith) e)
