-- ===== src/Memory/Listings.antt =====
-- internal/repository/memory: what the filtered listings share (helpers.go), and the order and the page
-- of a listing. Equal items come in the order of the map, which Go leaves open.
pub mod Servers
pub mod Files
pub mod Pages
use log_integrity.Prelude.{
  Bool, true, ◌||◌, Option, none, some, List, Text, ◌==◌, text_eq, is_empty, any, length,
  if◌then◌else◌, codes,
}
use log_integrity.Prelude.Sort.{sort_by}
use log_integrity.Prelude.Strings.{trim_space, to_lower, has_substring, equal_fold}
use log_integrity.Prelude.Int.{ℤ}
use log_integrity.Models.{Time}
use log_integrity.Repository.Filters.{Page, ListOptions}
use log_integrity.Memory.Paginate.{paginate, normalize_offset}

-- normalizedSearch
unfoldable pub normalized_search : Text → Text
unfolding trim_space to_lower
normalized_search value = to_lower (trim_space value)

-- matchesSearch
unfoldable pub matches_search : Text → List Text → Bool
unfolding normalized_search has_substring
matches_search query values =
    let wanted = normalized_search query in
    if is_empty wanted then true else any (λ v. has_substring (normalized_search v) wanted) values

-- ascending
unfoldable pub ascending : Text → Bool
unfolding trim_space equal_fold
ascending order = equal_fold (trim_space order) (codes "asc")

-- `filter.F != "" && item.F != filter.F` does not hold.
abbrev pub accepts : Text → Text → Bool
accepts wanted actual = is_empty wanted || actual == wanted

-- timeValue: 0 is the zero time.
abbrev pub time_value : Option Time → Time
time_value none = 0
time_value (some t) = t

module _ {A : Type 0} where
  -- paged; `none` is the panic of paginate.
  unfoldable pub paged : List A → ℤ → ℤ → Option (Page A)
  unfolding paginate normalize_offset
  paged items offset limit = elim (paginate items offset limit) [
    | none ↦ none
    | some shown ↦ some (record {
      items = shown;
      total = length items;
      offset = normalize_offset offset;
      limit = limit;
    })
  ]

  -- The `less` of a listing's sort.
  unfoldable pub directed : (Text → A → A → Bool) → ListOptions → A → A → Bool
  unfolding ascending
  directed less options x y =
      if ascending options.order then less options.sort x y else less options.sort y x

  -- The end of each listing: the items that are selected, sorted and cut.
  unfoldable pub sorted_page : (Text → A → A → Bool) → ListOptions → List A → Option (Page A)
  unfolding directed paged
  sorted_page less options items =
      paged (sort_by (directed less options) items) options.offset options.limit
