-- ===== src/Memory/Listings/Pages.antt =====
-- A filtered listing is a page of the selected items in their order.
use log_integrity.Prelude.{
  ◌+◌, ◌^◌, ◌<◌, ◌≡◌, refl, ap₂, ◌∙◌, ◌↔◌, ℕ, length-keep-le, Bool, true, false, some, List, Text,
  ◌==◌, text_eq, codes, nat_beq, ltb, arith, In, In-keep, In-keep_inv, keep, length, take, drop,
  if◌then◌else◌,
}
use log_integrity.Prelude.Classes.{text_beq}
use log_integrity.Prelude.GoMap.{values}
use log_integrity.Prelude.Int.{pos}
use log_integrity.Prelude.Sort.{
  sort_by, IsOrdered, In-sort_by, sort_by-In, sort_by-IsOrdered, length-sort_by,
}
use log_integrity.Prelude.Order.{
  IsWeak, Ties, number-IsWeak, int-IsWeak, text-IsWeak, int-Ties, text-Ties, lexical-IsWeak,
  reversed-IsWeak,
}
use log_integrity.Models.{Server, LogEntry, ServerStatus}
use log_integrity.Models.Names.{server_status_name}
use log_integrity.Repository.Filters.{Page, ListOptions, ServerListFilter, LogEntryListFilter}
use log_integrity.Memory.{Storage}
use log_integrity.Memory.Paginate.{paginate_page, normalize_offset}
use log_integrity.Memory.Listings.{directed, paged, sorted_page, time_value, ascending}
use log_integrity.Memory.Listings.Servers.{
  compare_servers, server_matches, list_servers_filtered, server_status_rank,
}
use log_integrity.Memory.Listings.Files.{
  compare_log_entries, log_entry_matches, list_log_entries_filtered,
}

-- The items of a page, and of what list it is a part: in the order `less`, with exactly the stored
-- items that are selected, as many as the total of the page says.
pub record IsPage {A : Type 0} (less : A → A → Bool) (stored : List A) (selects : A → Bool)
    (offset limit : ℕ) (page : Page A) : Type 0 where
  pub whole : List A
  pub ordered : IsOrdered less whole
  pub exact : (x : A) → In x whole ↔ (In x stored × (selects x ≡ true))
  pub total : (page.total ≡ length whole) × (length whole ≡ length (keep selects stored))
  pub shown :
      page.items ≡ (if nat_beq limit 0 then drop offset whole else take limit (drop offset whole))

-- The branches of a comparison.
if-IsWeak :
    {A : Type 0} (b : Bool) (first second : A → A → Bool)
    → IsWeak first
    → IsWeak second
    → IsWeak (λ x y. if b then first x y else second x y)
if-IsWeak true first second v w = v
if-IsWeak false first second v w = w

page_of : {A : Type 0} → List A → ℕ → ℕ → Page A
page_of whole offset limit = record {
  items = if nat_beq limit 0 then drop offset whole else take limit (drop offset whole);
  total = length whole;
  offset = normalize_offset (pos offset);
  limit = pos limit;
}

paged_page :
    {A : Type 0} (whole : List A) (offset limit : ℕ)
    → length whole < 2 ^ 63
    → offset + limit < 2 ^ 63
    → paged whole (pos offset) (pos limit) ≡ some (page_of whole offset limit)
unfolding paged page_of normalize_offset
paged_page whole offset limit small sum =
    rw (paginate_page whole offset limit small sum, paged) refl

module _ {A : Type 0} (less : Text → A → A → Bool) (weak : (by : Text) → IsWeak (less by))
    (options : ListOptions) where
  directed-IsWeak : IsWeak (directed less options)
  unfolding directed
  directed-IsWeak =
      if-IsWeak (ascending options.order) (less options.sort) (λ x y. less options.sort y x)
        (weak options.sort) (reversed-IsWeak (less options.sort) (weak options.sort))

  -- Below 2^63 items, with an offset and a limit of no more than that together, the page is there.
  sorted_page-IsPage :
      (stored : List A) (selects : A → Bool) (offset limit : ℕ)
      → options.offset ≡ pos offset
      → options.limit ≡ pos limit
      → length stored < 2 ^ 63
      → offset + limit < 2 ^ 63
      → (page : Page A) × (sorted_page less options (keep selects stored) ≡ some page)
        × IsPage (directed less options) stored selects offset limit page
  unfolding sorted_page page_of
  sorted_page-IsPage stored selects offset limit o l small sum = (
    page_of sorted offset limit,
    ap₂ (paged sorted) o l
        ∙ paged_page sorted offset limit
            (omega (
              arith,
              length-sort_by (directed less options) (keep selects stored),
              length-keep-le selects stored,
            ))
            sum,
    record {
      whole = sorted;
      ordered =
          sort_by-IsOrdered (directed less options) directed-IsWeak.asym directed-IsWeak.through
            (keep selects stored);
      exact = λ x. (
        λ i.
            In-keep_inv selects x stored
              (sort_by-In (directed less options) x (keep selects stored) i),
        λ i.
            In-sort_by (directed less options) x (keep selects stored)
              (In-keep selects x stored i.0 i.1),
      );
      total = (refl, length-sort_by (directed less options) (keep selects stored));
      shown = refl;
    },
  )
    where
      sorted : List A
      sorted = sort_by (directed less options) (keep selects stored)

status-Ties :
    Ties
      (λ (x y : Server). server_status_name x.status == server_status_name y.status)
      (λ x y. ltb (server_status_rank x.status) (server_status_rank y.status))
unfolding text_beq
status-Ties x y = go x.status y.status
  where
    go :
        (a b : ServerStatus)
        → ((server_status_name a == server_status_name b) ≡ true) ↔ (
            (ltb (server_status_rank a) (server_status_rank b) ≡ false)
            × (ltb (server_status_rank b) (server_status_rank a) ≡ false))
    go a b = ground arith

compare_servers-IsWeak : (by : Text) → IsWeak (compare_servers by)
unfolding compare_servers
compare_servers-IsWeak by =
    if-IsWeak (by == codes "status") _ _
      (lexical-IsWeak _ _ _ status-Ties (number-IsWeak (λ x. server_status_rank x.status))
        (text-IsWeak (λ x. x.name)))
      (if-IsWeak (by == codes "last_seen") _ _ (number-IsWeak (λ x. time_value x.last_seen_at)) (
        if-IsWeak (by == codes "failures") _ _
          (lexical-IsWeak _ _ _ (int-Ties (λ x. x.failure_count))
            (int-IsWeak (λ x. x.failure_count)) (text-IsWeak (λ x. x.name)))
          (lexical-IsWeak _ _ _ (text-Ties (λ x. x.name)) (text-IsWeak (λ x. x.name))
            (text-IsWeak (λ x. x.id)))))

-- For fewer than 2^63 servers, and an offset and a limit from 0 whose sum is below 2^63,
-- ListServersFiltered returns a page of exactly the stored servers that pass the filter, in the
-- order asked for: the items from the offset on, at most as many as the limit, or all of them for
-- the limit 0, and the number of all of them as the total.
pub list_servers_filtered-IsPage :
    (s : Storage) (filter : ServerListFilter) (offset limit : ℕ)
    → filter.options.offset ≡ pos offset
    → filter.options.limit ≡ pos limit
    → length (values s.servers) < 2 ^ 63
    → offset + limit < 2 ^ 63
    → (page : Page Server) × (list_servers_filtered s filter ≡ some page)
      × IsPage
          (directed compare_servers filter.options)
          (values s.servers)
          (server_matches filter)
          offset
          limit
          page
unfolding list_servers_filtered
list_servers_filtered-IsPage s filter =
    sorted_page-IsPage compare_servers compare_servers-IsWeak filter.options (values s.servers)
      (server_matches filter)

compare_log_entries-IsWeak : (by : Text) → IsWeak (compare_log_entries by)
unfolding compare_log_entries
compare_log_entries-IsWeak by =
    if-IsWeak (by == codes "collected_at") _ _ (number-IsWeak (λ x. x.collected_at)) (
      lexical-IsWeak _ _ _ (int-Ties (λ x. x.line_number)) (int-IsWeak (λ x. x.line_number))
        (text-IsWeak (λ x. x.id)))

-- For fewer than 2^63 entries, and an offset and a limit from 0 whose sum is below 2^63,
-- ListLogEntriesFiltered returns a page of exactly the stored entries of all files that pass the
-- filter, in the order asked for.
pub list_log_entries_filtered-IsPage :
    (s : Storage) (filter : LogEntryListFilter) (offset limit : ℕ)
    → filter.options.offset ≡ pos offset
    → filter.options.limit ≡ pos limit
    → length (values s.entries) < 2 ^ 63
    → offset + limit < 2 ^ 63
    → (page : Page LogEntry) × (list_log_entries_filtered s filter ≡ some page)
      × IsPage
          (directed compare_log_entries filter.options)
          (values s.entries)
          (log_entry_matches filter)
          offset
          limit
          page
unfolding list_log_entries_filtered
list_log_entries_filtered-IsPage s filter =
    sorted_page-IsPage compare_log_entries compare_log_entries-IsWeak filter.options
      (values s.entries) (log_entry_matches filter)
