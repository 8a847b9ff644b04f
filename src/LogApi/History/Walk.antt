-- ===== src/LogApi/History/Walk.antt =====
-- A client that fetches one page after the other from the listings of routes/logs.rs
-- (api-server/src/api_v1/).
use amos2026ss01_zero_downti.Prelude.{
  ℕ, zero, suc, ◌-◌, ◌≡◌, ◌↔◌, refl, sym, ap, ◌∙◌, subst, Bool, true, List, [], ◌++◌, length,
  filter, Memᴰ, Result, ok, err, arith,
}
use amos2026ss01_zero_downti.Prelude.Text.{Str}
use amos2026ss01_zero_downti.Logs.Events.{DeviceLog, LogQuery}
use amos2026ss01_zero_downti.Db.Table.{DbErr, read}
use amos2026ss01_zero_downti.Db.Table.Laws.{>>=-ok, read-ok}
use amos2026ss01_zero_downti.Routes.{
  Response, answer, success, PageParams, to_db_page, validate, Page, new_page, div_ceil, at_least_1,
}
use amos2026ss01_zero_downti.Routes.Pagination.{page_of, pages, pages-all, validate_iff}
use amos2026ss01_zero_downti.LogApi.Store.{LogTable}
use amos2026ss01_zero_downti.LogApi.History.{
  if_valid, device_log_filter, list_device_logs, paged, get_device_logs,
}

module _ {A : Type 0} where
  if_valid-success :
      (v : Result Str (Unit {0})) (r : Response (Page A)) (p : Page A)
      → if_valid v r ≡ answer success p
      → (v ≡ ok tt) × (r ≡ answer success p)
  if_valid-success (ok u) r p h = (refl, h)
  if_valid-success (err e) r p h = cc

  paged-success :
      (page : PageParams) (r : Result DbErr (List A × ℕ)) (p : Page A)
      → paged page r ≡ answer success p
      → (entries : List A) × (total : ℕ) × (r ≡ ok (entries, total))
        × (p ≡ new_page entries page.page page.page_size total)
  paged-success page (ok (entries, total)) p h = (entries, total, refl, cc)
  paged-success page (err e) p h = cc

  -- The entries of the first `n` answers.
  abbrev pub entries_of : (ℕ → Page A) → ℕ → List A
  entries_of answers zero = []
  entries_of answers (suc n) = entries_of answers n ++ (answers n).entries

  entries_of-pages :
      (answers : ℕ → Page A) (size : ℕ) (xs : List A)
      → ((i : ℕ) → (answers i).entries ≡ page_of size i xs)
      → (n : ℕ) → entries_of answers n ≡ pages size n xs
  entries_of-pages answers size xs h zero = refl
  entries_of-pages answers size xs h (suc n) = λ k. entries_of-pages answers size xs h n k ++ h n k

pred_suc : (i : ℕ) → suc i - 1 ≡ i
pred_suc i = omega arith

module _ (t : LogTable DeviceLog) (params : LogQuery) (c : LogTable.Conn t) where
  abbrev pub query : DeviceLog → Bool
  query = device_log_filter params.device_id params.level params.from params.to

  abbrev pub in_order : ℕ → ℕ → List DeviceLog
  in_order page_size page = t.ordered (λ r. r.time) query page_size page c

  -- Rows of equal time stand in the same order on each page.
  abbrev pub IsSteady : ℕ → Type 0
  IsSteady page_size = (i : ℕ) → in_order page_size i ≡ in_order page_size 0

  list_device_logs-ok :
      (page page_size : ℕ) (entries : List DeviceLog) (total : ℕ)
      → (list_device_logs t params.device_id params.level params.from params.to page page_size c).0
        ≡ ok (entries, total)
      → (entries ≡ page_of page_size page (in_order page_size page))
        × (total ≡ length (filter query (t.rows c)))
  unfolding list_device_logs
  list_device_logs-ok page page_size entries total h =
      let run =
        list_device_logs t params.device_id params.level params.from params.to page page_size c in
      let whole : run ≡ (ok (entries, total), run.1) = λ i. (h i, run.1) in
      let (n, c1, counted, h1) = >>=-ok (read (t.num_items query)) _ whole in
      let (counted', c1_is) = read-ok (t.num_items query) counted in
      let (rs, c2, fetched, h2) =
        >>=-ok (read (t.fetch_page (λ r. r.time) query page_size page)) _ h1 in
      let (fetched', c2_is) = read-ok (t.fetch_page (λ r. r.time) query page_size page) fetched in
      let entries_is : rs ≡ entries = cc in
      let total_is : n ≡ total = cc in
      (
        sym entries_is
            ∙ t.fetch_page_ordered fetched'
            ∙ ap (λ d. page_of page_size page (t.ordered (λ r. r.time) query page_size page d))
                c1_is,
        sym total_is ∙ t.num_items_length counted',
      )

  get_device_logs-success :
      (page : PageParams) (p : Page DeviceLog)
      → get_device_logs t page params c ≡ answer success p
      → (validate page ≡ ok tt)
        × (p.entries
            ≡ page_of page.page_size (to_db_page page) (in_order page.page_size (to_db_page page)))
        × (p.total_items ≡ length (filter query (t.rows c)))
        × (p.total_pages ≡ div_ceil (length (filter query (t.rows c))) (at_least_1 page.page_size))
  unfolding get_device_logs new_page
  get_device_logs-success page p h =
      let (valid, h1) = if_valid-success (validate page) _ p h in
      let (entries, total, h2, p_is) = paged-success page _ p h1 in
      let (entries_is, total_is) =
        list_device_logs-ok (to_db_page page) page.page_size entries total h2 in
      (
        valid,
        ap (λ q. q.entries) p_is ∙ entries_is,
        ap (λ q. q.total_items) p_is ∙ total_is,
        ap (λ q. q.total_pages) p_is ∙ ap (λ n. div_ceil n (at_least_1 page.page_size)) total_is,
      )

  -- If every page is answered and rows of equal time stand in the same order on each, the first
  -- `total_pages` pages together have each selected row: they are `total_items` rows, those of the
  -- table that pass the filter.
  pub get_device_logs-walk :
      (page_size : ℕ) (answers : ℕ → Page DeviceLog)
      → ((i : ℕ)
          → get_device_logs t (record { page = suc i; page_size = page_size }) params c
            ≡ answer success (answers i))
      → IsSteady page_size
      → let all = entries_of answers (answers 0).total_pages in
        (length all ≡ (answers 0).total_items)
        × ((x : DeviceLog) → Memᴰ x all ↔ (Memᴰ x (t.rows c) × (query x ≡ true)))
  get_device_logs-walk page_size answers answered steady =
      let (valid, _, items, count) = get_device_logs-success _ _ (answered 0) in
      let (_, positive, _) = (validate_iff (record { page = 1; page_size = page_size })).0 valid in
      let found = length (filter query (t.rows c)) in
      let same_length : length (in_order page_size 0) ≡ found =
        t.ordered_length (λ r. r.time) query page_size 0 c in
      let whole : at_least_1 page_size ≡ page_size = ground arith in
      let each : (i : ℕ) → (answers i).entries ≡ page_of page_size i (in_order page_size 0) = λ i.
        (get_device_logs-success _ _ (answered i)).1
        ∙ (λ k. page_of page_size (pred_suc i k) (in_order page_size (pred_suc i k)))
        ∙ ap (page_of page_size i) (steady i) in
      let all_is : entries_of answers (answers 0).total_pages ≡ in_order page_size 0 =
        entries_of-pages answers page_size (in_order page_size 0) each (answers 0).total_pages
        ∙ ap (λ n. pages page_size n (in_order page_size 0))
            (count ∙ (λ k. div_ceil (sym same_length k) (whole k)))
        ∙ pages-all page_size (in_order page_size 0) (omega arith) in
      (
        ap length all_is ∙ same_length ∙ sym items,
        λ x.
            subst (λ l. Memᴰ x l ↔ (Memᴰ x (t.rows c) × (query x ≡ true))) (sym all_is)
              (t.ordered_mem (λ r. r.time) query page_size 0 c x),
      )
