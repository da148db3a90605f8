-- ===== src/Admin/Usage/Pages.antt =====
-- A page is never longer than its limit, and the pages together are the log.
use mirasim2api.Base.{
  ℕ, zero, suc, ◌+◌, ◌*◌, ◌≤◌, ◌≡◌, refl, sym, ap, ap₂, ◌∙◌, Bool, true, false, List, [], ◌∷◌, ◌++◌,
  arith, length, take, drop, length-take, take-drop-take, drop-drop, take_all, filter,
}
use mirasim2api.Base.Int.{ℤ}
use mirasim2api.Store.Database.{Database}
use mirasim2api.Store.Logs.{
  LogFilter, usage_log_where, newest_first, place_log, page, query_usage_logs, count_usage_logs,
}
use mirasim2api.Store.Rows.{UsageLog}
use mirasim2api.Admin.Usage.{
  Times, LogQuery, log_page, clamp_limit, filter_of, answer_logs, answer_since, Since, bad_since,
  since, handle_usage_logs, parse_since,
}

clamp_limit-bounds : (n : ℤ) → (1 ≤ clamp_limit n) × (clamp_limit n ≤ 500)
unfolding clamp_limit
clamp_limit-bounds n = ground arith

module _ {R : Type 0} where
  length-place_log :
      (l : UsageLog R) (ls : List (UsageLog R)) → length (place_log l ls) ≡ suc (length ls)
  unfolding place_log
  length-place_log l [] = refl
  length-place_log l (x ∷ ls) = ground (arith, length-place_log l ls)

  length-newest_first : (ls : List (UsageLog R)) → length (newest_first ls) ≡ length ls
  unfolding newest_first
  length-newest_first [] = refl
  length-newest_first (l ∷ ls) =
      length-place_log l (newest_first ls) ∙ ap suc (length-newest_first ls)

  -- The pages at the offsets 0, limit, twice the limit and so on, `n` of them.
  unfoldable pub pages : ℕ → (offset : ℕ) → LogFilter → Database R → List (UsageLog R)
  pages zero offset f db = []
  pages (suc n) offset f db =
      query_usage_logs (record f { offset = offset }) db ++ pages n (offset + f.limit) f db

  -- All that the filter finds, newest first.
  abbrev pub found : LogFilter → Database R → List (UsageLog R)
  found f db = newest_first (filter (usage_log_where f) db.usage_logs)

  page-take :
      (limit offset : ℕ) (ls : List (UsageLog R))
      → 1 ≤ limit
      → page limit offset ls ≡ take limit (drop offset ls)
  unfolding page
  page-take zero offset ls h = absurd (omega arith)
  page-take (suc limit) offset ls h = refl

  pages-take :
      (n offset : ℕ) (f : LogFilter) (db : Database R)
      → 1 ≤ f.limit
      → pages n offset f db ≡ take (n * f.limit) (drop offset (found f db))
  unfolding pages query_usage_logs usage_log_where
  pages-take zero offset f db h =
      let e : 0 ≡ 0 * f.limit = omega arith in ap (λ k. take k (drop offset (found f db))) e
  pages-take (suc n) offset f db h =
      let all = found f db in
      let rest = n * f.limit in
      let total : f.limit + rest ≡ suc n * f.limit = omega arith in
      ap₂ (λ a b. a ++ b) (page-take f.limit offset all h)
        (pages-take n (offset + f.limit) f db h
          ∙ ap (take rest) (sym (drop-drop offset f.limit all)))
      ∙ take-drop-take f.limit rest (drop offset all)
      ∙ ap (λ k. take k (drop offset all)) total

  -- Where a query has a limit and enough pages are read, they are together all the logs that the
  -- filter finds, newest first, each once; and `total` is their number.
  pub pages_lem :
      (n : ℕ) (f : LogFilter) (db : Database R)
      → 1 ≤ f.limit
      → count_usage_logs f db ≤ n * f.limit
      → (pages n 0 f db ≡ found f db) × (length (found f db) ≡ count_usage_logs f db)
  unfolding count_usage_logs
  pages_lem n f db h enough =
      let size = length-newest_first (filter (usage_log_where f) db.usage_logs) in
      (pages-take n 0 f db h ∙ take_all (n * f.limit) (found f db) (omega (arith, size)), size)

  length-page_le :
      (f : LogFilter) (db : Database R) → 1 ≤ f.limit → length (query_usage_logs f db) ≤ f.limit
  unfolding query_usage_logs
  length-page_le f db h =
      let whole = page-take f.limit f.offset (found f db) h in
      omega (arith, ap length whole, length-take f.limit (drop f.offset (found f db)))

  answer_since-bounds :
      (t : Times) (queries counts : Bool) (q : LogQuery) (s : Since) (db : Database R)
      → (total limit offset : ℕ) (items : List (UsageLog R))
      → answer_since t queries counts q s db ≡ log_page total limit offset items
      → (1 ≤ limit) × (limit ≤ 500) × (length items ≤ limit)
  unfolding answer_since answer_logs filter_of
  answer_since-bounds t queries counts q bad_since db total limit offset items h = absurd (cc)
  answer_since-bounds t false counts q (since start) db total limit offset items h = absurd (cc)
  answer_since-bounds t true false q (since start) db total limit offset items h = absurd (cc)
  answer_since-bounds t true true q (since start) db total limit offset items h =
      let f = filter_of t q start in
      let (low, high) = clamp_limit-bounds (t.atoi q.limit_text) in
      let same_limit : f.limit ≡ limit = ground arith in
      let same_items : query_usage_logs f db ≡ items = ground arith in
      let size = length-page_le f db low in rw (← same_limit, ← same_items) (low, high, size)

  -- A page that is answered has at most 500 logs, whatever the request asks for.
  pub handle_usage_logs-bounds :
      (t : Times) (now : ℕ) (queries counts : Bool) (q : LogQuery) (db : Database R)
      → (total limit offset : ℕ) (items : List (UsageLog R))
      → handle_usage_logs t now queries counts q db ≡ log_page total limit offset items
      → (1 ≤ limit) × (limit ≤ 500) × (length items ≤ limit)
  unfolding handle_usage_logs
  handle_usage_logs-bounds t now queries counts q =
      answer_since-bounds t queries counts q (parse_since t now q.since_text)
