-- ===== src/Admin/Keys/Limits.antt =====
-- The limits that every key of the table keeps.
use mirasim2api.Base.{◌≡◌, Bool, true, not, ◌&&◌, some, List, leb, all_b}
use mirasim2api.Base.Float.{Float}
use mirasim2api.Store.Rows.{ApiKey}
use mirasim2api.Store.Database.{KeyRow, Database}
use mirasim2api.Admin.Access.{outside, names_blank}

module _ {R : Type 0} where
  abbrev pub in_limits : ApiKey R → Bool
  in_limits k =
      not (outside 1000 (some k.concurrency))
      && leb k.rate_limit_rpm 100_000
      && not (names_blank k.model_allowlist)

  abbrev pub AreInLimits : List (KeyRow R) → Type 0
  AreInLimits rows = all_b (λ row. in_limits row.key) rows ≡ true
