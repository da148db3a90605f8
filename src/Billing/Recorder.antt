-- ===== src/Billing/Recorder.antt =====
-- internal/billing/billing.go: prices and the recorder. Each method holds the recorder's mutex while
-- it changes the state, so it is one step here. `Custom` is what JSON decoding makes of the price
-- setting, and `parse_float` is `strconv.ParseFloat`. The tables are those of Store.
use mirasim2api.Base.{
  ℕ, ◌+◌, ◌*◌, Bool, true, false, not, ◌&&◌, ◌||◌, Option, none, some, List, [], ◌∷◌, ◌++◌, Str,
  ltb, leb, ◌==◌, if◌then◌else◌, length, Map, lookup, insert, number_key, text_key,
}
use mirasim2api.Base.Float.{Float}
use mirasim2api.Base.Text.{cut_prefix}
use mirasim2api.Pool.Entry.{second}
use mirasim2api.Pool.Pick.{is_empty}
use mirasim2api.Store.Rows.{UsageLog}
use mirasim2api.Store.Database.{Database}
use mirasim2api.Store.Keys.{add_usage}
use mirasim2api.Store.Logs.{add_usage_log}

abbrev pub flush_batch : ℕ
flush_batch = 20

abbrev pub prices_ttl : ℕ
prices_ttl = 30 * second

pub record ModelPrice (R : Type 0) : Type 0 where
  pub input : R
  pub output : R
  pub cached : R

pub record Recorder (R : Type 0) : Type 0 where
  pub buf : List (UsageLog R)
  pub prices : Option (Map Str (ModelPrice R))
  pub multiplier : R
  pub prices_loaded_at : ℕ

-- `len(model) > len(name) && model[:len(name)] == name && model[len(name)] == '-'`
unfoldable pub extends_name : Str → Str → Bool
extends_name name model = elim (cut_prefix name model) [
  | none ↦ false
  | some [] ↦ false
  | some (c ∷ rest) ↦ c == 45
]

module _ {R : Type 0} where
  -- The loop that keeps the longest name that the model extends.
  unfoldable pub best_prefix : Str → Map Str (ModelPrice R) → Str → Str
  best_prefix model [] best = best
  best_prefix model ((name, p) ∷ prices) best =
      best_prefix model prices
        (if ltb (length best) (length name) && extends_name name model then name else best)

  abbrev pub merge_prices : Map Str (ModelPrice R) → Map Str (ModelPrice R) → Map Str (ModelPrice R)
  merge_prices prices [] = prices
  merge_prices prices ((name, p) ∷ custom) = merge_prices (insert name p prices) custom

module _ {R : Type 0} ⦃f : Float R⦄ where
  abbrev pub no_price : ModelPrice R
  no_price = record { input = f.zero; output = f.zero; cached = f.zero }

  abbrev pub price_or_zero : Option (ModelPrice R) → ModelPrice R
  price_or_zero none = no_price
  price_or_zero (some p) = p

  unfoldable pub price_of : Map Str (ModelPrice R) → Str → ModelPrice R
  price_of prices model = elim (lookup model prices) [
    | some p ↦ p
    | none ↦ price_or_zero (lookup (best_prefix model prices []) prices)
  ]

  unfoldable pub cost_of : Map Str (ModelPrice R) → R → Str → (input output cached : ℕ) → R
  cost_of prices multiplier model input output cached =
      let p = price_of prices model in
      f.mul
        (f.div
          (f.add (f.add (f.mul (f.of_ℕ input) p.input) (f.mul (f.of_ℕ output) p.output))
            (f.mul (f.of_ℕ cached) p.cached))
          f.million)
        multiplier

-- What the price settings say when they are read: the prices of the JSON text, if it is set and
-- decodes, and the multiplier, if it is set and parses.
pub record PriceSettings (R : Type 0) : Type 0 where
  pub custom : Option (Map Str (ModelPrice R))
  pub multiplier : Option R

module _ {R : Type 0} ⦃f : Float R⦄ where
  unfoldable pub reload_prices :
      Map Str (ModelPrice R) → PriceSettings R → ℕ → Recorder R → Recorder R
  reload_prices defaults settings now r = record r {
    prices =
        some
          (elim settings.custom [ none ↦ defaults | some custom ↦ merge_prices defaults custom ]);
    multiplier = elim settings.multiplier [
      | none ↦ f.one
      | some m ↦ if f.lt f.zero m then m else f.one
    ];
    prices_loaded_at = now;
  }

  unfoldable pub refresh_prices :
      Map Str (ModelPrice R) → PriceSettings R → ℕ → Recorder R → Recorder R
  refresh_prices defaults settings now r = elim r.prices [
    | none ↦ reload_prices defaults settings now r
    | some _ ↦
        if ltb now (r.prices_loaded_at + prices_ttl)
        then r
        else reload_prices defaults settings now r
  ]

  abbrev pub prices_in : Recorder R → Map Str (ModelPrice R)
  prices_in r = elim r.prices [ none ↦ [] | some prices ↦ prices ]

  -- One log of `Flush`. `up` says whether the insertion goes through, `counted` whether the update
  -- of the key's totals does.
  unfoldable pub flush_log : (up counted : Bool) → ℕ → UsageLog R → Database R → Database R
  flush_log up counted now l db = elim up [
    | false ↦ db
    | true ↦
        let logged = (add_usage_log true now l db).0 in
        if is_empty l.api_key_id || not counted
        then logged
        else add_usage l.api_key_id l.input_tokens l.output_tokens l.cost logged
  ]

  -- The answers of the database to a batch: one pair for each log.
  unfoldable pub flush_all :
      (UsageLog R → Bool × Bool) → ℕ → List (UsageLog R) → Database R → Database R
  flush_all answers now [] db = db
  flush_all answers now (l ∷ ls) db =
      flush_all answers now ls (flush_log (answers l).0 (answers l).1 now l db)

  unfoldable pub flush :
      (UsageLog R → Bool × Bool) → ℕ → Recorder R × Database R → Recorder R × Database R
  flush answers now (r, db) = (record r { buf = [] }, flush_all answers now r.buf db)

  unfoldable pub priced : Recorder R → UsageLog R → UsageLog R
  priced r l = record l {
    cost =
        cost_of (prices_in r) r.multiplier l.model l.input_tokens l.output_tokens l.cached_tokens;
  }

  unfoldable pub record_log :
      Map Str (ModelPrice R)
      → PriceSettings R
      → (UsageLog R → Bool × Bool)
      → ℕ
      → UsageLog R
      → Recorder R × Database R
      → Recorder R × Database R
  record_log defaults settings answers now l (r, db) =
      let fresh = refresh_prices defaults settings now r in
      let r' = record fresh { buf = fresh.buf ++ priced fresh l ∷ [] } in
      if leb flush_batch (length r'.buf) then flush answers now (r', db) else (r', db)
