-- ===== src/Pool/Entry.antt =====
-- internal/pool/pool.go: quota windows, account entries and what one entry answers. The account
-- record is that of internal/store/store.go. Times are nanoseconds since the epoch, and a zero
-- `time.Time` is 0. Each method runs under the entry's mutex, so it is one step here.
use mirasim2api.Base.{
  ℕ, ◌*◌, Bool, true, false, not, ◌&&◌, ◌||◌, Option, none, some, List, [], ◌∷◌, Str, ltb,
  if◌then◌else◌,
}
use mirasim2api.Base.Float.{Float}
use mirasim2api.Base.Int.{ℤ, pos, negsuc, ◌+ℤ◌, ltb_ℤ, leb_ℤ}

abbrev pub second : ℕ
second = 1_000_000_000

abbrev pub minute : ℕ
minute = 60 * second

abbrev pub limits_ttl : ℕ
limits_ttl = 10 * minute

abbrev pub base_backoff : ℕ
base_backoff = 15 * second

abbrev pub max_backoff : ℕ
max_backoff = 10 * minute

pub record Account : Type 0 where
  pub id : Str
  pub email : Str
  pub name : Str
  pub provider : Str
  pub refresh_token : Str
  pub enabled : Bool
  pub created_at : ℕ
  pub updated_at : ℕ

pub record Window (R : Type 0) : Type 0 where
  pub used : R
  pub budget : R

pub record Limits (R : Type 0) : Type 0 where
  pub windows : List (Window R)
  pub suspended : Bool
  pub fetched_at : ℕ

-- The protocol client of an entry stands in Mirasim/Client; the pool only hands it on. A reload leaves
-- the client of an entry that is there as it is, with the refresh token that it was made with.
pub record Entry (R : Type 0) : Type 0 where
  pub account : Account
  pub inflight : ℤ
  pub failures : ℕ
  pub cooldown_until : ℕ
  pub limits : Option (Limits R)
  pub last_error : Str

-- What `errors.As` finds in an error: the status of an HTTPError, if one is wrapped.
pub record Failure : Type 0 where
  pub text : Str
  pub http_status : Option ℕ

module _ {R : Type 0} where
  -- `&Entry{Account: acc, ...}`: every field that `Reload` does not name is zero.
  unfoldable pub fresh : Account → Entry R
  fresh a = record {
    account = a;
    inflight = pos 0;
    failures = 0;
    cooldown_until = 0;
    limits = none;
    last_error = [];
  }

  unfoldable pub try_acquire : ℤ → Entry R → Option (Entry R)
  try_acquire max e =
      if ltb_ℤ (pos 0) max && leb_ℤ max e.inflight
      then none
      else some (record e { inflight = e.inflight +ℤ pos 1 })

  unfoldable pub release : Entry R → Entry R
  release e = record e { inflight = e.inflight +ℤ negsuc 0 }

module _ {R : Type 0} ⦃f : Float R⦄ where
  unfoldable pub ratio : Window R → R
  ratio w =
      if f.lt f.zero w.budget
      then f.div w.used w.budget
      else if f.lt f.zero w.used
      then f.one
      else f.zero

  unfoldable pub worst_of : R → List (Window R) → R
  worst_of worst [] = worst
  worst_of worst (w ∷ ws) = worst_of (if f.lt worst (ratio w) then ratio w else worst) ws

  -- A nil receiver answers 0.
  unfoldable pub worst_used_ratio : Option (Limits R) → R
  worst_used_ratio none = f.zero
  worst_used_ratio (some l) = worst_of f.zero l.windows

  unfoldable pub limits_ok : Option (Limits R) → Bool
  limits_ok none = true
  limits_ok (some l) = if l.suspended || f.le f.one (worst_used_ratio (some l)) then false else true

  unfoldable pub usable : ℕ → Entry R → Bool
  usable now e =
      if not e.account.enabled
      then false
      else if ltb now e.cooldown_until
      then false
      else limits_ok e.limits

  unfoldable pub weight : Entry R → R
  weight e =
      let w = f.sub f.one (worst_used_ratio e.limits) in
      if f.lt w f.min_weight then f.min_weight else w
