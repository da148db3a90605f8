-- ===== src/Server/Routes.antt =====
-- internal/server/server.go: the two gateway handlers, one for paths under `/v1/` and one for all
-- others but the admin API. Each is made with a limiter of its own.
use mirasim2api.Base.{
  ℕ, ◌≤◌, ◌≡◌, refl, ap, ◌∙◌, Bool, true, List, [], ◌∷◌, Str, str, if◌then◌else◌,
}
use native.Mathlib.Nat.{le_trans}
use mirasim2api.Base.Text.{has_prefix}
use mirasim2api.Gateway.RateLimit.{Limiter, allow}
use mirasim2api.Gateway.RateLimit.Window.{
  Request, IsOrdered, is_allowed, run, spec_run, run-eq-spec_run,
}

pub data Route : Type 0 where
  under_v1 bare admin_api : Route

-- The mux itself redirects `/v1` and `/admin` to the path with a slash behind, which then is a new
-- request: neither comes here.
unfoldable pub route_of : Str → Route
route_of path =
    if has_prefix (str "/v1/") path
    then under_v1
    else if has_prefix (str "/admin/") path
    then admin_api
    else bare

-- The limiters of the two gateway handlers.
pub record Limiters : Type 0 where
  pub v1 : Limiter
  pub others : Limiter

-- The decision of the handler that a request is routed to; the admin API limits nothing.
unfoldable pub decide : Route → Request → Limiters → Bool × Limiters
decide under_v1 r l =
    let (v, l') = allow r.key r.rpm r.at l.v1 in (is_allowed v, record l { v1 = l' })
decide bare r l =
    let (v, l') = allow r.key r.rpm r.at l.others in (is_allowed v, record l { others = l' })
decide admin_api r l = (true, l)

unfoldable pub decisions : List (Route × Request) → Limiters → List (Route × Bool)
decisions [] l = []
decisions ((to, r) ∷ rs) l = let (admitted, l') = decide to r l in (to, admitted) ∷ decisions rs l'

-- What concerns one of the two handlers.
abbrev pub on_v1 {ℓ} : {A : Type ℓ} → List (Route × A) → List A
on_v1 [] = []
on_v1 ((under_v1, a) ∷ xs) = a ∷ on_v1 xs
on_v1 ((bare, a) ∷ xs) = on_v1 xs
on_v1 ((admin_api, a) ∷ xs) = on_v1 xs

abbrev pub on_bare {ℓ} : {A : Type ℓ} → List (Route × A) → List A
on_bare [] = []
on_bare ((under_v1, a) ∷ xs) = on_bare xs
on_bare ((bare, a) ∷ xs) = a ∷ on_bare xs
on_bare ((admin_api, a) ∷ xs) = on_bare xs

decisions-run :
    (rs : List (Route × Request)) (l : Limiters)
    → (on_v1 (decisions rs l) ≡ run (on_v1 rs) l.v1)
      × (on_bare (decisions rs l) ≡ run (on_bare rs) l.others)
unfolding decisions decide run
decisions-run [] l = (refl, refl)
decisions-run ((under_v1, r) ∷ rs) l =
    let l' = (allow r.key r.rpm r.at l.v1).1 in
    let (a, b) = decisions-run rs (record l { v1 = l' }) in
    (ap (λ ds. is_allowed (allow r.key r.rpm r.at l.v1).0 ∷ ds) a, b)
decisions-run ((bare, r) ∷ rs) l =
    let l' = (allow r.key r.rpm r.at l.others).1 in
    let (a, b) = decisions-run rs (record l { others = l' }) in
    (a, ap (λ ds. is_allowed (allow r.key r.rpm r.at l.others).0 ∷ ds) b)
decisions-run ((admin_api, r) ∷ rs) l = decisions-run rs l

-- The clock does not go back.
abbrev pub AreOrdered : ℕ → List (Route × Request) → Type 0
AreOrdered t [] = Unit
AreOrdered t ((to, r) ∷ rs) = (t ≤ r.at) × AreOrdered r.at rs

earlier : (t u : ℕ) (rs : List Request) → t ≤ u → IsOrdered u rs → IsOrdered t rs
earlier t u [] h o = tt
earlier t u (r ∷ rs) h o = (le_trans h o.0, o.1)

IsOrdered-parts :
    (t : ℕ) (rs : List (Route × Request))
    → AreOrdered t rs
    → IsOrdered t (on_v1 rs) × IsOrdered t (on_bare rs)
IsOrdered-parts t [] o = (tt, tt)
IsOrdered-parts t ((under_v1, r) ∷ rs) o =
    let (a, b) = IsOrdered-parts r.at rs o.1 in ((o.0, a), earlier t r.at (on_bare rs) o.0 b)
IsOrdered-parts t ((bare, r) ∷ rs) o =
    let (a, b) = IsOrdered-parts r.at rs o.1 in (earlier t r.at (on_v1 rs) o.0 a, (o.0, b))
IsOrdered-parts t ((admin_api, r) ∷ rs) o =
    let (a, b) = IsOrdered-parts r.at rs o.1 in
    (earlier t r.at (on_v1 rs) o.0 a, earlier t r.at (on_bare rs) o.0 b)

abbrev pub fresh_limiters : Limiters
fresh_limiters = record { v1 = []; others = [] }

-- For requests in time order, each of the two handlers decides as the specification does for its own
-- requests alone: what a key sends under `/v1/` does not count against what it sends elsewhere.
pub decisions-eq-spec_run :
    (rs : List (Route × Request)) (t : ℕ)
    → AreOrdered t rs
    → (on_v1 (decisions rs fresh_limiters) ≡ spec_run (on_v1 rs) [])
      × (on_bare (decisions rs fresh_limiters) ≡ spec_run (on_bare rs) [])
decisions-eq-spec_run rs t o =
    let (a, b) = decisions-run rs fresh_limiters in
    let (p, q) = IsOrdered-parts t rs o in
    (a ∙ run-eq-spec_run (on_v1 rs) t p, b ∙ run-eq-spec_run (on_bare rs) t q)
