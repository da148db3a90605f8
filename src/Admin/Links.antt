-- ===== src/Admin/Links.antt =====
-- internal/admin/oauth.go: `extractRefreshToken`. `url.Parse` and `url.ParseQuery` are parameters; a
-- query stands as its names with their first values.
pub mod Carries
use mirasim2api.Base.{
  false, not, ◌||◌, Option, none, some, [], ◌∷◌, Str, str, ◌==◌, if◌then◌else◌, Map, number_key,
  text_key,
}
use mirasim2api.Base.Text.{trim_space, contains}
use mirasim2api.Mirasim.Crypto.{value_at}
use mirasim2api.Pool.Pick.{is_empty}

pub record Url : Type 0 where
  pub host : Str
  pub query : Map Str Str
  pub fragment : Str

pub record Urls : Type 0 where
  pub parse : Str → Option Url
  pub parse_query : Str → Option (Map Str Str)
  pub query_escape : Str → Str

-- `strings.TrimLeft(raw, "?#")`
unfoldable pub trim_marks : Str → Str
trim_marks [] = []
trim_marks (c ∷ s) = let rest = trim_marks s in if c == 63 || c == 35 then rest else c ∷ s

-- A method of a nil URL panics.
pub data Extracted : Type 0 where
  found_token : Str → Extracted
  not_a_link no_parameter panics : Extracted

abbrev pub refresh_token_in : Map Str Str → Str
refresh_token_in query = value_at (str "refresh_token") query

-- The token of a text of parameters, or the answer where there is none.
unfoldable pub from_query : Urls → Extracted → Str → Extracted
from_query u otherwise text = elim (u.parse_query text) [
  | none ↦ otherwise
  | some query ↦ let t = refresh_token_in query in if is_empty t then otherwise else found_token t
]

unfoldable pub extract_refresh_token : Urls → Str → Extracted
extract_refresh_token u raw =
    let text = trim_space raw in
    elim (u.parse text) [
      | none ↦ panics
      | some link ↦
          let t = refresh_token_in link.query in
          if not (is_empty t)
          then found_token t
          else if is_empty link.host
          then (if contains (str "refresh_token=") text
              then from_query u not_a_link (trim_marks text)
              else not_a_link)
          else if contains (str "refresh_token=") link.fragment
          then from_query u no_parameter link.fragment
          else no_parameter
    ]
