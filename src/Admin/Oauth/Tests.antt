-- ===== src/Admin/Oauth/Tests.antt =====
-- The theorems on the logins at concrete inputs.
use mirasim2api.Base.{
  ◌↔◌, ℕ, ◌≡◌, refl, true, Option, none, some, [], ◌∷◌, Str, str, text_key, all_b,
}
use mirasim2api.Base.Text.{trim_space, all_space, space_width}
use mirasim2api.Admin.Accounts.Tests.{clear, store, no_pool, lib, numbers}
use mirasim2api.Admin.Flows.{OauthFlow, manual}
use mirasim2api.Admin.Flows.Lifecycle.{swept, after_events}
use mirasim2api.Admin.Links.{Url, Urls, panics, found_token, extract_refresh_token}
use mirasim2api.Admin.Links.Carries.{Carries, extract_refresh_token_lem}
use mirasim2api.Admin.Oauth.{Site, Admin, Draw, handle_oauth_start, new_flow, serve_oauth_callback}
use mirasim2api.Admin.Pages.{html_escape, read_html, is_plain, html_escape_lem, escape_byte}

-- A link without a scheme does not parse; any other text is a link to one host.
abbrev urls : Urls
urls = record {
  parse = λ s. elim s [
    | [] ↦ none
    | c ∷ rest ↦
        some (record {
          host = str "h";
          query = (str "refresh_token", str "x.y.z") ∷ [];
          fragment = [];
        })
  ];
  parse_query = λ s. none;
  query_escape = λ s. s;
}

abbrev site : Site
site = record {
  lib = lib;
  numbers = numbers;
  urls = urls;
  to_lower = λ s. s;
  decimal = λ n. n ∷ [];
  auth_url = str "https://auth";
  cipher = clear;
  client_ok = λ a. true;
  say = λ outcome. str "no";
}

abbrev body : Option (Str × Str)
body = some (str "google", str "manual")

abbrev flow : OauthFlow
flow = new_flow site 0 (str "s") (str "google") (str "http://127.0.0.1:9/callback") manual

abbrev waiting : Admin ℕ ℕ
waiting = record {
  db = store;
  pool = no_pool;
  flows = after_events [] (handle_oauth_start site 0 (str "s") none body []).0;
}

abbrev draw : Draw
draw = record { up = true; id = str "b"; now = 0 }

abbrev answered : Admin ℕ ℕ
answered = record waiting {
  flows =
      after_events (swept 5 ∷ [])
        (serve_oauth_callback site draw (str "s") (str "x.y.z") waiting).0.flows;
}

extract_refresh_token_lem_example :
    ((link : Url)
      → urls.parse (trim_space (str "h?refresh_token=x.y.z")) ≡ some link
      → (t : Str)
      → (extract_refresh_token urls (str "h?refresh_token=x.y.z") ≡ found_token t)
        ↔ Carries urls (trim_space (str "h?refresh_token=x.y.z")) link t)
    × (urls.parse (trim_space (str "h?refresh_token=x.y.z")) ≡ none
        → extract_refresh_token urls (str "h?refresh_token=x.y.z") ≡ panics)
extract_refresh_token_lem_example = extract_refresh_token_lem urls (str "h?refresh_token=x.y.z")

-- What does not parse.
no_scheme : extract_refresh_token urls (str "  ") ≡ panics
unfolding extract_refresh_token trim_space all_space space_width
no_scheme = refl

html_escape_lem_example :
    (all_b is_plain (html_escape (str "<b>&amp;")) ≡ true)
    × (read_html 0 (html_escape (str "<b>&amp;")) ≡ str "<b>&amp;")
html_escape_lem_example = html_escape_lem (str "<b>&amp;")

escaped : html_escape (str "<b>") ≡ str "&lt;b&gt;"
unfolding html_escape escape_byte
escaped = refl
