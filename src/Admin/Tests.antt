-- ===== src/Admin/Tests.antt =====
-- The theorems on the admin handlers at concrete inputs.
use mirasim2api.Base.{
  ℕ, zero, suc, ◌+◌, ◌-◌, ◌≡◌, refl, ap, ap₂, true, none, some, [], ◌∷◌, ◌++◌, Str, str, List,
  length, count, map, replicate, arith, text_key,
}
use mirasim2api.Admin.Access.{Session, dot, new_session_token, verify_session_token, is_current}
use mirasim2api.Admin.Access.Sessions.{
  IsSound, no_dot, verify-new_session_token, verify_session_token_signed,
}
use mirasim2api.Base.Float.{micro}
use mirasim2api.Base.Int.{pos}
use mirasim2api.Pool.Entry.{Entry, usable}
use mirasim2api.Admin.Summary.{no_accounts, count_accounts}
use mirasim2api.Admin.Summary.Partition.{out_of_service, count_accounts_lem}

-- An account that cools down until 9.
abbrev entries : List (Entry ℕ)
entries =
    record {
      account = record {
        id = str "a";
        email = str "a@b";
        name = str "n";
        provider = str "github";
        refresh_token = str "t";
        enabled = true;
        created_at = 0;
        updated_at = 0;
      };
      inflight = pos 0;
      failures = 1;
      cooldown_until = 9;
      limits = none;
      last_error = [];
    }
    ∷ []

count_accounts_lem_example :
    ((count_accounts 5 entries no_accounts).enabled
        + (count_accounts 5 entries no_accounts).disabled
      ≡ 1)
    × ((count_accounts 5 entries no_accounts).usable
          + out_of_service (count_accounts 5 entries no_accounts)
        ≡ (count_accounts 5 entries no_accounts).enabled)
    × ((count_accounts 5 entries no_accounts).usable ≡ count (usable 5) entries)
count_accounts_lem_example = count_accounts_lem 5 entries refl

-- Bytes moved above the dot for hex, and as many bytes as the number for digits.
abbrev session : Session
session = record {
  hmac = λ t. 7 ∷ [];
  hex = λ t. map (λ c. c + 47) t;
  unhex = λ t. some (map (λ c. c - 47) t);
  parse_int = λ t. some (pos (length t));
  decimal = λ n. replicate n 49;
}

moved_back : (t : Str) → map (λ c. c - 47) (map (λ c. c + 47) t) ≡ t
moved_back [] = refl
moved_back (c ∷ t) = ap₂ ◌∷◌ (omega arith) (moved_back t)

moved_no_dot : (t : Str) → no_dot (map (λ c. c + 47) t) ≡ true
moved_no_dot [] = refl
moved_no_dot (c ∷ t) = ground (arith, moved_no_dot t)

length-replicate : (n : ℕ) → length {A = ℕ} (replicate n 49) ≡ n
length-replicate zero = refl
length-replicate (suc n) = ap suc (length-replicate n)

digits_no_dot : (n : ℕ) → no_dot (replicate n 49) ≡ true
digits_no_dot zero = refl
digits_no_dot (suc n) = digits_no_dot n

session-IsSound : IsSound session
session-IsSound = record {
  unhex_hex = λ t. ap some (moved_back t);
  hex_no_dot = moved_no_dot;
  parse_decimal = λ n. ap (λ k. some (pos k)) (length-replicate n);
  decimal_no_dot = digits_no_dot;
}

verify-new_session_token_example :
    verify_session_token session 3 (new_session_token session 5 (str "n")) ≡ true
verify-new_session_token_example = verify-new_session_token session session-IsSound 3 5 (str "n")

verify_session_token_signed_example :
    (payload : Str) × (sig_hex : Str) × (new_session_token session 5 (str "n")
      ≡ payload ++ dot ∷ sig_hex)
    × (session.unhex sig_hex ≡ some (session.hmac payload))
    × (is_current session 3 payload ≡ true)
verify_session_token_signed_example =
    verify_session_token_signed session 3 (new_session_token session 5 (str "n"))
      (verify-new_session_token session session-IsSound 3 5 (str "n"))
