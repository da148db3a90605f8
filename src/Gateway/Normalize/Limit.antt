-- ===== src/Gateway/Normalize/Limit.antt =====
-- The system text that goes to the relay for a Claude model keeps within 200 bytes.
use mirasim2api.Base.{◌≡◌, refl, true, [], ◌∷◌, Str, arith, length, text_key, number_key}
use mirasim2api.Base.Json.{Json}
use mirasim2api.Pool.Pick.{is_empty}

empty_length : (s : Str) → is_empty s ≡ true → length s ≡ 0
empty_length [] e = refl
empty_length (c ∷ s) e = ground arith
