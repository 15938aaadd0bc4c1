-- ===== src/Telegraf/Wide.antt =====
-- On `_toml` of services/task_manager/common/app_common/telegraf_config.py: characters above U+FFFF.
use live_streaming_data_pipe.Base.{
  ℕ, ◌+◌, ◌-◌, ◌*◌, ◌/◌, ◌%◌, ◌≤◌, ◌<◌, ◌≡◌, refl, Text, false, none, [], ◌∷◌, ◌++◌, All, ltb,
  arith,
}
use mathlib.Core.List.{append_assoc}
use live_streaming_data_pipe.Json.{Value, str}
use live_streaming_data_pipe.Json.Dumps.{u_escape, is_plain, short, escape, escape_all, dumps_text}
use live_streaming_data_pipe.Sources.{Numbers}
use live_streaming_data_pipe.Telegraf.{toml}
use live_streaming_data_pipe.Telegraf.Reader.{chars, is_scalar, body, basic_string}
use live_streaming_data_pipe.Telegraf.RoundTrip.{IsBasic, hex_value-hex_digit, body-escape}

-- The escape of a surrogate is refused.
body-surrogate : (c : ℕ) (t : Text) → 55_296 ≤ c → c < 57_344 → body chars (u_escape c ++ t) ≡ none
unfolding body
body-surrogate c t low high =
    let e : (((0 + c / 4096 % 16) * 16 + c / 256 % 16) * 16 + c / 16 % 16) * 16 + c % 16 ≡ c =
      omega (arith, high) in
    let surrogate : is_scalar c ≡ false = ground (arith, low, high) in
    rw
      (
        hex_value-hex_digit (c / 4096 % 16) (omega arith),
        hex_value-hex_digit (c / 256 % 16) (omega arith),
        hex_value-hex_digit (c / 16 % 16) (omega arith),
        hex_value-hex_digit (c % 16) (omega arith),
        e,
        surrogate,
      )
      refl

above_short :
    (c : ℕ) → 65_536 ≤ c → (short c ≡ none) × (is_plain 32 126 c ≡ false) × (ltb c 65_536 ≡ false)
above_short c h = (ground (arith, h), ground (arith, h), ground (arith, h))

body-wide : (c : ℕ) (t : Text) → 65_536 ≤ c → c ≤ 1_114_111 → body chars (escape c ++ t) ≡ none
unfolding escape
body-wide c t low high =
    let n = c - 65_536 in
    let (a, b, d) = above_short c low in
    rw (a, b, d, append_assoc (u_escape (55_296 + n / 1_024)) (u_escape (56_320 + n % 1_024)) t)
      (body-surrogate (55_296 + n / 1_024) (u_escape (56_320 + n % 1_024) ++ t) (omega arith)
        (omega (arith, low, high)))

body-holds_wide :
    (s t u : Text) (c : ℕ)
    → All IsBasic s
    → 65_536 ≤ c
    → c ≤ 1_114_111
    → body chars (escape_all (s ++ (c ∷ t)) ++ u) ≡ none
unfolding escape_all
body-holds_wide [] t u c h low high =
    rw (append_assoc (escape c) (escape_all t) u) (body-wide c (escape_all t ++ u) low high)
body-holds_wide (b ∷ s) t u c h low high =
    rw
      (
        append_assoc (escape b) (escape_all (s ++ (c ∷ t))) u,
        body-escape b (escape_all (s ++ (c ∷ t)) ++ u) h.0,
        body-holds_wide s t u c h.1 low high,
      )
      refl

-- If a text holds a character above U+FFFF after Unicode scalar values below it, then what `_toml`
-- writes for it is no basic string of TOML: the character is written as two surrogates.
pub basic_string-toml_wide :
    (ns : Numbers) (text_of : Value → Text) (s t rest : Text) (c : ℕ)
    → All IsBasic s
    → 65_536 ≤ c
    → c ≤ 1_114_111
    → basic_string (toml ns text_of (str (s ++ (c ∷ t))) ++ rest) ≡ none
unfolding basic_string toml dumps_text
basic_string-toml_wide ns text_of s t rest c h low high =
    rw (append_assoc (escape_all (s ++ (c ∷ t))) (b'"' ∷ []) rest)
      (body-holds_wide s t (b'"' ∷ rest) c h low high)
