-- ===== src/Telegraf/RoundTrip.antt =====
-- On `_toml` of services/task_manager/common/app_common/telegraf_config.py: what TOML reads of the text.
use live_streaming_data_pipe.Base.{
  ℕ, zero, suc, ◌+◌, ◌*◌, ◌/◌, ◌%◌, ◌≤◌, ◌<◌, ◌≡◌, ◌≢◌, ◌⊎◌, refl, ap, ◌∙◌, Text, codes, true,
  Bool-cases, inl, inr, Option, none, some, List, [], ◌∷◌, ◌++◌, length, length-append, All, map,
  join, ltb, arith,
}
use mathlib.Core.List.{append_assoc}
use live_streaming_data_pipe.Json.{Value, arr}
use live_streaming_data_pipe.Json.Dumps.{
  hex_digit, u_escape, is_plain, short, escape_by, escape, escape_all, dumps_text,
}
use live_streaming_data_pipe.Sources.{Numbers}
use live_streaming_data_pipe.Telegraf.{toml, toml_all, texts}
use live_streaming_data_pipe.Telegraf.Reader.{
  hex_value, is_scalar, chars, after, escaped, long_escape, body, basic_string, skip, item_and,
  after_item, item_then, at_item, items, string_array,
}

-- A scalar value below U+10000.
abbrev pub IsBasic : ℕ → Type 0
IsBasic c = (c < 65_536) × ((c < 55_296) ⊎ (57_344 ≤ c))

is_scalar-IsBasic : (c : ℕ) → IsBasic c → is_scalar c ≡ true
is_scalar-IsBasic c (h, inl low) = ground (arith, low)
is_scalar-IsBasic c (h, inr high) = ground (arith, high, h)

pub hex_value-hex_digit : (d : ℕ) → d < 16 → hex_value (hex_digit d) ≡ some d
hex_value-hex_digit d h = ground arith

ltb-true : (a b : ℕ) → a < b → ltb a b ≡ true
ltb-true a b h = ground arith

body-u_escape :
    (c : ℕ) (t : Text) → IsBasic c → body chars (u_escape c ++ t) ≡ after c (body chars t)
unfolding body
body-u_escape c t h =
    let e : (((0 + c / 4096 % 16) * 16 + c / 256 % 16) * 16 + c / 16 % 16) * 16 + c % 16 ≡ c =
      omega (arith, h) in
    rw
      (
        hex_value-hex_digit (c / 4096 % 16) (omega arith),
        hex_value-hex_digit (c / 256 % 16) (omega arith),
        hex_value-hex_digit (c / 16 % 16) (omega arith),
        hex_value-hex_digit (c % 16) (omega arith),
        e,
        is_scalar-IsBasic c h,
      )
      refl

short-some : (c d : ℕ) → short c ≡ some d → (escaped d ≡ some c) × (long_escape d ≡ none)
short-some c d h = ground arith

short-none : (c : ℕ) → short c ≡ none → (c ≢ b'"') × (c ≢ b'\\')
short-none c h = ground arith

-- Escaping is undone one character at a time.
pub body-escape :
    (c : ℕ) (t : Text) → IsBasic c → body chars (escape c ++ t) ≡ after c (body chars t)
unfolding escape body
body-escape c t h = by_short (short c) refl
  where
    by_short :
        (o : Option ℕ) → short c ≡ o → body chars (escape_by c o ++ t) ≡ after c (body chars t)
    by_short (some d) e = rw ((short-some c d e).0, (short-some c d e).1) refl
    by_short none e = elim (Bool-cases (is_plain 32 126 c)) [
      | inl plain ↦ rw plain (ground (arith, plain, short-none c e, is_scalar-IsBasic c h))
      | inr other ↦ rw (other, ltb-true c 65_536 h.0) (body-u_escape c t h)
    ]

body-escape_all :
    (s t : Text) → All IsBasic s → body chars (escape_all s ++ (b'"' ∷ t)) ≡ some (s, t)
unfolding escape_all
body-escape_all [] t h = unfold body in refl
body-escape_all (c ∷ s) t h =
    rw
      (
        append_assoc (escape c) (escape_all s) (b'"' ∷ t),
        body-escape c (escape_all s ++ (b'"' ∷ t)) h.0,
        body-escape_all s t h.1,
      )
      refl

-- TOML reads back every text without surrogates and characters above U+FFFF.
basic_string-dumps_text :
    (s t : Text) → All IsBasic s → basic_string (dumps_text s ++ t) ≡ some (s, t)
unfolding basic_string dumps_text
basic_string-dumps_text s t h =
    rw (append_assoc (escape_all s) (b'"' ∷ []) t) (body-escape_all s t h)

-- What `_toml` writes between the brackets, and the rest.
abbrev listed : List Text → Text → Text
listed ss rest = join (codes ", ") (map dumps_text ss) ++ (b']' ∷ rest)

-- One item is read, whatever reads the further ones.
item_read :
    (more : Text → Option (List Text × Text)) (s t : Text)
    → All IsBasic s
    → at_item more (skip (dumps_text s ++ t)) ≡ after_item s more (skip t)
unfolding dumps_text skip
item_read more s t h =
    let e : basic_string (dumps_text s ++ t) ≡ some (s, t) = basic_string-dumps_text s t h in
    ap (item_then more) e

items-space : (fuel : ℕ) (t : Text) → items fuel (b' ' ∷ t) ≡ items fuel t
unfolding items skip
items-space zero t = refl
items-space (suc fuel) t = refl

items-listed :
    (fuel : ℕ) (ss : List Text) (rest : Text)
    → All (λ s. All IsBasic s) ss
    → length ss < fuel
    → items fuel (listed ss rest) ≡ some (ss, rest)
unfolding items join
items-listed zero ss rest h f = absurd (omega arith)
items-listed (suc fuel) [] rest h f = unfold skip in refl
items-listed (suc fuel) (s ∷ []) rest h f =
    item_read (items fuel) s (b']' ∷ rest) h.0 ∙ unfold skip in refl
items-listed (suc fuel) (s ∷ q ∷ ss) rest h f =
    let tail = b',' ∷ b' ' ∷ listed (q ∷ ss) rest in
    rw
      (append_assoc (dumps_text s) (codes ", " ++ join (codes ", ") (map dumps_text (q ∷ ss)))
        (b']' ∷ rest))
      (item_read (items fuel) s tail h.0
        ∙ unfold skip in
          ap (item_and s) (
            items-space fuel (listed (q ∷ ss) rest)
            ∙ items-listed fuel (q ∷ ss) rest h.1 (omega (arith, f))))

length-listed_le : (ss : List Text) (rest : Text) → length ss ≤ length (listed ss rest)
unfolding join
length-listed_le [] rest = omega arith
length-listed_le (s ∷ []) rest = omega (arith, length-append (dumps_text s) (b']' ∷ rest))
length-listed_le (s ∷ q ∷ ss) rest =
    rw
      (append_assoc (dumps_text s) (codes ", " ++ join (codes ", ") (map dumps_text (q ∷ ss)))
        (b']' ∷ rest))
      (omega (
        arith,
        length-listed_le (q ∷ ss) rest,
        length-append (dumps_text s) (b',' ∷ b' ' ∷ listed (q ∷ ss) rest),
      ))

toml_all-texts :
    (ns : Numbers) (text_of : Value → Text) (ss : List Text)
    → toml_all ns text_of (texts ss) ≡ map dumps_text ss
unfolding toml texts
toml_all-texts ns text_of [] = refl
toml_all-texts ns text_of (s ∷ ss) = rw (toml_all-texts ns text_of ss) refl

-- The array that `_toml` writes for a list of texts, whatever follows it, is read back as that list by
-- a reader of TOML arrays, if the texts hold only Unicode scalar values below U+10000.
pub string_array-toml :
    (ns : Numbers) (text_of : Value → Text) (ss : List Text) (rest : Text)
    → All (λ s. All IsBasic s) ss
    → string_array (toml ns text_of (arr (texts ss)) ++ rest) ≡ some (ss, rest)
unfolding string_array toml
string_array-toml ns text_of ss rest h =
    rw
      (
        toml_all-texts ns text_of ss,
        append_assoc (join (codes ", ") (map dumps_text ss)) (b']' ∷ []) rest,
      )
      (items-listed (suc (length (listed ss rest))) ss rest h
        (omega (arith, length-listed_le ss rest)))
