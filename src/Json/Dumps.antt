-- ===== src/Json/Dumps.antt =====
-- `json.dumps` of texts and of dictionaries of texts, as it is without options: ASCII only.
use live_streaming_data_pipe.Base.{
  ℕ, ◌+◌, ◌-◌, ◌/◌, ◌%◌, Bool, false, Option, none, some, Text, codes, [], ◌∷◌, ◌++◌, map, join,
  ◌==◌, ltb, leb, if◌then◌else◌,
}
use live_streaming_data_pipe.Base.Dict.{Dict}

abbrev pub hex_digit : ℕ → ℕ
hex_digit n = if ltb n 10 then b'0' + n else b'a' + n - 10

-- `\uXXXX`
abbrev pub u_escape : ℕ → Text
u_escape c =
    b'\\'
    ∷ b'u'
    ∷ hex_digit (c / 4096 % 16)
    ∷ hex_digit (c / 256 % 16)
    ∷ hex_digit (c / 16 % 16)
    ∷ hex_digit (c % 16)
    ∷ []

abbrev pub pair : ℕ → Text
pair c = u_escape (55_296 + c / 1_024) ++ u_escape (56_320 + c % 1_024)

-- A character above U+FFFF is escaped as a pair of surrogates.
abbrev pub wide : ℕ → Text
wide c = if ltb c 65_536 then u_escape c else pair (c - 65_536)

abbrev pub is_plain : ℕ → ℕ → ℕ → Bool
is_plain low high c = if ltb c low then false else leb c high

-- The letter of an escape of two characters.
abbrev pub short : ℕ → Option ℕ
short c =
    if c == b'"'
    then some b'"'
    else if c == b'\\'
    then some b'\\'
    else if c == 10
    then some b'n'
    else if c == 13
    then some b'r'
    else if c == 9
    then some b't'
    else if c == 12
    then some b'f'
    else if c == 8
    then some b'b'
    else none

abbrev pub escape_by : ℕ → Option ℕ → Text
escape_by c (some d) = b'\\' ∷ d ∷ []
escape_by c none = if is_plain 32 126 c then c ∷ [] else wide c

unfoldable pub escape : ℕ → Text
escape c = escape_by c (short c)

unfoldable pub escape_all : Text → Text
unfolding escape
escape_all [] = []
escape_all (c ∷ s) = escape c ++ escape_all s

unfoldable pub dumps_text : Text → Text
unfolding escape_all
dumps_text s = b'"' ∷ (escape_all s ++ (b'"' ∷ []))

unfoldable pub dumps_item : Text × Text → Text
unfolding dumps_text
dumps_item (k, v) = dumps_text k ++ (codes ": " ++ dumps_text v)

unfoldable pub dumps_texts : Dict Text → Text
unfolding dumps_item join
dumps_texts d = b'{' ∷ (join (codes ", ") (map dumps_item d) ++ (b'}' ∷ []))
