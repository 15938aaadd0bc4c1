-- ===== src/Telegraf/Reader.antt =====
-- A reader of TOML's basic strings and of arrays of them, as the TOML standard has them.
use live_streaming_data_pipe.Base.{
  ℕ, zero, suc, ◌+◌, ◌-◌, ◌*◌, Text, Bool, true, false, Option, none, some, List, [], ◌∷◌, length,
  ◌==◌, ltb, leb, if◌then◌else◌,
}

abbrev pub hex_value : ℕ → Option ℕ
hex_value c =
    if ltb c b'0'
    then none
    else if leb c b'9'
    then some (c - b'0')
    else if ltb c b'a'
    then (if ltb c b'A' then none else if leb c b'F' then some (c - b'A' + 10) else none)
    else if leb c b'f'
    then some (c - b'a' + 10)
    else none

-- A Unicode scalar value.
abbrev pub is_scalar : ℕ → Bool
is_scalar c = if ltb c 55_296 then true else if leb c 57_343 then false else leb c 1_114_111

-- What a basic string may hold unescaped.
abbrev pub is_unescaped : ℕ → Bool
is_unescaped c =
    if c == 9 then true else if ltb c 32 then false else if c == 127 then false else is_scalar c

-- Between characters, after a backslash, or with some digits of an escape still to come.
pub data Mode : Type 0 where
  chars backslash : Mode
  hex : ℕ → ℕ → Mode

abbrev pub after : ℕ → Option (Text × Text) → Option (Text × Text)
after c none = none
after c (some (s, rest)) = some (c ∷ s, rest)

abbrev pub escaped : ℕ → Option ℕ
escaped c =
    if c == b'b'
    then some 8
    else if c == b't'
    then some 9
    else if c == b'n'
    then some 10
    else if c == b'f'
    then some 12
    else if c == b'r'
    then some 13
    else if c == b'"'
    then some b'"'
    else if c == b'\\'
    then some b'\\'
    else none

-- The digits of an escape after the first.
abbrev pub long_escape : ℕ → Option ℕ
long_escape c = if c == b'u' then some 3 else if c == b'U' then some 7 else none

abbrev pub scalar_then : ℕ → Option (Text × Text) → Option (Text × Text)
scalar_then c rest = if is_scalar c then after c rest else none

abbrev pub mode_after : Option ℕ → Mode
mode_after none = chars
mode_after (some n) = hex n 0

abbrev pub mode_in : ℕ → ℕ → Option ℕ → Mode
mode_in n acc none = chars
mode_in zero acc (some d) = chars
mode_in (suc n) acc (some d) = hex n (acc * 16 + d)

abbrev pub next : Mode → ℕ → Mode
next chars c = if c == b'\\' then backslash else chars
next backslash c = mode_after (long_escape c)
next (hex n acc) c = mode_in n acc (hex_value c)

abbrev pub if_long : Option ℕ → Option (Text × Text) → Option (Text × Text)
if_long none rest = none
if_long (some n) rest = rest

abbrev pub if_escaped : Option ℕ → ℕ → Option (Text × Text) → Option (Text × Text)
if_escaped none c rest = if_long (long_escape c) rest
if_escaped (some d) c rest = after d rest

abbrev pub at_digit : ℕ → ℕ → Option ℕ → Option (Text × Text) → Option (Text × Text)
at_digit n acc none rest = none
at_digit zero acc (some d) rest = scalar_then (acc * 16 + d) rest
at_digit (suc n) acc (some d) rest = rest

-- What is read in a mode at a character, by what follows it and what is read of that.
abbrev pub at_char : Mode → ℕ → Text → Option (Text × Text) → Option (Text × Text)
at_char chars c s rest =
    if c == b'"'
    then some ([], s)
    else if c == b'\\'
    then rest
    else if is_unescaped c
    then after c rest
    else none
at_char backslash c s rest = if_escaped (escaped c) c rest
at_char (hex n acc) c s rest = at_digit n acc (hex_value c) rest

-- The text up to the closing quote, and what follows it.
unfoldable pub body : Mode → Text → Option (Text × Text)
body m [] = none
body m (c ∷ s) = at_char m c s (body (next m c) s)

unfoldable pub basic_string : Text → Option (Text × Text)
unfolding body
basic_string [] = none
basic_string (c ∷ s) = if c == b'"' then body chars s else none

unfoldable pub skip : Text → Text
skip [] = []
skip (c ∷ s) = let rest = skip s in if c == b' ' then rest else c ∷ s

abbrev pub item_and : Text → Option (List Text × Text) → Option (List Text × Text)
item_and x none = none
item_and x (some (xs, rest)) = some (x ∷ xs, rest)

-- What follows an item: the end, or a comma.
abbrev pub after_item : Text → (Text → Option (List Text × Text)) → Text → Option (List Text × Text)
after_item x more [] = none
after_item x more (c ∷ s) =
    if c == b']' then some (x ∷ [], s) else if c == b',' then item_and x (more s) else none

abbrev pub item_then :
    (Text → Option (List Text × Text)) → Option (Text × Text) → Option (List Text × Text)
item_then more none = none
item_then more (some (x, rest)) = after_item x more (skip rest)

abbrev pub at_item : (Text → Option (List Text × Text)) → Text → Option (List Text × Text)
at_item more [] = none
at_item more (c ∷ s) = if c == b']' then some ([], s) else item_then more (basic_string (c ∷ s))

-- The items of an array, on fuel.
unfoldable pub items : ℕ → Text → Option (List Text × Text)
unfolding basic_string skip
items zero t = none
items (suc fuel) t = at_item (items fuel) (skip t)

abbrev pub array_of : Text → Option (List Text × Text)
array_of [] = none
array_of (c ∷ s) = if c == b'[' then items (suc (length s)) s else none

-- An array of basic strings on one line, and what follows it; each item takes a character.
unfoldable pub string_array : Text → Option (List Text × Text)
unfolding items
string_array t = array_of t
