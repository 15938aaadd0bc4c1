-- ===== src/Template.antt =====
-- `string.Template` of Python, which the renderers of telegraf_config.py and kubernetes_runtime.py use:
-- `$$`, `$name` and `${name}`, where a name is a letter or underscore and then letters, digits and
-- underscores.
use live_streaming_data_pipe.Base.{
  ℕ, Text, codes, Bool, false, ◌||◌, Option, none, some, List, [], ◌∷◌, ◌++◌, ◌==◌, leb, ltb,
  if◌then◌else◌,
}
use live_streaming_data_pipe.Base.Dict.{Dict, lookup}
use live_streaming_data_pipe.Base.Exec.{Exc, value_error, key_error, Result, ok, err}

pub data Piece : Type 0 where
  lit : ℕ → Piece
  named braced : Text → Piece
  -- a `$` that begins no placeholder
  lone : Piece

abbrev pub between : ℕ → ℕ → ℕ → Bool
between low high c = if ltb c low then false else leb c high

abbrev pub is_start : ℕ → Bool
is_start c = between b'a' b'z' c || (between b'A' b'Z' c || (c == b'_'))

abbrev pub is_part : ℕ → Bool
is_part c = is_start c || between b'0' b'9' c

-- What has been read since the last piece; a name is kept in reverse.
pub data Mode : Type 0 where
  plain dollar brace : Mode
  in_name in_brace : Text → Mode

abbrev pub lits : Text → List Piece → List Piece
lits [] ps = ps
lits (c ∷ s) ps = lit c ∷ lits s ps

abbrev pub reversed : Text → Text → Text
reversed [] acc = acc
reversed (c ∷ s) acc = reversed s (c ∷ acc)

-- The mode after a character that is not part of a placeholder.
abbrev pub mode_at : ℕ → Mode
mode_at c = if c == b'$' then dollar else plain

abbrev pub lit_at : ℕ → List Piece → List Piece
lit_at c ps = if c == b'$' then ps else lit c ∷ ps

-- The pieces that a mode gives up at a character, and the mode after it.
abbrev pub step : Mode → ℕ → Mode
step plain c = mode_at c
step dollar c =
    if c == b'$'
    then plain
    else if c == b'{'
    then brace
    else if is_start c
    then in_name (c ∷ [])
    else plain
step brace c = if is_start c then in_brace (c ∷ []) else mode_at c
step (in_name acc) c = if is_part c then in_name (c ∷ acc) else mode_at c
step (in_brace acc) c =
    if is_part c then in_brace (c ∷ acc) else if c == b'}' then plain else mode_at c

abbrev pub emit : Mode → ℕ → List Piece → List Piece
emit plain c ps = lit_at c ps
emit dollar c ps =
    if c == b'$'
    then lit b'$' ∷ ps
    else if c == b'{'
    then ps
    else if is_start c
    then ps
    else lone ∷ lit c ∷ ps
emit brace c ps = if is_start c then ps else lone ∷ lit b'{' ∷ lit_at c ps
emit (in_name acc) c ps = if is_part c then ps else named (reversed acc []) ∷ lit_at c ps
emit (in_brace acc) c ps =
    if is_part c
    then ps
    else if c == b'}'
    then braced (reversed acc []) ∷ ps
    else lone ∷ lit b'{' ∷ lits (reversed acc []) (lit_at c ps)

abbrev pub last : Mode → List Piece
last plain = []
last dollar = lone ∷ []
last brace = lone ∷ lit b'{' ∷ []
last (in_name acc) = named (reversed acc []) ∷ []
last (in_brace acc) = lone ∷ lit b'{' ∷ lits (reversed acc []) []

unfoldable pub pieces : Mode → Text → List Piece
pieces m [] = last m
pieces m (c ∷ s) = emit m c (pieces (step m c) s)

abbrev pub invalid_placeholder : Exc
invalid_placeholder = record {
  kind = value_error;
  name = codes "ValueError";
  message = codes "Invalid placeholder in string";
}

abbrev pub missing_key : Text → Exc
missing_key k = record { kind = key_error; name = codes "KeyError"; message = k }

abbrev pub put : Text → Result Text → Result Text
put t (ok rest) = ok (t ++ rest)
put t (err e) = err e

abbrev pub value_or_error : Text → Option Text → Result Text → Result Text
value_or_error k (some v) rest = put v rest
value_or_error k none rest = err (missing_key k)

-- `Template.substitute`
unfoldable pub substitute_pieces : Dict Text → List Piece → Result Text
unfolding lookup
substitute_pieces d [] = ok []
substitute_pieces d (lit c ∷ ps) = put (c ∷ []) (substitute_pieces d ps)
substitute_pieces d (named k ∷ ps) = value_or_error k (lookup k d) (substitute_pieces d ps)
substitute_pieces d (braced k ∷ ps) = value_or_error k (lookup k d) (substitute_pieces d ps)
substitute_pieces d (lone ∷ ps) = err invalid_placeholder

unfoldable pub substitute : Text → Dict Text → Result Text
unfolding pieces substitute_pieces
substitute template d = substitute_pieces d (pieces plain template)

abbrev pub value_or : Text → Option Text → Text
value_or kept (some v) = v
value_or kept none = kept

-- `Template.safe_substitute`: what has no value stays as it is.
unfoldable pub safe_pieces : Dict Text → List Piece → Text
unfolding lookup
safe_pieces d [] = []
safe_pieces d (lit c ∷ ps) = c ∷ safe_pieces d ps
safe_pieces d (named k ∷ ps) = value_or (b'$' ∷ k) (lookup k d) ++ safe_pieces d ps
safe_pieces d (braced k ∷ ps) =
    value_or (b'$' ∷ b'{' ∷ (k ++ (b'}' ∷ []))) (lookup k d) ++ safe_pieces d ps
safe_pieces d (lone ∷ ps) = b'$' ∷ safe_pieces d ps

unfoldable pub safe_substitute : Text → Dict Text → Text
unfolding pieces safe_pieces
safe_substitute template d = safe_pieces d (pieces plain template)
