-- ===== src/Naming.antt =====
-- ClickHouse table identity: services/task_manager/common/app_common/ch_naming.py.
-- A `str` argument is a `Text`; `user_id` is taken after `str(user_id)`.
pub mod Shape
pub mod Accepted
pub mod Injective
pub mod Newline
mod Tests
use live_streaming_data_pipe.Base.{
  ℕ, ◌+◌, ◌≤◌, ◌<◌, Text, replace, codes, Bool, true, false, ◌&&◌, ◌||◌, [], ◌∷◌, ◌++◌, length, ltb,
  leb, ◌==◌, if◌then◌else◌,
}
use live_streaming_data_pipe.Base.Int.{ℤ, int_str, below_one}

-- `[A-Za-z_]`
unfoldable pub is_letter : ℕ → Bool
is_letter c = (leb b'A' c && leb c b'Z') || (leb b'a' c && leb c b'z') || c == b'_'

-- `[A-Za-z0-9_]`
unfoldable pub is_word : ℕ → Bool
unfolding is_letter
is_word c = is_letter c || (leb b'0' c && leb c b'9')

abbrev pub is_empty : Text → Bool
is_empty [] = true
is_empty (c ∷ s) = false

-- `[A-Za-z0-9_]*$`: Python's `$` matches at the end, and before a newline that ends the text.
unfoldable pub is_tail : Text → Bool
unfolding is_word
is_tail [] = true
is_tail (c ∷ s) = (is_word c && is_tail s) || (c == 10 && is_empty s)

-- `_IDENTIFIER_PART.match(s)`
unfoldable pub identifier_part : Text → Bool
unfolding is_tail
identifier_part [] = false
identifier_part (c ∷ s) = is_letter c && is_tail s

abbrev pub max_identifier_length : ℕ
max_identifier_length = 128

-- What `collection_number: object` may hold.
pub data Number : Type 0 where
  int : ℤ → Number
  boolean : Bool → Number
  not_int : Number

-- One constructor for each `raise ValueError`.
pub data NamingError : Type 0 where
  bad_user not_integer not_positive bad_table : NamingError
  too_long : ℕ → NamingError

pub data Named : Type 0 where
  name : Text → Named
  refused : NamingError → Named

-- `not user_part or not _IDENTIFIER_PART.match(f"u{user_part}".replace("-", "_"))`
unfoldable pub user_refused : Text → Bool
unfolding identifier_part replace
user_refused user =
    is_empty user || (if identifier_part (replace (b'u' ∷ user) b'-' b'_') then false else true)

-- `f"user_{user_part}_collection_{collection_number}_{table_name}"`
unfoldable pub compose : Text → ℤ → Text → Text
unfolding int_str
compose user n table =
    codes "user_" ++ (user ++ (codes "_collection_" ++ (int_str n ++ (codes "_" ++ table))))

-- The last check of `ch_unique_identifier`.
unfoldable pub bounded : Text → Named
bounded identifier =
    if ltb max_identifier_length (length identifier)
    then refused (too_long (length identifier))
    else name identifier

unfoldable pub ch_unique_identifier : Text → Number → Text → Named
unfolding user_refused identifier_part compose bounded
ch_unique_identifier user (int n) table =
    if user_refused user
    then refused bad_user
    else if below_one n
    then refused not_positive
    else if identifier_part table
    then bounded (compose user n table)
    else refused bad_table
ch_unique_identifier user _ table =
    if user_refused user then refused bad_user else refused not_integer
