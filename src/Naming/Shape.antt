-- ===== src/Naming/Shape.antt =====
-- On `ch_unique_identifier` of services/task_manager/common/app_common/ch_naming.py: its guards.
use live_streaming_data_pipe.Base.{◌≤◌, ◌≡◌, Text, true, false, length, arith}
use live_streaming_data_pipe.Base.Int.{ℤ, below_one}
use live_streaming_data_pipe.Naming.{
  int, name, max_identifier_length, user_refused, identifier_part, compose, bounded,
  ch_unique_identifier,
}

-- What every accepted call has passed.
pub record Passes (user : Text) (n : ℤ) (table result : Text) : Type 0 where
  pub user_ok : user_refused user ≡ false
  pub positive : below_one n ≡ false
  pub table_ok : identifier_part table ≡ true
  pub composed : result ≡ compose user n table
  pub fits : length result ≤ max_identifier_length

pub Passes-int :
    (user : Text) (n : ℤ) (table result : Text)
    → ch_unique_identifier user (int n) table ≡ name result
    → Passes user n table result
unfolding ch_unique_identifier
Passes-int user n table result h = unfold bounded in ground arith

pub name-Passes :
    (user : Text) (n : ℤ) (table result : Text)
    → Passes user n table result
    → ch_unique_identifier user (int n) table ≡ name result
unfolding ch_unique_identifier
name-Passes user n table result h = unfold bounded in ground arith
