-- ===== src/Naming/Newline.antt =====
-- On `ch_unique_identifier` of services/task_manager/common/app_common/ch_naming.py: the `$` of its
-- pattern.
use mathlib.Core.List.{append_assoc}
use live_streaming_data_pipe.Base.{
  sym, ◌∙◌, ◌+◌, ◌<◌, ◌≡◌, Text, [], ◌∷◌, ◌++◌, true, length, length-append, arith, All, ap, refl,
}
use live_streaming_data_pipe.Base.Int.{ℤ}
use live_streaming_data_pipe.Naming.{
  int, name, max_identifier_length, is_word, is_tail, identifier_part, compose,
  ch_unique_identifier,
}
use live_streaming_data_pipe.Naming.Shape.{Passes, Passes-int, name-Passes}

-- Letters, digits and underscores, and nothing else.
abbrev pub IsWord : Text → Type 0
IsWord = All (λ c. is_word c ≡ true)

pub newline_end : Text → Text
newline_end t = t ++ 10 ∷ []

is_tail-IsWord : (t : Text) → IsWord t → is_tail t ≡ true
unfolding is_tail
is_tail-IsWord [] h = refl
is_tail-IsWord (c ∷ t) h = ground (arith, is_tail-IsWord t)

is_tail-newline_end : (t : Text) → IsWord t → is_tail (newline_end t) ≡ true
unfolding is_tail newline_end
is_tail-newline_end [] h = refl
is_tail-newline_end (c ∷ t) h = ground (arith, is_tail-newline_end t)

identifier_part-newline_end :
    (t : Text) → IsWord t → identifier_part t ≡ true → identifier_part (newline_end t) ≡ true
unfolding identifier_part newline_end
identifier_part-newline_end [] w h = h
identifier_part-newline_end (c ∷ t) w h =
    unfold newline_end in ground (arith, is_tail-newline_end t w.1)

compose-newline_end :
    (user : Text) (n : ℤ) (t : Text)
    → compose user n (newline_end t) ≡ newline_end (compose user n t)
unfolding compose newline_end
compose-newline_end user n t = simp append_assoc

length-newline_end : (t : Text) → length (newline_end t) ≡ length t + 1
unfolding newline_end
length-newline_end t = omega (arith, length-append t (10 ∷ []))

-- A table name of letters, digits and underscores that is accepted with a composed name of fewer than
-- 128 characters is accepted with a newline at its end too, and names the table with that newline.
pub accepts-newline_end :
    (user : Text) (n : ℤ) (table result : Text)
    → IsWord table
    → ch_unique_identifier user (int n) table ≡ name result
    → length result < max_identifier_length
    → ch_unique_identifier user (int n) (newline_end table) ≡ name (newline_end result)
accepts-newline_end user n table result w h short =
    let a : Passes user n table result = Passes-int user n table result h in
    name-Passes user n (newline_end table) (newline_end result) (record {
      user_ok = a.user_ok;
      positive = a.positive;
      table_ok = identifier_part-newline_end table w a.table_ok;
      composed = ap newline_end a.composed ∙ sym (compose-newline_end user n table);
      fits = omega (arith, length-newline_end result);
    })
