-- ===== src/Naming/Accepted.antt =====
-- On `ch_unique_identifier` of services/task_manager/common/app_common/ch_naming.py: the calls that it accepts,
-- said without its own tests.
use mathlib.Core.List.{append_assoc}
use live_streaming_data_pipe.Base.{
  ℕ, zero, suc, ◌≤◌, ◌≡◌, ◌⊎◌, inl, inr, ◌↔◌, refl, Text, codes, Bool, true, false, [], ◌∷◌, ◌++◌,
  ◌&&◌, ◌||◌, ◌==◌, if◌then◌else◌, length, arith, replace, sym, ◌∙◌,
}
use live_streaming_data_pipe.Base.Int.{ℤ, pos, negsuc, int_str, below_one}
use live_streaming_data_pipe.Naming.{
  int, name, is_empty, is_letter, is_word, is_tail, identifier_part, user_refused, compose,
  ch_unique_identifier,
}
use live_streaming_data_pipe.Naming.Shape.{Passes, Passes-int, name-Passes}

-- One of the 52 letters, or an underscore.
abbrev pub Letter : ℕ → Type 0
Letter c = ((b'A' ≤ c) × (c ≤ b'Z')) ⊎ ((b'a' ≤ c) × (c ≤ b'z')) ⊎ (c ≡ b'_')

-- One of the ten digits.
abbrev pub Digit : ℕ → Type 0
Digit c = (b'0' ≤ c) × (c ≤ b'9')

-- Characters of a kind, and then at most a newline.
abbrev pub Line : (ℕ → Type 0) → Text → Type 0
Line Kind [] = Unit {0}
Line Kind (c ∷ s) = (Kind c × Line Kind s) ⊎ ((c ≡ 10) × (s ≡ []))

abbrev pub Begins : Text → Type 0
Begins [] = ⊥
Begins (c ∷ s) = Letter c × Line (λ d. Letter d ⊎ Digit d) s

-- What may stand in a user part.
abbrev pub UserPart : ℕ → Type 0
UserPart c = Letter c ⊎ Digit c ⊎ (c ≡ b'-')

abbrev pub Filled : Text → Type 0
Filled [] = ⊥
Filled (c ∷ s) = Unit {0}

-- A user part, a number and a table name that make a name of a table.
pub record IsAccepted (user : Text) (n : ℤ) (table result : Text) : Type 0 where
  pub user_filled : Filled user
  pub user_line : Line UserPart user
  pub number : (k : ℕ) × (n ≡ pos (suc k))
  pub table_begins : Begins table
  pub result_is :
      result ≡ codes "user_" ++ user ++ codes "_collection_" ++ int_str n ++ codes "_" ++ table
  pub fits : length result ≤ 128

is_letter-Letter : (c : ℕ) → (is_letter c ≡ true) ↔ Letter c
unfolding is_letter
is_letter-Letter c = (λ h. ground (arith, h), λ h. ground (arith, h))

is_word-Letter : (c : ℕ) → (is_word c ≡ true) ↔ (Letter c ⊎ Digit c)
unfolding is_word is_letter
is_word-Letter c = (λ h. ground (arith, h), λ h. ground (arith, h))

is_empty_lem : (s : Text) → (is_empty s ≡ true) ↔ (s ≡ [])
is_empty_lem [] = (λ h. refl, λ h. refl)
is_empty_lem (c ∷ s) = (λ h. cc, λ h. cc)

-- How a test on one character and a test on the rest make a `Line`.
step-Line :
    (Kind : ℕ → Type 0) (c : ℕ) (s : Text) (a b : Bool)
    → ((a ≡ true) ↔ Kind c)
    → ((b ≡ true) ↔ Line Kind s)
    → (((a && b) || (c == 10 && is_empty s)) ≡ true) ↔ Line Kind (c ∷ s)
step-Line Kind c s true true (p, p') (q, q') = (λ h. inl (p refl, q refl), λ h. refl)
step-Line Kind c s true false (p, p') (q, q') = (
  λ h. inr (ground (arith, h), (is_empty_lem s).0 (ground (arith, h))),
  λ h. ground (arith, h, q', is_empty_lem s),
)
step-Line Kind c s false b (p, p') (q, q') = (
  λ h. inr (ground (arith, h), (is_empty_lem s).0 (ground (arith, h))),
  λ h. ground (arith, h, p', is_empty_lem s),
)

is_tail-Line : (s : Text) → (is_tail s ≡ true) ↔ Line (λ d. Letter d ⊎ Digit d) s
unfolding is_tail
is_tail-Line [] = (λ h. tt, λ h. refl)
is_tail-Line (c ∷ s) =
    step-Line (λ d. Letter d ⊎ Digit d) c s (is_word c) (is_tail s) (is_word-Letter c)
      (is_tail-Line s)

identifier_part-Begins : (s : Text) → (identifier_part s ≡ true) ↔ Begins s
unfolding identifier_part
identifier_part-Begins [] = (λ h. cc, λ h. absurd h)
identifier_part-Begins (c ∷ s) = (
  λ h. ((is_letter-Letter c).0 (ground (arith, h)), (is_tail-Line s).0 (ground (arith, h))),
  λ h. ground (arith, (is_letter-Letter c).1 h.0, (is_tail-Line s).1 h.1),
)

is_word-UserPart : (c : ℕ) → (is_word (if c == b'-' then b'_' else c) ≡ true) ↔ UserPart c
unfolding is_word is_letter
is_word-UserPart c = (λ h. ground (arith, h), λ h. ground (arith, h))

is_newline-replace : (c : ℕ) → ((if c == b'-' then b'_' else c) == 10) ≡ (c == 10)
is_newline-replace c = ground arith

is_empty-replace : (s : Text) → is_empty (replace s b'-' b'_') ≡ is_empty s
unfolding replace
is_empty-replace [] = refl
is_empty-replace (c ∷ s) = refl

is_tail-replace : (s : Text) → (is_tail (replace s b'-' b'_') ≡ true) ↔ Line UserPart s
unfolding is_tail replace
is_tail-replace [] = (λ h. tt, λ h. refl)
is_tail-replace (c ∷ s) =
    rw (is_newline-replace c, is_empty-replace s)
      (step-Line UserPart c s (is_word (if c == b'-' then b'_' else c))
        (is_tail (replace s b'-' b'_')) (is_word-UserPart c) (is_tail-replace s))

if_false : (b : Bool) → ((if b then false else true) ≡ false) ↔ (b ≡ true)
if_false true = (λ h. refl, λ h. refl)
if_false false = (λ h. cc, λ h. cc)

user_refused-is_tail :
    (c : ℕ) (s : Text)
    → user_refused (c ∷ s) ≡ (if is_tail (replace (c ∷ s) b'-' b'_') then false else true)
unfolding user_refused replace identifier_part is_letter
user_refused-is_tail c s = refl

user_refused-Line : (s : Text) → (user_refused s ≡ false) ↔ (Filled s × Line UserPart s)
unfolding user_refused
user_refused-Line [] = (λ h. cc, λ h. absurd h.0)
user_refused-Line (c ∷ s) =
    let (p, q) = if_false (is_tail (replace (c ∷ s) b'-' b'_')) in
    let (p', q') = is_tail-replace (c ∷ s) in
    (
      λ h. (tt, p' (p (sym (user_refused-is_tail c s) ∙ h))),
      λ h. user_refused-is_tail c s ∙ q (q' h.1),
    )

below_one-pos : (n : ℤ) → (below_one n ≡ false) ↔ ((k : ℕ) × (n ≡ pos (suc k)))
below_one-pos (pos zero) = (λ h. cc, λ (k, h). cc)
below_one-pos (pos (suc k)) = (λ h. (k, refl), λ h. ground arith)
below_one-pos (negsuc k) = (λ h. cc, λ (k, h). cc)

compose_lem :
    (user : Text) (n : ℤ) (table : Text)
    → compose user n table
      ≡ codes "user_" ++ user ++ codes "_collection_" ++ int_str n ++ codes "_" ++ table
unfolding compose
compose_lem user n table = simp append_assoc

-- For an integer collection number, the call returns `result` exactly when the user part is not empty
-- and of letters, digits, `_` and `-`, the number is at least 1, the table name is a letter or `_`
-- and then letters, digits and `_`, each of the two with at most a newline after it, `result` is the
-- two texts and the number in their places in `user_<user>_collection_<n>_<table>`, and it has at
-- most 128 characters.
pub ch_unique_identifier-IsAccepted :
    (user : Text) (n : ℤ) (table result : Text)
    → (ch_unique_identifier user (int n) table ≡ name result) ↔ IsAccepted user n table result
ch_unique_identifier-IsAccepted user n table result = (
  λ h.
      let p : Passes user n table result = Passes-int user n table result h in
      let u = (user_refused-Line user).0 p.user_ok in
      record {
        user_filled = u.0;
        user_line = u.1;
        number = (below_one-pos n).0 p.positive;
        table_begins = (identifier_part-Begins table).0 p.table_ok;
        result_is = p.composed ∙ compose_lem user n table;
        fits = p.fits;
      },
  λ h. name-Passes user n table result (record {
    user_ok = (user_refused-Line user).1 (h.user_filled, h.user_line);
    positive = (below_one-pos n).1 h.number;
    table_ok = (identifier_part-Begins table).1 h.table_begins;
    composed = h.result_is ∙ sym (compose_lem user n table);
    fits = h.fits;
  }),
)
