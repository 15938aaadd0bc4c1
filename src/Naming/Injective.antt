-- ===== src/Naming/Injective.antt =====
-- On `ch_unique_identifier` of services/task_manager/common/app_common/ch_naming.py: two calls with one
-- answer.
use mathlib.Core.List.{append_assoc}
use live_streaming_data_pipe.Base.{
  ℕ, ◌≡◌, ◌≢◌, refl, ap, sym, ◌∙◌, Text, [], ◌∷◌, ◌++◌, All, arith, codes,
}
use live_streaming_data_pipe.Base.Int.{ℤ, pos, negsuc, nat_str, int_str}
use live_streaming_data_pipe.Base.Int.Laws.{nat_str-injective, nat_str-no_underscore}
use live_streaming_data_pipe.Naming.{int, name, compose, ch_unique_identifier}
use live_streaming_data_pipe.Naming.Shape.{Passes-int}

abbrev pub NoUnderscore : Text → Type 0
NoUnderscore = All (λ c. c ≢ b'_')

-- A text splits at its first underscore in one way.
first_underscore :
    (s t a b : Text)
    → NoUnderscore s
    → NoUnderscore t
    → s ++ b'_' ∷ a ≡ t ++ b'_' ∷ b
    → (s ≡ t) × (a ≡ b)
first_underscore [] [] a b hs ht e = (refl, cc)
first_underscore [] (d ∷ t) a b hs ht e = ground arith
first_underscore (c ∷ s) [] a b hs ht e = ground arith
first_underscore (c ∷ s) (d ∷ t) a b hs ht e =
    let rest : s ++ b'_' ∷ a ≡ t ++ b'_' ∷ b = cc in
    let heads : c ≡ d = cc in let (p, q) = first_underscore s t a b hs.1 ht.1 rest in (cc, q)

after_user :
    (m n : ℕ) (a b : Text)
    → codes "collection_" ++ (nat_str m ++ b'_' ∷ a)
      ≡ codes "collection_" ++ (nat_str n ++ b'_' ∷ b)
    → (m ≡ n) × (a ≡ b)
after_user m n a b e =
    let rest : nat_str m ++ b'_' ∷ a ≡ nat_str n ++ b'_' ∷ b = cc in
    let (p, q) =
      first_underscore (nat_str m) (nat_str n) a b (nat_str-no_underscore m)
        (nat_str-no_underscore n) rest in
    (nat_str-injective m n p, q)

compose-injective :
    (u v : Text) (m n : ℕ) (a b : Text)
    → NoUnderscore u
    → NoUnderscore v
    → compose u (pos m) a ≡ compose v (pos n) b
    → (u ≡ v) × (m ≡ n) × (a ≡ b)
unfolding compose
compose-injective u v m n a b hu hv e =
    let x : Text = codes "collection_" ++ (nat_str m ++ b'_' ∷ a) in
    let y : Text = codes "collection_" ++ (nat_str n ++ b'_' ∷ b) in
    let rest : u ++ b'_' ∷ x ≡ v ++ b'_' ∷ y = cc in
    let (p, q) = first_underscore u v x y hu hv rest in
    let (r, s) = after_user m n a b q in (p, r, s)

-- If two calls return the same table name and neither user part holds an underscore, then the calls
-- had the same user, the same collection number and the same table name.
pub ch_unique_identifier-injective :
    (u v : Text) (m n : ℤ) (a b result : Text)
    → NoUnderscore u
    → NoUnderscore v
    → ch_unique_identifier u (int m) a ≡ name result
    → ch_unique_identifier v (int n) b ≡ name result
    → (u ≡ v) × (m ≡ n) × (a ≡ b)
ch_unique_identifier-injective u v (pos m) (pos n) a b result hu hv p q =
    let (s, t, r) = compose-injective u v m n a b hu hv (
      sym (Passes-int u (pos m) a result p).composed
      ∙ (Passes-int v (pos n) b result q).composed) in
    (s, ap pos t, r)
ch_unique_identifier-injective u v (negsuc m) n a b result hu hv p q =
    cc ((Passes-int u (negsuc m) a result p).positive)
ch_unique_identifier-injective u v (pos m) (negsuc n) a b result hu hv p q =
    cc ((Passes-int v (negsuc n) b result q).positive)

-- With underscores in a user id the composed name is ambiguous: whatever the user, the numbers and
-- the table, collection n of user "<user>_collection_<m>" and collection m of the user have one name.
pub compose_collides :
    (user : Text) (m n : ℤ) (table : Text)
    → compose (user ++ (codes "_collection_" ++ int_str m)) n table
      ≡ compose user m (codes "collection_" ++ (int_str n ++ (codes "_" ++ table)))
unfolding compose
compose_collides user m n table = simp append_assoc
