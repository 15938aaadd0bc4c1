-- ===== src/Watcher/Move.antt =====
-- On `_move` of services/task_manager/task_manager/app/folder_watcher.py: its loop and its target.
use mathlib.Core.List.{append_cancel_left, append_cancel_right}
use live_streaming_data_pipe.Base.{
  ℕ, zero, suc, ◌≤◌, ◌<◌, ◌≡◌, ◌≢◌, inl, inr, refl, sym, ◌∙◌, Text, text_eq, text_eq_iff, Bool,
  true, false, Bool-cases, some, List, [], ◌∷◌, ◌++◌, arith, In, length, if◌then◌else◌,
}
use live_streaming_data_pipe.Base.Int.{nat_str}
use live_streaming_data_pipe.Base.Int.Laws.{nat_str-injective}
use live_streaming_data_pipe.Base.Exec.{ok, ◌>>=◌}
use live_streaming_data_pipe.Watcher.Files.{
  FilePath, Files, IsListed, stem_and_suffix, numbered, free_number, target_name, dropped,
  move_file,
}

numbered-injective : (name : Text) (m n : ℕ) → numbered name m ≡ numbered name n → m ≡ n
unfolding numbered
numbered-injective name m n e =
    let (stem, suffix) = stem_and_suffix name in
    let after : b'.' ∷ (nat_str m ++ suffix) ≡ b'.' ∷ (nat_str n ++ suffix) =
      append_cancel_left stem (b'.' ∷ (nat_str m ++ suffix)) (b'.' ∷ (nat_str n ++ suffix)) e in
    let numbers : nat_str m ++ suffix ≡ nat_str n ++ suffix = cc in
    nat_str-injective m n (append_cancel_right (nat_str m) (nat_str n) suffix numbers)

-- A list without the occurrences of a text.
unfoldable without : Text → List Text → List Text
without t [] = []
without t (x ∷ xs) = if text_eq x t then without t xs else x ∷ without t xs

length-without_le : (t : Text) (xs : List Text) → length (without t xs) ≤ length xs
unfolding without
length-without_le t [] = omega arith
length-without_le t (x ∷ xs) = ground (arith, length-without_le t xs)

length-without : (t : Text) (xs : List Text) → In t xs → length (without t xs) < length xs
unfolding without
length-without t [] i = elim i [ ]
length-without t (x ∷ xs) (inl e) = ground (arith, text_eq_iff x t, length-without_le t xs)
length-without t (x ∷ xs) (inr i) = ground (arith, length-without t xs i, length-without_le t xs)

In-without : (s t : Text) (xs : List Text) → s ≢ t → In s xs → In s (without t xs)
unfolding without
In-without s t [] ne i = i
In-without s t (x ∷ xs) ne i = elim (Bool-cases (text_eq x t)) [
  | inl same ↦ rw same (elim i [
    | inl e ↦ absurd (ne (sym e ∙ (text_eq_iff x t).0 same))
    | inr j ↦ In-without s t xs ne j
  ])
  | inr differ ↦ rw differ (elim i [ inl e ↦ inl e | inr j ↦ inr (In-without s t xs ne j) ])
]

module _ {World : Type 0} (files : Files World) (dest name : Text) (w : World) where
  abbrev taken : ℕ → Bool
  taken n = files.exists (record { parent = dest; name = numbered name n }) w

  -- With more fuel than names that may be taken, the loop ends at a number that is free.
  free_number-total :
      (fuel n : ℕ) (names : List Text)
      → ((m : ℕ) → n ≤ m → taken m ≡ true → In (numbered name m) names)
      → length names < fuel
      → (m : ℕ) × (free_number files dest name w fuel n ≡ some m) × (taken m ≡ false)
  unfolding free_number
  free_number-total zero n names listed h = absurd (omega arith)
  free_number-total (suc fuel) n names listed h = elim (Bool-cases (taken n)) [
    | inr free ↦ (n, rw free refl, free)
    | inl exists ↦
        let here = listed n (omega arith) exists in
        rw exists (
          free_number-total fuel (suc n) (without (numbered name n) names)
            (λ m le t.
              In-without (numbered name m) (numbered name n) names
                (λ e. let q : m ≡ n = numbered-injective name m n e in absurd (omega (arith, le)))
                (listed m (omega (arith, le)) t))
            (omega (arith, length-without (numbered name n) names here)))
  ]

  target_name-total :
      IsListed files
      → (target : Text) × (target_name files dest name w ≡ some target)
        × (files.exists (record { parent = dest; name = target }) w ≡ false)
  unfolding target_name
  target_name-total listed =
      elim (Bool-cases (files.exists (record { parent = dest; name = name }) w)) [
        | inr free ↦ (name, rw free refl, free)
        | inl exists ↦
            let (m, found, free) =
              free_number-total (suc (length (files.entries dest w))) 1 (files.entries dest w)
                (λ n le t. listed (record { parent = dest; name = numbered name n }) w t)
                (omega arith) in
            (numbered name m, rw (exists, found) refl, free)
      ]

-- If a directory lists what exists in it, and `mkdir` of the destination returns, then the loop of
-- `_move` ends, and `_move` is one call of `shutil.move` to a name in the destination at which nothing
-- exists; what it raises is dropped if it is an `OSError`.
pub move_file-free :
    {World : Type 0} (files : Files World) (fp : FilePath) (dest : Text) (w : World)
    → IsListed files
    → (files.mkdir dest w).0 ≡ ok tt
    → let w' = (files.mkdir dest w).1 in
      (target : Text) × (files.exists (record { parent = dest; name = target }) w' ≡ false)
      × (move_file files fp dest w
          ≡ dropped files (files.move fp (record { parent = dest; name = target }) w'))
unfolding move_file ◌>>=◌
move_file-free files fp dest w listed made =
    let (target, found, free) =
      target_name-total files dest fp.name (files.mkdir dest w).1 listed in
    (target, free, rw made (rw found refl))
