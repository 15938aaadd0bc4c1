-- ===== src/Watcher/Files.antt =====
-- What the watcher uses of `pathlib` and `shutil`, and its `_move`.
use live_streaming_data_pipe.Base.{
  ℕ, zero, suc, Text, codes, Bool, true, false, Option, none, some, List, [], ◌∷◌, ◌++◌, ◌==◌, ◌≡◌,
  In, length, if◌then◌else◌,
}
use live_streaming_data_pipe.Base.Int.{nat_str}
use live_streaming_data_pipe.Base.Exec.{
  Exc, ExcKind, os_error, connection_error, timeout_error, other, Result, ok, err, Exec, ◌>>=◌,
}

-- A path by its parent and its last part.
pub record FilePath : Type 0 where
  pub parent : Text
  pub name : Text

-- `directory / name` where `directory` is a child of `parent`
abbrev pub below : Text → Text → Text
below parent child = parent ++ (codes "/" ++ child)

pub record Files (World : Type 0) : Type 0 where
  pub exists : FilePath → World → Bool
  pub is_file : FilePath → World → Bool
  -- the names that `iterdir` gives
  pub entries : Text → World → List Text
  pub read_text : FilePath → Exec World Text
  -- `mkdir(parents=True, exist_ok=True)`
  pub mkdir : Text → Exec World (Unit {0})
  -- `shutil.move`
  pub move : FilePath → FilePath → Exec World (Unit {0})

-- What exists in a directory is listed.
abbrev pub IsListed : {World : Type 0} → Files World → Type 0
IsListed {World} files =
    (p : FilePath) (w : World) → files.exists p w ≡ true → In p.name (files.entries p.parent w)

abbrev at_dot : ℕ → Text → Option (Text × Text) → Option (Text × Text)
at_dot c s (some (a, b)) = some (c ∷ a, b)
at_dot c s none = if c == b'.' then some ([], s) else none

-- what stands before the last dot and after it
unfoldable pub last_dot : Text → Option (Text × Text)
last_dot [] = none
last_dot (c ∷ s) = at_dot c s (last_dot s)

abbrev parts_at : Text → Option (Text × Text) → Text × Text
parts_at name (some (c ∷ a, d ∷ b)) = (c ∷ a, b'.' ∷ d ∷ b)
parts_at name _ = (name, [])

-- `path.stem` and `path.suffix`: a dot at the start or at the end begins no suffix.
unfoldable pub stem_and_suffix : Text → Text × Text
unfolding last_dot
stem_and_suffix name = parts_at name (last_dot name)

-- `f"{fp.stem}.{n}{fp.suffix}"`
unfoldable pub numbered : Text → ℕ → Text
unfolding stem_and_suffix
numbered name n =
    let (stem, suffix) = stem_and_suffix name in stem ++ (b'.' ∷ (nat_str n ++ suffix))

abbrev pub is_os_error : ExcKind → Bool
is_os_error os_error = true
is_os_error connection_error = true
is_os_error timeout_error = true
is_os_error _ = false

-- The `while` of `_move` on fuel, from the number `n` on.
module _ {World : Type 0} (files : Files World) (dest name : Text) (w : World) where
  unfoldable pub free_number : ℕ → ℕ → Option ℕ
  unfolding numbered
  free_number zero n = none
  free_number (suc fuel) n =
      let rest = free_number fuel (suc n) in
      if files.exists (record { parent = dest; name = numbered name n }) w then rest else some n

  abbrev name_with : Option ℕ → Option Text
  name_with none = none
  name_with (some n) = some (numbered name n)

  -- The name of the target. The fuel is one more than there are names in the directory.
  unfoldable pub target_name : Option Text
  unfolding free_number
  target_name =
      if files.exists (record { parent = dest; name = name }) w
      then name_with (free_number (suc (length (files.entries dest w))) 1)
      else some name

abbrev pub endless : Exc
endless = record { kind = other; name = codes "endless"; message = [] }

module _ {World : Type 0} (files : Files World) where
  -- the `try` around `shutil.move`
  abbrev pub dropped : Result (Unit {0}) × World → Result (Unit {0}) × World
  dropped (ok u, w) = (ok tt, w)
  dropped (err e, w) = (if is_os_error e.kind then ok tt else err e, w)

  -- `endless` stands for a loop that finds no free name.
  abbrev pub move_as : FilePath → Text → Option Text → Exec World (Unit {0})
  move_as fp dest none w = (err endless, w)
  move_as fp dest (some name) w = dropped (files.move fp (record { parent = dest; name = name }) w)

  -- `_move`
  unfoldable pub move_file : FilePath → Text → Exec World (Unit {0})
  unfolding target_name ◌>>=◌
  move_file fp dest = do
    made ← files.mkdir dest
    λ w. move_as fp dest (target_name files dest fp.name w) w
