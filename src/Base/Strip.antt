-- ===== src/Base/Strip.antt =====
-- `str.strip`, and the parts of a list that is written with commas.
use Prim.Native.Nat.{ℕ}
use mathlib.Core.Path.{◌≡◌, refl, ap, ◌∙◌}
use mathlib.Core.Logic.{◌≢◌}
use mathlib.Core.Bool.{Bool, false, ◌||◌}
use mathlib.Core.List.{List, [], ◌∷◌, ◌++◌, reverse}
use native.Mathlib.Omega.{arith}
use live_streaming_data_pipe.Base.Tests.{ltb, leb, ◌==◌, if◌then◌else◌}
use live_streaming_data_pipe.Base.Lists.{All}
use live_streaming_data_pipe.Base.Texts.{Text, split, cons_head, join}

abbrev within : ℕ → ℕ → ℕ → Bool
within low high c = if ltb c low then false else leb c high

-- The white space of `str.strip`.
unfoldable pub is_space : ℕ → Bool
is_space c =
    within 9 13 c
    || (within 28 32 c
        || (c == 133
            || (c == 160
                || (c == 5_760
                    || (within 8_192 8_202 c
                        || (c == 8_232
                            || (c == 8_233 || (c == 8_239 || (c == 8_287 || c == 12_288)))))))))

unfoldable pub lstrip : Text → Text
unfolding is_space
lstrip [] = []
lstrip (c ∷ s) = let rest = lstrip s in if is_space c then rest else c ∷ s

unfoldable pub strip : Text → Text
unfolding lstrip
strip s = reverse (lstrip (reverse (lstrip s)))

abbrev pub kept : Text → List Text → List Text
kept [] ps = ps
kept (c ∷ s) ps = (c ∷ s) ∷ ps

unfoldable pub strip_all : List Text → List Text
unfolding strip
strip_all [] = []
strip_all (p ∷ ps) = kept (strip p) (strip_all ps)

-- `[p.strip() for p in text.split(",") if p.strip()]`
unfoldable pub stripped_parts : Text → List Text
unfolding strip_all split
stripped_parts text = strip_all (split text b',')

-- A part that the list leaves as it is.
pub record IsPlain (part : Text) : Type 0 where
  pub is_stripped : strip part ≡ part
  pub is_filled : part ≢ []
  pub no_comma : All (λ c. c ≢ b',') part

split-plain : (s : Text) → All (λ c. c ≢ b',') s → split s b',' ≡ s ∷ []
unfolding split cons_head
split-plain [] h = refl
split-plain (c ∷ s) h = ground (arith, h, split-plain s h.1)

split-append :
    (s t : Text) → All (λ c. c ≢ b',') s → split (s ++ (b',' ∷ t)) b',' ≡ s ∷ split t b','
unfolding split cons_head
split-append [] t h = refl
split-append (c ∷ s) t h = ground (arith, h, split-append s t h.1)

strip_all-plain : (ps : List Text) → All IsPlain ps → strip_all ps ≡ ps
unfolding strip_all
strip_all-plain [] h = refl
strip_all-plain ([] ∷ ps) h = absurd (h.0.is_filled refl)
strip_all-plain ((c ∷ s) ∷ ps) h = rw (h.0.is_stripped, strip_all-plain ps h.1) refl

split-join :
    (p : Text) (ps : List Text)
    → All IsPlain (p ∷ ps)
    → split (join (b',' ∷ []) (p ∷ ps)) b',' ≡ p ∷ ps
unfolding join
split-join p [] h = split-plain p h.0.no_comma
split-join p (q ∷ ps) h =
    split-append p (join (b',' ∷ []) (q ∷ ps)) h.0.no_comma ∙ ap (λ r. p ∷ r) (split-join q ps h.1)

-- A list of plain parts, joined by commas, is read back.
pub stripped_parts-join :
    (ps : List Text) → All IsPlain ps → stripped_parts (join (b',' ∷ []) ps) ≡ ps
unfolding stripped_parts
stripped_parts-join [] h = unfold join split strip_all strip lstrip in refl
stripped_parts-join (p ∷ ps) h = rw (split-join p ps h) (strip_all-plain (p ∷ ps) h)
