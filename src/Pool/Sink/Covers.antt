-- ===== src/Pool/Sink/Covers.antt =====
-- On the steps of `write` in services/consumer_pool/app/sink.py: where each record of a batch goes,
-- and the counts.
use mathlib.Core.Path.{subst}
use live_streaming_data_pipe.Base.{
  ℕ, ◌+◌, ◌≡◌, ◌⊎◌, refl, Text, codes, false, List, [], ◌∷◌, ◌++◌, Bool-cases, inl, inr, arith,
  length, All, All-map, In,
}
use live_streaming_data_pipe.Base.Dict.{Dict, keys}
use live_streaming_data_pipe.Base.Exec.{Result, ok, err, Exec, pure, continue, ◌>>=◌}
use live_streaming_data_pipe.Json.{Py}
use live_streaming_data_pipe.Model.{PipelineConfig}
use live_streaming_data_pipe.Pool.ClickHouse.{ClickHouse}
use live_streaming_data_pipe.Pool.Rows.{Cell, succeeded}
use live_streaming_data_pipe.Pool.ToRow.{to_row, reads_clock, select}
use live_streaming_data_pipe.Pool.Sink.State.{IncomingRecord, Sink}
use live_streaming_data_pipe.Pool.Sink.Write.{
  Dead, Mapping, records_of, add_kept, add_dead, clock_if, map_row, sort_row, map_records,
  is_record_error,
}

-- The record is in the list of dead ones, for some reason.
abbrev pub InDead : IncomingRecord → List Dead → Type 0
InDead r dead = (reason : Text) × In (r, reason) dead

InDead-append_left :
    (r : IncomingRecord) (reason : Text) (xs ys : List Dead)
    → In (r, reason) xs
    → In (r, reason) (xs ++ ys)
InDead-append_left r reason [] ys h = elim h [ ]
InDead-append_left r reason (x ∷ xs) ys (inl e) = inl e
InDead-append_left r reason (x ∷ xs) ys (inr h) = inr (InDead-append_left r reason xs ys h)

InDead-append_right :
    (r : IncomingRecord) (reason : Text) (xs ys : List Dead)
    → In (r, reason) ys
    → In (r, reason) (xs ++ ys)
InDead-append_right r reason [] ys h = h
InDead-append_right r reason (x ∷ xs) ys h = inr (InDead-append_right r reason xs ys h)

module _ (py : Py) (config : PipelineConfig) where
  -- The cells are the record's row, at some readings of the clock.
  pub record Maps (r : IncomingRecord) (cells : List Cell) : Type 0 where
    pub checked : ℕ
    pub ingested : ℕ
    pub row : Dict Cell
    pub mapped : to_row py r.value config checked ingested ≡ ok row
    pub selected : select (keys config.table_schema) row ≡ ok cells

  -- How the records of a batch were sorted.
  pub data Sorts : List IncomingRecord → Mapping → Type 0 where
    none : Sorts [] (record { kept = []; dead = [] })
    keep :
        {r : IncomingRecord} {rs : List IncomingRecord} {cells : List Cell} {m : Mapping}
        → Maps r cells
        → Sorts rs m
        → Sorts (r ∷ rs) (add_kept r cells m)
    drop :
        {r : IncomingRecord} {rs : List IncomingRecord} {reason : Text} {m : Mapping}
        → Sorts rs m
        → Sorts (r ∷ rs) (add_dead r reason m)

  pub Sorts-length :
      {rs : List IncomingRecord} {m : Mapping}
      → Sorts rs m
      → length m.kept + length m.dead ≡ length rs
  Sorts-length none = omega arith
  Sorts-length (keep h s) = omega (arith, Sorts-length s)
  Sorts-length (drop s) = omega (arith, Sorts-length s)

  pub Sorts-Maps :
      {rs : List IncomingRecord} {m : Mapping} → Sorts rs m → All (λ p. Maps p.0 p.1) m.kept
  Sorts-Maps none = tt
  Sorts-Maps (keep h s) = (h, Sorts-Maps s)
  Sorts-Maps (drop s) = Sorts-Maps s

  -- If every kept record is `Q` or failed, then every record is `Q` or dead.
  pub Sorts-cover :
      (Q : IncomingRecord → Type 0) (failed : List Dead) {rs : List IncomingRecord} {m : Mapping}
      → Sorts rs m
      → All (λ r. Q r ⊎ InDead r failed) (records_of m.kept)
      → All (λ r. Q r ⊎ InDead r (m.dead ++ failed)) rs
  Sorts-cover Q failed none h = tt
  Sorts-cover Q failed (keep {r = r} {m = m} _ s) h = (
    elim h.0 [
      | inl q ↦ inl q
      | inr (reason, i) ↦ inr (reason, InDead-append_right r reason m.dead failed i)
    ],
    Sorts-cover Q failed s h.1,
  )
  Sorts-cover Q failed (drop {r = r} {rs = rs} {reason = reason} {m = m} s) h = (
    inr (reason, inl refl),
    All-map (λ x. Q x ⊎ InDead x (m.dead ++ failed))
        (λ x. Q x ⊎ InDead x ((r, reason) ∷ (m.dead ++ failed)))
        (λ x c. elim c [ inl q ↦ inl q | inr (why, i) ↦ inr (why, inr i) ]) rs
        (Sorts-cover Q failed s h),
  )

module _ (py : Py) (ch : ClickHouse) (config : PipelineConfig) where
  pub map_row_ok :
      (r : IncomingRecord) (s : Sink ch.World) (row : Dict Cell)
      → (map_row py ch config r s).0 ≡ ok row
      → (checked : ℕ) × (ingested : ℕ) × (to_row py r.value config checked ingested ≡ ok row)
  unfolding map_row ◌>>=◌
  map_row_ok r s row h =
      let (checked, s1) = clock_if py ch config (reads_clock py r.value) s in
      let (ingested, s2) =
        clock_if py ch config (succeeded (to_row py r.value config checked 0)) s1 in
      (checked, ingested, h)

  bind_pure_ok :
      (rest : Exec (Sink ch.World) Mapping) (g : Mapping → Mapping) (s : Sink ch.World)
      (m : Mapping)
      → ((rest >>= λ x. pure (g x)) s).0 ≡ ok m
      → (m' : Mapping) × ((rest s).0 ≡ ok m') × (g m' ≡ m)
  unfolding ◌>>=◌
  bind_pure_ok rest g s m h = go (rest s).0 refl h
    where
      go :
          (r : Result Mapping)
          → (rest s).0 ≡ r
          → (continue r (λ x. pure (g x)) (rest s).1).0 ≡ ok m
          → (m' : Mapping) × ((rest s).0 ≡ ok m') × (g m' ≡ m)
      go (ok x) e q = (x, e, cc)
      go (err x) e q = cc

  module _ (r : IncomingRecord) (rs : List IncomingRecord) (rest : Exec (Sink ch.World) Mapping)
      (ih : (t : Sink ch.World) (m : Mapping) → (rest t).0 ≡ ok m → Sorts py config rs m) where
    kept_Sorts :
        (row : Dict Cell) (cells : Result (List Cell)) (t : Sink ch.World) (m : Mapping)
        → (checked : ℕ) → (ingested : ℕ) → to_row py r.value config checked ingested ≡ ok row
        → select (keys config.table_schema) row ≡ cells
        → (continue cells (λ c. rest >>= λ x. pure (add_kept r c x)) t).0 ≡ ok m
        → Sorts py config (r ∷ rs) m
    kept_Sorts row (ok c) t m checked ingested mapped selected h =
        let (m', e, g) = bind_pure_ok rest (add_kept r c) t m h in
        subst (λ x. Sorts py config (r ∷ rs) x) g
          (keep
            (record {
              checked = checked;
              ingested = ingested;
              row = row;
              mapped = mapped;
              selected = selected;
            })
            (ih t m' e))
    kept_Sorts row (err e) t m checked ingested mapped selected h = cc

    sort_row-Sorts :
        (s : Sink ch.World) (row : Result (Dict Cell)) (t : Sink ch.World) (m : Mapping)
        → (map_row py ch config r s).0 ≡ row
        → (sort_row py ch config r rest row t).0 ≡ ok m
        → Sorts py config (r ∷ rs) m
    sort_row-Sorts s (ok row) t m e h =
        let (checked, ingested, mapped) = map_row_ok r s row e in
        kept_Sorts row (select (keys config.table_schema) row) t m checked ingested mapped refl h
    sort_row-Sorts s (err x) t m e h = elim (Bool-cases (is_record_error x.kind)) [
      | inl c ↦
          let (m', q, g) =
            bind_pure_ok rest (add_dead r (codes "map: " ++ x.message)) t m (simp c at h) in
          subst (λ y. Sorts py config (r ∷ rs) y) g (drop (ih t m' q))
      | inr c ↦ go c
    ]
      where
        go : is_record_error x.kind ≡ false → Sorts py config (r ∷ rs) m
        go c = ground arith

  -- The loop of `write` sorts every record.
  pub map_records-Sorts :
      (rs : List IncomingRecord) (s : Sink ch.World) (m : Mapping)
      → (map_records py ch config rs s).0 ≡ ok m
      → Sorts py config rs m
  unfolding map_records
  map_records-Sorts [] s m h =
      let e : record { kept = []; dead = [] } ≡ m = cc in subst (λ x. Sorts py config [] x) e none
  map_records-Sorts (r ∷ rs) s m h =
      sort_row-Sorts r rs (map_records py ch config rs) (map_records-Sorts rs) s
        (map_row py ch config r s).0 (map_row py ch config r s).1 m refl h
