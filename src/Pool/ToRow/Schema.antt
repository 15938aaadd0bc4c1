-- ===== src/Pool/ToRow/Schema.antt =====
-- On `to_row` of services/consumer_pool/app/rows.py: the columns of a row, and its time.
use live_streaming_data_pipe.Base.{
  ℕ, suc, ◌+◌, ◌≤◌, ◌≡◌, ◌∙◌, ap, refl, All, length, text_eq_refl, Text, codes, Option, none, some,
  List, [], ◌∷◌, arith, text_eq_iff,
}
use live_streaming_data_pipe.Base.Dict.{Dict, lookup, insert, keys, lookup-insert, Distinct}
use live_streaming_data_pipe.Base.Exec.{Result, ok, err}
use live_streaming_data_pipe.Json.{Value, null, obj, Fields, entries, Py}
use live_streaming_data_pipe.Model.{PipelineConfig}
use live_streaming_data_pipe.Pool.Rows.{
  Cell, instant, split_value, event_time, event_time_of, check_plausible, then_check, or_unusable,
  resolve, dict_or_empty, earliest_plausible, future_tolerance,
}
use live_streaming_data_pipe.Pool.ToRow.{
  fill, fill_row, select, source_of, with_value, with_time, with_dicts, to_row,
}

fill_row-undeclared :
    (schema : Dict Text) (source row : Dict Cell) (c : Text)
    → lookup c schema ≡ none
    → lookup c (fill_row schema source row) ≡ lookup c row
unfolding fill_row
fill_row-undeclared [] source row c h = refl
fill_row-undeclared ((column, ch_type) ∷ schema) source row c h =
    let cell : Cell = fill ch_type (lookup column source) in
    let row' : Dict Cell = insert column cell row in
    unfold lookup in
    ground (arith, fill_row-undeclared schema source row' c, lookup-insert column c cell row)

fill_row-declared :
    (schema : Dict Text) (source row : Dict Cell) (c ch_type : Text)
    → Distinct schema
    → lookup c schema ≡ some ch_type
    → lookup c (fill_row schema source row) ≡ some (fill ch_type (lookup c source))
unfolding fill_row
fill_row-declared [] source row c ch_type d h = unfold lookup in cc
fill_row-declared ((column, t) ∷ schema) source row c ch_type d h =
    let cell : Cell = fill t (lookup column source) in
    let row' : Dict Cell = insert column cell row in
    unfold lookup in
    ground (
      arith,
      text_eq_iff column c,
      fill_row-undeclared schema source row' c,
      lookup-insert column c cell row,
      fill_row-declared schema source row' c ch_type d.1,
    )

-- The entries of `part` are those that `schema` finds.
abbrev Agree : Dict Text → Dict Text → Type 0
Agree part schema = All (λ e. lookup e.0 schema ≡ some e.1) part

Agree-cons :
    (part schema : Dict Text) (k t : Text)
    → lookup k schema ≡ none
    → Agree part schema
    → Agree part ((k, t) ∷ schema)
Agree-cons [] schema k t fresh h = tt
Agree-cons ((c, u) ∷ part) schema k t fresh h =
    (unfold lookup in ground (arith, text_eq_iff k c, h.0), Agree-cons part schema k t fresh h.1)

Agree-refl : (schema : Dict Text) → Distinct schema → Agree schema schema
Agree-refl [] d = tt
Agree-refl ((k, t) ∷ schema) d =
    (unfold lookup in rw (text_eq_refl k), Agree-cons schema schema k t d.0 (Agree-refl schema d.1))

-- The cells of a row in the order of the columns, with no dictionary in between.
unfoldable pub row_cells : Dict Text → Dict Cell → List Cell
row_cells [] source = []
row_cells ((column, ch_type) ∷ schema) source =
    fill ch_type (lookup column source) ∷ row_cells schema source

select-Agree :
    (part schema : Dict Text) (source : Dict Cell)
    → Distinct schema
    → Agree part schema
    → select (keys part) (fill_row schema source []) ≡ ok (row_cells part source)
unfolding select row_cells keys
select-Agree [] schema source d h = refl
select-Agree ((c, t) ∷ part) schema source d h =
    rw (fill_row-declared schema source [] c t d h.0, select-Agree part schema source d h.1)

-- `[row[c] for c in columns]` never misses a column, and is the declared columns filled in order.
pub select-fill_row :
    (schema : Dict Text) (source : Dict Cell)
    → Distinct schema
    → select (keys schema) (fill_row schema source []) ≡ ok (row_cells schema source)
select-fill_row schema source d = select-Agree schema schema source d (Agree-refl schema d)

length-row_cells :
    (schema : Dict Text) (source : Dict Cell) → length (row_cells schema source) ≡ length schema
unfolding row_cells
length-row_cells [] source = refl
length-row_cells ((c, t) ∷ schema) source = ap suc (length-row_cells schema source)

check_plausible_bounds :
    (py : Py) (raw : Value) (now t u : ℕ)
    → check_plausible py raw now u ≡ ok t
    → (earliest_plausible ≤ t) × (t ≤ now + future_tolerance)
unfolding check_plausible
check_plausible_bounds py raw now t u h = ground arith

then_check_bounds :
    (py : Py) (raw : Value) (now t : ℕ) (r : Result ℕ)
    → then_check py raw now r ≡ ok t
    → (earliest_plausible ≤ t) × (t ≤ now + future_tolerance)
then_check_bounds py raw now t (ok u) h = check_plausible_bounds py raw now t u h
then_check_bounds py raw now t (err e) h = cc

event_time_of_bounds :
    (py : Py) (raw : Option Value) (now t : ℕ)
    → event_time_of py now raw ≡ ok t
    → (earliest_plausible ≤ t) × (t ≤ now + future_tolerance)
unfolding event_time_of
event_time_of_bounds py none now t h = cc
event_time_of_bounds py (some null) now t h = cc
event_time_of_bounds py (some raw) now t h =
    then_check_bounds py raw now t (or_unusable py raw (resolve py raw)) h

event_time_bounds :
    (py : Py) (message : Dict Value) (now t : ℕ)
    → event_time py message now ≡ ok t
    → (earliest_plausible ≤ t) × (t ≤ now + future_tolerance)
unfolding event_time
event_time_bounds py message now t h =
    event_time_of_bounds py (lookup (codes "timestamp") message) now t h

source_time :
    (tags fields : Dict Value) (t : ℕ) (split : Value × Value) (ingested : ℕ)
    (config : PipelineConfig) (ch_type : Text)
    → some
        (fill ch_type (lookup (codes "event_time") (source_of tags fields t split ingested config)))
      ≡ some (instant t)
unfolding source_of fill
source_time tags fields t split ingested config ch_type = simp lookup-insert

-- A successful `to_row` has checked the time, split the value and filled the declared columns.
pub record Mapped (py : Py) (message : Dict Value) (config : PipelineConfig) (now ingested : ℕ)
    (row : Dict Cell) : Type 0 where
  pub tags : Dict Value
  pub fields : Dict Value
  pub time : ℕ
  pub split : Value × Value
  pub time_ok : event_time py message now ≡ ok time
  pub split_ok : split_value py (lookup (codes "value") fields) ≡ ok split
  pub filled :
      row ≡ fill_row config.table_schema (source_of tags fields time split ingested config) []

module _ (py : Py) (message : Dict Value) (config : PipelineConfig) (now ingested : ℕ)
    (row : Dict Cell) where
  with_value_inv :
      (tags fields : Dict Value) (t : ℕ) (r : Result (Value × Value))
      → event_time py message now ≡ ok t
      → split_value py (lookup (codes "value") fields) ≡ r
      → with_value py tags fields ingested config t r ≡ ok row
      → Mapped py message config now ingested row
  with_value_inv tags fields t (ok split) et es h = record {
    tags = tags;
    fields = fields;
    time = t;
    split = split;
    time_ok = et;
    split_ok = es;
    filled = cc;
  }
  with_value_inv tags fields t (err e) et es h = cc

  with_time_inv :
      (tags fields : Dict Value) (r : Result ℕ)
      → event_time py message now ≡ r
      → with_time py tags fields ingested config r ≡ ok row
      → Mapped py message config now ingested row
  with_time_inv tags fields (ok t) et h =
      with_value_inv tags fields t (split_value py (lookup (codes "value") fields)) et refl h
  with_time_inv tags fields (err e) et h = cc

  pub with_dicts_inv :
      (tags fields : Option (Dict Value))
      → with_dicts py message now ingested config tags fields ≡ ok row
      → Mapped py message config now ingested row
  with_dicts_inv (some tags) (some fields) h =
      with_time_inv tags fields (event_time py message now) refl h
  with_dicts_inv none fields h = cc
  with_dicts_inv (some tags) none h = cc

pub to_row_inv :
    (py : Py) (v : Value) (config : PipelineConfig) (now ingested : ℕ) (row : Dict Cell)
    → to_row py v config now ingested ≡ ok row
    → (fs : Fields) × (v ≡ obj fs) × Mapped py (entries fs) config now ingested row
unfolding to_row
to_row_inv py (obj fs) config now ingested row h = (
  fs,
  refl,
  with_dicts_inv py (entries fs) config now ingested row
      (dict_or_empty py (lookup (codes "tags") (entries fs)))
      (dict_or_empty py (lookup (codes "fields") (entries fs))) h,
)
to_row_inv py _ config now ingested row h = cc

-- A mapped message gives a row from which every declared column is read in order, and which holds no
-- column that the schema does not declare.
pub to_row-columns :
    (py : Py) (v : Value) (config : PipelineConfig) (now ingested : ℕ) (row : Dict Cell)
    → Distinct config.table_schema
    → to_row py v config now ingested ≡ ok row
    → ((cells : List Cell) × (select (keys config.table_schema) row ≡ ok cells)
        × (length cells ≡ length config.table_schema))
      × ((c : Text) → lookup c config.table_schema ≡ none → lookup c row ≡ none)
to_row-columns py v config now ingested row d h =
    let (fs, e, m) = to_row_inv py v config now ingested row h in
    let source : Dict Cell = source_of m.tags m.fields m.time m.split ingested config in
    (
      (
        row_cells config.table_schema source,
        rw m.filled (select-fill_row config.table_schema source d),
        length-row_cells config.table_schema source,
      ),
      λ c undeclared.
          rw m.filled (
            fill_row-undeclared config.table_schema source [] c undeclared ∙ unfold lookup in refl),
    )

-- The `event_time` column of a mapped message holds an instant from 2001 on that is at most a day
-- later than the clock at the check.
pub to_row-event_time :
    (py : Py) (v : Value) (config : PipelineConfig) (now ingested : ℕ) (row : Dict Cell)
    (ch_type : Text)
    → Distinct config.table_schema
    → lookup (codes "event_time") config.table_schema ≡ some ch_type
    → to_row py v config now ingested ≡ ok row
    → (t : ℕ) × (lookup (codes "event_time") row ≡ some (instant t))
      × (earliest_plausible ≤ t)
      × (t ≤ now + future_tolerance)
to_row-event_time py v config now ingested row ch_type d declared h =
    let (fs, e, m) = to_row_inv py v config now ingested row h in
    let (lo, hi) = event_time_bounds py (entries fs) now m.time m.time_ok in
    let source : Dict Cell = source_of m.tags m.fields m.time m.split ingested config in
    (
      m.time,
      rw m.filled (
          fill_row-declared config.table_schema source [] (codes "event_time") ch_type d declared
          ∙ source_time m.tags m.fields m.time m.split ingested config ch_type),
      lo,
      hi,
    )
