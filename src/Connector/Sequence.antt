-- ===== src/Connector/Sequence.antt =====
-- On `_Emitter` of connectors/opcua/connector.py: its sequence numbers, and when it counts as read.
use live_streaming_data_pipe.Base.{
  ℕ, suc, ◌≤◌, ◌<◌, ◌≡◌, refl, sym, ap, ◌∙◌, Text, Option, List, [], ◌∷◌, ◌++◌, arith,
}
use mathlib.Core.List.{append_assoc, append-nil}
use mathlib.Core.Path.{subst}
use live_streaming_data_pipe.Connector.Config.{and_then}
use live_streaming_data_pipe.Base.Exec.{Result, ok, err}
use live_streaming_data_pipe.Json.{Py}
use live_streaming_data_pipe.Connector.Emitter.{
  Status, Notification, Moment, Reading, Emitter, touch, reading_named, name_of, reading_of,
  written, with_reading, numbered, with_parts, datachange_notification, notified,
}

-- The numbers of the readings rise strictly, from above `low` to `high` at most.
abbrev pub IsRising : ℕ → ℕ → List (Moment × Reading) → Type 0
IsRising low high [] = low ≤ high
IsRising low high ((m, r) ∷ rs) = (low < r.sequence) × IsRising r.sequence high rs

-- The time of the last reading, or `at` where there is none.
abbrev pub last_of : Option ℕ → List (Moment × Reading) → Option ℕ
last_of at [] = at
last_of at ((m, r) ∷ rs) = last_of (touch m.monotonic at) rs

abbrev pub readings : List (Moment × Reading) → List Reading
readings [] = []
readings ((m, r) ∷ rs) = r ∷ readings rs

-- The readings are of some of the notifications, in their order: of the same node, with its value, each
-- printed at its moment.
pub data Kept (pid : Text) : List (Moment × Notification) → List (Moment × Reading) → Type 0 where
  ended : Kept pid [] []
  dropped :
      {steps : List (Moment × Notification)} {rs : List (Moment × Reading)} (m : Moment)
      (n : Notification)
      → Kept pid steps rs
      → Kept pid ((m, n) ∷ steps) rs
  kept :
      {steps : List (Moment × Notification)} {rs : List (Moment × Reading)} (m : Moment)
      (n : Notification) (r : Reading)
      → n.node_id ≡ ok r.node_id
      → r.value ≡ n.val
      → r.pipeline_id ≡ pid
      → m.printed ≡ ok tt
      → Kept pid steps rs
      → Kept pid ((m, n) ∷ steps) ((m, r) ∷ rs)

-- What a run of the emitter adds to its output, and what it leaves in its other fields.
pub record Emitted (steps : List (Moment × Notification)) (before final : Emitter) : Type 0 where
  pub added : List (Moment × Reading)
  pub are_kept : Kept before.pipeline_id steps added
  pub out_after : final.out ≡ before.out ++ readings added
  pub rising : IsRising before.sequence final.sequence added
  pub read_at : final.last_read ≡ last_of before.last_read added

-- One notification: it is dropped, or its reading is printed.
data Step (m : Moment) (n : Notification) (e f : Emitter) : Type 0 where
  drops :
      f.pipeline_id ≡ e.pipeline_id
      → f.out ≡ e.out
      → f.last_read ≡ e.last_read
      → e.sequence ≤ f.sequence
      → Step m n e f
  prints :
      (r : Reading)
      → f.pipeline_id ≡ e.pipeline_id
      → f.out ≡ e.out ++ (r ∷ [])
      → f.last_read ≡ touch m.monotonic e.last_read
      → f.sequence ≡ suc e.sequence
      → r.sequence ≡ suc e.sequence
      → n.node_id ≡ ok r.node_id
      → r.value ≡ n.val
      → r.pipeline_id ≡ e.pipeline_id
      → m.printed ≡ ok tt
      → Step m n e f

module _ (py : Py) (lower : Text → Text) (dumps : Reading → Result Text) where
  written-Step :
      (m : Moment) (n : Notification) (e : Emitter) (r : Reading) (line : Result Text)
      (p : Result (Unit {0}))
      → m.printed ≡ p
      → r.sequence ≡ suc e.sequence
      → n.node_id ≡ ok r.node_id
      → r.value ≡ n.val
      → r.pipeline_id ≡ e.pipeline_id
      → Step m n e (written py lower dumps m r (numbered py lower dumps e) line p)
  written-Step m n e r (ok line) (ok u) q a b c d = prints r refl refl refl refl a b c d q
  written-Step m n e r (ok line) (err x) q a b c d = drops refl refl refl (omega arith)
  written-Step m n e r (err x) p q a b c d = drops refl refl refl (omega arith)

  parts-Step :
      (m : Moment) (n : Notification) (e : Emitter) (node_id : Result Text) (t : Result (Option ℕ))
      (s : Result Status)
      → n.node_id ≡ node_id
      → Step m n e (with_parts py lower dumps m n.val e node_id t s)
  unfolding reading_of
  parts-Step m n e (ok node_id) (ok t) (ok status) q = by_name (name_of e.node_names node_id)
    where
      by_name :
          (name : Result Text)
          → Step m n e (
              with_reading py lower dumps m (numbered py lower dumps e) (
                and_then name (λ found. ok (
                  reading_named py lower dumps e
                    (suc e.sequence)
                    node_id
                    t
                    status
                    n.val
                    m.utc_now
                    found))))
      by_name (ok found) =
          let r =
            reading_named py lower dumps e (suc e.sequence) node_id t status n.val m.utc_now
              found in
          written-Step m n e r (dumps r) m.printed refl refl q refl refl
      by_name (err x) = drops refl refl refl (omega arith)
  parts-Step m n e (ok node_id) (ok t) (err x) q = drops refl refl refl (omega arith)
  parts-Step m n e (ok node_id) (err x) s q = drops refl refl refl (omega arith)
  parts-Step m n e (err x) t s q = drops refl refl refl (omega arith)

  datachange_notification-Step :
      (m : Moment) (n : Notification) (e : Emitter)
      → Step m n e (datachange_notification py lower dumps m n e)
  unfolding datachange_notification
  datachange_notification-Step m n e =
      parts-Step m n e n.node_id n.source_timestamp n.status_code refl

  IsRising-le :
      (low mid high : ℕ) (rs : List (Moment × Reading))
      → low ≤ mid
      → IsRising mid high rs
      → IsRising low high rs
  IsRising-le low mid high [] h r = omega (arith, h, r)
  IsRising-le low mid high ((m, x) ∷ rs) h r = (omega (arith, h, r.0), r.1)

  Step-Emitted :
      (m : Moment) (n : Notification) (steps : List (Moment × Notification)) (e f g : Emitter)
      → Step m n e f
      → Emitted steps f g
      → Emitted ((m, n) ∷ steps) e g
  Step-Emitted m n steps e f g (drops pid out at le) r = record {
    added = r.added;
    are_kept = dropped m n (subst (λ p. Kept p steps r.added) pid r.are_kept);
    out_after = r.out_after ∙ ap (λ o. o ++ readings r.added) out;
    rising = IsRising-le e.sequence f.sequence g.sequence r.added le r.rising;
    read_at = r.read_at ∙ ap (λ o. last_of o r.added) at;
  }
  Step-Emitted m n steps e f g (prints x pid out at count number node value owner printed) r =
      record {
        added = (m, x) ∷ r.added;
        are_kept =
            kept m n x node value owner printed (subst (λ p. Kept p steps r.added) pid r.are_kept);
        out_after =
            r.out_after
            ∙ ap (λ o. o ++ readings r.added) out
            ∙ append_assoc e.out (x ∷ []) (readings r.added);
        rising = (
          omega (arith, number),
          IsRising-le x.sequence f.sequence g.sequence r.added (omega (arith, number, count))
              r.rising,
        );
        read_at = r.read_at ∙ ap (λ o. last_of o r.added) at;
      }

  -- A run of notifications adds to the output readings of some of them, in their order, each with its
  -- node and its value; the sequence numbers rise strictly from above the count before the run; and the
  -- time of the last read is that of the last reading printed, so that no dropped notification counts.
  pub notified-Emitted :
      (steps : List (Moment × Notification)) (e : Emitter)
      → Emitted steps e (notified py lower dumps steps e)
  unfolding notified
  notified-Emitted [] e = record {
    added = [];
    are_kept = ended;
    out_after = sym (append-nil e.out);
    rising = omega arith;
    read_at = refl;
  }
  notified-Emitted ((m, n) ∷ steps) e =
      let f = datachange_notification py lower dumps m n e in
      Step-Emitted m n steps e f (notified py lower dumps steps f)
        (datachange_notification-Step m n e) (notified-Emitted steps f)
