-- ===== src/Naming/Tests.antt =====
-- Runs of `ch_unique_identifier`, and its theorems at concrete calls.
use live_streaming_data_pipe.Base.{◌≡◌, ◌↔◌, refl, arith, codes, false}
use live_streaming_data_pipe.Base.Int.{pos}
use live_streaming_data_pipe.Naming.{
  int, boolean, name, refused, bad_user, not_integer, not_positive, bad_table, ch_unique_identifier,
}
use live_streaming_data_pipe.Naming.Accepted.{IsAccepted, ch_unique_identifier-IsAccepted}
use live_streaming_data_pipe.Naming.Injective.{ch_unique_identifier-injective}
use live_streaming_data_pipe.Naming.Newline.{newline_end, accepts-newline_end}

iot_table :
    ch_unique_identifier (codes "1") (int (pos 22)) (codes "aveva_iot")
    ≡ name (codes "user_1_collection_22_aveva_iot")
unfolding ch_unique_identifier
iot_table = refl

refusals :
    (ch_unique_identifier (codes "") (int (pos 1)) (codes "t") ≡ refused bad_user)
    × (ch_unique_identifier (codes "1") (boolean false) (codes "t") ≡ refused not_integer)
    × (ch_unique_identifier (codes "1") (int (pos 0)) (codes "t") ≡ refused not_positive)
    × (ch_unique_identifier (codes "1") (int (pos 1)) (codes "1t") ≡ refused bad_table)
unfolding ch_unique_identifier
refusals = (refl, refl, refl, refl)

ch_unique_identifier-IsAccepted_example :
    (ch_unique_identifier (codes "1") (int (pos 22)) (codes "aveva_iot")
      ≡ name (codes "user_1_collection_22_aveva_iot"))
    ↔ IsAccepted (codes "1") (pos 22) (codes "aveva_iot") (codes "user_1_collection_22_aveva_iot")
ch_unique_identifier-IsAccepted_example =
    ch_unique_identifier-IsAccepted (codes "1") (pos 22) (codes "aveva_iot")
      (codes "user_1_collection_22_aveva_iot")

ch_unique_identifier-injective_example :
    (codes "1" ≡ codes "1") × (pos 22 ≡ pos 22) × (codes "aveva_iot" ≡ codes "aveva_iot")
ch_unique_identifier-injective_example =
    ch_unique_identifier-injective (codes "1") (codes "1") (pos 22) (pos 22) (codes "aveva_iot")
      (codes "aveva_iot") (codes "user_1_collection_22_aveva_iot") (ground arith) (ground arith)
      iot_table iot_table

accepts-newline_end_example :
    ch_unique_identifier (codes "1") (int (pos 22)) (newline_end (codes "aveva_iot"))
    ≡ name (newline_end (codes "user_1_collection_22_aveva_iot"))
unfolding ch_unique_identifier
accepts-newline_end_example =
    accepts-newline_end (codes "1") (pos 22) (codes "aveva_iot")
      (codes "user_1_collection_22_aveva_iot") (ground arith) iot_table (omega arith)
