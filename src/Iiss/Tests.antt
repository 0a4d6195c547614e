-- ===== src/Iiss/Tests.antt =====
-- IISS data at concrete values, and the management DB after a restart.
use rewardcalculator.Base.{nat_eq, ◌≡◌, refl, arith, none, some, List, [], ◌∷◌}
use rewardcalculator.Base.Int.{pos}
use rewardcalculator.Base.Bytes.{Bytes, bytes_eq, before, before_trans, before_connex}
use rewardcalculator.Db.Engine.{Engine}
use rewardcalculator.Db.MapDb as MapDb
use rewardcalculator.Db.Ordered.Sorted as Sorted
use rewardcalculator.Iiss.{IissHeader}
use rewardcalculator.Iiss.Written.{Write, header, gv, block, prep, header_after, apply_all}
use rewardcalculator.Iiss.RoundTrip.{Read, load_iiss_data-apply_all}
use rewardcalculator.Iiss.TestCodecs.{codecs}

abbrev db : Engine Bytes Bytes
db = Sorted.engine before before_trans before_connex

abbrev nothing : db.Table
nothing = MapDb.empty Bytes Bytes

-- The heights are not written in order, and one is written twice.
abbrev writes : List Write
writes =
    gv 300 5 6 22 78
    ∷ header 2 400 8
    ∷ gv 20 1 2 22 78
    ∷ block 310 (some 7) (8 ∷ 9 ∷ [])
    ∷ gv 300 7 8 22 78
    ∷ prep 301 50 (record { address = 7; delegated_amount = pos 50 } ∷ [])
    ∷ block 309 none (8 ∷ [])
    ∷ []

abbrev written_header : IissHeader
written_header = record { version = 2; block_height = 400; revision = 8 }

is_header : header_after writes none ≡ some written_header
unfolding header_after
is_header = refl

load_iiss_data-apply_all_example :
    Read db codecs writes written_header (apply_all db codecs writes nothing)
load_iiss_data-apply_all_example =
    load_iiss_data-apply_all db codecs writes written_header nothing
      (Sorted.is_ordered before before_trans before_connex) (λ k. refl)
      (
        omega arith,
        (tt, (omega arith, (omega arith, (omega arith, (omega arith, (omega arith, tt)))))),
      )
      is_header
