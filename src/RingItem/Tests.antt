-- ===== src/RingItem/Tests.antt =====
-- The ring item utilities on a block of two items, and on one whose header states the size 0.
use frib_e2sar.Base.{ℕ, ◌≡◌, refl, List, [], ◌∷◌, Error, err, All, arith}
use frib_e2sar.RingItem.{count_loop}
use frib_e2sar.RingItem.Sample.{little_endian, item}
use frib_e2sar.RingItem.Laws.{IsItem, count_loop-stuck}

abbrev two_items : List (List ℕ)
two_items = item 1 [] ∷ item 30 (5 ∷ 6 ∷ []) ∷ []

two_items-IsItem : All IsItem two_items
two_items-IsItem = ((omega arith, refl), ((omega arith, refl), tt))

abbrev no_size : List ℕ
no_size = 0 ∷ 0 ∷ 0 ∷ 0 ∷ 30 ∷ 0 ∷ 0 ∷ 0 ∷ []

count_loop-stuck_example : count_loop 1000 no_size 8 0 ≡ err Error.out_of_fuel
count_loop-stuck_example =
    count_loop-stuck 1000 no_size 8 0 (omega arith) refl (omega arith) (omega arith)
