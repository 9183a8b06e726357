-- ===== src/Utils/Tests.antt =====
-- FribE2sarUtils.cpp: dumps of small buffers.
use frib_e2sar.Base.{ℕ, List, [], ◌∷◌, ◌≡◌, refl, ok, arith}
use frib_e2sar.Utils.{dump_buffer, dump_lines, print_bytes, print_blanks}
use frib_e2sar.Utils.Dump.{ShowsAll, dump_buffer-ShowsAll}

-- "0a ff" and six blanks.
dump_buffer-two :
    dump_buffer (10 ∷ 255 ∷ 7 ∷ []) 2
    ≡ ok (
        (48 ∷ 97 ∷ 32 ∷ 102 ∷ 102 ∷ 32 ∷ 32 ∷ 32 ∷ 32 ∷ 32 ∷ 32 ∷ 32 ∷ 32 ∷ 32 ∷ 32 ∷ 32 ∷ 32 ∷ 32
          ∷ 32 ∷ 32 ∷ 32 ∷ 32 ∷ 32 ∷ 32 ∷ [])
        ∷ [])
unfolding dump_buffer dump_lines print_bytes print_blanks frib_e2sar.Sender.Timestamp.read_byte
    frib_e2sar.RingItem.advance
dump_buffer-two = refl

dump_buffer-ShowsAll_example :
    (lines : List (List ℕ)) × (dump_buffer (10 ∷ 255 ∷ 7 ∷ []) 2 ≡ ok lines)
    × ShowsAll (10 ∷ 255 ∷ []) lines
dump_buffer-ShowsAll_example =
    dump_buffer-ShowsAll (10 ∷ 255 ∷ 7 ∷ []) 2 (omega arith)
      (omega arith, (omega arith, (omega arith, tt)))
