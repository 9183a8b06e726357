-- ===== src/Sender/Tests.antt =====
-- The theorems on the sender at small inputs.
use frib_e2sar.Base.{ℕ, ◌≡◌, ◌⊎◌, refl, true, List, [], ◌∷◌, ◌++◌, Error, ok, err, flatten, arith}
use frib_e2sar.RingItem.Sample.{little_endian, item}
use frib_e2sar.Sender.Sample.{
  list_source, list_segmenter, small_times, list_source-NonemptyItems, list_segmenter-Queues,
  config, ready, ready-IsSending, items_of, list_file, whole_file,
}
use frib_e2sar.Sender.{Sender, ExitCode, send_loop}
use frib_e2sar.Sender.Timestamp.{get_first_timestamp}
use frib_e2sar.Sender.Layout.{
  Hit, IsHit, from_calibration, FirstTime, States, get_first_timestamp-FirstTime,
}
use frib_e2sar.Sender.Filling.{left}
use frib_e2sar.Sender.Ending.{sent_bytes, send_loop-ends}
use frib_e2sar.Sender.Laws.{Sends, IsSending, send_loop-Sends}

send_loop-Sends_example :
    (send_loop 9 config (λ i. i) 0 ready ≡ err Error.out_of_fuel)
    ⊎ ((t : Sender (List (List ℕ)) (List ℕ)) × (send_loop 9 config (λ i. i) 0 ready
          ≡ ok (ExitCode.exit_success, t))
        × Sends config ready t)
send_loop-Sends_example =
    send_loop-Sends config list_segmenter-Queues list_source-NonemptyItems refl (λ i. i) 9 0 ready
      ready-IsSending

-- A state change, and a DDAS hit at time 5 + 256 with a calibration that spells 2.
abbrev hit : Hit
hit = record {
  words = 4 ∷ 0 ∷ 0 ∷ 0 ∷ 32 ∷ 0 ∷ 0 ∷ 0 ∷ 1 ∷ 0 ∷ 0 ∷ 0 ∷ [];
  calibration = 2 ∷ 0 ∷ 0 ∷ 0 ∷ 0 ∷ 0 ∷ 0 ∷ 0 ∷ [];
  word0 = 3 ∷ 0 ∷ 0 ∷ 0 ∷ [];
  t0 = 5;
  t1 = 1;
  t2 = 0;
  t3 = 0;
  t4 = 0;
  t5 = 0;
  b6 = 7;
  b7 = 9;
}

hit-IsHit : IsHit hit
hit-IsHit = record {
  words_size = refl;
  calibration_size = refl;
  word0_size = refl;
  low_bytes = (omega arith, (omega arith, (omega arith, (omega arith, tt))));
  high_bytes = (omega arith, (omega arith, (omega arith, (omega arith, tt))));
}

abbrev hit_body : List ℕ
hit_body = hit.words ++ from_calibration hit []

abbrev hits : List (List ℕ)
hits = item 1 (9 ∷ []) ∷ item 30 hit_body ∷ []

hits-FirstTime : FirstTime true hits 522
hits-FirstTime =
    FirstTime.skip (λ e. omega (arith, e))
      (FirstTime.event (40 ∷ 0 ∷ 0 ∷ 0 ∷ 30 ∷ 0 ∷ 0 ∷ 0 ∷ []) hit_body refl refl refl
        (States.of_hit 4 _ hit [] (λ e. omega (arith, e)) refl hit-IsHit refl))

get_first_timestamp-FirstTime_example : get_first_timestamp true (flatten hits) ≡ ok 522
get_first_timestamp-FirstTime_example =
    get_first_timestamp-FirstTime true hits 522 hits-FirstTime
      ((omega arith, refl), ((omega arith, refl), tt)) (omega arith)

send_loop-ends_example :
    (t : Sender (List (List ℕ)) (List ℕ)) × (send_loop 4 whole_file (λ i. i) 0 ready
      ≡ ok (ExitCode.exit_success, t))
    × (sent_bytes t ≡ sent_bytes ready ++ flatten (items_of ready.source))
    × (left list_file t.pending t.source ≡ [])
    × IsSending whole_file t
send_loop-ends_example =
    send_loop-ends list_file whole_file list_segmenter-Queues refl refl (omega arith) (λ i. i) 4 0
      (items_of ready.source) ready refl (omega arith) (omega arith) (λ e. cc)
      (record { fits = tt; pending_some = λ x e. cc }) (omega arith)
