-- ===== src/Receiver/Stats/Tests.antt =====
-- A thread that runs for two rounds, on a queue that is a list, with one new loss in each sleep.
use frib_e2sar.Base.{
  ℕ, ◌+◌, ◌≡◌, refl, List, [], ◌∷◌, ◌++◌, Option, none, some, true, ok, ltb, lt→ltb, length, arith,
}
use frib_e2sar.Receiver.Stats.{
  LostEvent, Stats, LossQueue, Report, stats_thread, Reported, stats_thread-Reported,
}

abbrev take_first : List LostEvent → Option LostEvent × List LostEvent
take_first [] = (none, [])
take_first (x ∷ xs) = (some x, xs)

take_first-some :
    (r : List LostEvent) (x : LostEvent) (rest : List LostEvent)
    → r ≡ x ∷ rest
    → (s : List LostEvent) × (take_first r ≡ (some x, s)) × (s ≡ rest)
take_first-some r x rest e = (rest, rw e refl, refl)

take_first-none :
    (r : List LostEvent) → r ≡ [] → (s : List LostEvent) × (take_first r ≡ (none, s)) × (s ≡ [])
take_first-none r e = ([], rw e refl, refl)

abbrev no_errors : Stats
no_errors = record {
  enqueue_loss = 0;
  reassembly_loss = 1;
  event_success = 40;
  last_errno = 0;
  grpc_err_cnt = 0;
  data_err_cnt = 0;
  last_e2sar_error = none;
}

instance abbrev list_losses : LossQueue (List LostEvent)
list_losses = record {
  get_stats = λ r. no_errors;
  get_lost_event = take_first;
  waiting = λ r. r;
  lost_first = take_first-some;
  lost_none = take_first-none;
}

abbrev one_more : ℕ → List LostEvent
one_more j = (j, 0, 3) ∷ []

stats_thread-Reported_example :
    (reports : List Report) × (s : List LostEvent) × (stats_thread 3 4
        (λ j. ltb j 2)
        (λ j r. r ++ one_more j)
        true
        0
        []
        ((9, 0, 1) ∷ (8, 0, 2) ∷ [])
      ≡ ok (reports, (9, 0, 1) ∷ (8, 0, 2) ∷ (0, 0, 3) ∷ [], s))
    × (length reports ≡ 2)
    × Reported true one_more [] ((9, 0, 1) ∷ (8, 0, 2) ∷ []) 0 reports
stats_thread-Reported_example =
    stats_thread-Reported 4 (λ j. ltb j 2) (λ j r. r ++ one_more j) true one_more (λ j r. refl)
      (λ j. omega arith) 2 0 [] ((9, 0, 1) ∷ (8, 0, 2) ∷ [])
      (λ j h. lt→ltb (0 + j) 2 (omega (arith, h))) refl (omega arith)
