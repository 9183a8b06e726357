-- ===== src/Receiver/Stats.antt =====
-- `Receiver::statsThread`: it collects the events that the Reassembler has lost, and reports.
mod Tests
use mathlib.Core.List.{append_assoc, append-nil}
use mathlib.Core.Path.{subst}
use frib_e2sar.Base.{
  ℕ, zero, suc, ◌+◌, ◌≤◌, ◌<◌, ◌≡◌, refl, sym, ap, ◌∙◌, List, [], ◌∷◌, ◌++◌, Option, none, some,
  Bool, true, false, Error, Result, ok, err, ◌>>=◌, >>=_of_ok, ltb, ◌==◌, not, if◌then◌else◌,
  length, first_eq, second_eq, arith,
}

-- The event number, the data id and the number of fragments that came.
abbrev pub LostEvent : Type 0
LostEvent = ℕ × ℕ × ℕ

-- The statistics of a Reassembler.
pub record Stats : Type 0 where
  pub enqueue_loss : ℕ
  pub reassembly_loss : ℕ
  pub event_success : ℕ
  pub last_errno : ℕ
  pub grpc_err_cnt : ℕ
  pub data_err_cnt : ℕ
  pub last_e2sar_error : Option ℕ

-- The E2SAR Reassembler: `getStats`, and `get_LostEvent`, which takes the first of its queue of
-- lost events, or gives an error where that is empty.
pub record LossQueue (R : Type 0) : Type 0 where
  pub get_stats : R → Stats
  pub get_lost_event : R → Option LostEvent × R
  pub waiting : R → List LostEvent
  pub lost_first :
      (r : R) (x : LostEvent) (rest : List LostEvent)
      → waiting r ≡ x ∷ rest
      → (s : R) × (get_lost_event r ≡ (some x, s)) × (waiting s ≡ rest)
  pub lost_none :
      (r : R) → waiting r ≡ [] → (s : R) × (get_lost_event r ≡ (none, s)) × (waiting s ≡ [])

-- The last line of a report: with the debugging option the events, else their number.
pub data Losses : Type 0 where
  each_event : List LostEvent → Losses
  their_number : ℕ → Losses

-- What a round prints. The last data error is printed only if there was one.
pub record Report : Type 0 where
  pub received : ℕ
  pub lost_in_reassembly : ℕ
  pub lost_in_enqueue : ℕ
  pub data_errors : ℕ
  pub last_data_error : Option ℕ
  pub grpc_errors : ℕ
  pub last_error : Option ℕ
  pub losses : Losses

unfoldable pub losses_of : Bool → List LostEvent → Losses
losses_of debug lost = if debug then Losses.each_event lost else Losses.their_number (length lost)

unfoldable pub report_of : Bool → Stats → List LostEvent → Report
report_of debug stats lost = record {
  received = stats.event_success;
  lost_in_reassembly = stats.reassembly_loss;
  lost_in_enqueue = stats.enqueue_loss;
  data_errors = stats.data_err_cnt;
  last_data_error = if ltb 0 stats.data_err_cnt then some stats.last_errno else none;
  grpc_errors = stats.grpc_err_cnt;
  last_error = stats.last_e2sar_error;
  losses = losses_of debug lost;
}

module _ {R : Type 0} ⦃queue : LossQueue R⦄ where
  -- `while(true)` around `get_LostEvent`, with fuel: the lost events behind those before.
  unfoldable pub collect_lost : ℕ → List LostEvent → R → Result (List LostEvent × R)
  collect_lost zero lost r = err Error.out_of_fuel
  collect_lost (suc fuel) lost r =
      let (got, s) = queue.get_lost_event r in
      elim got [ none ↦ ok (lost, s) | some x ↦ collect_lost fuel (lost ++ x ∷ []) s ]

  -- A round of the thread.
  unfoldable pub stats_round : ℕ → Bool → List LostEvent → R → Result (Report × List LostEvent × R)
  stats_round fuel debug lost r =
      collect_lost fuel lost r >>= λ c. ok (report_of debug (queue.get_stats r) c.0, c.0, c.1)

  -- The thread from the round `i` on. `running` is `m_threadsRunning` at the start of a round, and
  -- `between` is what the Reassembler does while the thread sleeps.
  unfoldable pub stats_thread :
      ℕ
      → ℕ
      → (ℕ → Bool)
      → (ℕ → R → R)
      → Bool
      → ℕ
      → List LostEvent
      → R
      → Result (List Report × List LostEvent × R)
  stats_thread zero fuel running between debug i lost r = err Error.out_of_fuel
  stats_thread (suc rounds) fuel running between debug i lost r =
      let round : Result (List Report × List LostEvent × R) = stats_round fuel debug lost r >>= λ x.
      stats_thread rounds fuel running between debug (i + 1) x.1 (between i x.2) >>= λ y.
      ok (x.0 ∷ y.0, y.1, y.2) in
      if running i then round else ok ([], lost, r)

-- What comes into the queue: what waits, and then what is new after each round.
abbrev pub gathered : (ℕ → List LostEvent) → List LostEvent → ℕ → ℕ → List LostEvent
gathered new waiting i zero = []
gathered new waiting i (suc n) = waiting ++ gathered new (new i) (i + 1) n

-- How a report shows lost events: with the debugging option each of them, else how many.
abbrev pub shown : Bool → List LostEvent → Losses
shown true lost = Losses.each_event lost
shown false lost = Losses.their_number (length lost)

losses_of-shown : (debug : Bool) (lost : List LostEvent) → losses_of debug lost ≡ shown debug lost
unfolding losses_of
losses_of-shown true lost = refl
losses_of-shown false lost = refl

-- Each report shows all events lost so far.
abbrev pub Reported :
    Bool → (ℕ → List LostEvent) → List LostEvent → List LostEvent → ℕ → List Report → Type 0
Reported debug new lost waiting i [] = Unit {0}
Reported debug new lost waiting i (x ∷ xs) =
    (x.losses ≡ shown debug (lost ++ waiting))
    × Reported debug new (lost ++ waiting) (new i) (i + 1) xs

module _ {R : Type 0} ⦃queue : LossQueue R⦄ where
  collect_lost-waiting :
      (fuel : ℕ) (lost waiting : List LostEvent) (r : R)
      → queue.waiting r ≡ waiting
      → length waiting < fuel
      → (s : R) × (collect_lost fuel lost r ≡ ok (lost ++ waiting, s)) × (queue.waiting s ≡ [])
  unfolding collect_lost
  collect_lost-waiting zero lost waiting r e f = absurd (omega (arith, f))
  collect_lost-waiting (suc fuel) lost [] r e f =
      let (s, gives, left) = queue.lost_none r e in
      (s, rw (collect_lost, first_eq gives, second_eq gives, append-nil lost) refl, left)
  collect_lost-waiting (suc fuel) lost (x ∷ rest) r e f =
      let (s, gives, left) = queue.lost_first r x rest e in
      let (t, run, empty) =
        collect_lost-waiting fuel (lost ++ x ∷ []) rest s left (omega (arith, f)) in
      (
        t,
        rw (collect_lost, first_eq gives, second_eq gives)
            (run ∙ ap (λ (z : List LostEvent). ok (z, t)) (append_assoc lost (x ∷ []) rest)),
        empty,
      )

  -- A thread that runs for `n` rounds, with fuel for one call more in each round than there are
  -- lost events in the queue, ends with `n` reports. It has collected each event that came into the
  -- queue before its last round, once and in order, behind those that it had; and each report
  -- gives all that were lost so far with the debugging option, else their number.
  pub stats_thread-Reported :
      (fuel : ℕ) (running : ℕ → Bool) (between : ℕ → R → R) (debug : Bool)
      (new : ℕ → List LostEvent)
      → ((j : ℕ) (r : R) → queue.waiting (between j r) ≡ queue.waiting r ++ new j)
      → ((j : ℕ) → length (new j) < fuel)
      → (n i : ℕ) (lost : List LostEvent) (r : R) → ((j : ℕ) → j < n → running (i + j) ≡ true)
      → running (i + n) ≡ false
      → length (queue.waiting r) < fuel
      → (reports : List Report) × (s : R) × (stats_thread
            (suc n)
            fuel
            running
            between
            debug
            i
            lost
            r
          ≡ ok (reports, lost ++ gathered new (queue.waiting r) i n, s))
        × (length reports ≡ n)
        × Reported debug new lost (queue.waiting r) i reports
  unfolding stats_thread stats_round report_of
  stats_thread-Reported fuel running between debug new grows few zero i lost r runs stops enough =
      let off : running i ≡ false = ap running (omega arith) ∙ stops in
      ([], r, rw (off, append-nil lost) refl, refl, tt)
  stats_thread-Reported fuel running between debug new grows few (suc n) i lost r runs stops
        enough =
      let on : running i ≡ true = ap running (omega arith) ∙ runs 0 (omega arith) in
      let (s, got, empty) = collect_lost-waiting fuel lost (queue.waiting r) r refl enough in
      let all = lost ++ queue.waiting r in
      let u = between i s in
      let fresh : queue.waiting u ≡ new i =
        grows i s ∙ ap (λ (z : List LostEvent). z ++ new i) empty in
      let (reports, t, run, many, reported) =
        stats_thread-Reported fuel running between debug new grows few n (i + 1) all u
          (λ j h. ap running (omega arith) ∙ runs (suc j) (omega (arith, h)))
          (ap running (omega arith) ∙ stops) (rw fresh (few i)) in
      (
        report_of debug (queue.get_stats r) all ∷ reports,
        t,
        rw (on, got, run)
            (ap
              (λ (z : List LostEvent). ok (report_of debug (queue.get_stats r) all ∷ reports, z, t))
              (ap (λ (z : List LostEvent). all ++ gathered new z (i + 1) n) fresh
                ∙ append_assoc lost (queue.waiting r) (gathered new (new i) (i + 1) n))),
        ap suc many,
        (
          losses_of-shown debug all,
          subst (λ (z : List LostEvent). Reported debug new all z (i + 1) reports) fresh reported,
        ),
      )
