-- ===== src/BufferedSink/Window.antt =====
-- `emitFromWindow` against its contract.
use frib_e2sar.Base.{
  ℕ, ◌+◌, ◌-◌, ◌^◌, ◌≤◌, ◌<◌, ◌≡◌, ◌↔◌, List, [], ◌∷◌, inl, inr, true, All, All-last, last, ltb,
  ltb→lt, ltb→ge, lt→ltb, Bool-cases, arith,
}
use frib_e2sar.Base.Words.{sub_u64, sub_u64_of_le}
use frib_e2sar.BufferedSink.{Buffer, BufferedSink, window_test, emit_from_window}
use frib_e2sar.BufferedSink.Sorted.{IsSorted}

-- Every time is a `uint64_t`.
abbrev pub InRange : List Buffer → Type 0
InRange = All (λ (b : Buffer). b.s_time < 2 ^ 64)

-- Some two buffers lie further apart than the window.
abbrev pub Spans : ℕ → List Buffer → Type 0
Spans w [] = ⊥
Spans w (front ∷ []) = ⊥
Spans w (front ∷ b ∷ rest) = front.s_time + w < (last b rest).s_time

pub window_test-iff_Spans :
    (w : ℕ) (q : List Buffer) → IsSorted q → InRange q → (window_test w q ≡ true) ↔ Spans w q
unfolding window_test
window_test-iff_Spans w [] h r = (λ e. cc, λ e. absurd e)
window_test-iff_Spans w (front ∷ []) h r = (λ e. cc, λ e. absurd e)
window_test-iff_Spans w (front ∷ b ∷ rest) h r =
    let newest : ℕ = (last b rest).s_time in
    let after : front.s_time ≤ newest = All-last _ b rest h.0 in
    let small : newest < 2 ^ 64 = All-last _ b rest r.1 in
    let span : sub_u64 newest front.s_time ≡ newest - front.s_time =
      sub_u64_of_le newest front.s_time small after in
    elim (Bool-cases (ltb (sub_u64 newest front.s_time) w)) [
      | inl narrow ↦
          let lt : sub_u64 newest front.s_time < w = ltb→lt _ _ narrow in
          rw narrow (λ e. cc, λ e. absurd (omega (arith, lt, span, after)))
      | inr wide ↦
          let ge : w ≤ sub_u64 newest front.s_time = ltb→ge _ _ wide in
          let start : sub_u64 newest w ≡ newest - w =
            sub_u64_of_le newest w small (omega (arith, ge, span)) in
          rw wide (
            λ e.
                let before : front.s_time < sub_u64 newest w = ltb→lt _ _ e in
                omega (arith, before, start),
            λ e. lt→ltb front.s_time (sub_u64 newest w) (omega (arith, start)),
          )
    ]

module _ {Q S : Type 0} where
  -- On a queue in time order with times of 64 bits, `emitFromWindow` is true exactly when the back of
  -- the queue is later than the front by more than the window; the unsigned subtractions that it
  -- makes do not wrap there.
  pub emit_from_window-iff_Spans :
      (s : BufferedSink Q S)
      → IsSorted s.sorted_queue
      → InRange s.sorted_queue
      → (emit_from_window s ≡ true) ↔ Spans s.window s.sorted_queue
  unfolding emit_from_window
  emit_from_window-iff_Spans s h r = window_test-iff_Spans s.window s.sorted_queue h r
