-- ===== src/BufferedSink/OneBatch.antt =====
-- Data that come in one batch before anything was written are never late.
use mathlib.Core.Path.{subst}
use frib_e2sar.Base.{
  ℕ, zero, suc, ◌+◌, ◌≤◌, ◌≡◌, refl, sym, ap, ◌∙◌, inl, inr, List, [], ◌∷◌, Bool, ok, >>=-eq-ok,
  ok-injective, ge→ltb, length, length-drop, drop, arith,
}
use frib_e2sar.RingItem.{RingFormat}
use frib_e2sar.BufferedSink.{Buffer, Fifo, DataSink, batch_size}
use frib_e2sar.BufferedSink.Batch.{batch_of, drained, note_late, drain_and_sort-drained}
use frib_e2sar.BufferedSink.Poll.{Polling, emit_round, poll_round}
use frib_e2sar.BufferedSink.Poll.Progress.{emit_round-RoundCases}
use frib_e2sar.BufferedSink.Poll.Invariant.{drained-Valid}
use frib_e2sar.BufferedSink.Threads.{
  System, Reach, next, round, after_round, since, IsValid, poll_round-emit_round, Reach-IsValid,
}
use frib_e2sar.BufferedSink.Settling.{poll_rounds, input_of, nil_of_length}

note_late-zero :
    (bs : List Buffer) (late : List (ℕ × ℕ)) (emitted : ℕ)
    → emitted ≡ 0
    → note_late emitted bs late ≡ late
note_late-zero [] late emitted e = refl
note_late-zero (b ∷ bs) late emitted e =
    rw (ge→ltb b.s_time emitted (omega (arith, e))) (note_late-zero bs late emitted e)

module _ {Q S : Type 0} ⦃fifo : Fifo Q Buffer⦄ ⦃dev : DataSink S⦄ ⦃fmt : RingFormat⦄ where
  abbrev pub late_of : System Q S → List (ℕ × ℕ)
  late_of u = u.polling.state.late

  -- A round warns of the late data of its batch only, and takes the batch from the input queue.
  round-late :
      (drained_at now : ℕ) (u : System Q S) (r : List Buffer × Polling Q S × Bool)
      → poll_round drained_at now u.polling ≡ ok r
      → IsValid u
      → (late_of (after_round u r) ≡ (drained u.polling.state).late)
        × (input_of (after_round u r) ≡ drop batch_size (input_of u))
  round-late drained_at now u r run v =
      let p = u.polling in
      let d = drained-Valid p.state v in
      let left = (drain_and_sort-drained p.state v.sorted).1 in
      let run' : emit_round now (since drained_at p) (drained p.state) ≡ ok r =
        sym (poll_round-emit_round drained_at now p v.sorted) ∙ run in
      let kept = λ (x : List Buffer × Polling Q S × Bool).
        (late_of (after_round u x) ≡ (drained p.state).late)
        × (input_of (after_round u x) ≡ drop batch_size (input_of u)) in
      elim (emit_round-RoundCases now (since drained_at p) (drained p.state) d.sorted d.range
        d.filled) [
          | inl (waits, _) ↦ subst kept (ok-injective (sym waits ∙ run')) (refl, left)
          | inr (flush, e, emits) ↦
              let (k, put, result) =
                >>=-eq-ok (dev.put_v e.iovs p.state.sink) _ (sym emits ∙ run') in
              subst kept (ok-injective result) (refl, left)
        ]

  module _ {q : Q} {sink : S} {use_ct : Bool} {at_start : ℕ} (empty : fifo.contents q ≡ []) where
    -- With nothing in the input queue no more warnings come.
    rounds-late :
        (clock : ℕ → ℕ × ℕ) (n i : ℕ) (u v : System Q S)
        → poll_rounds clock n i u ≡ ok v
        → Reach q sink use_ct at_start u
        → input_of u ≡ []
        → (late_of v ≡ late_of u) × Reach q sink use_ct at_start v
    unfolding poll_rounds
    rounds-late clock zero i u v run reached none_left =
        subst (λ (x : System Q S). (late_of x ≡ late_of u) × Reach q sink use_ct at_start x)
          (ok-injective run) (refl, reached)
    rounds-late clock (suc n) i u v run reached none_left =
        let (r, first, rest) = >>=-eq-ok (poll_round (clock i).0 (clock i).1 u.polling) _ run in
        let (late, input) =
          round-late (clock i).0 (clock i).1 u r first (Reach-IsValid empty reached) in
        let (same, reached') =
          rounds-late clock n (i + 1) (after_round u r) v rest
            (next reached (round (clock i).0 (clock i).1 first))
            (input ∙ ap (drop batch_size) none_left) in
        (same ∙ late ∙ rw none_left refl, reached')

    -- Rounds that take one batch and then find no more data give no warning of a late buffer, if
    -- nothing was written before them.
    pub first_batch-late :
        (clock : ℕ → ℕ × ℕ) (n : ℕ) (u v : System Q S)
        → poll_rounds clock (suc n) 0 u ≡ ok v
        → Reach q sink use_ct at_start u
        → length (input_of u) ≤ batch_size
        → u.polling.state.last_emitted ≡ 0
        → (late_of v ≡ late_of u) × Reach q sink use_ct at_start v
    unfolding poll_rounds
    first_batch-late clock n u v run reached few nothing_written =
        let (r, first, rest) = >>=-eq-ok (poll_round (clock 0).0 (clock 0).1 u.polling) _ run in
        let (late, input) =
          round-late (clock 0).0 (clock 0).1 u r first (Reach-IsValid empty reached) in
        let none_left : input_of (after_round u r) ≡ [] =
          input
          ∙ nil_of_length (drop batch_size (input_of u))
              (omega (arith, length-drop batch_size (input_of u), few)) in
        let (same, reached') =
          rounds-late clock n (0 + 1) (after_round u r) v rest
            (next reached (round (clock 0).0 (clock 0).1 first)) none_left in
        (
          same ∙ late ∙ note_late-zero (batch_of u.polling.state) (late_of u) _ nothing_written,
          reached',
        )
