-- ===== src/BufferedSink/Poll/Progress.antt =====
-- A round of the output thread goes through: it waits, or it writes.
use frib_e2sar.Base.{
  ℕ, ◌-◌, ◌≡◌, refl, sym, ap, ◌∙◌, ◌⊎◌, inl, inr, List, [], ◌∷◌, Bool, true, false, Result, ok,
  ◌>>=◌, bind_assoc, Bool-cases, All,
}
use frib_e2sar.RingItem.{RingFormat}
use frib_e2sar.BufferedSink.{
  Buffer, DataSink, BufferedSink, Fifo, emit_from_window, have_sorted_data, is_nonempty,
  output_data,
}
use frib_e2sar.BufferedSink.Sorted.{IsSorted}
use frib_e2sar.BufferedSink.Window.{InRange, Spans, emit_from_window-iff_Spans}
use frib_e2sar.BufferedSink.Output.{IsFilled}
use frib_e2sar.BufferedSink.Emission.{Emission, emitted_state, limit, Ready, output_data-Emission}
use frib_e2sar.BufferedSink.Poll.{Polling, timed_out, emit_round}

Spans-Ready : (w : ℕ) (q : List Buffer) → Spans w q → Ready false w q
Spans-Ready w [] h = h
Spans-Ready w (b ∷ bs) h = h

is_nonempty-Ready : (w : ℕ) (q : List Buffer) → is_nonempty q ≡ true → Ready true w q
is_nonempty-Ready w [] h = cc
is_nonempty-Ready w (b ∷ bs) h = tt

module _ {Q S : Type 0} ⦃fifo : Fifo Q Buffer⦄ ⦃dev : DataSink S⦄ ⦃fmt : RingFormat⦄ where
  -- What a round does behind `drainAndSort`: nothing, and then it waits; or one output, of all
  -- buffers or of those that have left the window.
  abbrev pub RoundCases : ℕ → ℕ → BufferedSink Q S → Type 0
  RoundCases now since s =
      ((emit_round now since s ≡ ok ([], record { state = s; last_data_time = since }, true))
        × (timed_out (now - since) s ≡ true → have_sorted_data s ≡ false))
      ⊎ ((flush : Bool) × (e : Emission (limit flush s.window s.sorted_queue) s.sorted_queue)
          × (emit_round now since s ≡ (
              dev.put_v e.iovs s.sink >>= λ k. ok (
                e.first ∷ e.more,
                record { state = emitted_state s e k; last_data_time = since },
                false,
              ))))

  abbrev into : ℕ → List Buffer × BufferedSink Q S → Result (List Buffer × Polling Q S × Bool)
  into since r = ok (r.0, record { state = r.1; last_data_time = since }, false)

  emitting :
      (flush : Bool) (now since : ℕ) (s : BufferedSink Q S)
      → IsSorted s.sorted_queue
      → InRange s.sorted_queue
      → All IsFilled s.sorted_queue
      → Ready flush s.window s.sorted_queue
      → emit_round now since s ≡ (
          output_data flush s >>= λ r.
          ok (r.0, record { state = r.1; last_data_time = since }, false))
      → RoundCases now since s
  emitting flush now since s h r f ready run =
      let (e, out) = output_data-Emission flush s h r f ready in
      inr
        (flush, e, run ∙ ap (λ m. m >>= into since) out ∙ bind_assoc (dev.put_v e.iovs s.sink) _ _)

  -- Whatever the clock says, a round on a sorted queue of whole ring items ends in one of these
  -- ways: it leaves the state and waits, which it does after a timeout only if there is nothing to
  -- output, or it makes one output of at least one buffer. In
  -- particular it never asks for the back of an empty deque, and only the sink can make it fail.
  pub emit_round-RoundCases :
      (now since : ℕ) (s : BufferedSink Q S)
      → IsSorted s.sorted_queue
      → InRange s.sorted_queue
      → All IsFilled s.sorted_queue
      → RoundCases now since s
  emit_round-RoundCases now since s h r f = elim (Bool-cases (emit_from_window s)) [
    | inl window ↦
        emitting false now since s h r f
          (Spans-Ready s.window s.sorted_queue ((emit_from_window-iff_Spans s h r).0 window))
          (unfold emit_round in rw window refl)
    | inr narrow ↦ elim (Bool-cases (timed_out (now - since) s)) [
      | inl late ↦ elim (Bool-cases (have_sorted_data s)) [
        | inl some_data ↦
            emitting true now since s h r f
              (is_nonempty-Ready s.window s.sorted_queue (unfold have_sorted_data in some_data))
              (unfold emit_round in rw (narrow, late, some_data) refl)
        | inr no_data ↦ inl (unfold emit_round in rw (narrow, late, no_data) refl, λ _. no_data)
      ]
      | inr early ↦ inl (
        unfold emit_round in rw (narrow, early) refl,
        λ late. let bad : true ≡ false = sym late ∙ early in cc,
      )
    ]
  ]
