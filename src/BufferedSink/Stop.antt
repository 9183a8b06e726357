-- ===== src/BufferedSink/Stop.antt =====
-- `stopThreads` and the destructor, once the output thread has ended.
use mathlib.Core.List.{Perm, append-nil, append_assoc}
use mathlib.Core.Path.{subst, ap₂}
use frib_e2sar.Base.{
  ℕ, zero, suc, ◌≤◌, ◌<◌, ◌≡◌, refl, sym, ap, ◌∙◌, List, [], ◌∷◌, ◌++◌, Bool, true, Result, ok,
  >>=_of_ok, All-append_right, length, length-drop, drop, last, arith,
}
use frib_e2sar.RingItem.{RingFormat}
use frib_e2sar.BufferedSink.{
  Buffer, Fifo, DataSink, Puts, BufferedSink, batch_size, output_data, output_queue, stop_threads,
  release_input, destroy,
}
use frib_e2sar.BufferedSink.Sorted.{IsSorted, AllFrom, AllTo, IsSorted-last}
use frib_e2sar.BufferedSink.Emission.{emitted_state, limit, Ready, output_data-Emission}
use frib_e2sar.BufferedSink.Batch.{drained, drain_and_sort-drained}
use frib_e2sar.BufferedSink.Poll.Invariant.{Valid, drained-Valid, emitted-Valid, stopping-Valid}

-- A flush leaves nothing: no buffer is later than the last.
rest-nil :
    (b : Buffer) (bs out rest : List Buffer)
    → IsSorted (b ∷ bs)
    → out ++ rest ≡ b ∷ bs
    → AllFrom (suc (last b bs).s_time) rest
    → rest ≡ []
rest-nil b bs out [] h e from = refl
rest-nil b bs out (r ∷ rest) h e from =
    let to : AllTo (last b bs).s_time (out ++ r ∷ rest) =
      subst (AllTo (last b bs).s_time) (sym e) (IsSorted-last b bs h) in
    let here : r.s_time ≤ (last b bs).s_time = (All-append_right _ out (r ∷ rest) to).0 in
    absurd (omega (arith, from.0, here))

module _ {Q : Type 0} ⦃fifo : Fifo Q Buffer⦄ where
  release_input-contents :
      (fuel : ℕ) (q : Q) (bs : List Buffer)
      → fifo.contents q ≡ bs
      → length bs < fuel
      → (q' : Q) × (release_input fuel q ≡ ok (bs, q')) × (fifo.contents q' ≡ [])
  unfolding release_input
  release_input-contents zero q bs e f = absurd (omega arith)
  release_input-contents (suc fuel) q [] e f = (q, rw (fifo.pop_empty q e, release_input) refl, e)
  release_input-contents (suc fuel) q (b ∷ bs) e f =
      let (q', popped, rest) = fifo.pop_first q b bs e in
      let (q'', run, empty) = release_input-contents fuel q' bs rest (omega arith) in
      (q'', rw (popped, release_input) (rw run refl), empty)

module _ {Q S : Type 0} ⦃fifo : Fifo Q Buffer⦄ ⦃dev : DataSink S⦄ ⦃fmt : RingFormat⦄ where
  -- What a flush of a queue does.
  abbrev pub Flushes :
      BufferedSink Q S
      → List Buffer
      → List Buffer
      → Result (List Buffer × BufferedSink Q S)
      → Type 0
  Flushes s written arrived result =
      (out : List Buffer) × (t : BufferedSink Q S) × (result ≡ ok (out, t))
      × (t.sorted_queue ≡ [])
      × (t.input_queue ≡ s.input_queue)
      × (t.freed ≡ out ++ s.freed)
      × Valid t (written ++ out) arrived

  flush-Flushes :
      Puts dev
      → (s : BufferedSink Q S) (q written arrived : List Buffer) → s.sorted_queue ≡ q
      → Valid s written arrived
      → Flushes s written arrived (output_data true s)
  unfolding output_data output_queue
  flush-Flushes puts s [] written arrived e v = (
    [],
    s,
    rw e refl,
    e,
    refl,
    refl,
    subst (λ (w : List Buffer). Valid s w arrived) (sym (append-nil written)) v,
  )
  flush-Flushes puts s (b ∷ bs) written arrived e v =
      let ready : Ready true s.window s.sorted_queue = rw e tt in
      let (x, run) = output_data-Emission true s v.sorted v.range v.filled ready in
      let (k, put) = puts x.iovs s.sink in
      let kept : AllFrom (suc (last b bs).s_time) x.rest =
        subst (λ (q : List Buffer). AllFrom (suc (limit true s.window q)) x.rest) e x.kept in
      (
        x.first ∷ x.more,
        emitted_state s x k,
        run ∙ >>=_of_ok (dev.put_v x.iovs s.sink) _ put,
        rest-nil b bs (x.first ∷ x.more) x.rest (subst IsSorted e v.sorted) (x.whole ∙ e) kept,
        refl,
        refl,
        emitted-Valid s v x k,
      )

  -- The state that `stopThreads` hands to `drainAndSort`.
  abbrev stopping : BufferedSink Q S → BufferedSink Q S
  stopping s = record s { shutdown = true }

  -- What `stopThreads` does: nothing waits in the sorted queue, a batch has left the input queue,
  -- and the invariant is kept.
  pub stop_threads-Flushes :
      Puts dev
      → (s : BufferedSink Q S) {written arrived : List Buffer} → Valid s written arrived
      → (out : List Buffer) × (t : BufferedSink Q S) × (stop_threads s ≡ ok (out, t))
        × (t.sorted_queue ≡ [])
        × (fifo.contents t.input_queue ≡ drop batch_size (fifo.contents s.input_queue))
        × (t.freed ≡ out ++ s.freed)
        × Valid t (written ++ out) arrived
  unfolding stop_threads
  stop_threads-Flushes puts s {written} {arrived} v =
      let w = stopping-Valid s v in
      let (run, left) = drain_and_sort-drained (stopping s) w.sorted in
      let (out, t, result, empty, same, gone, u) =
        flush-Flushes puts (drained (stopping s)) (drained (stopping s)).sorted_queue written
          arrived refl (drained-Valid (stopping s) w) in
      (
        out,
        t,
        ap (λ (r : BufferedSink Q S × Bool). output_data true r.0) run ∙ result,
        empty,
        ap fifo.contents same ∙ left,
        gone,
        u,
      )

  -- Stopping a sink whose invariant holds and that takes its data writes all of the sorted
  -- queue and the first `BATCH_SIZE` buffers of the input queue. The others stay in the input
  -- queue, so that what was ever written and those are together all that arrived; and if no
  -- buffer was late, all that was written is in time order.
  pub stop_threads-flushes :
      Puts dev
      → (s : BufferedSink Q S) {written arrived : List Buffer} → Valid s written arrived
      → (out : List Buffer) × (t : BufferedSink Q S) × (stop_threads s ≡ ok (out, t))
        × (t.sorted_queue ≡ [])
        × (fifo.contents t.input_queue ≡ drop batch_size (fifo.contents s.input_queue))
        × (t.freed ≡ out ++ s.freed)
        × Perm ((written ++ out) ++ drop batch_size (fifo.contents s.input_queue)) arrived
        × (t.late ≡ [] → IsSorted (written ++ out))
  stop_threads-flushes puts s {written} {arrived} v =
      let (out, t, run, empty, left, gone, u) = stop_threads-Flushes puts s v in
      (
        out,
        t,
        run,
        empty,
        left,
        gone,
        subst (λ (z : List Buffer). Perm ((written ++ out) ++ z) arrived) (ap₂ ◌++◌ empty left)
            u.conserved,
        λ none_late. (u.ordered none_late).in_order,
      )

  -- With fuel for one round more than there are buffers in the input queue, the destructor of
  -- a sink whose invariant holds and that takes its data ends with both queues empty. The
  -- buffers of the input queue behind the first `BATCH_SIZE` are deleted without having been
  -- written; no other buffer is.
  pub destroy-drops :
      Puts dev
      → (fuel : ℕ) (s : BufferedSink Q S) {written arrived : List Buffer} → Valid s written arrived
      → length (fifo.contents s.input_queue) < fuel
      → let unwritten = drop batch_size (fifo.contents s.input_queue) in
        (out : List Buffer) × (t : BufferedSink Q S) × (destroy fuel s ≡ ok (out, t))
        × (t.sorted_queue ≡ [])
        × (fifo.contents t.input_queue ≡ [])
        × (t.freed ≡ unwritten ++ out ++ s.freed)
        × Perm ((written ++ out) ++ unwritten) arrived
  unfolding destroy
  destroy-drops puts fuel s {written} {arrived} v enough =
      let input = fifo.contents s.input_queue in
      let (out, t, run, empty, left, gone, perm, _) = stop_threads-flushes puts s v in
      let (q, released, none_left) =
        release_input-contents fuel t.input_queue (drop batch_size input) left
          (omega (arith, length-drop batch_size input)) in
      (
        out,
        record t {
          input_queue = q;
          sorted_queue = [];
          freed = t.sorted_queue ++ drop batch_size input ++ t.freed;
        },
        rw run (rw released refl),
        refl,
        none_left,
        rw (empty, gone) (sym (append_assoc (drop batch_size input) out s.freed)),
        perm,
      )
