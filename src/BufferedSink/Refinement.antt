-- ===== src/BufferedSink/Refinement.antt =====
-- The sink under its threads does what a bag with an output would do.
use mathlib.Core.Quot
use mathlib.Core.List.{Perm, append_assoc, append-nil, perm_append_comm}
use mathlib.Core.Path.{subst, ap₂}
use frib_e2sar.Base.{
  ℕ, ◌≤◌, ◌≡◌, refl, sym, ap, ◌∙◌, ◌⊎◌, inl, inr, List, [], ◌∷◌, ◌++◌, Bool, ok, >>=-eq-ok,
  ok-injective, Bool-cases, leb, leb→le, length, length-take, take, drop, drop_of_le, arith,
}
use frib_e2sar.RingItem.{RingFormat}
use frib_e2sar.BufferedSink.{
  Buffer, Fifo, DataSink, BufferedSink, batch_size, add_data, set_window, set_timeout,
  set_input_queue_capacity,
}
use frib_e2sar.BufferedSink.Sorted.{IsSorted, IsSorted-append_left}
use frib_e2sar.BufferedSink.Emission.{Emission}
use frib_e2sar.BufferedSink.Batch.{place_all, length-place_all, drained, drain_and_sort-drained}
use frib_e2sar.BufferedSink.Poll.{Polling, emit_round, poll_round}
use frib_e2sar.BufferedSink.Poll.Progress.{emit_round-RoundCases}
use frib_e2sar.BufferedSink.Poll.Invariant.{Valid, drained-Valid, moved-perm}
use frib_e2sar.BufferedSink.Threads.{
  System, Step, arrive, round, resize, retime, reserve, configured, Reach, arrival, after_round,
  since, poll_round-emit_round, Reach-IsValid,
}
use frib_e2sar.BufferedSink.Spec.{Bag, bag, Collector, SpecStep, takes, writes}

-- What a batch leaves is nothing, or the batch was whole.
unseen_cases :
    (n : ℕ) (input q : List Buffer)
    → (drop n input ≡ []) ⊎ (n ≤ length (place_all (take n input) q))
unseen_cases n input q = elim (Bool-cases (leb (length input) n)) [
  | inl few ↦ inl (drop_of_le n input (leb→le _ _ few))
  | inr many ↦ inr (ground (arith, many, length-place_all (take n input) q, length-take n input))
]

last-Perm : (b : Buffer) (q input : List Buffer) → Perm (q ++ (input ++ b ∷ [])) (b ∷ (q ++ input))
last-Perm b q input = rw (← append_assoc q input (b ∷ [])) (perm_append_comm (q ++ input) (b ∷ []))

module _ {Q S : Type 0} ⦃fifo : Fifo Q Buffer⦄ where
  -- The view of the sink that forgets its queues and their order.
  abbrev pub collected : System Q S → Collector
  collected u =
      let s = u.polling.state in
      record { waiting = bag (s.sorted_queue ++ fifo.contents s.input_queue); written = u.written }

  -- A step that is one of the specification, or that is not seen.
  abbrev pub Simulates : System Q S → System Q S → Type 0
  Simulates u v = (collected v ≡ collected u) ⊎ SpecStep (collected u) (collected v)

  module _ ⦃dev : DataSink S⦄ ⦃fmt : RingFormat⦄ where
    arrival-Simulates : (b : Buffer) (u : System Q S) → Simulates u (arrival b u)
    unfolding add_data
    arrival-Simulates b u =
        let s = u.polling.state in
        let q' = (fifo.push b s.input_queue).1 in
        elim (Bool-cases (fifo.push b s.input_queue).0) [
          | inl stored ↦
              let there : fifo.contents q' ≡ fifo.contents s.input_queue ++ b ∷ [] =
                fifo.push_stored b s.input_queue stored in
              rw stored (
                inr (
                  subst
                    (λ (w : Bag).
                      SpecStep (collected u) (record { waiting = w; written = u.written }))
                    (sym (
                      rw there
                        (Quot.sound (last-Perm b s.sorted_queue (fifo.contents s.input_queue)))))
                    (takes b)))
          | inr refused ↦ rw refused (
              inl (
                ap
                  (λ (c : List Buffer). record {
                    waiting = bag (s.sorted_queue ++ c);
                    written = u.written;
                  })
                  (fifo.push_refused b s.input_queue refused)))
        ]

    module _ (s : BufferedSink Q S) (sorted : IsSorted s.sorted_queue) where
      -- `drainAndSort` is not seen.
      drained-bag :
          bag ((drained s).sorted_queue ++ fifo.contents (drained s).input_queue)
          ≡ bag (s.sorted_queue ++ fifo.contents s.input_queue)
      drained-bag =
          rw ((drain_and_sort-drained s sorted).1)
            (Quot.sound (moved-perm batch_size s.sorted_queue (fifo.contents s.input_queue)))

      -- An output of the drained queue, as a step of the specification.
      emitted-SpecStep :
          (t : ℕ) (e : Emission t (drained s).sorted_queue) (written : List Buffer)
          → IsSorted (drained s).sorted_queue
          → SpecStep
              (record {
                waiting = bag (s.sorted_queue ++ fifo.contents s.input_queue);
                written = written;
              })
              (record {
                waiting = bag (e.rest ++ fifo.contents (drained s).input_queue);
                written = written ++ e.first ∷ e.more;
              })
      emitted-SpecStep t e written h =
          let unseen = fifo.contents (drained s).input_queue in
          let out = e.first ∷ e.more in
          writes t e.first e.more e.rest unseen
            (sym drained-bag
              ∙ ap (λ (q : List Buffer). bag (q ++ unseen)) (sym e.whole)
              ∙ ap bag (append_assoc out e.rest unseen))
            (IsSorted-append_left out e.rest (subst IsSorted (sym e.whole) h)) e.emitted e.kept
            (subst (λ (q : List Buffer). (unseen ≡ []) ⊎ (batch_size ≤ length q)) (sym e.whole)
              (rw ((drain_and_sort-drained s sorted).1)
                (unseen_cases batch_size (fifo.contents s.input_queue) s.sorted_queue)))

    round-Simulates :
        (drained_at now : ℕ) (u : System Q S) (r : List Buffer × Polling Q S × Bool)
        → poll_round drained_at now u.polling ≡ ok r
        → Valid u.polling.state u.written u.arrived
        → Simulates u (after_round u r)
    round-Simulates drained_at now u r run v =
        let p = u.polling in
        let d = drained-Valid p.state v in
        let run' : emit_round now (since drained_at p) (drained p.state) ≡ ok r =
          sym (poll_round-emit_round drained_at now p v.sorted) ∙ run in
        let seen = λ (x : List Buffer × Polling Q S × Bool). Simulates u (after_round u x) in
        elim (emit_round-RoundCases now (since drained_at p) (drained p.state) d.sorted d.range
          d.filled) [
            | inl (waits, _) ↦ subst seen (ok-injective (sym waits ∙ run')) (
                inl (
                  ap₂ (λ (w : Bag) (out : List Buffer). record { waiting = w; written = out })
                    (drained-bag p.state v.sorted) (append-nil u.written)))
            | inr (flush, e, emits) ↦
                let (k, put', result) =
                  >>=-eq-ok (dev.put_v e.iovs p.state.sink) _ (sym emits ∙ run') in
                subst seen (ok-injective result)
                  (inr (emitted-SpecStep p.state v.sorted _ e u.written d.sorted))
          ]

    configured-Simulates :
        (w ms : ℕ) (u : System Q S)
        → Simulates u (configured (set_window w) u) × Simulates u (configured (set_timeout ms) u)
    unfolding set_window set_timeout
    configured-Simulates w ms u = (inl refl, inl refl)

    reserved-Simulates :
        (n : ℕ) (u : System Q S) → Simulates u (configured (set_input_queue_capacity n) u)
    unfolding set_input_queue_capacity
    reserved-Simulates n u =
        let s = u.polling.state in
        inl (
          ap
            (λ (c : List Buffer). record {
              waiting = bag (s.sorted_queue ++ c);
              written = u.written;
            })
            (fifo.reserve_contents n s.input_queue))

    -- From every reachable state, each step of the threads is a step of the specification, or
    -- changes neither what waits nor what was written: a buffer joins the bag of those that wait,
    -- or a round looks at all those that wait, or at no fewer than a whole batch, and of these the
    -- ones up to some time leave the bag and are written in time order.
    pub Step-Simulates :
        {q : Q} {sink : S} {use_ct : Bool} {now : ℕ} {u v : System Q S}
        → fifo.contents q ≡ []
        → Reach q sink use_ct now u
        → Step u v
        → Simulates u v
    Step-Simulates {u = u} e reached (arrive b range whole) = arrival-Simulates b u
    Step-Simulates {u = u} e reached (round drained_at later {r} run) =
        round-Simulates drained_at later u r run (Reach-IsValid e reached)
    Step-Simulates {u = u} e reached (resize w) = (configured-Simulates w 0 u).0
    Step-Simulates {u = u} e reached (retime ms) = (configured-Simulates 0 ms u).1
    Step-Simulates {u = u} e reached (reserve n) = reserved-Simulates n u
