-- ===== src/BufferedSink/Contents.antt =====
-- What the sink behind the queues holds: the payloads that were written, in order.
use mathlib.Core.List.{append_assoc, append-nil, map-append}
use mathlib.Core.Path.{subst}
use frib_e2sar.Base.{
  ℕ, ◌≡◌, sym, ap, ◌∙◌, inl, inr, List, [], ◌∷◌, ◌++◌, map, Bool, ok, >>=-eq-ok, ok-injective,
  flatten, flatten-append, Bool-cases,
}
use frib_e2sar.RingItem.{RingFormat, Iovec, bytes}
use frib_e2sar.BufferedSink.{
  Buffer, Fifo, DataSink, add_data, set_window, set_timeout, set_input_queue_capacity, init,
}
use frib_e2sar.BufferedSink.Batch.{drained}
use frib_e2sar.BufferedSink.Poll.{Polling, emit_round, poll_round}
use frib_e2sar.BufferedSink.Poll.Progress.{emit_round-RoundCases}
use frib_e2sar.BufferedSink.Poll.Invariant.{drained-Valid}
use frib_e2sar.BufferedSink.Threads.{
  System, Step, arrive, round, resize, retime, reserve, Reach, here, next, arrival, after_round,
  since, IsValid, poll_round-emit_round, Reach-IsValid,
}

-- A sink whose `putV` adds the bytes of the pieces to what it holds.
pub record ByteSink {S : Type 0} (dev : DataSink S) : Type 0 where
  pub contents : S → List ℕ
  pub put_contents :
      (vs : List Iovec) (k k' : S)
      → dev.put_v vs k ≡ ok k'
      → contents k' ≡ contents k ++ flatten (map bytes vs)

abbrev pub payloads : List Buffer → List ℕ
payloads bs = flatten (map (λ (b : Buffer). b.payload) bs)

payloads-append : (xs ys : List Buffer) → payloads (xs ++ ys) ≡ payloads xs ++ payloads ys
payloads-append xs ys =
    ap flatten (map-append (λ (b : Buffer). b.payload) xs ys)
    ∙ flatten-append (map (λ (b : Buffer). b.payload) xs) _

module _ {Q S : Type 0} ⦃fifo : Fifo Q Buffer⦄ ⦃dev : DataSink S⦄ ⦃fmt : RingFormat⦄
    (device : ByteSink dev) where
  -- The sink holds what it held at first, and behind it the payloads written.
  abbrev pub Holds : List ℕ → System Q S → Type 0
  Holds first u = device.contents u.polling.state.sink ≡ first ++ payloads u.written

  round-Holds :
      (first : List ℕ) (drained_at now : ℕ) (u : System Q S) (r : List Buffer × Polling Q S × Bool)
      → poll_round drained_at now u.polling ≡ ok r
      → IsValid u
      → Holds first u
      → Holds first (after_round u r)
  round-Holds first drained_at now u r run v h =
      let p = u.polling in
      let d = drained-Valid p.state v in
      let run' : emit_round now (since drained_at p) (drained p.state) ≡ ok r =
        sym (poll_round-emit_round drained_at now p v.sorted) ∙ run in
      let kept = λ (x : List Buffer × Polling Q S × Bool). Holds first (after_round u x) in
      elim (emit_round-RoundCases now (since drained_at p) (drained p.state) d.sorted d.range
        d.filled) [
          | inl (waits, _) ↦
              subst kept (ok-injective (sym waits ∙ run'))
                (h ∙ ap (λ (w : List Buffer). first ++ payloads w) (sym (append-nil u.written)))
          | inr (flush, e, emits) ↦
              let (k, put, result) =
                >>=-eq-ok (dev.put_v e.iovs p.state.sink) _ (sym emits ∙ run') in
              subst kept (ok-injective result) (
                device.put_contents e.iovs p.state.sink k put
                ∙ ap (λ (z : List ℕ). z ++ flatten (map bytes e.iovs)) h
                ∙ ap (λ (z : List ℕ). (first ++ payloads u.written) ++ z) e.written
                ∙ append_assoc first (payloads u.written) (payloads (e.first ∷ e.more))
                ∙ ap (λ (z : List ℕ). first ++ z)
                    (sym (payloads-append u.written (e.first ∷ e.more))))
        ]

  arrival-Holds :
      (first : List ℕ) (b : Buffer) (u : System Q S) → Holds first u → Holds first (arrival b u)
  unfolding add_data
  arrival-Holds first b u h = elim (Bool-cases (fifo.push b u.polling.state.input_queue).0) [
    | inl stored ↦ rw stored h
    | inr refused ↦ rw refused h
  ]

  Step-Holds :
      (first : List ℕ) {u v : System Q S} → Step u v → IsValid u → Holds first u → Holds first v
  unfolding set_window set_timeout set_input_queue_capacity
  Step-Holds first {u} (arrive b range whole) v h = arrival-Holds first b u h
  Step-Holds first {u} (round drained_at now {r} run) v h =
      round-Holds first drained_at now u r run v h
  Step-Holds first (resize w) v h = h
  Step-Holds first (retime ms) v h = h
  Step-Holds first (reserve n) v h = h

  -- In every reachable state the sink holds what it held at the start, and behind it the payloads
  -- of the buffers written so far, in the order in which they were written.
  pub Reach-Holds :
      {q : Q} {sink : S} {use_ct : Bool} {now : ℕ} {u : System Q S}
      → fifo.contents q ≡ []
      → Reach q sink use_ct now u
      → Holds (device.contents sink) u
  unfolding init
  Reach-Holds {sink = sink} e here = sym (append-nil (device.contents sink))
  Reach-Holds {sink = sink} e (next r st) =
      Step-Holds (device.contents sink) st (Reach-IsValid e r) (Reach-Holds e r)
