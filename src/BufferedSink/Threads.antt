-- ===== src/BufferedSink/Threads.antt =====
-- The sink under its threads: dequeue threads that call `addData`, the owner, which sets window
-- and timeout, and the output thread, whose rounds come in any order with the calls and see any
-- clock. The operations of the lock-free
-- queue are atomic, so a call that overlaps a round stands before or after it.
use mathlib.Core.List.{Perm, append-nil}
use mathlib.Core.Path.{subst}
use mathlib.Core.List.Perm
use frib_e2sar.Base.{
  ℕ, ◌<◌, ◌^◌, ◌≡◌, refl, sym, ◌∙◌, inl, inr, List, [], ◌∷◌, ◌++◌, Bool, ok, >>=-eq-ok,
  ok-injective, >>=_of_ok, Bool-cases, if◌then◌else◌,
}
use frib_e2sar.RingItem.{RingFormat}
use frib_e2sar.BufferedSink.{
  Buffer, Fifo, DataSink, Puts, BufferedSink, init, add_data, is_nonempty, set_window, set_timeout,
  set_input_queue_capacity,
}
use frib_e2sar.BufferedSink.Sorted.{IsSorted}
use frib_e2sar.BufferedSink.Output.{IsFilled}
use frib_e2sar.BufferedSink.Batch.{drained, batch_of, drain_and_sort-drained}
use frib_e2sar.BufferedSink.Poll.{Polling, emit_round, poll_round}
use frib_e2sar.BufferedSink.Poll.Progress.{emit_round-RoundCases}
use frib_e2sar.BufferedSink.Poll.Invariant.{
  Valid, drained-Valid, emitted-Valid, stored-Valid, refused-Valid, resized-Valid, retimed-Valid,
  reserved-Valid,
}

-- The sink with the output thread's local, all that was written and all that was taken in.
pub record System (Q S : Type 0) : Type 0 where
  pub polling : Polling Q S
  pub written : List Buffer
  pub arrived : List Buffer

module _ {Q S : Type 0} ⦃fifo : Fifo Q Buffer⦄ ⦃dev : DataSink S⦄ ⦃fmt : RingFormat⦄ where
  abbrev pub start : Q → S → Bool → ℕ → System Q S
  start q sink use_ct now = record {
    polling = record { state = init q sink use_ct; last_data_time = now };
    written = [];
    arrived = [];
  }

  -- `addData` by a dequeue thread.
  abbrev pub arrival : Buffer → System Q S → System Q S
  arrival b u =
      let s = u.polling.state in
      let stored = (fifo.push b s.input_queue).0 in
      record {
        polling = record (u.polling) { state = add_data b.s_time b.payload b.s_size s };
        written = u.written;
        arrived = if stored then u.arrived ++ b ∷ [] else u.arrived;
      }

  -- A round of the output thread that has gone through.
  abbrev pub after_round : System Q S → List Buffer × Polling Q S × Bool → System Q S
  after_round u r = record { polling = r.1; written = u.written ++ r.0; arrived = u.arrived }

  -- A setter, called while the output thread runs.
  abbrev pub configured : (BufferedSink Q S → BufferedSink Q S) → System Q S → System Q S
  configured f u =
      let p : Polling Q S = record (u.polling) { state = f u.polling.state } in
      record { polling = p; written = u.written; arrived = u.arrived }

  -- The data that arrive are whole ring items under 64-bit times.
  pub data Step (u : System Q S) : System Q S → Type 0 where
    arrive : (b : Buffer) → b.s_time < 2 ^ 64 → IsFilled b → Step u (arrival b u)
    round :
        (drained_at now : ℕ) {r : List Buffer × Polling Q S × Bool}
        → poll_round drained_at now u.polling ≡ ok r
        → Step u (after_round u r)
    resize : (w : ℕ) → Step u (configured (set_window w) u)
    retime : (ms : ℕ) → Step u (configured (set_timeout ms) u)
    reserve : (n : ℕ) → Step u (configured (set_input_queue_capacity n) u)

  pub data Reach (q : Q) (sink : S) (use_ct : Bool) (now : ℕ) : System Q S → Type 0 where
    here : Reach q sink use_ct now (start q sink use_ct now)
    next : {u v : System Q S} → Reach q sink use_ct now u → Step u v → Reach q sink use_ct now v

  abbrev pub IsValid : System Q S → Type 0
  IsValid u = Valid u.polling.state u.written u.arrived

  start-IsValid :
      (q : Q) (sink : S) (use_ct : Bool) (now : ℕ)
      → fifo.contents q ≡ []
      → IsValid (start q sink use_ct now)
  unfolding init
  start-IsValid q sink use_ct now e = record {
    sorted = tt;
    range = tt;
    filled = tt;
    input_range = rw e tt;
    input_filled = rw e tt;
    ordered = λ _. record { in_order = tt; before = tt; behind = tt };
    conserved = rw e Perm.nil;
  }

  arrival-IsValid :
      (b : Buffer) (u : System Q S)
      → b.s_time < 2 ^ 64
      → IsFilled b
      → IsValid u
      → IsValid (arrival b u)
  unfolding add_data
  arrival-IsValid b u range whole v =
      let q = u.polling.state.input_queue in
      elim (Bool-cases (fifo.push b q).0) [
        | inl stored ↦ rw stored (
            stored-Valid u.polling.state v b range whole (fifo.push b q).1
              (fifo.push_stored b q stored))
        | inr refused ↦
            rw refused
              (refused-Valid u.polling.state v (fifo.push b q).1 _ (fifo.push_refused b q refused))
      ]

  -- The clock that the second half of a round starts from.
  abbrev pub since : ℕ → Polling Q S → ℕ
  since drained_at p = if is_nonempty (batch_of p.state) then drained_at else p.last_data_time

  pub poll_round-emit_round :
      (drained_at now : ℕ) (p : Polling Q S)
      → IsSorted p.state.sorted_queue
      → poll_round drained_at now p ≡ emit_round now (since drained_at p) (drained p.state)
  unfolding poll_round
  poll_round-emit_round drained_at now p h = rw (drain_and_sort-drained p.state h).0 refl

  pub round-IsValid :
      (drained_at now : ℕ) (u : System Q S) (r : List Buffer × Polling Q S × Bool)
      → poll_round drained_at now u.polling ≡ ok r
      → IsValid u
      → IsValid (after_round u r)
  round-IsValid drained_at now u r run v =
      let p = u.polling in
      let d = drained-Valid p.state v in
      let run' : emit_round now (since drained_at p) (drained p.state) ≡ ok r =
        sym (poll_round-emit_round drained_at now p v.sorted) ∙ run in
      let kept =
        λ (x : List Buffer × Polling Q S × Bool). Valid x.1.state (u.written ++ x.0) u.arrived in
      elim (emit_round-RoundCases now (since drained_at p) (drained p.state) d.sorted d.range
        d.filled) [
          | inl (waits, _) ↦ subst kept (ok-injective (sym waits ∙ run')) (
              subst (λ (w : List Buffer). Valid (drained p.state) w u.arrived)
                (sym (append-nil u.written)) d)
          | inr (flush, e, emits) ↦
              let (k, put, result) =
                >>=-eq-ok (dev.put_v e.iovs p.state.sink) _ (sym emits ∙ run') in
              subst kept (ok-injective result) (emitted-Valid (drained p.state) d e k)
        ]

  configured-IsValid :
      (w ms : ℕ) (u : System Q S)
      → IsValid u
      → IsValid (configured (set_window w) u) × IsValid (configured (set_timeout ms) u)
  unfolding set_window set_timeout
  configured-IsValid w ms u v =
      (resized-Valid u.polling.state v w, retimed-Valid u.polling.state v ms)

  reserved-IsValid :
      (n : ℕ) (u : System Q S) → IsValid u → IsValid (configured (set_input_queue_capacity n) u)
  unfolding set_input_queue_capacity
  reserved-IsValid n u v =
      let q = u.polling.state.input_queue in
      reserved-Valid u.polling.state v (fifo.reserve n q) n (fifo.reserve_contents n q)

  Step-IsValid : {u v : System Q S} → Step u v → IsValid u → IsValid v
  Step-IsValid {u} (arrive b range whole) v = arrival-IsValid b u range whole v
  Step-IsValid {u} (round drained_at now {r} run) v = round-IsValid drained_at now u r run v
  Step-IsValid {u} (resize w) v = (configured-IsValid w 0 u v).0
  Step-IsValid {u} (retime ms) v = (configured-IsValid 0 ms u v).1
  Step-IsValid {u} (reserve n) v = reserved-IsValid n u v

  pub Reach-IsValid :
      {q : Q} {sink : S} {use_ct : Bool} {now : ℕ} {u : System Q S}
      → fifo.contents q ≡ []
      → Reach q sink use_ct now u
      → IsValid u
  Reach-IsValid {q} {sink} {use_ct} {now} e here = start-IsValid q sink use_ct now e
  Reach-IsValid e (next r st) = Step-IsValid st (Reach-IsValid e r)

  -- In every reachable state: if `insertBuffer` has warned of no late buffer, all that was written
  -- so far is in time order.
  pub Reach-in_order :
      {q : Q} {sink : S} {use_ct : Bool} {now : ℕ} {u : System Q S}
      → fifo.contents q ≡ []
      → Reach q sink use_ct now u
      → u.polling.state.late ≡ []
      → IsSorted u.written
  Reach-in_order e r none_late = ((Reach-IsValid e r).ordered none_late).in_order

  -- In every reachable state the buffers that the input queue took in are exactly those written,
  -- those in the sorted queue and those in the input queue: none is lost and none is written twice.
  pub Reach-conserved :
      {q : Q} {sink : S} {use_ct : Bool} {now : ℕ} {u : System Q S}
      → fifo.contents q ≡ []
      → Reach q sink use_ct now u
      → Perm
          (u.written ++ (u.polling.state.sorted_queue ++ fifo.contents u.polling.state.input_queue))
          u.arrived
  Reach-conserved e r = (Reach-IsValid e r).conserved

  -- From every reachable state the next round of the output thread goes through, whatever the
  -- clock says, if the sink does not throw.
  pub Reach-round :
      {q : Q} {sink : S} {use_ct : Bool} {now : ℕ} {u : System Q S}
      → fifo.contents q ≡ []
      → Reach q sink use_ct now u
      → Puts dev
      → (drained_at later : ℕ)
      → (r : List Buffer × Polling Q S × Bool) × (poll_round drained_at later u.polling ≡ ok r)
  Reach-round {u} e r puts drained_at later =
      let p = u.polling in
      let v = Reach-IsValid e r in
      let d = drained-Valid p.state v in
      let head = poll_round-emit_round drained_at later p v.sorted in
      elim (emit_round-RoundCases later (since drained_at p) (drained p.state) d.sorted d.range
        d.filled) [
          | inl (waits, _) ↦ (_, head ∙ waits)
          | inr (flush, x, emits) ↦
              let (k, put) = puts x.iovs p.state.sink in
              (_, head ∙ emits ∙ >>=_of_ok (dev.put_v x.iovs p.state.sink) _ put)
        ]
