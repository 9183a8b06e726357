-- ===== src/BufferedSink/Settling.antt =====
-- The rounds of the output thread in a row, and what they come to when no more data arrive.
use mathlib.Core.List.{Perm, append-nil}
use mathlib.Core.Path.{subst}
use frib_e2sar.Base.{
  ℕ, zero, suc, ◌+◌, ◌-◌, ◌*◌, ◌^◌, ◌≤◌, ◌<◌, ◌≡◌, refl, sym, ap, ◌∙◌, inl, inr, List, [], ◌∷◌,
  ◌++◌, Bool, true, false, Bool-cases, Result, ok, ◌>>=◌, >>=_of_ok, lt→ltb, length, length-append,
  length-take, length-drop, take, drop, arith,
}
use frib_e2sar.RingItem.{RingFormat}
use frib_e2sar.BufferedSink.{
  Buffer, Fifo, DataSink, Puts, BufferedSink, batch_size, have_sorted_data, is_nonempty,
}
use frib_e2sar.BufferedSink.Batch.{batch_of, drained, length-place_all, drain_and_sort-drained}
use frib_e2sar.BufferedSink.Poll.{Polling, timed_out, poll_round}
use frib_e2sar.BufferedSink.Poll.Progress.{emit_round-RoundCases}
use frib_e2sar.BufferedSink.Poll.Invariant.{drained-Valid}
use frib_e2sar.BufferedSink.Threads.{
  System, Reach, after_round, since, IsValid, poll_round-emit_round, round-IsValid, Reach-IsValid,
}

nothing_there : (q : List Buffer) → is_nonempty q ≡ false → length q ≤ length q - 1
nothing_there [] e = omega arith
nothing_there (b ∷ bs) e = cc

pub nil_of_length : (q : List Buffer) → length q ≤ 0 → q ≡ []
nil_of_length [] h = refl
nil_of_length (b ∷ bs) h = absurd (omega arith)

batch_nil : (input : List Buffer) → input ≡ [] → is_nonempty (take batch_size input) ≡ false
batch_nil input e = rw e refl

module _ {Q S : Type 0} ⦃fifo : Fifo Q Buffer⦄ ⦃dev : DataSink S⦄ ⦃fmt : RingFormat⦄ where
  -- So many rounds of the loop of `poll`, from the round `i` on, where the clock gives the two
  -- readings of a round.
  unfoldable pub poll_rounds : (ℕ → ℕ × ℕ) → ℕ → ℕ → System Q S → Result (System Q S)
  poll_rounds clock zero i u = ok u
  poll_rounds clock (suc n) i u = poll_round (clock i).0 (clock i).1 u.polling >>= λ r.
      poll_rounds clock n (i + 1) (after_round u r)

  abbrev pub input_of : System Q S → List Buffer
  input_of u = fifo.contents u.polling.state.input_queue

  abbrev pub sorted_of : System Q S → List Buffer
  sorted_of u = u.polling.state.sorted_queue

  -- What a round does to the two queues.
  record Rounded (drained_at now : ℕ) (u v : System Q S) : Type 0 where
    valid : IsValid v
    same : v.arrived ≡ u.arrived
    timeout : v.polling.state.timeout_ms ≡ u.polling.state.timeout_ms
    time : v.polling.last_data_time ≡ since drained_at u.polling
    input : input_of v ≡ drop batch_size (input_of u)
    shrinks : length (sorted_of v) ≤ length (drained u.polling.state).sorted_queue
    moves :
        timed_out (now - since drained_at u.polling) u.polling.state ≡ true
        → length (sorted_of v) ≤ length (drained u.polling.state).sorted_queue - 1

  one_round :
      Puts dev
      → (drained_at now : ℕ) (u : System Q S) → IsValid u
      → (r : List Buffer × Polling Q S × Bool) × (poll_round drained_at now u.polling ≡ ok r)
        × Rounded drained_at now u (after_round u r)
  one_round puts drained_at now u v =
      let p = u.polling in
      let d = drained-Valid p.state v in
      let head = poll_round-emit_round drained_at now p v.sorted in
      let left = (drain_and_sort-drained p.state v.sorted).1 in
      elim (emit_round-RoundCases now (since drained_at p) (drained p.state) d.sorted d.range
        d.filled) [
          | inl (waits, idle) ↦ (
            _,
            head ∙ waits,
            record {
              valid = round-IsValid drained_at now u _ (head ∙ waits) v;
              same = refl;
              timeout = refl;
              time = refl;
              input = left;
              shrinks = omega arith;
              moves = λ late.
                  nothing_there (drained p.state).sorted_queue
                    (unfold have_sorted_data in idle (unfold timed_out in late));
            },
          )
          | inr (flush, e, emits) ↦
              let (k, put) = puts e.iovs p.state.sink in
              let run = head ∙ emits ∙ >>=_of_ok (dev.put_v e.iovs p.state.sink) _ put in
              let fewer : length (drained p.state).sorted_queue
                  ≡ suc (length e.more) + length e.rest =
                sym (ap length e.whole) ∙ length-append (e.first ∷ e.more) e.rest in
              (
                _,
                run,
                record {
                  valid = round-IsValid drained_at now u _ run v;
                  same = refl;
                  timeout = refl;
                  time = refl;
                  input = left;
                  shrinks = omega (arith, fewer);
                  moves = λ late. omega (arith, fewer);
                },
              )
        ]

  -- So many rounds end, with both queues empty and all that was taken in written.
  abbrev pub Settled : (ℕ → ℕ × ℕ) → ℕ → ℕ → System Q S → Type 0
  Settled clock n i u =
      (v : System Q S) × (poll_rounds clock n i u ≡ ok v)
      × (sorted_of v ≡ [])
      × (input_of v ≡ [])
      × Perm v.written u.arrived

  pub settled-Perm :
      (u : System Q S) → IsValid u → sorted_of u ≡ [] → input_of u ≡ [] → Perm u.written u.arrived
  settled-Perm u v none_sorted none_left =
      subst (λ (z : List Buffer). Perm z u.arrived)
        (ap (λ (q : List Buffer). u.written ++ (q ++ input_of u)) none_sorted
          ∙ ap (λ (q : List Buffer). u.written ++ q) none_left
          ∙ append-nil u.written)
        v.conserved

  length-drained :
      (s : BufferedSink Q S)
      → length (drained s).sorted_queue
        ≡ length (take batch_size (fifo.contents s.input_queue)) + length s.sorted_queue
  length-drained s = length-place_all (batch_of s) s.sorted_queue

  module _ (puts : Puts dev) (clock : ℕ → ℕ × ℕ) (drains latest timeout : ℕ)
      (late : (j : ℕ) → drains ≤ j → latest + timeout * 10 ^ 6 < (clock j).1) where
    -- With the input queue empty each late round outputs something, until nothing is left.
    settle_sorted :
        (m i : ℕ) (u : System Q S)
        → IsValid u
        → input_of u ≡ []
        → u.polling.last_data_time ≤ latest
        → u.polling.state.timeout_ms ≡ timeout
        → drains ≤ i
        → length (sorted_of u) ≤ m
        → Settled clock m i u
    unfolding poll_rounds
    settle_sorted zero i u v none_left last ms behind few =
        let none_sorted = nil_of_length (sorted_of u) few in
        (u, refl, none_sorted, none_left, settled-Perm u v none_sorted none_left)
    settle_sorted (suc m) i u v none_left last ms behind few =
        let (r, run, x) = one_round puts (clock i).0 (clock i).1 u v in
        let w = after_round u r in
        let waited : since (clock i).0 u.polling ≡ u.polling.last_data_time =
          rw (batch_nil (input_of u) none_left) refl in
        let timeout_passed : timed_out ((clock i).1 - since (clock i).0 u.polling) u.polling.state
            ≡ true =
          unfold timed_out in lt→ltb _ _ (omega (arith, late i behind, waited, ms, last)) in
        let none_taken : length (take batch_size (input_of u)) ≡ 0 = rw none_left refl in
        let (t, more, sorted_gone, input_gone, all) =
          settle_sorted m (i + 1) w x.valid (x.input ∙ ap (drop batch_size) none_left)
            (omega (arith, x.time, waited, last)) (x.timeout ∙ ms) (omega arith)
            (omega
              (arith, x.moves timeout_passed, length-drained u.polling.state, none_taken, few)) in
        (
          t,
          rw run more,
          sorted_gone,
          input_gone,
          subst (λ (z : List Buffer). Perm t.written z) x.same all,
        )

    since_early :
        (drained_at : ℕ) (p : Polling Q S)
        → drained_at ≤ latest
        → p.last_data_time ≤ latest
        → since drained_at p ≤ latest
    since_early drained_at p a b = elim (Bool-cases (is_nonempty (batch_of p.state))) [
      | inl some_data ↦ rw some_data a
      | inr no_data ↦ rw no_data b
    ]

    -- Before that the rounds take the input in, a batch at a time.
    settle :
        ((j : ℕ) → j < drains → (clock j).0 ≤ latest)
        → (k m n i : ℕ) (u : System Q S) → n ≡ k + m
        → i + k ≡ drains
        → IsValid u
        → u.polling.last_data_time ≤ latest
        → u.polling.state.timeout_ms ≡ timeout
        → length (input_of u) ≤ k * batch_size
        → length (sorted_of u) + length (input_of u) ≤ m
        → Settled clock n i u
    unfolding poll_rounds
    settle early zero m n i u rounds at v last ms fits few =
        subst (λ (z : ℕ). Settled clock z i u) (omega (arith, rounds))
          (settle_sorted m i u v (nil_of_length (input_of u) (omega (arith, fits))) last ms
            (omega (arith, at)) (omega (arith, few)))
    settle early (suc k) m zero i u rounds at v last ms fits few = absurd (omega (arith, rounds))
    settle early (suc k) m (suc n) i u rounds at v last ms fits few =
        let (r, run, x) = one_round puts (clock i).0 (clock i).1 u v in
        let w = after_round u r in
        let soon = since_early (clock i).0 u.polling (early i (omega (arith, at))) last in
        let left : length (input_of w) ≡ length (input_of u) - batch_size =
          ap length x.input ∙ length-drop batch_size (input_of u) in
        let (t, more, sorted_gone, input_gone, all) =
          settle early k m n (i + 1) w (omega (arith, rounds)) (omega (arith, at)) x.valid
            (omega (arith, x.time, soon)) (x.timeout ∙ ms) (omega (arith, left, fits))
            (omega (
              arith,
              left,
              x.shrinks,
              length-drained u.polling.state,
              length-take batch_size (input_of u),
              few,
            )) in
        (
          t,
          rw run more,
          sorted_gone,
          input_gone,
          subst (λ (z : List Buffer). Perm t.written z) x.same all,
        )

  -- Once no more data arrive, everything is written, if the sink takes its data. From a reachable
  -- state, let `drains` rounds of `poll` be enough for the input queue, a batch in each, and let
  -- their data come no later than `latest`. If the clock of all later rounds is behind that by
  -- more than the timeout, then as many of these as there are buffers that wait leave both queues
  -- empty, and what is written is exactly what was taken in.
  pub Reach-Settled :
      {q : Q} {sink : S} {use_ct : Bool} {now : ℕ} {u : System Q S}
      → fifo.contents q ≡ []
      → Reach q sink use_ct now u
      → Puts dev
      → (clock : ℕ → ℕ × ℕ) (drains latest m : ℕ) → ((j : ℕ) → j < drains → (clock j).0 ≤ latest)
      → ((j : ℕ) → drains ≤ j → latest + u.polling.state.timeout_ms * 10 ^ 6 < (clock j).1)
      → u.polling.last_data_time ≤ latest
      → length (input_of u) ≤ drains * batch_size
      → length (sorted_of u) + length (input_of u) ≤ m
      → Settled clock (drains + m) 0 u
  Reach-Settled {u = u} e reached puts clock drains latest m early late last fits few =
      settle puts clock drains latest u.polling.state.timeout_ms late early drains m (drains + m) 0
        u refl (omega arith) (Reach-IsValid e reached) last refl fits few
