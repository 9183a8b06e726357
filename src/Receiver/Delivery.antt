-- ===== src/Receiver/Delivery.antt =====
-- What a dequeue thread takes from the Reassembler goes into the sink.
use frib_e2sar.Base.{
  ℕ, zero, suc, ◌+◌, ◌≡◌, refl, List, [], ◌∷◌, Bool, false, Bool-cases, length, inl, inr, ap,
}
use frib_e2sar.Base.Words.{add_u64}
use frib_e2sar.BufferedSink.{Buffer, Fifo, BufferedSink, add_data}
use frib_e2sar.Receiver.{
  Reception, Reassembler, Receiving, Status, hand_off, receive_round, receive_loop,
}

-- `addData` for each event.
abbrev pub add_all :
    {Q S : Type 0} ⦃fifo : Fifo Q Buffer⦄ → List (ℕ × List ℕ) → BufferedSink Q S → BufferedSink Q S
add_all [] s = s
add_all (e ∷ es) s = add_all es (add_data e.0 e.1 (length e.1) s)

-- The 64-bit sum of the sizes.
abbrev pub total_from : ℕ → List (ℕ × List ℕ) → ℕ
total_from n [] = n
total_from n (e ∷ es) = total_from (add_u64 n (length e.1)) es

-- Calls of `getEvent` that have given these events; the last may have been an error.
pub data Gets {R : Type 0} ⦃reasm : Reassembler R⦄ : R → List (ℕ × List ℕ) → R → Type 0 where
  stop : (r : R) → Gets r [] r
  fails : {r t : R} → reasm.get_event r ≡ (Reception.failed, t) → Gets r [] t
  waits :
      {r t u : R} {es : List (ℕ × List ℕ)}
      → reasm.get_event r ≡ (Reception.empty, t)
      → Gets t es u
      → Gets r es u
  gets :
      {r t u : R} {number : ℕ} {data_bytes : List ℕ} {es : List (ℕ × List ℕ)}
      → reasm.get_event r ≡ (Reception.event number data_bytes, t)
      → Gets t es u
      → Gets r ((number, data_bytes) ∷ es) u

module _ {R Q S : Type 0} ⦃fifo : Fifo Q Buffer⦄ ⦃reasm : Reassembler R⦄ where
  -- The new state has what the old had and the events between them.
  pub record Delivers (s t : Receiving R Q S) : Type 0 where
    pub events : List (ℕ × List ℕ)
    pub taken : Gets s.reassembler events t.reassembler
    pub added : t.sink ≡ add_all events s.sink
    pub counted : t.total_bytes ≡ total_from s.total_bytes events

  receive_loop-running :
      (rounds : ℕ) (interrupt : ℕ → Bool) (elapsed : ℕ → ℕ) (i : ℕ) (s u : Receiving R Q S)
      → receive_round (interrupt i) 0 (elapsed i) s ≡ (Status.running, u)
      → receive_loop (suc rounds) interrupt 0 elapsed i s
        ≡ receive_loop rounds interrupt 0 elapsed (i + 1) u
  unfolding receive_loop
  receive_loop-running rounds interrupt elapsed i s u e =
      rw (receive_loop, ap (λ x. x.0) e, ap (λ x. x.1) e) refl

  receive_loop-gave_up :
      (rounds : ℕ) (interrupt : ℕ → Bool) (elapsed : ℕ → ℕ) (i : ℕ) (s u : Receiving R Q S)
      → receive_round (interrupt i) 0 (elapsed i) s ≡ (Status.gave_up, u)
      → receive_loop (suc rounds) interrupt 0 elapsed i s ≡ (Status.gave_up, u)
  unfolding receive_loop
  receive_loop-gave_up rounds interrupt elapsed i s u e =
      rw (receive_loop, ap (λ x. x.0) e, ap (λ x. x.1) e) refl

  receive_loop-interrupted :
      (rounds : ℕ) (interrupt : ℕ → Bool) (elapsed : ℕ → ℕ) (i : ℕ) (s u : Receiving R Q S)
      → receive_round (interrupt i) 0 (elapsed i) s ≡ (Status.interrupted, u)
      → receive_loop (suc rounds) interrupt 0 elapsed i s ≡ (Status.interrupted, u)
  unfolding receive_loop
  receive_loop-interrupted rounds interrupt elapsed i s u e =
      rw (receive_loop, ap (λ x. x.0) e, ap (λ x. x.1) e) refl

  receive_round-hand_off :
      (elapsed : ℕ) (s : Receiving R Q S) (rv : Reception) (t : R)
      → reasm.get_event s.reassembler ≡ (rv, t)
      → receive_round false 0 elapsed s ≡ hand_off rv (record s { reassembler = t })
  unfolding receive_round
  receive_round-hand_off elapsed s rv t e =
      rw (receive_round, ap (λ x. x.0) e, ap (λ x. x.1) e) refl

  -- A round that has the event at hand, and the rounds behind it.
  round-Delivers :
      (rounds : ℕ) (interrupt : ℕ → Bool) (elapsed : ℕ → ℕ) (i : ℕ) (s : Receiving R Q S)
      (rv : Reception) (t : R)
      → reasm.get_event s.reassembler ≡ (rv, t)
      → interrupt i ≡ false
      → ((u : Receiving R Q S) → Delivers u (receive_loop rounds interrupt 0 elapsed (i + 1) u).1)
      → Delivers s (receive_loop (suc rounds) interrupt 0 elapsed i s).1
  unfolding hand_off
  round-Delivers rounds interrupt elapsed i s Reception.failed t e go more =
      let run : receive_round (interrupt i) 0 (elapsed i) s
          ≡ (Status.gave_up, record s { reassembler = t }) =
        rw go (receive_round-hand_off (elapsed i) s Reception.failed t e) in
      rw (receive_loop-gave_up rounds interrupt elapsed i s _ run)
        (record { events = []; taken = fails e; added = refl; counted = refl })
  round-Delivers rounds interrupt elapsed i s Reception.empty t e go more =
      let run : receive_round (interrupt i) 0 (elapsed i) s
          ≡ (Status.running, record s { reassembler = t }) =
        rw go (receive_round-hand_off (elapsed i) s Reception.empty t e) in
      let later = more (record s { reassembler = t }) in
      rw (receive_loop-running rounds interrupt elapsed i s _ run) (record {
        events = later.events;
        taken = waits e later.taken;
        added = later.added;
        counted = later.counted;
      })
  round-Delivers rounds interrupt elapsed i s (Reception.event number data_bytes) t e go more =
      let u : Receiving R Q S =
        (hand_off (Reception.event number data_bytes) (record s { reassembler = t })).1 in
      let run : receive_round (interrupt i) 0 (elapsed i) s ≡ (Status.running, u) =
        rw go (receive_round-hand_off (elapsed i) s (Reception.event number data_bytes) t e) in
      let later = more u in
      rw (receive_loop-running rounds interrupt elapsed i s u run) (record {
        events = (number, data_bytes) ∷ later.events;
        taken = gets e later.taken;
        added = later.added;
        counted = later.counted;
      })

  -- With no duration set, after any number of rounds and whenever it is interrupted, a dequeue
  -- thread has handed every event that `getEvent` gave to `addData`, once and in order, and its
  -- byte count is the 64-bit sum of their sizes.
  pub receive_loop-Delivers :
      (rounds : ℕ) (interrupt : ℕ → Bool) (elapsed : ℕ → ℕ) (i : ℕ) (s : Receiving R Q S)
      → Delivers s (receive_loop rounds interrupt 0 elapsed i s).1
  unfolding receive_loop receive_round
  receive_loop-Delivers zero interrupt elapsed i s = record {
    events = [];
    taken = stop s.reassembler;
    added = refl;
    counted = refl;
  }
  receive_loop-Delivers (suc rounds) interrupt elapsed i s = elim (Bool-cases (interrupt i)) [
    | inl halt ↦
        let run : receive_round (interrupt i) 0 (elapsed i) s ≡ (Status.interrupted, s) =
          rw (receive_round, halt) refl in
        rw (receive_loop-interrupted rounds interrupt elapsed i s s run)
          (record { events = []; taken = stop s.reassembler; added = refl; counted = refl })
    | inr go ↦
        round-Delivers rounds interrupt elapsed i s _ _ refl go
          (λ u. receive_loop-Delivers rounds interrupt elapsed (i + 1) u)
  ]
