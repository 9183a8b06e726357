-- ===== src/BufferedSink/Emission.antt =====
-- One call of `outputData` on a queue that is ready for output.
use frib_e2sar.Base.{
  ℕ, suc, ◌-◌, ◌≤◌, ◌≡◌, refl, ap, sym, ◌∙◌, List, [], ◌∷◌, ◌++◌, map, Bool, true, false, ok, ◌>>=◌,
  All, All-last, flatten, last, arith,
}
use frib_e2sar.Base.Words.{sub_u64_of_le}
use frib_e2sar.RingItem.{RingFormat, Iovec, bytes}
use frib_e2sar.BufferedSink.{
  Buffer, BufferedSink, DataSink, finish_output, output_until, output_queue, output_data,
}
use frib_e2sar.BufferedSink.Sorted.{IsSorted, AllFrom, AllTo, IsSorted-last}
use frib_e2sar.BufferedSink.Window.{InRange, Spans}
use frib_e2sar.BufferedSink.Output.{IsFilled, Split, take_until-Split, collect_iovs-payloads}

-- The time up to which a call emits: everything, or all but the last window.
abbrev pub limit : Bool → ℕ → List Buffer → ℕ
limit flush window [] = 0
limit true window (b ∷ bs) = (last b bs).s_time
limit false window (b ∷ bs) = (last b bs).s_time - window

-- There is something to output: any buffer at all, or for a call that does not flush, a window.
abbrev pub Ready : Bool → ℕ → List Buffer → Type 0
Ready flush window [] = ⊥
Ready true window (b ∷ bs) = Unit {0}
Ready false window (b ∷ bs) = Spans window (b ∷ bs)

module _ ⦃fmt : RingFormat⦄ where
  -- The buffers of a queue that leave it at a limit, at least one, and what is written for them.
  pub record Emission (limit : ℕ) (q : List Buffer) : Type 0 where
    pub first : Buffer
    pub more : List Buffer
    pub rest : List Buffer
    pub iovs : List Iovec
    pub whole : (first ∷ more) ++ rest ≡ q
    pub emitted : AllTo limit (first ∷ more)
    pub kept : AllFrom (suc limit) rest
    pub written :
        flatten (map bytes iovs) ≡ flatten (map (λ (b : Buffer). b.payload) (first ∷ more))

  -- The front of the queue is due, so something leaves it.
  due_out :
      (t : ℕ) (b : Buffer) (bs : List Buffer) (sp : Split t (b ∷ bs))
      → b.s_time ≤ t
      → (f : Buffer) × (m : List Buffer) × (sp.out ≡ f ∷ m)
  due_out t b bs sp due = go sp.out sp.rest refl sp.whole sp.kept
    where
      go :
          (o r : List Buffer)
          → sp.out ≡ o
          → o ++ r ≡ b ∷ bs
          → AllFrom (suc t) r
          → (f : Buffer) × (m : List Buffer) × (sp.out ≡ f ∷ m)
      go [] r e w k = let k' : AllFrom (suc t) (b ∷ bs) = rw w at k in absurd (omega (arith, k'.0))
      go (f ∷ m) r e w k = (f, m, e)

module _ {Q S : Type 0} ⦃fmt : RingFormat⦄ where
  -- The state after the sink has taken the data.
  abbrev pub emitted_state :
      {t : ℕ} {q : List Buffer} → BufferedSink Q S → Emission t q → S → BufferedSink Q S
  emitted_state s e sink' = record s {
    sorted_queue = e.rest;
    sink = sink';
    last_emitted = (last e.first e.more).s_time;
    freed = (e.first ∷ e.more) ++ s.freed;
  }

module _ {Q S : Type 0} ⦃dev : DataSink S⦄ ⦃fmt : RingFormat⦄ where
  output_until-Emission :
      (t : ℕ) (q : List Buffer) (s : BufferedSink Q S) (sp : Split t q) (f : Buffer)
      (m : List Buffer)
      → sp.out ≡ f ∷ m
      → (e : Emission t q) × (output_until t q s
          ≡ (dev.put_v e.iovs s.sink >>= λ k. ok (e.first ∷ e.more, emitted_state s e k)))
  unfolding output_until finish_output
  output_until-Emission t q s sp f m eq =
      let (vs, run, same) = collect_iovs-payloads sp.out sp.filled in
      (
        record {
          first = f;
          more = m;
          rest = sp.rest;
          iovs = vs;
          whole = ap (λ (o : List Buffer). o ++ sp.rest) (sym eq) ∙ sp.whole;
          emitted = rw eq at sp.emitted;
          kept = sp.kept;
          written = same ∙ ap (λ (o : List Buffer). flatten (map (λ (b : Buffer). b.payload) o)) eq;
        },
        rw (sp.runs, run, eq) refl,
      )

  output_queue-Emission :
      (flush : Bool) (q : List Buffer) (s : BufferedSink Q S)
      → IsSorted q
      → InRange q
      → All IsFilled q
      → Ready flush s.window q
      → (e : Emission (limit flush s.window q) q) × (output_queue flush q s
          ≡ (dev.put_v e.iovs s.sink >>= λ k. ok (e.first ∷ e.more, emitted_state s e k)))
  unfolding output_queue
  output_queue-Emission flush [] s h r f ready = absurd ready
  output_queue-Emission true (b ∷ bs) s h r f ready =
      let sp : Split (last b bs).s_time (b ∷ bs) = take_until-Split _ (b ∷ bs) h f in
      let (x, m, eq) = due_out _ b bs sp (IsSorted-last b bs h).0 in
      output_until-Emission (last b bs).s_time (b ∷ bs) s sp x m eq
  output_queue-Emission false (b ∷ []) s h r f ready = absurd ready
  output_queue-Emission false (b ∷ c ∷ bs) s h r f ready =
      let t : ℕ = (last c bs).s_time - s.window in
      let sp : Split t (b ∷ c ∷ bs) = take_until-Split t (b ∷ c ∷ bs) h f in
      let (x, m, eq) = due_out t b (c ∷ bs) sp (omega arith) in
      rw (sub_u64_of_le (last c bs).s_time s.window (All-last _ c bs r.1) (omega arith))
        (output_until-Emission t (b ∷ c ∷ bs) s sp x m eq)

  -- On a sorted queue of whole ring items that is ready for output, a call of `outputData` takes
  -- off exactly the buffers up to the limit, at least one, hands their ring items to the sink in
  -- order, and, unless the sink throws, leaves the rest in the queue, remembers the time of the
  -- last buffer that it wrote, and has freed those it wrote.
  pub output_data-Emission :
      (flush : Bool) (s : BufferedSink Q S)
      → IsSorted s.sorted_queue
      → InRange s.sorted_queue
      → All IsFilled s.sorted_queue
      → Ready flush s.window s.sorted_queue
      → (e : Emission (limit flush s.window s.sorted_queue) s.sorted_queue) × (output_data flush s
          ≡ (dev.put_v e.iovs s.sink >>= λ k. ok (e.first ∷ e.more, emitted_state s e k)))
  unfolding output_data
  output_data-Emission flush s h r f ready =
      output_queue-Emission flush s.sorted_queue s h r f ready
