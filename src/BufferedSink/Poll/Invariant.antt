-- ===== src/BufferedSink/Poll/Invariant.antt =====
-- What holds of the sink between the calls of its functions, and is kept by each of them.
use mathlib.Core.List.{Perm, append_assoc, perm_append_comm}
use mathlib.Core.List.Perm
use mathlib.Core.Path.{subst}
use frib_e2sar.Base.{
  ℕ, suc, ◌≤◌, ◌<◌, ◌≡◌, sym, ap, ◌∙◌, inl, inr, List, [], ◌∷◌, ◌++◌, true, ltb, ltb→ge, Bool-cases,
  All, All-append, All-append_left, All-append_right, All-take, All-drop, All-last, take, drop,
  take-append-drop, last, ◌^◌, arith,
}
use frib_e2sar.RingItem.{RingFormat}
use frib_e2sar.BufferedSink.{Buffer, Fifo, BufferedSink, batch_size}
use frib_e2sar.BufferedSink.Sorted.{
  IsSorted, AllFrom, AllTo, AllFrom-mono, AllTo-mono, IsSorted-append, IsSorted-append_left,
  IsSorted-append_right, IsSorted-last,
}
use frib_e2sar.BufferedSink.Window.{InRange}
use frib_e2sar.BufferedSink.Output.{IsFilled}
use frib_e2sar.BufferedSink.Emission.{Emission, emitted_state}
use frib_e2sar.BufferedSink.Batch.{
  place_all, place_all-IsSorted, place_all-perm, All-place_all, note_late, batch_of, drained,
  drain_and_sort-drained,
}

-- What was written is in time order and no later than the last time emitted, and nothing that
-- waits is earlier than that.
pub record IsOrdered (emitted : ℕ) (written queue : List Buffer) : Type 0 where
  pub in_order : IsSorted written
  pub before : AllTo emitted written
  pub behind : AllFrom emitted queue

module _ {Q S : Type 0} ⦃fifo : Fifo Q Buffer⦄ ⦃fmt : RingFormat⦄ where
  -- The invariant, with all buffers written so far and all that the input queue took in.
  pub record Valid (s : BufferedSink Q S) (written arrived : List Buffer) : Type 0 where
    pub sorted : IsSorted s.sorted_queue
    pub range : InRange s.sorted_queue
    pub filled : All IsFilled s.sorted_queue
    pub input_range : InRange (fifo.contents s.input_queue)
    pub input_filled : All IsFilled (fifo.contents s.input_queue)
    pub ordered : s.late ≡ [] → IsOrdered s.last_emitted written s.sorted_queue
    pub conserved : Perm (written ++ (s.sorted_queue ++ fifo.contents s.input_queue)) arrived

note_late-nil :
    (emitted : ℕ) (bs : List Buffer) (late : List (ℕ × ℕ))
    → note_late emitted bs late ≡ []
    → (late ≡ []) × AllFrom emitted bs
note_late-nil emitted [] late e = (e, tt)
note_late-nil emitted (b ∷ bs) late e =
    let (none_late, rest) = note_late-nil emitted bs _ e in
    elim (Bool-cases (ltb b.s_time emitted)) [
      | inl is_late ↦ let bad : (b.s_time, emitted) ∷ late ≡ [] = rw is_late at none_late in cc
      | inr in_time ↦
          let fine : late ≡ [] = rw in_time at none_late in
          (fine, (ltb→ge b.s_time emitted in_time, rest))
    ]

-- Taking the front of the input into the sorted queue loses and invents nothing.
pub moved-perm :
    (n : ℕ) (q input : List Buffer) → Perm (place_all (take n input) q ++ drop n input) (q ++ input)
moved-perm n q input =
    let split : q ++ (take n input ++ drop n input) ≡ q ++ input =
      ap (◌++◌ q) (take-append-drop n input) in
    rw (← split) (
      Perm.trans (Perm.append_right (drop n input) (place_all-perm (take n input) q)) (
        Perm.trans (Perm.append_right (drop n input) (perm_append_comm (take n input) q))
          (rw (append_assoc q (take n input) (drop n input)) (Perm.refl _))))

-- An output continues what was written before in time order.
output-IsOrdered :
    (t emitted : ℕ) (written : List Buffer) (b : Buffer) (bs rest : List Buffer)
    → IsOrdered emitted written ((b ∷ bs) ++ rest)
    → IsSorted ((b ∷ bs) ++ rest)
    → AllTo t (b ∷ bs)
    → AllFrom (suc t) rest
    → IsOrdered (last b bs).s_time (written ++ b ∷ bs) rest
output-IsOrdered t emitted written b bs rest o h to from =
    let out : IsSorted (b ∷ bs) = IsSorted-append_left (b ∷ bs) rest h in
    let behind : AllFrom emitted (b ∷ bs) = All-append_left _ (b ∷ bs) rest o.behind in
    let later : emitted ≤ (last b bs).s_time = All-last _ b bs behind in
    let due : (last b bs).s_time ≤ t = All-last _ b bs to in
    record {
      in_order = IsSorted-append emitted written (b ∷ bs) o.in_order out o.before behind;
      before =
          All-append _ written (b ∷ bs) (AllTo-mono written later o.before)
            (IsSorted-last b bs out);
      behind = AllFrom-mono rest (omega arith) from;
    }

module _ {Q S : Type 0} ⦃fifo : Fifo Q Buffer⦄ ⦃fmt : RingFormat⦄ where
  module _ (s : BufferedSink Q S) {written arrived : List Buffer}
      (v : Valid s written arrived) where
    pub drained-Valid : Valid (drained s) written arrived
    drained-Valid =
        let left : fifo.contents (drained s).input_queue
            ≡ drop batch_size (fifo.contents s.input_queue) =
          (drain_and_sort-drained s v.sorted).1 in
        record {
          sorted = place_all-IsSorted (batch_of s) s.sorted_queue v.sorted;
          range =
              All-place_all _ (batch_of s) s.sorted_queue (All-take _ batch_size _ v.input_range)
                v.range;
          filled =
              All-place_all _ (batch_of s) s.sorted_queue (All-take _ batch_size _ v.input_filled)
                v.filled;
          input_range = rw left (All-drop _ batch_size _ v.input_range);
          input_filled = rw left (All-drop _ batch_size _ v.input_filled);
          ordered = λ e.
              let (fine, from) = note_late-nil s.last_emitted (batch_of s) s.late e in
              record {
                in_order = (v.ordered fine).in_order;
                before = (v.ordered fine).before;
                behind = All-place_all _ (batch_of s) s.sorted_queue from (v.ordered fine).behind;
              };
          conserved = rw left (
              Perm.trans
                (Perm.append_left written
                  (moved-perm batch_size s.sorted_queue (fifo.contents s.input_queue)))
                v.conserved);
        }

    module _ {t : ℕ} (e : Emission t s.sorted_queue) (sink' : S) where
      pub emitted-Valid : Valid (emitted_state s e sink') (written ++ e.first ∷ e.more) arrived
      emitted-Valid =
          let out = e.first ∷ e.more in
          let sorted' : IsSorted (out ++ e.rest) = subst IsSorted (sym e.whole) v.sorted in
          let range' : InRange (out ++ e.rest) = subst InRange (sym e.whole) v.range in
          let filled' : All IsFilled (out ++ e.rest) =
            subst (All IsFilled) (sym e.whole) v.filled in
          record {
            sorted = IsSorted-append_right out e.rest sorted';
            range = All-append_right _ out e.rest range';
            filled = All-append_right _ out e.rest filled';
            input_range = v.input_range;
            input_filled = v.input_filled;
            ordered = λ none_late.
                output-IsOrdered t s.last_emitted written e.first e.more e.rest
                  (subst (IsOrdered s.last_emitted written) (sym e.whole) (v.ordered none_late))
                  sorted' e.emitted e.kept;
            conserved =
                let input = fifo.contents s.input_queue in
                let regroup : written ++ (s.sorted_queue ++ input)
                    ≡ (written ++ out) ++ (e.rest ++ input) =
                  ap (◌++◌ written) (
                    ap (λ (z : List Buffer). z ++ input) (sym e.whole)
                    ∙ append_assoc out e.rest input)
                  ∙ sym (append_assoc written out (e.rest ++ input)) in
                subst (λ (z : List Buffer). Perm z arrived) regroup v.conserved;
          }

    -- A buffer that the input queue takes in.
    module _ (b : Buffer) (in_range : b.s_time < 2 ^ 64) (whole : IsFilled b) where
      pub stored-Valid :
          (q : Q)
          → fifo.contents q ≡ fifo.contents s.input_queue ++ b ∷ []
          → Valid (record s { input_queue = q }) written (arrived ++ b ∷ [])
      stored-Valid q e = record {
        sorted = v.sorted;
        range = v.range;
        filled = v.filled;
        input_range = rw e (All-append _ _ (b ∷ []) v.input_range (in_range, tt));
        input_filled = rw e (All-append _ _ (b ∷ []) v.input_filled (whole, tt));
        ordered = v.ordered;
        conserved =
            rw
              (
                e,
                ← append_assoc s.sorted_queue (fifo.contents s.input_queue) (b ∷ []),
                ← append_assoc written (s.sorted_queue ++ fifo.contents s.input_queue) (b ∷ []),
              )
              (Perm.append_right (b ∷ []) v.conserved);
      }

    -- A buffer that it refuses.
    pub refused-Valid :
        (q : Q) (gone : List Buffer)
        → fifo.contents q ≡ fifo.contents s.input_queue
        → Valid (record s { input_queue = q; freed = gone }) written arrived
    refused-Valid q gone e = record {
      sorted = v.sorted;
      range = v.range;
      filled = v.filled;
      input_range = rw e v.input_range;
      input_filled = rw e v.input_filled;
      ordered = v.ordered;
      conserved = rw e v.conserved;
    }

    -- A queue with more room.
    pub reserved-Valid :
        (q : Q) (capacity : ℕ)
        → fifo.contents q ≡ fifo.contents s.input_queue
        → Valid (record s { queue_capacity = capacity; input_queue = q }) written arrived
    reserved-Valid q capacity e = record {
      sorted = v.sorted;
      range = v.range;
      filled = v.filled;
      input_range = rw e v.input_range;
      input_filled = rw e v.input_filled;
      ordered = v.ordered;
      conserved = rw e v.conserved;
    }

    -- Window, timeout and the stop are not in the invariant.
    pub resized-Valid : (w : ℕ) → Valid (record s { window = w }) written arrived
    resized-Valid w = record {
      sorted = v.sorted;
      range = v.range;
      filled = v.filled;
      input_range = v.input_range;
      input_filled = v.input_filled;
      ordered = v.ordered;
      conserved = v.conserved;
    }

    pub retimed-Valid : (ms : ℕ) → Valid (record s { timeout_ms = ms }) written arrived
    retimed-Valid ms = record {
      sorted = v.sorted;
      range = v.range;
      filled = v.filled;
      input_range = v.input_range;
      input_filled = v.input_filled;
      ordered = v.ordered;
      conserved = v.conserved;
    }

    pub stopping-Valid : Valid (record s { shutdown = true }) written arrived
    stopping-Valid = record {
      sorted = v.sorted;
      range = v.range;
      filled = v.filled;
      input_range = v.input_range;
      input_filled = v.input_filled;
      ordered = v.ordered;
      conserved = v.conserved;
    }
