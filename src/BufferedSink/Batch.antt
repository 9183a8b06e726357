-- ===== src/BufferedSink/Batch.antt =====
-- `drainAndSort`: what it takes from the input queue and where it goes.
use mathlib.Core.List.{Perm, perm_middle}
use mathlib.Core.List.Perm
use frib_e2sar.Base.{
  length, ◌+◌, arith, ℕ, zero, suc, ◌≡◌, refl, ap, ◌∙◌, List, [], ◌∷◌, ◌++◌, Bool, true, take, drop,
  All, ltb, if◌then◌else◌,
}
use frib_e2sar.BufferedSink.{
  Buffer, Fifo, BufferedSink, batch_size, drain_batch, sort_batch, insert_buffer, insert_all,
  insert_queue, drain_and_sort, is_nonempty,
}
use frib_e2sar.BufferedSink.Sorted.{IsSorted}
use frib_e2sar.BufferedSink.Insert.{
  place, length-place, insert_queue-place, place-perm, place-IsSorted, All-place,
}

-- A batch inserted into a queue, by the contract of insertion.
pub place_all : List Buffer → List Buffer → List Buffer
place_all [] q = q
place_all (b ∷ bs) q = place_all bs (place b q)

pub place_all-IsSorted : (bs q : List Buffer) → IsSorted q → IsSorted (place_all bs q)
unfolding place_all
place_all-IsSorted [] q h = h
place_all-IsSorted (b ∷ bs) q h = place_all-IsSorted bs (place b q) (place-IsSorted b q h)

pub place_all-perm : (bs q : List Buffer) → Perm (place_all bs q) (bs ++ q)
unfolding place_all
place_all-perm [] q = Perm.refl q
place_all-perm (b ∷ bs) q =
    Perm.trans (place_all-perm bs (place b q))
      (Perm.trans (Perm.append_left bs (place-perm b q)) (perm_middle bs q))

pub length-place_all : (bs q : List Buffer) → length (place_all bs q) ≡ length bs + length q
unfolding place_all
length-place_all [] q = omega arith
length-place_all (b ∷ bs) q = omega (arith, length-place_all bs (place b q), length-place b q)

module _ {κ} (P : Buffer → Type κ) where
  pub All-place_all : (bs q : List Buffer) → All P bs → All P q → All P (place_all bs q)
  unfolding place_all
  All-place_all [] q hb h = h
  All-place_all (b ∷ bs) q hb h = All-place_all bs (place b q) hb.1 (All-place P b q hb.0 h)

-- The warnings about late buffers, the latest first.
abbrev pub note_late : ℕ → List Buffer → List (ℕ × ℕ) → List (ℕ × ℕ)
note_late emitted [] late = late
note_late emitted (b ∷ bs) late =
    note_late emitted bs (if ltb b.s_time emitted then (b.s_time, emitted) ∷ late else late)

module _ {Q S : Type 0} where
  pub insert_all-place_all :
      (bs : List Buffer) (s : BufferedSink Q S)
      → IsSorted s.sorted_queue
      → insert_all bs s ≡ record s {
        sorted_queue = place_all bs s.sorted_queue;
        late = note_late s.last_emitted bs s.late;
      }
  unfolding insert_all place_all insert_buffer
  insert_all-place_all [] s h = refl
  insert_all-place_all (b ∷ bs) s h =
      let e : insert_queue b s.sorted_queue ≡ place b s.sorted_queue =
        insert_queue-place b s.sorted_queue h in
      rw e (insert_all-place_all bs _ (place-IsSorted b s.sorted_queue h))

module _ {Q : Type 0} ⦃fifo : Fifo Q Buffer⦄ where
  -- A batch is the front of the input queue, as far as there is room, and the rest stays.
  pub drain_batch-contents :
      (room : ℕ) (q : Q) (bs : List Buffer)
      → fifo.contents q ≡ bs
      → ((drain_batch room q).0 ≡ take room bs)
        × (fifo.contents (drain_batch room q).1 ≡ drop room bs)
  unfolding drain_batch
  drain_batch-contents zero q bs e = (refl, e)
  drain_batch-contents (suc room) q [] e = rw (fifo.pop_empty q e, drain_batch) (refl, e)
  drain_batch-contents (suc room) q (b ∷ bs) e =
      let (q', popped, rest) = fifo.pop_first q b bs e in
      let (front, left) = drain_batch-contents room q' bs rest in
      rw (popped, drain_batch) (ap (◌∷◌ b) front, left)

module _ {Q S : Type 0} ⦃fifo : Fifo Q Buffer⦄ where
  sort_batch-place_all :
      (bs : List Buffer) (s : BufferedSink Q S)
      → IsSorted s.sorted_queue
      → sort_batch bs s ≡ (
        record s {
          sorted_queue = place_all bs s.sorted_queue;
          late = note_late s.last_emitted bs s.late;
        },
        is_nonempty bs,
      )
  unfolding sort_batch place_all
  sort_batch-place_all [] s h = refl
  sort_batch-place_all (b ∷ bs) s h =
      ap (λ (t : BufferedSink Q S). (t, true)) (insert_all-place_all (b ∷ bs) s h)

  -- The buffers of the next batch, and the input queue without them.
  abbrev pub batch_of : BufferedSink Q S → List Buffer
  batch_of s = take batch_size (fifo.contents s.input_queue)

  abbrev pub drained : BufferedSink Q S → BufferedSink Q S
  drained s = record s {
    input_queue = (drain_batch batch_size s.input_queue).1;
    sorted_queue = place_all (batch_of s) s.sorted_queue;
    late = note_late s.last_emitted (batch_of s) s.late;
  }

  batch_result : BufferedSink Q S → List Buffer → BufferedSink Q S × Bool
  batch_result s bs = (
    record s {
      input_queue = (drain_batch batch_size s.input_queue).1;
      sorted_queue = place_all bs s.sorted_queue;
      late = note_late s.last_emitted bs s.late;
    },
    is_nonempty bs,
  )

  -- On a sorted queue, `drainAndSort` moves the first `BATCH_SIZE` buffers of the input queue, or
  -- all if there are fewer, to their places in the sorted queue, notes those that are late,
  -- leaves the others in the input queue in their order, and tells whether it moved any.
  pub drain_and_sort-drained :
      (s : BufferedSink Q S)
      → IsSorted s.sorted_queue
      → (drain_and_sort s ≡ (drained s, is_nonempty (batch_of s)))
        × (fifo.contents (drained s).input_queue ≡ drop batch_size (fifo.contents s.input_queue))
  unfolding drain_and_sort batch_result
  drain_and_sort-drained s h =
      let (front, left) = drain_batch-contents batch_size s.input_queue _ refl in
      (
        sort_batch-place_all (drain_batch batch_size s.input_queue).0
              (record s { input_queue = (drain_batch batch_size s.input_queue).1 }) h
            ∙ ap (batch_result s) front,
        left,
      )
