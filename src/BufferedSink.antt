-- ===== src/BufferedSink.antt =====
-- e2sarwf/BufferedSink.h and BufferedSink.cpp: the state, and each member function but `poll`,
-- which is in the child Poll. `std::deque` is a list, its front first.
pub mod Sorted
pub mod Insert
pub mod Window
pub mod Output
pub mod Emission
pub mod Batch
pub mod Poll
pub mod Threads
pub mod Stop
pub mod Spec
pub mod Refinement
pub mod Settling
pub mod Contents
pub mod Unique
pub mod OneBatch
pub mod Sample
pub mod Pair
pub mod Timed
mod Tests
use frib_e2sar.Base.{
  ℕ, zero, suc, ◌+◌, ◌*◌, ◌^◌, ◌≡◌, List, [], ◌∷◌, ◌++◌, Option, none, some, Bool, true, false,
  Error, Result, ok, err, ◌>>=◌, ltb, leb, if◌then◌else◌, length, last, reverse,
}
use frib_e2sar.Base.Words.{sub_u64}
use frib_e2sar.RingItem.{RingFormat, Iovec, count_ring_items, item_iovs}

-- `struct Buffer`. The payload is the memory behind `s_pData`.
pub record Buffer : Type 0 where
  pub s_time : ℕ
  pub payload : List ℕ
  pub s_size : ℕ

-- `boost::lockfree::queue`: a first-in, first-out queue. A push may be refused, and then changes
-- nothing.
pub record Fifo (Q A : Type 0) : Type 0 where
  pub contents : Q → List A
  pub push : A → Q → Bool × Q
  pub pop : Q → Option (A × Q)
  pub push_stored :
      (a : A) (q : Q) → (push a q).0 ≡ true → contents (push a q).1 ≡ contents q ++ a ∷ []
  pub push_refused : (a : A) (q : Q) → (push a q).0 ≡ false → contents (push a q).1 ≡ contents q
  pub pop_empty : (q : Q) → contents q ≡ [] → pop q ≡ none
  pub pop_first :
      (q : Q) (a : A) (rest : List A)
      → contents q ≡ a ∷ rest
      → (q' : Q) × (pop q ≡ some (a, q')) × (contents q' ≡ rest)
  pub reserve : ℕ → Q → Q
  pub reserve_contents : (n : ℕ) (q : Q) → contents (reserve n q) ≡ contents q

-- The virtual `DataSink::putV`: it changes the sink, or throws.
pub record DataSink (S : Type 0) : Type 0 where
  pub put_v : List Iovec → S → Result S

-- The sink takes whatever it is given.
abbrev pub Puts : {S : Type 0} → DataSink S → Type 0
Puts {S} dev = (vs : List Iovec) (k : S) → (k' : S) × (dev.put_v vs k ≡ ok k')

-- Most buffers that one call of `drainAndSort` takes.
abbrev pub batch_size : ℕ
batch_size = 1280

-- The data members that the functions use. `late` records the warnings of `insertBuffer`, as the
-- pairs that they print; `freed` the buffers that have been deleted.
pub record BufferedSink (Q S : Type 0) : Type 0 where
  pub timeout_ms : ℕ
  pub window : ℕ
  pub last_emitted : ℕ
  pub shutdown : Bool
  pub queue_capacity : ℕ
  pub input_queue : Q
  pub sorted_queue : List Buffer
  pub sink : S
  pub late : List (ℕ × ℕ)
  pub freed : List Buffer

-- The search from the back of the queue: `rit` is the head of the reversed list, and what it
-- has passed lies behind the insertion point.
seek : Buffer → List Buffer → List Buffer → List Buffer
seek b [] passed = b ∷ passed
seek b (r ∷ rs) passed =
    if ltb b.s_time r.s_time then seek b rs (r ∷ passed) else reverse (r ∷ rs) ++ b ∷ passed

pub insert_queue : Buffer → List Buffer → List Buffer
unfolding seek
insert_queue b [] = b ∷ []
insert_queue b (front ∷ rest) =
    if leb (last front rest).s_time b.s_time
    then (front ∷ rest) ++ b ∷ []
    else if ltb b.s_time front.s_time
    then b ∷ front ∷ rest
    else seek b (reverse (front ∷ rest)) []

-- `!empty()`.
abbrev pub is_nonempty : List Buffer → Bool
is_nonempty [] = false
is_nonempty (b ∷ bs) = true

pub window_test : ℕ → List Buffer → Bool
window_test window [] = false
window_test window (front ∷ []) = false
window_test window (front ∷ b ∷ rest) =
    let newest = (last b rest).s_time in
    if ltb (sub_u64 newest front.s_time) window
    then false
    else ltb front.s_time (sub_u64 newest window)

module _ {Q S : Type 0} where
  -- The constructor, once `makeDataSink` has made the sink: 60 s in ns, or 60 buffers.
  unfoldable pub init : Q → S → Bool → BufferedSink Q S
  init q sink use_ct = record {
    timeout_ms = 500;
    window = if use_ct then 60 else 60 * 10 ^ 9;
    last_emitted = 0;
    shutdown = false;
    queue_capacity = 10240;
    input_queue = q;
    sorted_queue = [];
    sink = sink;
    late = [];
    freed = [];
  }

  unfoldable pub set_timeout : ℕ → BufferedSink Q S → BufferedSink Q S
  set_timeout ms s = record s { timeout_ms = ms }

  unfoldable pub set_window : ℕ → BufferedSink Q S → BufferedSink Q S
  set_window w s = record s { window = w }

  unfoldable pub insert_buffer : Buffer → BufferedSink Q S → BufferedSink Q S
  insert_buffer b s = record s {
    sorted_queue = insert_queue b s.sorted_queue;
    late = if ltb b.s_time s.last_emitted then (b.s_time, s.last_emitted) ∷ s.late else s.late;
  }

  -- `for (auto b : batch) insertBuffer(b)`.
  unfoldable pub insert_all : List Buffer → BufferedSink Q S → BufferedSink Q S
  insert_all [] s = s
  insert_all (b ∷ bs) s = insert_all bs (insert_buffer b s)

  unfoldable pub have_sorted_data : BufferedSink Q S → Bool
  have_sorted_data s = is_nonempty s.sorted_queue

  unfoldable pub emit_from_window : BufferedSink Q S → Bool
  emit_from_window s = window_test s.window s.sorted_queue

module _ {Q : Type 0} ⦃fifo : Fifo Q Buffer⦄ where
  -- `while (batch.size() < BATCH_SIZE && pop(pBuffer))`: the number is the room in the batch.
  pub drain_batch : ℕ → Q → List Buffer × Q
  drain_batch zero q = ([], q)
  drain_batch (suc room) q = elim (fifo.pop q) [
    | none ↦ ([], q)
    | some (b, q') ↦ let (batch, left) = drain_batch room q' in (b ∷ batch, left)
  ]

  -- `while (m_inputQueue.pop(pBuffer)) delete pBuffer`, with fuel.
  pub release_input : ℕ → Q → Result (List Buffer × Q)
  release_input zero q = err Error.out_of_fuel
  release_input (suc fuel) q = elim (fifo.pop q) [
    | none ↦ ok ([], q)
    | some (b, q') ↦ release_input fuel q' >>= λ r. ok (b ∷ r.0, r.1)
  ]

module _ {Q S : Type 0} ⦃fifo : Fifo Q Buffer⦄ where
  unfoldable pub set_input_queue_capacity : ℕ → BufferedSink Q S → BufferedSink Q S
  set_input_queue_capacity capacity s = record s {
    queue_capacity = capacity;
    input_queue = fifo.reserve capacity s.input_queue;
  }

  -- A refused buffer is dropped. The payload comes with its size from the caller.
  unfoldable pub add_data : ℕ → List ℕ → ℕ → BufferedSink Q S → BufferedSink Q S
  add_data timestamp data_bytes n s =
      let b : Buffer = record { s_time = timestamp; payload = data_bytes; s_size = n } in
      let (stored, q) = fifo.push b s.input_queue in
      if stored
      then record s { input_queue = q }
      else record s { input_queue = q; freed = b ∷ s.freed }

  pub sort_batch : List Buffer → BufferedSink Q S → BufferedSink Q S × Bool
  sort_batch [] s = (s, false)
  sort_batch (b ∷ bs) s = (insert_all (b ∷ bs) s, true)

  unfoldable pub drain_and_sort : BufferedSink Q S → BufferedSink Q S × Bool
  drain_and_sort s =
      let (batch, q) = drain_batch batch_size s.input_queue in
      sort_batch batch (record s { input_queue = q })

module _ ⦃fmt : RingFormat⦄ where
  -- The loop that moves buffers to the output: those moved, their number of items, the rest.
  pub take_until : ℕ → List Buffer → Result (List Buffer × ℕ × List Buffer)
  take_until until [] = ok ([], 0, [])
  take_until until (b ∷ bs) =
      if leb b.s_time until
      then (do
        n ← count_ring_items b.payload b.s_size
        r ← take_until until bs
        ok (b ∷ r.0, n + r.1, r.2))
      else ok ([], 0, b ∷ bs)

  -- One `iovec` for each item of each buffer.
  pub collect_iovs : List Buffer → Result (List Iovec)
  collect_iovs [] = ok []
  collect_iovs (b ∷ bs) = do
    n ← count_ring_items b.payload b.s_size
    vs ← item_iovs n b.payload
    ws ← collect_iovs bs
    ok (vs ++ ws)

module _ {Q S : Type 0} ⦃dev : DataSink S⦄ ⦃fmt : RingFormat⦄ where
  -- `m_lastEmitted = outputBuffers.back()->s_time`; there is no back of an empty deque.
  pub finish_output : List Buffer → BufferedSink Q S → Result (List Buffer × BufferedSink Q S)
  finish_output [] s = err Error.out_of_bounds
  finish_output (b ∷ bs) s =
      ok (b ∷ bs, record s { last_emitted = (last b bs).s_time; freed = (b ∷ bs) ++ s.freed })

  pub output_until : ℕ → List Buffer → BufferedSink Q S → Result (List Buffer × BufferedSink Q S)
  output_until until queue s = do
    r ← take_until until queue
    vs ← collect_iovs r.0
    sink' ← dev.put_v vs s.sink
    finish_output r.0 (record s { sorted_queue = r.2; sink = sink' })

  pub output_queue : Bool → List Buffer → BufferedSink Q S → Result (List Buffer × BufferedSink Q S)
  output_queue flush [] s = ok ([], s)
  output_queue flush (b ∷ bs) s =
      let newest = (last b bs).s_time in
      output_until (if flush then newest else sub_u64 newest s.window) (b ∷ bs) s

  -- `outputData`, with the buffers that it wrote.
  unfoldable pub output_data : Bool → BufferedSink Q S → Result (List Buffer × BufferedSink Q S)
  output_data flush s = output_queue flush s.sorted_queue s

module _ {Q S : Type 0} ⦃fifo : Fifo Q Buffer⦄ ⦃dev : DataSink S⦄ ⦃fmt : RingFormat⦄ where
  -- `stopThreads`, from the return of `join` on: the output thread has ended.
  unfoldable pub stop_threads : BufferedSink Q S → Result (List Buffer × BufferedSink Q S)
  stop_threads s = output_data true (drain_and_sort (record s { shutdown = true })).0

  -- The destructor, with fuel for the loop that empties the input queue.
  unfoldable pub destroy : ℕ → BufferedSink Q S → Result (List Buffer × BufferedSink Q S)
  destroy fuel s = do
    r ← stop_threads s
    left ← release_input fuel r.1.input_queue
    ok (
      r.0,
      record (r.1) {
        input_queue = left.1;
        sorted_queue = [];
        freed = r.1.sorted_queue ++ left.0 ++ r.1.freed;
      },
    )
