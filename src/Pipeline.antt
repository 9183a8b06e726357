-- ===== src/Pipeline.antt =====
-- The whole way of a file: `Sender::operator()` packs it into numbered events, the load balancer
-- hands them over in any order, and the receiver's `BufferedSink` writes them.
pub mod Delivery
pub mod Stamped
mod Tests
use mathlib.Core.List.{Perm, append-nil}
use mathlib.Core.List.Perm
use mathlib.Core.Path.{subst}
use frib_e2sar.Base.{
  ℕ, suc, ◌+◌, ◌^◌, ◌≤◌, ◌<◌, ◌≡◌, ◌≢◌, refl, sym, ap, ◌∙◌, List, [], ◌∷◌, ◌++◌, map, Bool, true,
  Result, ok, err, length, All, flatten, length-append, arith,
}
use frib_e2sar.RingItem.{RingFormat}
use frib_e2sar.RingItem.Laws.{IsItem}
use frib_e2sar.BufferedSink.{Buffer, Fifo, DataSink}
use frib_e2sar.BufferedSink.Output.{IsFilled}
use frib_e2sar.BufferedSink.Threads.{System, Reach, Reach-IsValid}
use frib_e2sar.BufferedSink.Contents.{ByteSink, Reach-Holds, payloads}
use frib_e2sar.BufferedSink.Settling.{settled-Perm}
use frib_e2sar.BufferedSink.Unique.{IsStrict, IsSorted-eq_of_perm}
use frib_e2sar.Sender.{DataSource, Segmenter, Config, Sender, ExitCode, send_start, send_loop}
use frib_e2sar.Sender.Timestamp.{BodyFormat}
use frib_e2sar.Sender.Laws.{Queues, IsSending}
use frib_e2sar.Sender.Filling.{FileSource, Fit}
use frib_e2sar.Sender.Ending.{sent_bytes, send_loop-ends}
use frib_e2sar.Sender.Events.{CountsFrom, IsRow, send_loop-IsCounted}

-- An event as the receiver gets it: its number is the time, and its size comes with it.
abbrev pub buffer_of : ℕ × List ℕ → Buffer
buffer_of x = record { s_time = x.0; payload = x.1; s_size = length x.1 }

abbrev pub buffers_of : List (ℕ × List ℕ) → List Buffer
buffers_of = map buffer_of

-- The events that a send loop has sent when it returns.
abbrev pub events_of : {D G : Type 0} → Result (ExitCode × Sender D G) → List Buffer
events_of (ok r) = buffers_of r.1.sent
events_of (err e) = []

later_events :
    (n m : ℕ) (xs : List (ℕ × List ℕ))
    → n < m
    → CountsFrom m xs
    → All (λ (b : Buffer). n < b.s_time) (buffers_of xs)
later_events n m [] h k = tt
later_events n m (x ∷ xs) h k =
    (omega (arith, k.0), later_events n (suc m) xs (omega (arith, h)) k.1)

CountsFrom-IsStrict : (n : ℕ) (xs : List (ℕ × List ℕ)) → CountsFrom n xs → IsStrict (buffers_of xs)
CountsFrom-IsStrict n [] k = tt
CountsFrom-IsStrict n (x ∷ xs) k =
    (rw k.0 (later_events n (suc n) xs (omega arith) k.1), CountsFrom-IsStrict (suc n) xs k.1)

pub payloads-buffers_of :
    (xs : List (ℕ × List ℕ)) → payloads (buffers_of xs) ≡ flatten (map (λ (x : ℕ × List ℕ). x.1) xs)
payloads-buffers_of [] = refl
payloads-buffers_of (x ∷ xs) = ap (◌++◌ x.1) (payloads-buffers_of xs)

module _ ⦃fmt : RingFormat⦄ where
  -- What a dequeue thread may hand over: whole ring items under a 64-bit time.
  abbrev pub IsEvent : Buffer → Type 0
  IsEvent b = (b.s_time < 2 ^ 64) × IsFilled b

  -- Events of at least one byte that are counted from a number have 64-bit times, if the number
  -- and all their bytes have room.
  counted-IsEvent :
      (n cap : ℕ) (xs : List (ℕ × List ℕ))
      → CountsFrom n xs
      → All IsRow xs
      → All (λ (x : ℕ × List ℕ). (1 ≤ length x.1) × (length x.1 ≤ cap)) xs
      → n + length (flatten (map (λ (x : ℕ × List ℕ). x.1) xs)) < 2 ^ 64
      → All IsEvent (buffers_of xs)
  counted-IsEvent n cap [] k rows fits room = tt
  counted-IsEvent n cap (x ∷ xs) k rows fits room =
      let more = flatten (map (λ (y : ℕ × List ℕ). y.1) xs) in
      let size : length (x.1 ++ more) ≡ length x.1 + length more = length-append x.1 more in
      let (its, items, bytes) = rows.0 in
      (
        (
          omega (arith, k.0, room),
          (
            its,
            record {
              items = items;
              payload_eq = bytes;
              size_eq = refl;
              small = omega (arith, ap length bytes, size, room);
            },
          ),
        ),
        counted-IsEvent (suc n) cap xs k.1 rows.1 fits.1 (omega (arith, fits.0.0, size, room)),
      )

module _ {D G Q S : Type 0} ⦃src : DataSource D⦄ ⦃seg : Segmenter G⦄ ⦃fmt : RingFormat⦄
    ⦃body : BodyFormat⦄ ⦃fifo : Fifo Q Buffer⦄ ⦃dev : DataSink S⦄ (file : FileSource src)
    (device : ByteSink dev) (c : Config) where
  -- What becomes of a file: the loop has ended with success, its events are such as a dequeue
  -- thread may hand over, they have been written in the order in which they were sent, and the
  -- sink holds the bytes of the file behind what it held at first.
  pub record Copied (result : Result (ExitCode × Sender D G)) (bytes : List ℕ) (sink : S)
      (u : System Q S) : Type 0 where
    pub final : Sender D G
    pub ends : result ≡ ok (ExitCode.exit_success, final)
    pub events : All IsEvent (buffers_of final.sent)
    pub written_eq : u.written ≡ buffers_of final.sent
    pub contents_eq : device.contents u.polling.state.sink ≡ device.contents sink ++ bytes

  -- From the file to the sink. A file of whole ring items, at least one and below 2^64 bytes, that
  -- fit into an event buffer is read with no limit on the number of buffers, with the event counter
  -- as the event number and a Segmenter that takes every buffer. Then the send loop ends within one
  -- round more than there are items. Let the receiver's threads run in any order with its input
  -- queue empty at first. In each state that they reach in which just the events of the loop have
  -- arrived, each once and in any order, both queues are empty and no warning of a late buffer was
  -- given, the events have been written in the order in which they were sent, and the sink holds
  -- what it held at first and behind it the bytes of the file.
  pub send_loop-Copied :
      Queues seg
      → c.use_ct ≡ true
      → c.n_events ≡ 0
      → 1 ≤ c.evt_buf_size
      → (clock : ℕ → ℕ) (fuel : ℕ) (d : D) (g : G) → Fit c.evt_buf_size (file.remaining d)
      → All IsItem (file.remaining d)
      → length (flatten (file.remaining d)) < 2 ^ 64
      → file.remaining d ≢ []
      → length (file.remaining d) < fuel
      → {q : Q} {sink : S} {count_times : Bool} {now : ℕ} {u : System Q S} → fifo.contents q ≡ []
      → Reach q sink count_times now u
      → Perm u.arrived (events_of (send_loop fuel c clock 0 (send_start d g)))
      → u.polling.state.sorted_queue ≡ []
      → fifo.contents u.polling.state.input_queue ≡ []
      → u.polling.state.late ≡ []
      → Copied (send_loop fuel c clock 0 (send_start d g)) (flatten (file.remaining d)) sink u
  send_loop-Copied queues counts all pos clock fuel d g fit items room some enough {sink = sink}
        {u = u} e reached same none_sorted none_left none_late =
      let sending : IsSending c (send_start d g) = record { fits = tt; pending_some = λ x h. cc } in
      let (t, run, bytes, done, sent) =
        send_loop-ends file c queues counts all pos clock fuel 0 (file.remaining d) (send_start d g)
          refl fit (omega (arith, room)) (λ h. absurd (some h)) sending enough in
      let k =
        send_loop-IsCounted file c queues counts all pos clock fuel 0 (file.remaining d)
          (send_start d g) t refl fit items (omega (arith, room)) (λ h. absurd (some h)) sending
          (record { numbers = tt; count = refl; few = omega arith; rows = tt }) run in
      let v = Reach-IsValid e reached in
      let there : Perm u.arrived (buffers_of t.sent) = rw run at same in
      let written : u.written ≡ buffers_of t.sent =
        IsSorted-eq_of_perm u.written (buffers_of t.sent) (v.ordered none_late).in_order
          (CountsFrom-IsStrict 0 t.sent k.numbers)
          (Perm.trans (settled-Perm u v none_sorted none_left) there) in
      record {
        final = t;
        ends = run;
        events =
            counted-IsEvent 0 c.evt_buf_size t.sent k.numbers k.rows sent.fits
              (omega (arith, ap length bytes, room));
        written_eq = written;
        contents_eq =
            Reach-Holds device e reached
            ∙ ap (λ (z : List Buffer). device.contents sink ++ payloads z) written
            ∙ ap (λ (z : List ℕ). device.contents sink ++ z) (payloads-buffers_of t.sent ∙ bytes);
      }
