-- ===== src/Pipeline/Stamped.antt =====
-- The way of a file whose events are numbered by their timestamps.
use mathlib.Core.List.{Perm}
use mathlib.Core.List.Perm
use frib_e2sar.Base.{
  ℕ, ◌^◌, ◌≤◌, ◌<◌, ◌≡◌, ◌≢◌, refl, ap, ◌∙◌, List, [], ◌++◌, Bool, false, Result, ok, length, All,
  flatten, arith,
}
use frib_e2sar.RingItem.{RingFormat}
use frib_e2sar.BufferedSink.{Buffer, Fifo, DataSink}
use frib_e2sar.BufferedSink.Threads.{System, Reach, Reach-IsValid}
use frib_e2sar.BufferedSink.Contents.{ByteSink, Reach-Holds, payloads}
use frib_e2sar.BufferedSink.Settling.{settled-Perm}
use frib_e2sar.BufferedSink.Unique.{IsStrict, IsSorted-eq_of_perm}
use frib_e2sar.Sender.{DataSource, Segmenter, Config, Sender, ExitCode, send_start, send_loop}
use frib_e2sar.Sender.Timestamp.{BodyFormat}
use frib_e2sar.Sender.Laws.{Queues, IsSending}
use frib_e2sar.Sender.Filling.{FileSource, Fit}
use frib_e2sar.Sender.Ending.{send_loop-ends_named}
use frib_e2sar.Sender.Stamps.{IsStamped, stamping}
use frib_e2sar.Pipeline.{buffers_of, events_of, payloads-buffers_of}

module _ {D G Q S : Type 0} ⦃src : DataSource D⦄ ⦃seg : Segmenter G⦄ ⦃fmt : RingFormat⦄
    ⦃body : BodyFormat⦄ ⦃fifo : Fifo Q Buffer⦄ ⦃dev : DataSink S⦄ (file : FileSource src)
    (device : ByteSink dev) (c : Config) where
  -- The loop has ended with success, its events have been written in the order in which they were
  -- sent, and the sink holds the bytes of the file behind what it held at first.
  pub record Written (result : Result (ExitCode × Sender D G)) (bytes : List ℕ) (sink : S)
      (u : System Q S) : Type 0 where
    pub final : Sender D G
    pub ends : result ≡ ok (ExitCode.exit_success, final)
    pub written_eq : u.written ≡ buffers_of final.sent
    pub contents_eq : device.contents u.polling.state.sink ≡ device.contents sink ++ bytes

  -- A file of whole ring items that fit into an event buffer and from each of which, if it is a
  -- physics item, a time can be read, is sent with the first timestamp of each event as its number,
  -- with no limit on the number of buffers and a Segmenter that takes every buffer. Then the send
  -- loop ends within one round more than there are items. Let the times of its events
  -- strictly increase, and let the receiver's threads run in any order with its input queue empty
  -- at first. In each state that they reach in which just the events of the loop have arrived, each
  -- once and in any order, both queues are empty and no warning of a late buffer was given, the
  -- events have been written in the order in which they were sent, and the sink holds what it held
  -- at first and behind it the bytes of the file.
  pub send_loop-Written :
      Queues seg
      → c.use_ct ≡ false
      → c.n_events ≡ 0
      → 1 ≤ c.evt_buf_size
      → (clock : ℕ → ℕ) (fuel : ℕ) (d : D) (g : G) → Fit c.evt_buf_size (file.remaining d)
      → All (IsStamped c.is_ddas) (file.remaining d)
      → length (flatten (file.remaining d)) < 2 ^ 64
      → file.remaining d ≢ []
      → length (file.remaining d) < fuel
      → IsStrict (events_of (send_loop fuel c clock 0 (send_start d g)))
      → {q : Q} {sink : S} {count_times : Bool} {now : ℕ} {u : System Q S} → fifo.contents q ≡ []
      → Reach q sink count_times now u
      → Perm u.arrived (events_of (send_loop fuel c clock 0 (send_start d g)))
      → u.polling.state.sorted_queue ≡ []
      → fifo.contents u.polling.state.input_queue ≡ []
      → u.polling.state.late ≡ []
      → Written (send_loop fuel c clock 0 (send_start d g)) (flatten (file.remaining d)) sink u
  send_loop-Written queues stamps all pos clock fuel d g fit stamped room some enough strict
        {sink = sink} {u = u} e reached same none_sorted none_left none_late =
      let sending : IsSending c (send_start d g) = record { fits = tt; pending_some = λ x h. cc } in
      let (t, run, bytes, done, sent) =
        send_loop-ends_named file c (stamping c stamps) queues all pos clock fuel 0
          (file.remaining d) (send_start d g) refl fit stamped (omega (arith, room))
          (λ h. absurd (some h)) sending enough in
      let v = Reach-IsValid e reached in
      let there : Perm u.arrived (buffers_of t.sent) = rw run at same in
      let later : IsStrict (buffers_of t.sent) = rw run at strict in
      let written : u.written ≡ buffers_of t.sent =
        IsSorted-eq_of_perm u.written (buffers_of t.sent) (v.ordered none_late).in_order later
          (Perm.trans (settled-Perm u v none_sorted none_left) there) in
      record {
        final = t;
        ends = run;
        written_eq = written;
        contents_eq =
            Reach-Holds device e reached
            ∙ ap (λ (z : List Buffer). device.contents sink ++ payloads z) written
            ∙ ap (λ (z : List ℕ). device.contents sink ++ z) (payloads-buffers_of t.sent ∙ bytes);
      }
