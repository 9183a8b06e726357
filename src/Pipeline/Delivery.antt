-- ===== src/Pipeline/Delivery.antt =====
-- The way of a file whose events all arrive before the output thread looks at them.
use mathlib.Core.List.{Perm}
use mathlib.Core.List.Perm
use mathlib.Core.Path.{subst}
use frib_e2sar.Base.{
  ℕ, suc, ◌+◌, ◌*◌, ◌^◌, ◌≤◌, ◌<◌, ◌≡◌, ◌≢◌, ◌∙◌, [], Bool, true, ok, length, All, flatten, arith,
}
use frib_e2sar.RingItem.{RingFormat}
use frib_e2sar.RingItem.Laws.{IsItem}
use frib_e2sar.BufferedSink.{Buffer, Fifo, DataSink, Puts, batch_size}
use frib_e2sar.BufferedSink.Threads.{System, Reach, Reach-IsValid}
use frib_e2sar.BufferedSink.Contents.{ByteSink}
use frib_e2sar.BufferedSink.Settling.{poll_rounds, input_of, sorted_of, Reach-Settled, settled-Perm}
use frib_e2sar.BufferedSink.OneBatch.{late_of, first_batch-late}
use frib_e2sar.Sender.{DataSource, Segmenter, Config, send_start, send_loop}
use frib_e2sar.Sender.Timestamp.{BodyFormat}
use frib_e2sar.Sender.Laws.{Queues}
use frib_e2sar.Sender.Filling.{FileSource, Fit}
use frib_e2sar.Pipeline.{events_of, Copied, send_loop-Copied}

module _ {D G Q S : Type 0} ⦃src : DataSource D⦄ ⦃seg : Segmenter G⦄ ⦃fmt : RingFormat⦄
    ⦃body : BodyFormat⦄ ⦃fifo : Fifo Q Buffer⦄ ⦃dev : DataSink S⦄ (file : FileSource src)
    (device : ByteSink dev) (c : Config) where
  -- A file is delivered. It has whole ring items, at least one and below 2^64 bytes, that fit into
  -- an event buffer, and is read with no limit on the number of buffers, with the event counter as
  -- the event number and a Segmenter that takes every buffer; the sink takes its data. The send
  -- loop ends within one round more than there are items. Let just its events have arrived, each
  -- once and in any order, at a time when the sink has emitted nothing and warned of nothing, and
  -- at most one batch of them in the input queue. If the first round of `poll` takes them no later
  -- than `latest`, and the clock of all later rounds is behind that by more than the timeout, then
  -- one round more than there are buffers that wait write the events in the order in which they
  -- were sent, and the sink holds what it held at first and behind it the bytes of the file.
  pub send_loop-Delivered :
      Queues seg
      → c.use_ct ≡ true
      → c.n_events ≡ 0
      → 1 ≤ c.evt_buf_size
      → (clock : ℕ → ℕ) (fuel : ℕ) (d : D) (g : G) → Fit c.evt_buf_size (file.remaining d)
      → All IsItem (file.remaining d)
      → length (flatten (file.remaining d)) < 2 ^ 64
      → file.remaining d ≢ []
      → length (file.remaining d) < fuel
      → Puts dev
      → {q : Q} {sink : S} {count_times : Bool} {now : ℕ} {u : System Q S} → fifo.contents q ≡ []
      → Reach q sink count_times now u
      → Perm u.arrived (events_of (send_loop fuel c clock 0 (send_start d g)))
      → length (input_of u) ≤ batch_size
      → u.polling.state.last_emitted ≡ 0
      → late_of u ≡ []
      → (readings : ℕ → ℕ × ℕ) (latest waiting : ℕ) → ((j : ℕ) → j < 1 → (readings j).0 ≤ latest)
      → ((j : ℕ) → 1 ≤ j → latest + u.polling.state.timeout_ms * 10 ^ 6 < (readings j).1)
      → u.polling.last_data_time ≤ latest
      → length (sorted_of u) + length (input_of u) ≤ waiting
      → (v : System Q S) × (poll_rounds readings (suc waiting) 0 u ≡ ok v)
        × Copied file device c
            (send_loop fuel c clock 0 (send_start d g))
            (flatten (file.remaining d))
            sink
            v
  send_loop-Delivered queues counts all pos clock fuel d g fit items room some enough puts {q}
        {sink} {count_times} {now} {u} e reached same few unwritten none_late readings latest
        waiting early late last rest =
      let (v, run, none_sorted, none_left, written) =
        Reach-Settled e reached puts readings 1 latest waiting early late last (omega (arith, few))
          rest in
      let run' : poll_rounds readings (suc waiting) 0 u ≡ ok v =
        subst (λ (n : ℕ). poll_rounds readings n 0 u ≡ ok v) (omega arith) run in
      let (still, there) = first_batch-late e readings waiting u v run' reached few unwritten in
      let arrived : Perm v.arrived u.arrived =
        Perm.trans (Perm.symm (settled-Perm v (Reach-IsValid e there) none_sorted none_left))
          written in
      (
        v,
        run',
        send_loop-Copied file device c queues counts all pos clock fuel d g fit items room some
            enough e there (Perm.trans arrived same) none_sorted none_left (still ∙ none_late),
      )
