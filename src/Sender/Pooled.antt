-- ===== src/Sender/Pooled.antt =====
-- The send loop with the `BufferPool` behind it: each round takes a buffer from the pool, and the
-- callback of the Segmenter gives a buffer back when it has been sent.
pub mod Owners
pub mod Idle
pub mod Oversize
mod Tests
use frib_e2sar.Base.{
  ℕ, suc, zero, ◌+◌, ◌≡◌, List, ◌∷◌, ◌++◌, Bool, Result, ok, err, ◌>>=◌, ◌==◌, if◌then◌else◌,
}
use frib_e2sar.RingItem.{RingFormat}
use frib_e2sar.BufferedSink.{Fifo}
use frib_e2sar.BufferPool.{Allocator, BufferPool, pop, push}
use frib_e2sar.Sender.{DataSource, Segmenter, Config, Sender, send_round}
use frib_e2sar.Sender.Timestamp.{BodyFormat}

-- The sender and its pool. `in_flight` has the buffers that the Segmenter was given and has not
-- yet called back for, `kept` those that no one gives back, and `returned` counts the callbacks.
pub record Pooled (D G Q P : Type 0) : Type 0 where
  pub sender : Sender D G
  pub pool : BufferPool Q P
  pub in_flight : List ℕ
  pub kept : List ℕ
  pub returned : ℕ

module _ {D G Q P : Type 0} where
  -- A round that has filled the buffer `evt_buf`. The Segmenter has it, or no one.
  unfoldable pub after_send : ℕ → BufferPool Q P → Sender D G → Pooled D G Q P → Pooled D G Q P
  after_send evt_buf pool t s =
      let sent : Pooled D G Q P = record s {
        sender = t;
        pool = pool;
        in_flight = evt_buf ∷ s.in_flight;
      } in
      let unsent : Pooled D G Q P = record s { sender = t; pool = pool; kept = evt_buf ∷ s.kept } in
      if t.held == s.sender.held then sent else unsent

module _ {D G Q P : Type 0} ⦃src : DataSource D⦄ ⦃seg : Segmenter G⦄ ⦃fmt : RingFormat⦄
    ⦃body : BodyFormat⦄ ⦃fifo : Fifo Q ℕ⦄ ⦃alloc : Allocator P⦄ where
  -- One round of the send loop, up to the clock: the buffer it used, `done`, and the new state.
  unfoldable pub pooled_round : Config → Pooled D G Q P → Result (ℕ × Bool × Pooled D G Q P)
  pooled_round c s = do
    popped ← pop s.pool
    r ← send_round c s.sender
    ok (popped.0, r.0, after_send popped.0 popped.1 r.1 s)

  -- So many rounds, or fewer where one is done.
  unfoldable pub pooled_rounds : ℕ → Config → Pooled D G Q P → Result (Bool × Pooled D G Q P)
  pooled_rounds zero c s = ok (Bool.false, s)
  pooled_rounds (suc n) c s = pooled_round c s >>= λ r.
      let again : Result (Bool × Pooled D G Q P) = pooled_rounds n c r.2 in
      if r.1 then ok (Bool.true, r.2) else again

module _ {D G Q P : Type 0} ⦃fifo : Fifo Q ℕ⦄ ⦃alloc : Allocator P⦄ where
  -- `senderCallback` and `releaseToPool`, where the buffers in flight are known to be these.
  unfoldable pub release_to_pool : ℕ → List ℕ → Pooled D G Q P → Pooled D G Q P
  release_to_pool p others s = record s {
    pool = push p s.pool;
    in_flight = others;
    returned = s.returned + 1;
  }
