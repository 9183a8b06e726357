-- ===== src/BufferPool.antt =====
-- e2sarwf/BufferPool.h and BufferPool.cpp: event buffers on a lock-free queue before an allocator.
pub mod Accounts
pub mod Sample
mod Tests
use mathlib.Core.List.{Perm, Mem}
use frib_e2sar.Base.{
  ℕ, zero, suc, ◌≡◌, List, [], ◌∷◌, ◌++◌, Option, none, some, Bool, true, false, Error, Result, ok,
  err, ◌>>=◌, if◌then◌else◌,
}
use frib_e2sar.BufferedSink.{Fifo}

-- `boost::pool`. A buffer is the number that stands for its address, and `live` has the buffers
-- that are allocated.
pub record Allocator (P : Type 0) : Type 0 where
  pub live : P → List ℕ
  pub malloc : P → Option ℕ × P
  pub free : ℕ → P → P
  pub malloc_some : (p p' : P) (b : ℕ) → malloc p ≡ (some b, p') → Perm (b ∷ live p) (live p')
  pub free_live : (p : P) (b : ℕ) → Mem b (live p) → Perm (b ∷ live (free b p)) (live p)
  pub purge_memory : P → P
  pub purge_live : (p : P) → live (purge_memory p) ≡ []

-- `RETRY_ATTEMPTS`.
abbrev pub retry_attempts : ℕ
retry_attempts = 5

pub record BufferPool (Q P : Type 0) : Type 0 where
  pub queue : Q
  pub pool : P

module _ {Q P : Type 0} ⦃fifo : Fifo Q ℕ⦄ ⦃alloc : Allocator P⦄ where
  -- `pop` on an empty queue.
  unfoldable pub malloc_buffer : BufferPool Q P → Result (ℕ × BufferPool Q P)
  malloc_buffer s =
      let (got, p) = alloc.malloc s.pool in
      elim got [ none ↦ err Error.bad_alloc | some buffer ↦ ok (buffer, record s { pool = p }) ]

  unfoldable pub pop : BufferPool Q P → Result (ℕ × BufferPool Q P)
  pop s = elim (fifo.pop s.queue) [
    | none ↦ malloc_buffer s
    | some (buffer, q) ↦ ok (buffer, record s { queue = q })
  ]

  -- So many attempts to push, and then the memory is freed.
  unfoldable pub push_retry : ℕ → ℕ → BufferPool Q P → BufferPool Q P
  push_retry zero data_pointer s = record s { pool = alloc.free data_pointer s.pool }
  push_retry (suc attempts) data_pointer s =
      let (stored, q) = fifo.push data_pointer s.queue in
      let pushed : BufferPool Q P = record s { queue = q } in
      let again = push_retry attempts data_pointer pushed in if stored then pushed else again

  unfoldable pub push : ℕ → BufferPool Q P → BufferPool Q P
  push data_pointer s = push_retry retry_attempts data_pointer s

  -- `while(m_queue.pop(buffer)) m_pool.free(buffer)`, with fuel.
  unfoldable pub release_queue : ℕ → BufferPool Q P → Result (BufferPool Q P)
  release_queue zero s = err Error.out_of_fuel
  release_queue (suc fuel) s = elim (fifo.pop s.queue) [
    | none ↦ ok s
    | some (buffer, q) ↦ release_queue fuel (record { queue = q; pool = alloc.free buffer s.pool })
  ]

  -- The destructor.
  unfoldable pub destroy : ℕ → BufferPool Q P → Result (BufferPool Q P)
  destroy fuel s = release_queue fuel s >>= λ t. ok (record t { pool = alloc.purge_memory t.pool })
