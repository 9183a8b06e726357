-- ===== src/Sender.antt =====
-- e2sarwf/Sender.h and Sender.cpp: packing ring items into event buffers, and the send loop.
pub mod Timestamp
pub mod Layout
pub mod Source
pub mod Packing
pub mod Laws
pub mod Session
pub mod Filling
pub mod Naming
pub mod Ending
pub mod Events
pub mod Stamps
pub mod Pooled
pub mod Sample
mod Tests
use frib_e2sar.Base.{
  ℕ, zero, suc, ◌+◌, ◌≤◌, ◌≡◌, List, [], ◌∷◌, ◌++◌, Option, none, some, Bool, true, false, not,
  ◌&&◌, ◌||◌, Error, Result, ok, err, ◌>>=◌, ltb, ◌==◌, if◌then◌else◌, length,
}
use frib_e2sar.Base.Words.{add_u64}
use frib_e2sar.RingItem.{RingFormat}
use Timestamp.{BodyFormat, get_first_timestamp}

-- `DataSource::getItem`: the bytes of the next ring item, or null at the end of the data or when
-- the read times out. The size of a `CRingItem` is the number of its bytes.
pub record DataSource (D : Type 0) : Type 0 where
  pub get_item : D → Option (List ℕ) × D

-- `Segmenter::addToSendQueue` with the data, the event number and the data id; false on an error.
pub record Segmenter (G : Type 0) : Type 0 where
  pub add_to_send_queue : List ℕ → ℕ → ℕ → G → Bool × G

-- The configuration of a `Sender`, from the variables map.
pub record Config : Type 0 where
  pub data_id : ℕ
  pub n_events : ℕ
  pub evt_buf_size : ℕ
  pub is_ddas : Bool
  pub use_ct : Bool
  pub sleep_usec : ℕ

-- What the send loop changes. `sent` has the buffers that were queued, with their event numbers,
-- the latest last; `held` counts the buffers taken from the pool that were not queued.
pub record Sender (D G : Type 0) : Type 0 where
  pub source : D
  pub segmenter : G
  pub pending : Option (List ℕ)
  pub total_bytes : ℕ
  pub send_count : ℕ
  pub sent : List (ℕ × List ℕ)
  pub held : ℕ

-- What `operator()` sets up before its loop.
abbrev pub send_start : {D G : Type 0} → D → G → Sender D G
send_start d g = record {
  source = d;
  segmenter = g;
  pending = none;
  total_bytes = 0;
  send_count = 0;
  sent = [];
  held = 0;
}

pub data ExitCode : Type 0 where
  exit_success exit_failure : ExitCode

-- A packed buffer, the item that did not fit, the source, and whether the source gave null.
pub record Packed (D : Type 0) : Type 0 where
  pub buffer : List ℕ
  pub pending : Option (List ℕ)
  pub source : D
  pub ended : Bool

module _ {D : Type 0} ⦃src : DataSource D⦄ where
  -- The pending item if there is one, else the next of the source.
  unfoldable pub next_item : Option (List ℕ) → D → Option (List ℕ) × D
  next_item (some item) d = (some item, d)
  next_item none d = src.get_item d

  -- `while (currentBytes < m_evtBufSize)`, with fuel.
  unfoldable pub pack : ℕ → ℕ → List ℕ → Option (List ℕ) → D → Result (Packed D)
  pack zero capacity buffer pending d = err Error.out_of_fuel
  pack (suc fuel) capacity buffer pending d =
      let (next, d') = next_item pending d in
      let fetched : Result (Packed D) = (elim next [
        | none ↦ ok (record { buffer = buffer; pending = none; source = d'; ended = true })
        | some item ↦
            let more = pack fuel capacity (buffer ++ item) none d' in
            if ltb capacity (length buffer + length item)
            then ok (record { buffer = buffer; pending = some item; source = d'; ended = false })
            else more
      ]) in
      let full : Result (Packed D) =
        ok (record { buffer = buffer; pending = pending; source = d; ended = false }) in
      if ltb (length buffer) capacity then fetched else full

module _ ⦃fmt : RingFormat⦄ ⦃body : BodyFormat⦄ where
  -- The event number: the event counter, or the first timestamp.
  unfoldable pub event_number : Config → ℕ → List ℕ → Result ℕ
  event_number c count buffer =
      let stamp = get_first_timestamp c.is_ddas buffer in if c.use_ct then ok count else stamp

module _ {D G : Type 0} ⦃seg : Segmenter G⦄ ⦃fmt : RingFormat⦄ ⦃body : BodyFormat⦄ where
  -- `addToSendQueue` and what follows it.
  unfoldable pub queue_buffer : Config → List ℕ → ℕ → Sender D G → ExitCode × Sender D G
  queue_buffer c buffer number s =
      let (queued, g) = seg.add_to_send_queue buffer number c.data_id s.segmenter in
      if queued
      then (
        ExitCode.exit_success,
        record s {
          segmenter = g;
          total_bytes = add_u64 s.total_bytes (length buffer);
          send_count = add_u64 s.send_count 1;
          sent = s.sent ++ (number, buffer) ∷ [];
        },
      )
      else (ExitCode.exit_failure, record s { segmenter = g; held = s.held + 1 })

  -- `sendBuffer`. An empty buffer is neither queued nor given back.
  unfoldable pub send_buffer : Config → List ℕ → Sender D G → Result (ExitCode × Sender D G)
  send_buffer c buffer s =
      let send =
        event_number c s.send_count buffer >>= λ number. ok (queue_buffer c buffer number s) in
      if length buffer == 0
      then ok (ExitCode.exit_success, record s { held = s.held + 1 })
      else send

module _ {D G : Type 0} ⦃src : DataSource D⦄ ⦃seg : Segmenter G⦄ ⦃fmt : RingFormat⦄
    ⦃body : BodyFormat⦄ where
  -- One round of the send loop, up to the clock: the new state and `done`.
  unfoldable pub send_round : Config → Sender D G → Result (Bool × Sender D G)
  send_round c s = do
    packed ← pack (suc c.evt_buf_size) c.evt_buf_size [] s.pending s.source
    let no_more = packed.ended && not (s.total_bytes == 0)
    r ← send_buffer c packed.buffer (record s { source = packed.source; pending = packed.pending })
    let limit = not (c.n_events == 0) && (r.1.send_count == c.n_events)
    ok (no_more || limit, r.1)

  -- The send loop, with fuel. `clock` gives `now` for each round, in microseconds. The sum with the
  -- sleep is taken to fit into the 64 bits of the clock, and memory for the event buffers to be
  -- there; `Pooled` has the loop with the BufferPool, which may run out of it.
  unfoldable pub send_loop : ℕ → Config → (ℕ → ℕ) → ℕ → Sender D G → Result (ExitCode × Sender D G)
  send_loop zero c clock i s = err Error.out_of_fuel
  send_loop (suc fuel) c clock i s = send_round c s >>= λ r.
      let again : Result (ExitCode × Sender D G) = send_loop fuel c clock (i + 1) r.1 in
      let next : Result (ExitCode × Sender D G) =
        if r.0 then ok (ExitCode.exit_success, r.1) else again in
      if ltb (clock i + c.sleep_usec) (clock i) then ok (ExitCode.exit_failure, r.1) else next
