-- ===== src/Sinks.antt =====
-- e2sarwf/RingDataSink.cpp and FileDataSink.cpp: the two sinks behind a `BufferedSink`.
pub mod Writing
mod Tests
use frib_e2sar.Base.{
  ℕ, zero, suc, ◌+◌, ◌≤◌, ◌<◌, ◌≡◌, List, [], ◌∷◌, ◌++◌, map, flatten, Option, none, some, Bool,
  true, false, not, ◌&&◌, ◌==◌, ltb, ◌||◌, Error, Result, ok, err, ◌>>=◌, if◌then◌else◌,
}
use frib_e2sar.RingItem.{Iovec, bytes}

-- NSCLDAQ's ring buffer as its producer sees it: a put adds a block, or times out. `waits` bounds
-- how often it times out before the next success.
pub record RingBuffer (K : Type 0) : Type 0 where
  pub blocks : K → List (List ℕ)
  pub waits : K → ℕ
  pub put : List ℕ → K → Bool × K
  pub put_done : (b : List ℕ) (k : K) → (put b k).0 ≡ true → blocks (put b k).1 ≡ blocks k ++ b ∷ []
  pub put_timeout_blocks :
      (b : List ℕ) (k : K) → (put b k).0 ≡ false → blocks (put b k).1 ≡ blocks k
  pub put_timeout_waits : (b : List ℕ) (k : K) → (put b k).0 ≡ false → waits (put b k).1 < waits k

module _ {K : Type 0} ⦃ring : RingBuffer K⦄ where
  -- `while(!m_pRing->put(pData, nBytes))`, with fuel.
  unfoldable pub ring_put : ℕ → List ℕ → K → Result K
  ring_put zero b k = err Error.out_of_fuel
  ring_put (suc fuel) b k =
      let (done, k') = ring.put b k in
      let again = ring_put fuel b k' in if done then ok k' else again

  -- `RingDataSink::putItem`, on the bytes of the item.
  unfoldable pub ring_put_item : ℕ → List ℕ → K → Result K
  ring_put_item fuel item k = ring_put fuel item k

  -- `RingDataSink::putV`.
  unfoldable pub ring_put_v : ℕ → List Iovec → K → Result K
  ring_put_v fuel [] k = ok k
  ring_put_v fuel (v ∷ vs) k = ring_put fuel (bytes v) k >>= ring_put_v fuel vs

-- NSCLDAQ's `CRingBuffer` by name: whether there is one, and the two ways to become its producer,
-- of which the second may give null.
pub record Rings (K : Type 0) : Type 0 where
  pub is_ring : List ℕ → Bool
  pub produce : List ℕ → Result K
  pub create_and_produce : List ℕ → Result (Option K)

module _ {K : Type 0} ⦃rings : Rings K⦄ where
  unfoldable pub open_ring : List ℕ → Result K
  open_ring name =
      let created : Result K =
        (rings.create_and_produce name >>= λ ring. elim ring [
          | none ↦ err Error.runtime_error
          | some k ↦ ok k
        ]) in
      if rings.is_ring name then rings.produce name else created

-- The files: `open` for writing, the flags O_WRONLY and O_RDWR that `fcntl` finds,
-- `writeData` and `writeDataVUnlimited`, which write all or throw an int, `fsync`, and `close`,
-- after which the descriptor is not open.
pub record Files (W : Type 0) : Type 0 where
  pub file_bytes : ℕ → W → List ℕ
  pub open_file : List ℕ → W → Option ℕ × W
  pub status : ℕ → W → Option (Bool × Bool)
  pub write_v : ℕ → List Iovec → W → Option W
  pub write : ℕ → List ℕ → W → Option W
  pub sync : ℕ → W → Bool × W
  pub close : ℕ → W → W
  pub write_bytes :
      (fd : ℕ) (b : List ℕ) (w w' : W)
      → write fd b w ≡ some w'
      → file_bytes fd w' ≡ file_bytes fd w ++ b
  pub write_v_bytes :
      (fd : ℕ) (vs : List Iovec) (w w' : W)
      → write_v fd vs w ≡ some w'
      → file_bytes fd w' ≡ file_bytes fd w ++ flatten (map bytes vs)

module _ {W : Type 0} ⦃files : Files W⦄ where
  unfoldable pub is_writable : ℕ → W → Result Bool
  is_writable fd w = elim (files.status fd w) [
    | none ↦ err Error.errno_exception
    | some flags ↦ ok (flags.0 || flags.1)
  ]

  -- The check at the end of the constructors, which throw a string.
  unfoldable pub checked : ℕ → W → Result (ℕ × W)
  checked fd w =
      is_writable fd w >>= λ writable. if writable then ok (fd, w) else err Error.thrown_string

  -- The constructor for a file name.
  unfoldable pub open_sink : List ℕ → W → Result (ℕ × W)
  open_sink name w =
      let (fd, w') = files.open_file name w in
      elim fd [ none ↦ err Error.errno_exception | some fd ↦ checked fd w' ]

  -- `FileDataSink::putV`.
  unfoldable pub file_put_v : ℕ → List Iovec → W → Result W
  file_put_v fd vs w = elim (files.write_v fd vs w) [
    | none ↦ err Error.errno_exception
    | some w' ↦ ok w'
  ]

  -- `FileDataSink::put`, and `putItem` on the bytes of the item.
  unfoldable pub file_put : ℕ → List ℕ → W → Result W
  file_put fd b w = elim (files.write fd b w) [ none ↦ err Error.errno_exception | some w' ↦ ok w' ]

  unfoldable pub file_put_item : ℕ → List ℕ → W → Result W
  file_put_item fd item w = file_put fd item w

  -- `FileDataSink::flush`.
  unfoldable pub flush : ℕ → W → Result W
  flush fd w =
      let (synced, w') = files.sync fd w in if synced then ok w' else err Error.errno_exception

  -- The destructor: 1 is `STDOUT_FILENO`. A descriptor of a sink is no `-1`.
  unfoldable pub close_sink : ℕ → W → W
  close_sink fd w = if not (fd == 1) && ltb 0 fd then files.close fd w else w
