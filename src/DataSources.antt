-- ===== src/DataSources.antt =====
-- e2sarwf/FdDataSource.cpp, RingDataSource.cpp and StreamDataSource.cpp: the data sources behind
-- `getItem`, each with the item factory of NSCLDAQ for its format.
use frib_e2sar.Base.{ℕ, ◌-◌, ◌^◌, List, Option, none, some}
use frib_e2sar.Sender.Source.{SourceKind}

-- The three `getRingItem` of a `RingItemFactoryBase`: from a file descriptor, from a ring with a
-- timeout, and from an open stream. `W` is the state of all of them.
pub record RingItemFactory (W : Type 0) : Type 0 where
  pub from_fd : ℕ → W → Option (List ℕ) × W
  pub from_ring : ℕ → ℕ → W → Option (List ℕ) × W
  pub from_stream : List ℕ → W → Option (List ℕ) × W

-- `STDIN_FILENO`, and `ULONG_MAX`, the timeout of a ring that is not given one.
abbrev pub stdin_fileno : ℕ
stdin_fileno = 0

abbrev pub no_timeout : ℕ
no_timeout = 2 ^ 64 - 1

module _ {W : Type 0} ⦃factory : RingItemFactory W⦄ where
  -- `getItem` of the three sources.
  unfoldable pub fd_get_item : ℕ → W → Option (List ℕ) × W
  fd_get_item fd w = factory.from_fd fd w

  unfoldable pub ring_get_item : ℕ → Option ℕ → W → Option (List ℕ) × W
  ring_get_item ring none w = factory.from_ring ring no_timeout w
  ring_get_item ring (some timeout) w = factory.from_ring ring timeout w

  unfoldable pub stream_get_item : List ℕ → W → Option (List ℕ) × W
  stream_get_item path w = factory.from_stream path w

  -- The virtual `getItem`.
  unfoldable pub get_item : SourceKind → W → Option (List ℕ) × W
  get_item SourceKind.fd_source w = fd_get_item stdin_fileno w
  get_item (SourceKind.ring_source ring timeout) w = ring_get_item ring timeout w
  get_item (SourceKind.stream_source path) w = stream_get_item path w
