-- ===== src/Sender/Source.antt =====
-- `Sender::makeDataSource`: the source of ring items for a URI.
use frib_e2sar.Base.{
  ℕ, List, [], ◌∷◌, ◌≡◌, Option, none, some, Bool, Error, Result, ok, err, ◌>>=◌, if◌then◌else◌,
}
use frib_e2sar.Receiver.{ring_proto, tcp_proto, file_proto, equals}

-- NSCLDAQ's `URL` and `daqConsumeFrom`, which gives a ring buffer or throws, and a file stream
-- that was just constructed, which is good exactly if it could be opened.
pub record Connections : Type 0 where
  pub get_proto : List ℕ → Result (List ℕ)
  pub get_path : List ℕ → Result (List ℕ)
  pub consume_from : List ℕ → Option ℕ
  pub is_good : List ℕ → Bool
  pub is_open : List ℕ → Bool
  pub good_open : (path : List ℕ) → is_good path ≡ is_open path

-- The three kinds of `DataSource`: on standard input, on a ring, with a timeout if one is given,
-- and on a file.
pub data SourceKind : Type 0 where
  fd_source : SourceKind
  ring_source : ℕ → Option ℕ → SourceKind
  stream_source : List ℕ → SourceKind

-- "-".
abbrev pub dash : List ℕ
dash = 45 ∷ []

module _ ⦃daq : Connections⦄ where
  unfoldable pub ring_of : ℕ → List ℕ → Result SourceKind
  ring_of timeout uri = elim (daq.consume_from uri) [
    | none ↦ err Error.daq_exception
    | some ring ↦ ok (SourceKind.ring_source ring (some timeout))
  ]

  unfoldable pub stream_of : List ℕ → Result SourceKind
  stream_of path =
      if daq.is_good path then ok (SourceKind.stream_source path) else err Error.invalid_argument

  -- The branches on the protocol.
  unfoldable pub source_for : ℕ → List ℕ → List ℕ → Result SourceKind
  source_for timeout uri proto =
      let file : Result SourceKind = (daq.get_path uri >>= stream_of) in
      if equals proto tcp_proto
      then ring_of timeout uri
      else if equals proto ring_proto
      then ring_of timeout uri
      else if equals proto file_proto
      then file
      else err Error.invalid_argument

  -- `makeDataSource` of a sender with the given timeout.
  unfoldable pub make_data_source : ℕ → List ℕ → Result SourceKind
  make_data_source timeout uri =
      let parsed : Result SourceKind = (daq.get_proto uri >>= source_for timeout uri) in
      if equals uri dash then ok SourceKind.fd_source else parsed
