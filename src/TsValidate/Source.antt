-- ===== src/TsValidate/Source.antt =====
-- `makeDataSource` of tsvalidate.cpp beside that of the sender.
use frib_e2sar.Base.{
  ℕ, List, ◌≡◌, refl, inl, inr, Option, none, some, Error, Result, ok, err, ◌>>=◌, if◌then◌else◌,
  Bool-cases, Option-cases,
}
use frib_e2sar.Receiver.{ring_proto, tcp_proto, file_proto, equals}
use frib_e2sar.Sender.Source.{Connections, SourceKind, dash}
use frib_e2sar.Sender.Source as Sending

module _ ⦃daq : Connections⦄ where
  -- A `CException` is turned into an `invalid_argument`.
  unfoldable pub ring_of : List ℕ → Result SourceKind
  ring_of uri = elim (daq.consume_from uri) [
    | none ↦ err Error.invalid_argument
    | some ring ↦ ok (SourceKind.ring_source ring none)
  ]

  unfoldable pub stream_of : List ℕ → Result SourceKind
  stream_of path =
      if daq.is_open path then ok (SourceKind.stream_source path) else err Error.runtime_error

  unfoldable pub source_for : List ℕ → List ℕ → Result SourceKind
  source_for uri proto =
      let file : Result SourceKind = (daq.get_path uri >>= stream_of) in
      if equals proto tcp_proto
      then ring_of uri
      else if equals proto ring_proto
      then ring_of uri
      else if equals proto file_proto
      then file
      else err Error.runtime_error

  unfoldable pub make_data_source : List ℕ → Result SourceKind
  make_data_source uri =
      let parsed : Result SourceKind = (daq.get_proto uri >>= source_for uri) in
      if equals uri dash then ok SourceKind.fd_source else parsed

-- What is opened, without the timeout of a ring, and nothing on an error.
abbrev pub opened : Result SourceKind → Option SourceKind
opened (err e) = none
opened (ok SourceKind.fd_source) = some SourceKind.fd_source
opened (ok (SourceKind.ring_source ring timeout)) = some (SourceKind.ring_source ring none)
opened (ok (SourceKind.stream_source path)) = some (SourceKind.stream_source path)

module _ ⦃daq : Connections⦄ where
  rings_agree :
      (timeout : ℕ) (uri : List ℕ) → opened (Sending.ring_of timeout uri) ≡ opened (ring_of uri)
  unfolding Sending.ring_of ring_of
  rings_agree timeout uri = elim (Option-cases (daq.consume_from uri)) [
    | inl fails ↦ rw (Sending.ring_of, ring_of, fails) refl
    | inr (ring, found) ↦ rw (Sending.ring_of, ring_of, found) refl
  ]

  streams_agree :
      (path : Result (List ℕ)) → opened (path >>= Sending.stream_of) ≡ opened (path >>= stream_of)
  unfolding Sending.stream_of stream_of
  streams_agree (err e) = refl
  streams_agree (ok path) = rw (daq.good_open path) (elim (Bool-cases (daq.is_open path)) [
    | inl there ↦ rw there refl
    | inr missing ↦ rw missing refl
  ])

  protocols_agree :
      (timeout : ℕ) (uri : List ℕ) (proto : Result (List ℕ))
      → opened (proto >>= Sending.source_for timeout uri) ≡ opened (proto >>= source_for uri)
  unfolding Sending.source_for source_for
  protocols_agree timeout uri (err e) = refl
  protocols_agree timeout uri (ok proto) = elim (Bool-cases (equals proto tcp_proto)) [
    | inl tcp ↦ rw tcp (rings_agree timeout uri)
    | inr x ↦ elim (Bool-cases (equals proto ring_proto)) [
      | inl ring ↦ rw (x, ring) (rings_agree timeout uri)
      | inr y ↦ elim (Bool-cases (equals proto file_proto)) [
        | inl file ↦ rw (x, y, file) (streams_agree (daq.get_path uri))
        | inr z ↦ rw (x, y, z) refl
      ]
    ]
  ]

  -- The sender and tsvalidate open the same source for every URI, whatever the sender's timeout on
  -- a ring, and they fail for the same URIs, if with different exceptions.
  pub make_data_source-agrees :
      (timeout : ℕ) (uri : List ℕ)
      → opened (Sending.make_data_source timeout uri) ≡ opened (make_data_source uri)
  unfolding Sending.make_data_source make_data_source
  make_data_source-agrees timeout uri = elim (Bool-cases (equals uri dash)) [
    | inl stdin ↦ rw stdin refl
    | inr other ↦ rw other (protocols_agree timeout uri (daq.get_proto uri))
  ]
