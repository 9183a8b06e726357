-- ===== src/Receiver.antt =====
-- e2sarwf/Receiver.cpp: the configuration of the sink and the dequeue threads that feed it, and
-- `BufferedSink::makeDataSink`, which reads the URI that the receiver makes.
pub mod Delivery
pub mod Uri
pub mod Session
pub mod Stats
pub mod Life
pub mod Window
pub mod Sample
mod Tests
use frib_e2sar.Base.{
  ℕ, zero, suc, ◌+◌, ◌-◌, ◌*◌, ◌/◌, ◌%◌, ◌^◌, ◌||◌, ◌≡◌, ◌≢◌, List, [], ◌∷◌, ◌++◌, Option, none,
  some, Bool, true, false, not, ◌&&◌, Error, Result, ok, err, ◌>>=◌, ltb, leb, ◌==◌, if◌then◌else◌,
  length, All,
}
use frib_e2sar.Base.Words.{add_u64}
use frib_e2sar.BufferedSink.{Buffer, Fifo, BufferedSink, set_timeout, set_window, add_data}

-- What the variables map says of the sink.
pub record SinkOptions : Type 0 where
  pub use_ct : Bool
  pub sink_timeout : Option ℕ
  pub sink_window : Option ℕ

-- A natural number as the nearest `double`, which has 53 bits, and of two the even one: the
-- multiples of 2 ^ shift are tried with rising shift.
unfoldable pub round_at : ℕ → ℕ → ℕ
round_at shift n =
    let q = n / 2 ^ shift in
    let r = n % 2 ^ shift in
    if ltb (2 ^ shift) (2 * r) || (2 * r == 2 ^ shift && q % 2 == 1)
    then (q + 1) * 2 ^ shift
    else q * 2 ^ shift

unfoldable pub nearest : ℕ → ℕ → ℕ → ℕ
nearest zero shift n = n
nearest (suc fuel) shift n =
    let rest = nearest fuel (shift + 1) n in
    if ltb n (2 ^ 53 * 2 ^ shift) then round_at shift n else rest

-- Numbers below 2 ^ 64 * 10 ^ 6 need no shift above 31.
unfoldable pub to_double : ℕ → ℕ
to_double n = let rounded = nearest 31 1 n in if ltb n (2 ^ 53) then n else rounded

-- `size_t window = ...as<size_t>()*1e6`; the cast of a `double` from 2^64 on is undefined.
unfoldable pub window_ns : ℕ → Result ℕ
window_ns given =
    let product = to_double (to_double given * 10 ^ 6) in
    if ltb product (2 ^ 64) then ok product else err Error.out_of_bounds

module _ {Q S : Type 0} where
  -- The constructor's configuration of the sink. The `window` of the inner block is another
  -- variable.
  unfoldable pub configure_window : Bool → Option ℕ → BufferedSink Q S → Result (BufferedSink Q S)
  configure_window use_ct none s = ok s
  configure_window use_ct (some given) s = do
    window ← window_ns given
    let shadowed = if use_ct then given else window
    ok (set_window window s)

  unfoldable pub configure_timeout : Option ℕ → BufferedSink Q S → BufferedSink Q S
  configure_timeout none s = s
  configure_timeout (some ms) s = set_timeout ms s

  unfoldable pub configure_sink : SinkOptions → BufferedSink Q S → Result (BufferedSink Q S)
  configure_sink o s = configure_window o.use_ct o.sink_window (configure_timeout o.sink_timeout s)

-- "ring", "tcp", "file", "://", "/" and ".evt".
abbrev pub ring_proto : List ℕ
ring_proto = 114 ∷ 105 ∷ 110 ∷ 103 ∷ []

abbrev pub tcp_proto : List ℕ
tcp_proto = 116 ∷ 99 ∷ 112 ∷ []

abbrev pub file_proto : List ℕ
file_proto = 102 ∷ 105 ∷ 108 ∷ 101 ∷ []

abbrev pub authority_mark : List ℕ
authority_mark = 58 ∷ 47 ∷ 47 ∷ []

abbrev pub evt_suffix : List ℕ
evt_suffix = 46 ∷ 101 ∷ 118 ∷ 116 ∷ []

unfoldable pub equals : List ℕ → List ℕ → Bool
equals [] [] = true
equals [] (y ∷ ys) = false
equals (x ∷ xs) [] = false
equals (x ∷ xs) (y ∷ ys) = let rest = equals xs ys in if x == y then rest else false

-- `sprintf` into the 1024 bytes of `uri`, with the closing 0.
unfoldable pub print_uri : List ℕ → Result (List ℕ)
print_uri text = if leb 1024 (length text) then err Error.out_of_bounds else ok text

-- The names from the variables map.
pub record SinkNames : Type 0 where
  pub proto : List ℕ
  pub host_name : List ℕ
  pub base_path : List ℕ
  pub sink_name : List ℕ

-- `makeSinkUri`. With any other protocol the buffer is read without having been written.
unfoldable pub make_sink_uri : SinkNames → Result (List ℕ)
make_sink_uri n =
    if equals n.proto ring_proto
    then print_uri (n.proto ++ (authority_mark ++ (n.host_name ++ 47 ∷ n.sink_name)))
    else if equals n.proto tcp_proto
    then print_uri (n.proto ++ (authority_mark ++ (n.host_name ++ 47 ∷ n.sink_name)))
    else if equals n.proto file_proto
    then print_uri
        (n.proto ++ (authority_mark ++ (n.base_path ++ 47 ∷ (n.sink_name ++ evt_suffix))))
    else err Error.out_of_bounds

-- NSCLDAQ's `URL`, whose constructor throws if the text is malformed: the protocol and the path.
-- The protocol is what stands before "://".
pub record Url : Type 0 where
  pub parse_url : List ℕ → Result (List ℕ × List ℕ)
  pub proto_before :
      (p rest proto path : List ℕ)
      → All (λ (c : ℕ). c ≢ 58) p
      → parse_url (p ++ (authority_mark ++ rest)) ≡ ok (proto, path)
      → proto ≡ p

pub data SinkKind : Type 0 where
  ring_sink file_sink : List ℕ → SinkKind

-- The choice of the sink in `BufferedSink::makeDataSink`.
unfoldable pub sink_for : List ℕ → List ℕ → Result SinkKind
sink_for proto path =
    if equals proto tcp_proto
    then ok (SinkKind.ring_sink path)
    else if equals proto ring_proto
    then ok (SinkKind.ring_sink path)
    else if equals proto file_proto
    then ok (SinkKind.file_sink path)
    else err Error.runtime_error

-- `BufferedSink::makeDataSink`, up to the construction of the sink for the path.
unfoldable pub make_data_sink : ⦃url : Url⦄ → List ℕ → Result SinkKind
make_data_sink ⦃url⦄ uri = do parsed ← url.parse_url uri; sink_for parsed.0 parsed.1

-- `getEvent`: an error, an empty queue, or an event number and the data.
pub data Reception : Type 0 where
  failed empty : Reception
  event : ℕ → List ℕ → Reception

pub record Reassembler (R : Type 0) : Type 0 where
  pub get_event : R → Reception × R

-- The thread's locals and what it shares.
pub record Receiving (R Q S : Type 0) : Type 0 where
  pub reassembler : R
  pub sink : BufferedSink Q S
  pub total_bytes : ℕ

-- Whether the thread goes on, has been interrupted and returns 0, or returns 1.
pub data Status : Type 0 where
  running interrupted gave_up : Status

module _ {R Q S : Type 0} ⦃fifo : Fifo Q Buffer⦄ ⦃reasm : Reassembler R⦄ where
  -- What follows the check of the duration. The size that comes with the data is theirs.
  unfoldable pub hand_off : Reception → Receiving R Q S → Status × Receiving R Q S
  hand_off Reception.failed s = (Status.gave_up, s)
  hand_off Reception.empty s = (Status.running, s)
  hand_off (Reception.event number data_bytes) s = (
    Status.running,
    record s {
      sink = add_data number data_bytes (length data_bytes) s.sink;
      total_bytes = add_u64 s.total_bytes (length data_bytes);
    },
  )

  -- A round of the loop of `receiveEvents`: whether there is an interruption at its start, the
  -- duration in seconds, and the ns since the start of the thread.
  unfoldable pub receive_round : Bool → ℕ → ℕ → Receiving R Q S → Status × Receiving R Q S
  receive_round interrupt duration elapsed s =
      let (rv, r) = reasm.get_event s.reassembler in
      let late = not (duration == 0) && ltb (duration * 10 ^ 9) elapsed in
      let taken : Receiving R Q S = record s { reassembler = r } in
      if interrupt
      then (Status.interrupted, s)
      else if late
      then (Status.interrupted, taken)
      else hand_off rv taken

  -- So many rounds of the loop, from the round `i` on.
  unfoldable pub receive_loop :
      ℕ → (ℕ → Bool) → ℕ → (ℕ → ℕ) → ℕ → Receiving R Q S → Status × Receiving R Q S
  receive_loop zero interrupt duration elapsed i s = (Status.running, s)
  receive_loop (suc rounds) interrupt duration elapsed i s =
      let (status, t) = receive_round (interrupt i) duration (elapsed i) s in
      let again = receive_loop rounds interrupt duration elapsed (i + 1) t in
      elim status [
        | Status.running ↦ again
        | Status.interrupted ↦ (Status.interrupted, t)
        | Status.gave_up ↦ (Status.gave_up, t)
      ]
