-- ===== src/EvbFilter.antt =====
-- utils/evbfilter/evbfilter.cpp: the filter that strips the headers of the second event-building
-- stage from built physics events.
pub mod Layout
pub mod Strip
pub mod Loop
pub mod Program
mod Tests
use frib_e2sar.Base.{
  ℕ, zero, suc, ◌+◌, ◌*◌, ◌/◌, ◌≡◌, List, [], ◌∷◌, ◌++◌, Bool, true, false, not, ◌&&◌, Error,
  Result, ok, err, ◌>>=◌, ltb, ◌==◌, if◌then◌else◌, length, take, drop,
}
use frib_e2sar.Base.Words.{sub_u64}
use frib_e2sar.RingItem.{RingFormat, header_bytes, body_header_bytes, item_size, advance}

-- `sizeof(FragmentHeader)`.
abbrev pub fragment_header_bytes : ℕ
fragment_header_bytes = 20

-- `sizeof(uint32_t)`.
abbrev pub word_bytes : ℕ
word_bytes = 4

-- `io::readData` on standard input: as many of the bytes asked for as are still to come.
pub record Input (I : Type 0) : Type 0 where
  pub remaining : I → List ℕ
  pub read : ℕ → I → List ℕ × I
  pub read_bytes : (n : ℕ) (i : I) → (read n i).0 ≡ take n (remaining i)
  pub read_rest : (n : ℕ) (i : I) → remaining (read n i).1 ≡ drop n (remaining i)

-- `*p` for a `uint32_t*` on a little-endian machine.
abbrev pub word_value : List ℕ → ℕ
word_value (a ∷ b ∷ c ∷ d ∷ _) = a + 256 * b + 65536 * c + 16777216 * d
word_value _ = 0

unfoldable pub read_word : List ℕ → Result ℕ
read_word p = if ltb (length p) word_bytes then err Error.out_of_bounds else ok (word_value p)

-- `p += n / sizeof(uint32_t)`.
unfoldable pub advance_words : ℕ → List ℕ → Result (List ℕ)
advance_words n p = advance (n / word_bytes * word_bytes) p

-- The bytes that `outputter.put(p, n)` passes on.
unfoldable pub put : List ℕ → ℕ → Result (List ℕ)
put p n = if ltb (length p) n then err Error.out_of_bounds else ok (take n p)

-- `if (bodyHdrSize = sizeof(BodyHeader))`: under `debug` the test is an assignment.
unfoldable pub debug_size : Bool → ℕ → ℕ
debug_size debug n = if debug then body_header_bytes else n

-- The branch for a `PHYSICS_EVENT`: `p` is the payload and `n` is `dataBytes`.
unfoldable pub strip : Bool → List ℕ → ℕ → Result (List ℕ)
strip debug p n = do
  built ← read_word p
  event ← advance_words built p
  fragment ← advance word_bytes event
  item ← advance fragment_header_bytes fragment
  header ← put item header_bytes
  body ← advance header_bytes item
  size ← read_word body
  body_header ← put body (debug_size debug size)
  rest ← advance_words (debug_size debug size) body
  last_part ← put rest (
      sub_u64
        (sub_u64 (sub_u64 (sub_u64 (sub_u64 n built) word_bytes) fragment_header_bytes)
          header_bytes)
        (debug_size debug size))
  ok (header ++ (body_header ++ last_part))

-- What is kept between items, with all that was put out.
pub record Filter (I : Type 0) : Type 0 where
  pub input : I
  pub alloc_bytes : ℕ
  pub output : List ℕ

module _ ⦃fmt : RingFormat⦄ where
  -- The output of an item with the given header and payload.
  unfoldable pub filtered : Bool → List ℕ → List ℕ → ℕ → Result (List ℕ)
  filtered debug header p n =
      let whole : Result (List ℕ) = (put p n >>= λ rest. ok (header ++ rest)) in
      if fmt.s_type header == fmt.physics_event then strip debug p n else whole

-- The buffer grows if it is too small. `can_alloc` tells whether `malloc` has the space.
unfoldable pub grow : (ℕ → Bool) → ℕ → ℕ → Result ℕ
grow can_alloc n have =
    if ltb have n then (if can_alloc n then ok n else err Error.runtime_error) else ok have

module _ {I : Type 0} ⦃io : Input I⦄ ⦃fmt : RingFormat⦄ (can_alloc : ℕ → Bool) (debug : Bool) where
  -- The part of `filterItem` behind the header: allocate, read the payload, and put it out.
  unfoldable pub filter_payload : List ℕ → I → Filter I → Result (ℕ × Filter I)
  filter_payload header i s = do
    size ← item_size header
    space ← grow can_alloc (sub_u64 size header_bytes) s.alloc_bytes
    let (payload, j) = io.read (sub_u64 size header_bytes) i
    let kept : Filter I = record { input = j; alloc_bytes = space; output = s.output }
    let emit : Result (ℕ × Filter I) =
        (filtered debug header payload (sub_u64 size header_bytes) >>= λ bytes.
        ok (0, record kept { output = s.output ++ bytes }))
    if length payload == 0 then ok (1, kept) else emit

  -- `filterItem`: 1 if there was nothing to read, else 0.
  unfoldable pub filter_item : Filter I → Result (ℕ × Filter I)
  filter_item s =
      let (header, i) = io.read header_bytes s.input in
      let more = filter_payload header i s in
      if length header == 0 then ok (1, record s { input = i }) else more

  -- The event loop of `main`, with fuel: the result of `filterItem` is not looked at.
  unfoldable pub filter_loop : ℕ → ℕ → ℕ → Filter I → Result (Filter I)
  filter_loop zero count ct s = err Error.out_of_fuel
  filter_loop (suc fuel) count ct s = filter_item s >>= λ r.
      let again = filter_loop fuel count (ct + 1) r.1 in
      if not (count == 0) && (ct + 1 == count) then ok r.1 else again
