-- ===== src/RingItem.antt =====
-- Ring items in a block of bytes: the utilities at the end of e2sarwf/BufferedSink.cpp.
-- A pointer into a block is the list of the bytes from there to the end of the block.
pub mod Laws
pub mod Sample
mod Tests
use frib_e2sar.Base.{
  ℕ, zero, suc, ◌+◌, ◌≤◌, ◌≡◌, List, [], ◌∷◌, ◌++◌, Error, Result, ok, err, ◌>>=◌, ltb, ◌==◌,
  if◌then◌else◌, length, drop, take,
}
use frib_e2sar.Base.Words.{sub_u64}

-- `sizeof(RingItemHeader)`: two words, as the table in evbfilter.cpp has it.
abbrev pub header_bytes : ℕ
header_bytes = 8

-- `sizeof(BodyHeader)`.
abbrev pub body_header_bytes : ℕ
body_header_bytes = 20

-- `RingItemHeader` of the unified format library: how `s_size` and `s_type` are read from the
-- bytes at a pointer. The size is read from the header's own bytes alone.
pub record RingFormat : Type 0 where
  pub s_size : List ℕ → ℕ
  pub s_type : List ℕ → ℕ
  pub physics_event : ℕ
  pub s_size_local : (h rest : List ℕ) → header_bytes ≤ length h → s_size (h ++ rest) ≡ s_size h
  pub s_type_local : (h rest : List ℕ) → header_bytes ≤ length h → s_type (h ++ rest) ≡ s_type h

-- `struct iovec`: a base pointer and a length.
pub record Iovec : Type 0 where
  pub base : List ℕ
  pub len : ℕ

-- The bytes that writing an `iovec` puts out.
abbrev pub bytes : Iovec → List ℕ
bytes v = take v.len v.base

-- `p += n`, from a pointer inside the block to one that may lie at its end.
unfoldable pub advance : ℕ → List ℕ → Result (List ℕ)
advance n p = if ltb (length p) n then err Error.out_of_bounds else ok (drop n p)

module _ ⦃fmt : RingFormat⦄ where
  -- A header that is not wholly inside the block is not there to read.
  unfoldable pub item_size : List ℕ → Result ℕ
  item_size p = if ltb (length p) header_bytes then err Error.out_of_bounds else ok (fmt.s_size p)

  unfoldable pub next_item : List ℕ → Result (List ℕ)
  unfolding item_size advance
  next_item p = do n ← item_size p; advance n p

  -- `while (nBytes)`: the fuel bounds the rounds, `n` is `nBytes`, `result` the count so far.
  unfoldable pub count_loop : ℕ → List ℕ → ℕ → ℕ → Result ℕ
  count_loop zero p n result = err Error.out_of_fuel
  count_loop (suc fuel) p n result =
      let more : Result ℕ =
        (item_size p >>= λ k. next_item p >>= λ q. count_loop fuel q (sub_u64 n k) (result + 1)) in
      if n == 0 then ok result else more

  -- A round that passes an item takes at least one byte, so one round more than bytes is enough.
  unfoldable pub count_ring_items : List ℕ → ℕ → Result ℕ
  unfolding count_loop
  count_ring_items p n = count_loop (suc n) p n 0

  -- The inner loop of `outputData`: one `iovec` for each of the next items.
  unfoldable pub item_iovs : ℕ → List ℕ → Result (List Iovec)
  item_iovs zero p = ok []
  item_iovs (suc n) p = do
    k ← item_size p
    q ← next_item p
    vs ← item_iovs n q
    ok (record { base = p; len = k } ∷ vs)
