-- ===== src/Sender/Timestamp.antt =====
-- `Sender::getFirstTimestamp`.
use frib_e2sar.Base.{
  ℕ, zero, suc, ◌+◌, ◌*◌, ◌%◌, ◌^◌, ◌<◌, ◌≡◌, refl, List, [], ◌∷◌, ◌++◌, Bool, Error, Result, ok,
  err, ◌>>=◌, ltb, ge→ltb, lt→ltb, ◌==◌, if◌then◌else◌, length, flatten, All, length-append, arith,
}
use frib_e2sar.Base.Words.{add_u64, add_u64_of_lt}
use frib_e2sar.RingItem.{RingFormat, header_bytes, body_header_bytes, item_size, next_item, advance}
use frib_e2sar.RingItem.Laws.{IsItem, item_size-append, next_item-append}
use frib_e2sar.EvbFilter.{read_word, word_bytes}

-- `BodyHeader::s_timestamp` read from the bytes at a pointer, and the arithmetic on doubles: the
-- bytes of a `double` and an integer, multiplied and turned into a `uint64_t`.
pub record BodyFormat : Type 0 where
  pub s_timestamp : List ℕ → ℕ
  pub scale : List ℕ → ℕ → ℕ

-- `*p` for a `uint8_t*`.
unfoldable pub read_byte : List ℕ → Result ℕ
read_byte [] = err Error.out_of_bounds
read_byte (b ∷ bs) = ok b

module _ ⦃fmt : RingFormat⦄ ⦃body : BodyFormat⦄ where
  -- The time of a DDAS hit: behind the empty body header, the size and the type stands the clock
  -- calibration, and behind it words 0, 1 and 2 of the hit.
  unfoldable pub ddas_timestamp : List ℕ → Result ℕ
  ddas_timestamp p = do
    calibration ← advance (3 * word_bytes) p
    word0 ← advance 8 calibration
    word1 ← advance word_bytes word0
    time_low ← read_word word1
    word2 ← advance word_bytes word1
    time_high ← read_word word2
    ok (body.scale calibration (time_high % 2 ^ 16 * 2 ^ 32 + time_low))

  -- The branch for a `PHYSICS_EVENT`, at the first byte behind the ring item header.
  unfoldable pub physics_timestamp : Bool → List ℕ → Result ℕ
  physics_timestamp is_ddas p = read_byte p >>= λ size.
      let without : Result ℕ = (let hit = ddas_timestamp p in if is_ddas then hit else ok 0) in
      if size == body_header_bytes then ok (body.s_timestamp p) else without

  -- `while (readBytes < bytes)`, with fuel.
  unfoldable pub timestamp_loop : ℕ → Bool → List ℕ → ℕ → ℕ → Result ℕ
  timestamp_loop zero is_ddas p read_bytes n = err Error.out_of_fuel
  timestamp_loop (suc fuel) is_ddas p read_bytes n =
      let here : Result ℕ = (advance header_bytes p >>= physics_timestamp is_ddas) in
      let further : Result ℕ =
        (item_size p >>= λ k.
        next_item p >>= λ q. timestamp_loop fuel is_ddas q (add_u64 read_bytes k) n) in
      let look : Result ℕ =
        (item_size p >>= λ _. if fmt.s_type p == fmt.physics_event then here else further) in
      if ltb read_bytes n then look else ok 0

  unfoldable pub get_first_timestamp : Bool → List ℕ → Result ℕ
  get_first_timestamp is_ddas p = timestamp_loop (suc (length p)) is_ddas p 0 (length p)

module _ ⦃fmt : RingFormat⦄ ⦃body : BodyFormat⦄ where
  -- The time that the first physics item of a row states, or 0 if there is none.
  unfoldable pub first_time : Bool → List (List ℕ) → Result ℕ
  first_time is_ddas [] = ok 0
  first_time is_ddas (it ∷ its) =
      let rest = first_time is_ddas its in
      let here : Result ℕ =
        (advance header_bytes (it ++ flatten its) >>= physics_timestamp is_ddas) in
      if fmt.s_type it == fmt.physics_event then here else rest

  timestamp_loop-first_time :
      (is_ddas : Bool) (its : List (List ℕ)) (fuel done n : ℕ)
      → All IsItem its
      → done + length (flatten its) ≡ n
      → length (flatten its) < fuel
      → n < 2 ^ 64
      → timestamp_loop fuel is_ddas (flatten its) done n ≡ first_time is_ddas its
  unfolding timestamp_loop first_time
  timestamp_loop-first_time is_ddas its zero done n w e f b = absurd (omega arith)
  timestamp_loop-first_time is_ddas [] (suc fuel) done n w e f b =
      rw (ge→ltb done n (omega arith)) refl
  timestamp_loop-first_time is_ddas (it ∷ its) (suc fuel) done n w e f b =
      let split : length (it ++ flatten its) ≡ length it + length (flatten its) =
        length-append it (flatten its) in
      let type : fmt.s_type (it ++ flatten its) ≡ fmt.s_type it =
        fmt.s_type_local it (flatten its) w.0.0 in
      let further : add_u64 done (length it) ≡ done + length it =
        add_u64_of_lt done (length it) (omega (arith, e, split)) in
      let loop =
        timestamp_loop-first_time is_ddas its fuel (done + length it) n w.1
          (omega (arith, e, split)) (omega (arith, split, f, w.0.0)) b in
      rw
        (
          lt→ltb done n (omega (arith, e, split, w.0.0)),
          item_size-append it (flatten its) w.0,
          type,
          next_item-append it (flatten its) w.0,
          further,
          loop,
        )
        refl

  -- On a buffer that is a row of whole ring items, the event number is the time in the first
  -- physics item, whatever items come before it, and 0 if there is no physics item.
  pub get_first_timestamp-first_time :
      (is_ddas : Bool) (its : List (List ℕ))
      → All IsItem its
      → length (flatten its) < 2 ^ 64
      → get_first_timestamp is_ddas (flatten its) ≡ first_time is_ddas its
  unfolding get_first_timestamp
  get_first_timestamp-first_time is_ddas its w b =
      timestamp_loop-first_time is_ddas its (suc (length (flatten its))) 0 _ w (omega arith)
        (omega arith) b
