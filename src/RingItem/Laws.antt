-- ===== src/RingItem/Laws.antt =====
-- What the ring item utilities return on a block that is a row of whole items, and on one that
-- is not.
use frib_e2sar.Base.{
  ℕ, zero, suc, ◌+◌, ◌^◌, ◌≤◌, ◌<◌, ◌≡◌, refl, ap, ◌∙◌, List, [], ◌∷◌, ◌++◌, map, Error, ok, err,
  ge→ltb, ne→==, length, flatten, All, length-append, take-append, drop-append, arith,
}
use frib_e2sar.Base.Words.{sub_u64, sub_u64_of_le}
use frib_e2sar.RingItem.{
  RingFormat, header_bytes, Iovec, bytes, item_size, advance, next_item, count_loop,
  count_ring_items, item_iovs,
}

module _ ⦃fmt : RingFormat⦄ where
  -- A whole item: it holds its header, and its header states its length.
  abbrev pub IsItem : List ℕ → Type 0
  IsItem it = (header_bytes ≤ length it) × (fmt.s_size it ≡ length it)

  pub item_size-append : (it rest : List ℕ) → IsItem it → item_size (it ++ rest) ≡ ok (length it)
  unfolding item_size
  item_size-append it rest h =
      let e : length (it ++ rest) ≡ length it + length rest = length-append it rest in
      rw (ge→ltb (length (it ++ rest)) header_bytes (omega (arith, e, h.0)))
        (ap ok (fmt.s_size_local it rest h.0 ∙ h.1))

  pub next_item-append : (it rest : List ℕ) → IsItem it → next_item (it ++ rest) ≡ ok rest
  unfolding next_item
  next_item-append it rest h =
      let e : length (it ++ rest) ≡ length it + length rest = length-append it rest in
      rw (item_size-append it rest h) (
        unfold advance in
        rw (ge→ltb (length (it ++ rest)) (length it) (omega (arith, e)))
          (ap ok (drop-append it rest)))

  count_loop-items :
      (its : List (List ℕ)) (fuel n result : ℕ)
      → All IsItem its
      → n ≡ length (flatten its)
      → n < fuel
      → n < 2 ^ 64
      → count_loop fuel (flatten its) n result ≡ ok (length its + result)
  unfolding count_loop
  count_loop-items its zero n result w e f b = absurd (omega arith)
  count_loop-items [] (suc fuel) n result w e f b = ground arith
  count_loop-items (it ∷ its) (suc fuel) n result w e f b =
      let split : length (it ++ flatten its) ≡ length it + length (flatten its) =
        length-append it (flatten its) in
      let left : sub_u64 n (length it) ≡ length (flatten its) =
        sub_u64_of_le n (length it) b (omega (arith, split)) ∙ omega (arith, split) in
      rw
        (
          ne→== n 0 (omega (arith, split, w.0.0)),
          item_size-append it (flatten its) w.0,
          next_item-append it (flatten its) w.0,
        )
        (count_loop-items its fuel (sub_u64 n (length it)) (result + 1) w.1 left
            (omega (arith, split, left, w.0.0)) (omega (arith, left, split))
          ∙ ap ok (omega arith))

  -- A block that is a row of whole items has as many items as the row.
  pub count_ring_items-flatten :
      (its : List (List ℕ))
      → All IsItem its
      → length (flatten its) < 2 ^ 64
      → count_ring_items (flatten its) (length (flatten its)) ≡ ok (length its)
  unfolding count_ring_items
  count_ring_items-flatten its w b =
      count_loop-items its (suc (length (flatten its))) (length (flatten its)) 0 w refl
        (omega arith) b
      ∙ ap ok (omega arith)

  -- The loop of `countRingItems` never ends at a header that states the size 0, whatever number of
  -- rounds is given, as long as there are bytes to count.
  pub count_loop-stuck :
      (fuel : ℕ) (p : List ℕ) (n result : ℕ)
      → header_bytes ≤ length p
      → fmt.s_size p ≡ 0
      → 0 < n
      → n < 2 ^ 64
      → count_loop fuel p n result ≡ err Error.out_of_fuel
  unfolding count_loop item_size next_item advance
  count_loop-stuck zero p n result h z pos b = refl
  count_loop-stuck (suc fuel) p n result h z pos b =
      let same : sub_u64 n 0 ≡ n = sub_u64_of_le n 0 b (omega arith) ∙ omega arith in
      rw
        (
          ne→== n 0 (omega arith),
          ge→ltb (length p) header_bytes h,
          z,
          ge→ltb (length p) 0 (omega arith),
          same,
        )
        (count_loop-stuck fuel p n (result + 1) h z pos b)

  -- The pieces that `outputData` hands to the sink are the items, each whole and in order.
  pub item_iovs-flatten :
      (its : List (List ℕ))
      → All IsItem its
      → (vs : List Iovec) × (item_iovs (length its) (flatten its) ≡ ok vs) × (map bytes vs ≡ its)
  unfolding item_iovs
  item_iovs-flatten [] w = ([], refl, refl)
  item_iovs-flatten (it ∷ its) w =
      let (vs, run, same) = item_iovs-flatten its w.1 in
      (
        record { base = it ++ flatten its; len = length it } ∷ vs,
        rw (item_size-append it (flatten its) w.0, next_item-append it (flatten its) w.0, run) refl,
        rw (take-append it (flatten its), same) refl,
      )
