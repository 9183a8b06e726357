-- ===== src/Sinks/Writing.antt =====
-- Both sinks write the pieces that they are given, whole and in order.
use mathlib.Core.List.{append_assoc, append-nil}
use frib_e2sar.Base.{
  ℕ, zero, suc, ◌<◌, ◌≡◌, inl, inr, refl, sym, ap, ◌∙◌, List, [], ◌∷◌, ◌++◌, map, flatten,
  flatten-append, some, true, ok, Bool-cases, Option-cases, >>=-eq-ok, ok-injective, arith,
}
use frib_e2sar.RingItem.{Iovec, bytes}
use frib_e2sar.Sinks.{
  RingBuffer, ring_put, ring_put_v, Files, is_writable, checked, open_sink, file_put_v,
}

module _ {K : Type 0} ⦃ring : RingBuffer K⦄ where
  ring_put-done :
      (fuel : ℕ) (b : List ℕ) (k : K)
      → ring.waits k < fuel
      → (t : K) × (ring_put fuel b k ≡ ok t) × (ring.blocks t ≡ ring.blocks k ++ b ∷ [])
  unfolding ring_put
  ring_put-done zero b k f = absurd (omega arith)
  ring_put-done (suc fuel) b k f = elim (Bool-cases (ring.put b k).0) [
    | inl done ↦ ((ring.put b k).1, rw (ring_put, done) refl, ring.put_done b k done)
    | inr timeout ↦
        let (t, run, more) =
          ring_put-done fuel b (ring.put b k).1
            (omega (arith, ring.put_timeout_waits b k timeout)) in
        (
          t,
          rw (ring_put, timeout) run,
          more ∙ ap (λ z. z ++ b ∷ []) (ring.put_timeout_blocks b k timeout),
        )
  ]

  -- If the ring times out less often in a row than there is fuel for each put, `putV` ends, and it
  -- has put one block into the ring for each piece, in order.
  pub ring_put_v-blocks :
      (fuel : ℕ) (vs : List Iovec) (k : K)
      → ((k : K) → ring.waits k < fuel)
      → (t : K) × (ring_put_v fuel vs k ≡ ok t) × (ring.blocks t ≡ ring.blocks k ++ map bytes vs)
  unfolding ring_put_v
  ring_put_v-blocks fuel [] k f = (k, refl, sym (append-nil (ring.blocks k)))
  ring_put_v-blocks fuel (v ∷ vs) k f =
      let (t, first, one) = ring_put-done fuel (bytes v) k (f k) in
      let (u, run, more) = ring_put_v-blocks fuel vs t f in
      (
        u,
        rw first run,
        more
            ∙ ap (λ z. z ++ map bytes vs) one
            ∙ append_assoc (ring.blocks k) (bytes v ∷ []) (map bytes vs),
      )

module _ {W : Type 0} ⦃files : Files W⦄ where
  file_put_v-bytes :
      (fd : ℕ) (vs : List Iovec) (w w' : W)
      → file_put_v fd vs w ≡ ok w'
      → files.file_bytes fd w' ≡ files.file_bytes fd w ++ flatten (map bytes vs)
  unfolding file_put_v
  file_put_v-bytes fd vs w w' h = elim (Option-cases (files.write_v fd vs w)) [
    | inl failed ↦ let bad = rw (file_put_v, failed) at h in cc
    | inr (x, done) ↦
        let same : x ≡ w' = ok-injective (rw (file_put_v, done) at h) in
        files.write_v_bytes fd vs w w' (done ∙ ap some same)
  ]

  -- A sink that was opened by name refers to a file whose flags permit writing.
  pub open_sink-is_writable :
      (name : List ℕ) (w : W) (r : ℕ × W) → open_sink name w ≡ ok r → is_writable r.0 r.1 ≡ ok true
  unfolding open_sink checked
  open_sink-is_writable name w r h = elim (Option-cases (files.open_file name w).0) [
    | inl failed ↦ let bad = rw (open_sink, failed) at h in cc
    | inr (fd, opened) ↦
        let test : checked fd (files.open_file name w).1 ≡ ok r = rw (open_sink, opened) at h in
        let (writable, found, rest) =
          >>=-eq-ok (is_writable fd (files.open_file name w).1) _ test in
        elim (Bool-cases writable) [
          | inl allowed ↦
              let same : (fd, (files.open_file name w).1) ≡ r = ok-injective (rw allowed at rest) in
              rw (← same) (found ∙ ap ok allowed)
          | inr denied ↦ let bad = rw denied at rest in cc
        ]
  ]

module _ {K W : Type 0} ⦃ring : RingBuffer K⦄ ⦃files : Files W⦄ where
  -- The two sinks agree, if the ring times out less often in a row than there is fuel: where
  -- the ring's blocks together are the bytes of the file, they still are when both have been
  -- given the same pieces and the file's `putV` has not thrown.
  pub ring_put_v-file_put_v :
      (fuel fd : ℕ) (vs : List Iovec) (k : K) (w w' : W)
      → ((k : K) → ring.waits k < fuel)
      → flatten (ring.blocks k) ≡ files.file_bytes fd w
      → file_put_v fd vs w ≡ ok w'
      → (t : K) × (ring_put_v fuel vs k ≡ ok t) × (flatten (ring.blocks t) ≡ files.file_bytes fd w')
  ring_put_v-file_put_v fuel fd vs k w w' f same run =
      let (t, done, blocks) = ring_put_v-blocks fuel vs k f in
      (
        t,
        done,
        ap flatten blocks
            ∙ flatten-append (ring.blocks k) (map bytes vs)
            ∙ ap (λ z. z ++ flatten (map bytes vs)) same
            ∙ sym (file_put_v-bytes fd vs w w' run),
      )
