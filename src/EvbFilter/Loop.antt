-- ===== src/EvbFilter/Loop.antt =====
-- `filterItem` and the event loop on a stream of items, and at its end.
use mathlib.Core.List.{append_assoc, append-nil}
use frib_e2sar.Base.{
  ℕ, zero, suc, ◌+◌, ◌^◌, ◌≤◌, ◌<◌, ◌≡◌, ◌≢◌, refl, ap, ◌∙◌, sym, inl, inr, List, [], ◌∷◌, ◌++◌,
  map, Bool, true, ok, >>=-eq-ok, ge→ltb, ne→==, eq→==, ltb, Bool-cases, length, take, drop,
  flatten, take-append, drop-append, All, arith,
}
use frib_e2sar.Base.Words.{sub_u64, sub_u64_of_le}
use frib_e2sar.RingItem.{RingFormat, header_bytes, item_size}
use frib_e2sar.EvbFilter.{Input, Filter, filtered, grow, filter_payload, filter_item, filter_loop}

-- An item on standard input, with what the filter puts out for it.
pub record Passed : Type 0 where
  pub header : List ℕ
  pub payload : List ℕ
  pub out : List ℕ

abbrev pub on_input : List Passed → List ℕ
on_input [] = []
on_input (x ∷ xs) = x.header ++ (x.payload ++ on_input xs)

module _ ⦃fmt : RingFormat⦄ (debug : Bool) where
  -- The header states the size, the payload is not empty, and the filter understands it.
  pub record IsPassed (x : Passed) : Type 0 where
    pub header_whole : length x.header ≡ header_bytes
    pub size : fmt.s_size x.header ≡ length x.header + length x.payload
    pub some_payload : 1 ≤ length x.payload
    pub small : fmt.s_size x.header < 2 ^ 64
    pub passes : filtered debug x.header x.payload (length x.payload) ≡ ok x.out

grows :
    (can_alloc : ℕ → Bool)
    → ((n : ℕ) → can_alloc n ≡ true)
    → (n have : ℕ) → (space : ℕ) × (grow can_alloc n have ≡ ok space)
unfolding grow
grows can_alloc can n have = elim (Bool-cases (ltb have n)) [
  | inl small ↦ (n, rw (small, can n) refl)
  | inr large ↦ (have, rw large refl)
]

module _ {I : Type 0} ⦃io : Input I⦄ ⦃fmt : RingFormat⦄ (can_alloc : ℕ → Bool) (debug : Bool) where
  -- At the end of the input `filterItem` says so, by 1, and puts nothing out.
  filter_item-end :
      (s : Filter I)
      → io.remaining s.input ≡ []
      → filter_item can_alloc debug s
        ≡ ok (1, record s { input = (io.read header_bytes s.input).1 })
  unfolding filter_item
  filter_item-end s e =
      let none : (io.read header_bytes s.input).0 ≡ [] =
        io.read_bytes header_bytes s.input ∙ ap (take header_bytes) e in
      rw none refl

  -- With no item count the event loop never ends: also at the end of the input, where
  -- `filterItem` returns 1, it is still running when any number of rounds is used up.
  pub filter_loop-endless :
      (fuel ct : ℕ) (s t : Filter I) → filter_loop can_alloc debug fuel 0 ct s ≢ ok t
  unfolding filter_loop
  filter_loop-endless zero ct s t h = cc
  filter_loop-endless (suc fuel) ct s t h =
      let (r, _, rest) = >>=-eq-ok (filter_item can_alloc debug s) _ h in
      filter_loop-endless fuel (ct + 1) r.1 t rest

  payload-passed :
      ((n : ℕ) → can_alloc n ≡ true)
      → (s : Filter I) (x : Passed) (rest : List ℕ) → IsPassed debug x
      → (i : I) → io.remaining i ≡ x.payload ++ rest
      → (t : Filter I) × (filter_payload can_alloc debug x.header i s ≡ ok (0, t))
        × (io.remaining t.input ≡ rest)
        × (t.output ≡ s.output ++ x.out)
  unfolding filter_payload item_size
  payload-passed can s x rest p i e =
      let n = length x.payload in
      let size : sub_u64 (fmt.s_size x.header) header_bytes ≡ n =
        sub_u64_of_le _ header_bytes p.small (omega (arith, p.size, p.header_whole))
        ∙ omega (arith, p.size, p.header_whole) in
      let (space, room) = grows can_alloc can n s.alloc_bytes in
      let body : (io.read n i).0 ≡ x.payload =
        io.read_bytes n i ∙ ap (take n) e ∙ take-append x.payload rest in
      (
        record { input = (io.read n i).1; alloc_bytes = space; output = s.output ++ x.out },
        rw
            (
              ge→ltb (length x.header) header_bytes (omega (arith, p.header_whole)),
              size,
              room,
              body,
              ne→== (length x.payload) 0 (omega (arith, p.some_payload)),
              p.passes,
            )
            refl,
        io.read_rest n i ∙ ap (drop n) e ∙ drop-append x.payload rest,
        refl,
      )

  filter_item-passed :
      ((n : ℕ) → can_alloc n ≡ true)
      → (s : Filter I) (x : Passed) (rest : List ℕ) → IsPassed debug x
      → io.remaining s.input ≡ x.header ++ (x.payload ++ rest)
      → (t : Filter I) × (filter_item can_alloc debug s ≡ ok (0, t))
        × (io.remaining t.input ≡ rest)
        × (t.output ≡ s.output ++ x.out)
  unfolding filter_item
  filter_item-passed can s x rest p e =
      let (hdr, i) = io.read header_bytes s.input in
      let head : hdr ≡ x.header =
        io.read_bytes header_bytes s.input
        ∙ ap (take header_bytes) e
        ∙ ap (λ (k : ℕ). take k (x.header ++ (x.payload ++ rest))) (sym p.header_whole)
        ∙ take-append x.header (x.payload ++ rest) in
      let left : io.remaining i ≡ x.payload ++ rest =
        io.read_rest header_bytes s.input
        ∙ ap (drop header_bytes) e
        ∙ ap (λ (k : ℕ). drop k (x.header ++ (x.payload ++ rest))) (sym p.header_whole)
        ∙ drop-append x.header (x.payload ++ rest) in
      let (t, run, after, out) = payload-passed can s x rest p i left in
      (t, rw (head, ne→== (length x.header) 0 (omega (arith, p.header_whole))) run, after, out)

  -- Asked for as many items as there are, the event loop ends within that number of rounds, and
  -- what it has put out is what the filter makes of each item, in order.
  pub filter_loop-items :
      ((n : ℕ) → can_alloc n ≡ true)
      → (x : Passed) (xs : List Passed) (fuel count ct : ℕ) (s : Filter I) (rest : List ℕ)
      → All (IsPassed debug) (x ∷ xs)
      → io.remaining s.input ≡ on_input (x ∷ xs) ++ rest
      → ct + length (x ∷ xs) ≡ count
      → length (x ∷ xs) ≤ fuel
      → (t : Filter I) × (filter_loop can_alloc debug fuel count ct s ≡ ok t)
        × (io.remaining t.input ≡ rest)
        × (t.output ≡ s.output ++ flatten (map (λ (y : Passed). y.out) (x ∷ xs)))
  unfolding filter_loop
  filter_loop-items can x xs zero count ct s rest p e c f = absurd (omega arith)
  filter_loop-items can x [] (suc fuel) count ct s rest p e c f =
      let e' : io.remaining s.input ≡ x.header ++ (x.payload ++ rest) =
        e
        ∙ append_assoc x.header (x.payload ++ []) rest
        ∙ ap (λ (z : List ℕ). x.header ++ (z ++ rest)) (append-nil x.payload) in
      let (t, run, left, out) = filter_item-passed can s x rest p.0 e' in
      (
        t,
        rw (run, ne→== count 0 (omega arith), eq→== (ct + 1) count (omega arith)) refl,
        left,
        out ∙ ap (◌++◌ s.output) (sym (append-nil x.out)),
      )
  filter_loop-items can x (y ∷ ys) (suc fuel) count ct s rest p e c f =
      let more = on_input (y ∷ ys) ++ rest in
      let e' : io.remaining s.input ≡ x.header ++ (x.payload ++ more) =
        e
        ∙ append_assoc x.header _ rest
        ∙ ap (◌++◌ x.header) (append_assoc x.payload (on_input (y ∷ ys)) rest) in
      let (t, run, left, out) = filter_item-passed can s x more p.0 e' in
      let (u, runs, left', out') =
        filter_loop-items can y ys fuel count (ct + 1) t rest p.1 left (omega (arith, c))
          (omega (arith, f)) in
      (
        u,
        rw (run, ne→== count 0 (omega (arith, c)), ne→== (ct + 1) count (omega (arith, c))) runs,
        left',
        out'
            ∙ ap (λ (z : List ℕ). z ++ flatten (map (λ (y : Passed). y.out) (y ∷ ys))) out
            ∙ append_assoc s.output x.out _,
      )
