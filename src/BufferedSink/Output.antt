-- ===== src/BufferedSink/Output.antt =====
-- `outputData`: which buffers leave the queue, what is written, and what the sink keeps.
use mathlib.Core.Path.{ap₂}
use mathlib.Core.List.{map-append}
use frib_e2sar.Base.{
  ℕ, suc, ◌+◌, ◌^◌, ◌<◌, ◌≡◌, refl, ap, sym, ◌∙◌, inl, inr, List, [], ◌∷◌, ◌++◌, map, ok, leb,
  leb→le, leb→gt, Bool-cases, All, length, flatten, flatten-append,
}
use frib_e2sar.RingItem.{RingFormat, Iovec, bytes, count_ring_items, item_iovs}
use frib_e2sar.RingItem.Laws.{IsItem, count_ring_items-flatten, item_iovs-flatten}
use frib_e2sar.BufferedSink.{Buffer, take_until, collect_iovs}
use frib_e2sar.BufferedSink.Sorted.{IsSorted, AllFrom, AllTo, AllFrom-mono}

-- A buffer whose payload is a row of whole ring items, of the size it states.
pub record IsFilledBy ⦃fmt : RingFormat⦄ (b : Buffer) (its : List (List ℕ)) : Type 0 where
  pub items : All IsItem its
  pub payload_eq : b.payload ≡ flatten its
  pub size_eq : b.s_size ≡ length b.payload
  pub small : length (flatten its) < 2 ^ 64

module _ ⦃fmt : RingFormat⦄ where
  abbrev pub IsFilled : Buffer → Type 0
  IsFilled b = (its : List (List ℕ)) × IsFilledBy b its

  count-IsFilled :
      (b : Buffer) (f : IsFilled b) → count_ring_items b.payload b.s_size ≡ ok (length f.0)
  count-IsFilled b (its, f) =
      let size : b.s_size ≡ length (flatten its) = f.size_eq ∙ ap length f.payload_eq in
      rw (f.payload_eq, size) (count_ring_items-flatten its f.items f.small)

  -- The queue splits at the limit.
  pub record Split (limit : ℕ) (q : List Buffer) : Type 0 where
    pub out : List Buffer
    pub count : ℕ
    pub rest : List Buffer
    pub runs : take_until limit q ≡ ok (out, count, rest)
    pub whole : out ++ rest ≡ q
    pub emitted : AllTo limit out
    pub kept : AllFrom (suc limit) rest
    pub filled : All IsFilled out

  pub take_until-Split : (limit : ℕ) (q : List Buffer) → IsSorted q → All IsFilled q → Split limit q
  unfolding take_until
  take_until-Split limit [] h f = record {
    out = [];
    count = 0;
    rest = [];
    runs = refl;
    whole = refl;
    emitted = tt;
    kept = tt;
    filled = tt;
  }
  take_until-Split limit (b ∷ bs) h f = elim (Bool-cases (leb b.s_time limit)) [
    | inl due ↦
        let tail : Split limit bs = take_until-Split limit bs h.1 f.1 in
        record {
          out = b ∷ tail.out;
          count = length f.0.0 + tail.count;
          rest = tail.rest;
          runs = rw (due, count-IsFilled b f.0, tail.runs) refl;
          whole = ap (◌∷◌ b) tail.whole;
          emitted = (leb→le _ _ due, tail.emitted);
          kept = tail.kept;
          filled = (f.0, tail.filled);
        }
    | inr later ↦
        let gt : limit < b.s_time = leb→gt _ _ later in
        record {
          out = [];
          count = 0;
          rest = b ∷ bs;
          runs = rw later refl;
          whole = refl;
          emitted = tt;
          kept = (gt, AllFrom-mono bs gt h.0);
          filled = tt;
        }
  ]

  -- The pieces that are handed to the sink hold the bytes of the payloads, in order.
  pub collect_iovs-payloads :
      (bs : List Buffer)
      → All IsFilled bs
      → (vs : List Iovec) × (collect_iovs bs ≡ ok vs)
        × (flatten (map bytes vs) ≡ flatten (map (λ (b : Buffer). b.payload) bs))
  unfolding collect_iovs
  collect_iovs-payloads [] f = ([], refl, refl)
  collect_iovs-payloads (b ∷ bs) f =
      let (ws, run, same) = collect_iovs-payloads bs f.1 in
      let (vs, each, whole) = item_iovs-flatten f.0.0 f.0.1.items in
      let each' : item_iovs (length f.0.0) b.payload ≡ ok vs =
        ap (item_iovs (length f.0.0)) f.0.1.payload_eq ∙ each in
      (
        vs ++ ws,
        rw (count-IsFilled b f.0, each', run) refl,
        ap flatten (map-append bytes vs ws)
            ∙ flatten-append (map bytes vs) (map bytes ws)
            ∙ ap₂ ◌++◌ (ap flatten whole ∙ sym f.0.1.payload_eq) same,
      )
