-- ===== src/Sender/Events.antt =====
-- The events of a send loop on a file: rows of whole ring items, numbered from 0.
use mathlib.Core.Path.{subst}
use frib_e2sar.Base.{
  ℕ, zero, suc, ◌+◌, ◌^◌, ◌≤◌, ◌<◌, ◌≡◌, refl, sym, ap, ◌∙◌, inl, inr, List, [], ◌∷◌, ◌++◌, Bool,
  true, false, ok, ok-injective, second_eq, ltb, ge→ltb, Bool-cases, length, All, All-append,
  All-append_left, All-append_right, flatten, flatten-append, length-append, arith,
}
use frib_e2sar.Base.Words.{add_u64_of_lt}
use frib_e2sar.RingItem.{RingFormat}
use frib_e2sar.RingItem.Laws.{IsItem}
use frib_e2sar.Sender.{DataSource, Segmenter, Config, Sender, ExitCode, send_loop}
use frib_e2sar.Sender.Timestamp.{BodyFormat}
use frib_e2sar.Sender.Laws.{Queues, IsSending}
use frib_e2sar.Sender.Filling.{FileSource, Fit, left}
use frib_e2sar.Sender.Ending.{Round, send_round-Round}
use frib_e2sar.Sender.Naming.{counting, All-unit}

-- Numbers that count on from `n`.
abbrev pub CountsFrom : ℕ → List (ℕ × List ℕ) → Type 0
CountsFrom n [] = Unit {0}
CountsFrom n (x ∷ xs) = (x.0 ≡ n) × CountsFrom (suc n) xs

CountsFrom-snoc :
    (n m : ℕ) (xs : List (ℕ × List ℕ)) (b : List ℕ)
    → CountsFrom n xs
    → m ≡ n + length xs
    → CountsFrom n (xs ++ (m, b) ∷ [])
CountsFrom-snoc n m [] b h e = (omega (arith, e), tt)
CountsFrom-snoc n m (x ∷ xs) b h e = (h.0, CountsFrom-snoc (suc n) m xs b h.1 (omega (arith, e)))

module _ ⦃fmt : RingFormat⦄ where
  -- An event is a row of whole ring items.
  abbrev pub IsRow : ℕ × List ℕ → Type 0
  IsRow x = (its : List (List ℕ)) × All IsItem its × (x.1 ≡ flatten its)

  -- The events so far, and what the counters say of them.
  pub record IsCounted {D G : Type 0} (s : Sender D G) : Type 0 where
    pub numbers : CountsFrom 0 s.sent
    pub count : s.send_count ≡ length s.sent
    pub few : length s.sent ≤ s.total_bytes
    pub rows : All IsRow s.sent

module _ {D G : Type 0} ⦃src : DataSource D⦄ ⦃seg : Segmenter G⦄ ⦃fmt : RingFormat⦄
    ⦃body : BodyFormat⦄ (file : FileSource src) (c : Config) where
  Round-IsCounted :
      (counts : c.use_ct ≡ true) (before : List (List ℕ)) (s : Sender D G) (r : Bool × Sender D G)
      → All IsItem before
      → s.total_bytes + length (flatten before) < 2 ^ 64
      → Round file c (counting c counts) before s r
      → IsCounted s
      → IsCounted r.1
  Round-IsCounted counts before s r items room rd k =
      let sizes : length (flatten rd.moved) + length (flatten (left file r.1.pending r.1.source))
          ≡ length (flatten before) =
        sym (length-append (flatten rd.moved) _)
        ∙ ap length (sym (flatten-append rd.moved _))
        ∙ ap (λ (z : List (List ℕ)). length (flatten z)) rd.split in
      elim rd.event [
        | inl (same, count) ↦ record {
          numbers = subst (CountsFrom 0) (sym same) k.numbers;
          count = count ∙ k.count ∙ ap length (sym same);
          few = omega (arith, ap length same, k.few, rd.total);
          rows = subst (All IsRow) (sym same) k.rows;
        }
        | inr (some_bytes, more, count) ↦
            let same_number : rd.number ≡ s.send_count = rd.is_number in
            let longer : length r.1.sent ≡ length s.sent + 1 =
              ap length more ∙ length-append s.sent _ in
            record {
              numbers = subst (CountsFrom 0) (sym more) (
                  CountsFrom-snoc 0 rd.number s.sent (flatten rd.moved) k.numbers
                    (omega (arith, k.count, same_number)));
              count =
                  count
                  ∙ add_u64_of_lt s.send_count 1
                      (omega (arith, k.count, k.few, sizes, some_bytes, room))
                  ∙ omega (arith, k.count, longer);
              few = omega (arith, longer, k.few, rd.total, some_bytes);
              rows = subst (All IsRow) (sym more) (
                  All-append IsRow s.sent _ k.rows (
                    (
                      rd.moved,
                      All-append_left IsItem rd.moved _ (subst (All IsItem) (sym rd.split) items),
                      refl,
                    ),
                    tt,
                  ));
            }
      ]

  -- If the loop ends, its events are counted from 0 and are rows of whole ring items, if those
  -- before are.
  pub send_loop-IsCounted :
      Queues seg
      → c.use_ct ≡ true
      → c.n_events ≡ 0
      → 1 ≤ c.evt_buf_size
      → (clock : ℕ → ℕ) (fuel i : ℕ) (before : List (List ℕ)) (s t : Sender D G)
      → left file s.pending s.source ≡ before
      → Fit c.evt_buf_size before
      → All IsItem before
      → s.total_bytes + length (flatten before) < 2 ^ 64
      → (before ≡ [] → 1 ≤ s.total_bytes)
      → IsSending c s
      → IsCounted s
      → send_loop fuel c clock i s ≡ ok (ExitCode.exit_success, t)
      → IsCounted t
  unfolding send_loop
  send_loop-IsCounted queues counts all pos clock zero i before s t e fit items room sb v k run = cc
  send_loop-IsCounted queues counts all pos clock (suc fuel) i before s t e fit items room sb v k
        run =
      let (r, first, rd) =
        send_round-Round file c (counting c counts) queues all pos before s e fit (All-unit before)
          room sb v in
      let in_time : ltb (clock i + c.sleep_usec) (clock i) ≡ false =
        ge→ltb (clock i + c.sleep_usec) (clock i) (omega arith) in
      let rest = left file r.1.pending r.1.source in
      let k' = Round-IsCounted counts before s r items room rd k in
      let bytes : length (flatten rd.moved) + length (flatten rest) ≡ length (flatten before) =
        sym (length-append (flatten rd.moved) _)
        ∙ ap length (sym (flatten-append rd.moved rest))
        ∙ ap (λ (z : List (List ℕ)). length (flatten z)) rd.split in
      elim (Bool-cases r.0) [
        | inl done ↦
            subst IsCounted (second_eq (ok-injective (rw (first, in_time, done) at run))) k'
        | inr more ↦
            send_loop-IsCounted queues counts all pos clock fuel (i + 1) rest r.1 t refl
              (All-append_right _ rd.moved rest (subst (Fit c.evt_buf_size) (sym rd.split) fit))
              (All-append_right _ rd.moved rest (subst (All IsItem) (sym rd.split) items))
              (omega (arith, room, rd.total, bytes)) (λ x. omega (arith, rd.total, rd.more more))
              rd.sending k' (rw (first, in_time, more) at run)
      ]
