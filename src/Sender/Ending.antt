-- ===== src/Sender/Ending.antt =====
-- On a file the send loop ends, and by then everything has been sent.
use mathlib.Core.Bool.{true≢false}
use mathlib.Core.List.{append_assoc, append-nil}
use mathlib.Core.Path.{subst, ap₂}
use mathlib.Core.Option.{some-injective}
use frib_e2sar.Base.{
  ℕ, zero, suc, ◌+◌, ◌^◌, ◌≤◌, ◌<◌, ◌≡◌, ◌≢◌, refl, sym, ap, ◌∙◌, inl, inr, List, [], ◌∷◌, ◌++◌,
  map, Option, none, some, Bool, true, false, not, ◌&&◌, ◌||◌, ok, ltb, ge→ltb, ◌==◌, ==→eq,
  Bool-cases, length, All, All-append_left, All-append_right, flatten, flatten-append,
  length-append, arith,
}
use frib_e2sar.RingItem.{RingFormat}
use frib_e2sar.Sender.{
  DataSource, Segmenter, Config, Sender, ExitCode, Packed, pack, event_number, send_buffer,
  send_round, send_loop,
}
use frib_e2sar.Sender.Timestamp.{BodyFormat}
use frib_e2sar.Sender.Naming.{Naming, counting, All-unit}
use frib_e2sar.Sender.Laws.{Queues, IsSending, Numbers, send_sent}
use frib_e2sar.Sender.Filling.{FileSource, Fit, left, Moves, pack-Moves}

-- The bytes that were queued, in order.
abbrev pub sent_bytes : {D G : Type 0} → Sender D G → List ℕ
sent_bytes s = flatten (map (λ (x : ℕ × List ℕ). x.1) s.sent)

length_of_flatten : (xs : List (List ℕ)) → 1 ≤ length (flatten xs) → 1 ≤ length xs
length_of_flatten [] h = h
length_of_flatten (x ∷ xs) h = omega arith

and_true : (a b : Bool) → (a && b || false) ≡ true → a ≡ true
and_true true b h = refl
and_true false b h = cc

and_false : (a b : Bool) → (a && b || false) ≡ false → (a && b) ≡ false
and_false true true h = h
and_false true false h = refl
and_false false b h = refl

module _ {D : Type 0} ⦃src : DataSource D⦄ (file : FileSource src) where
  Fit-pending :
      (n : ℕ) (pending : Option (List ℕ)) (d : D) (item : List ℕ)
      → Fit n (left file pending d)
      → pending ≡ some item
      → 1 ≤ length item
  Fit-pending n none d item fit e = cc
  Fit-pending n (some x) d item fit e =
      subst (λ (z : List ℕ). 1 ≤ length z) (some-injective x item e) fit.0.0

  -- Where a round is not done, it has moved at least a byte.
  moved_some :
      (n : ℕ) (before : List (List ℕ)) (p : Packed D) (total : ℕ)
      → (mv : Moves file n [] before p) → Fit n before
      → (before ≡ [] → 1 ≤ total)
      → (p.ended && not (total == 0)) ≡ false
      → 1 ≤ length (flatten mv.moved)
  moved_some n before p total mv fit some_before e = elim (Bool-cases p.ended) [
    | inr open_end ↦ omega (arith, mv.filled open_end, ap length mv.bytes_eq)
    | inl ended ↦
        let all : mv.moved ≡ before =
          sym (append-nil mv.moved) ∙ ap (◌++◌ mv.moved) (sym (mv.last ended)) ∙ mv.split in
        rw all (
          has_bytes before fit (elim (Bool-cases (total == 0)) [
            | inl zero_total ↦
                λ none_left. absurd (omega (arith, some_before none_left, ==→eq total 0 zero_total))
            | inr some_total ↦ absurd (true≢false (rw (ended, some_total) at e))
          ]))
  ]
    where
      has_bytes : (its : List (List ℕ)) → Fit n its → its ≢ [] → 1 ≤ length (flatten its)
      has_bytes [] f h = absurd (h refl)
      has_bytes (x ∷ xs) f h = omega (arith, f.0.0, length-append x (flatten xs))

module _ {D G : Type 0} ⦃src : DataSource D⦄ ⦃seg : Segmenter G⦄ ⦃fmt : RingFormat⦄
    ⦃body : BodyFormat⦄ (c : Config) where
  send_round-result :
      (s : Sender D G) (p : Packed D) (code : ExitCode) (t : Sender D G)
      → pack (suc c.evt_buf_size) c.evt_buf_size [] s.pending s.source ≡ ok p
      → send_buffer c p.buffer (record s { source = p.source; pending = p.pending }) ≡ ok (code, t)
      → c.n_events ≡ 0
      → send_round c s ≡ ok (p.ended && not (s.total_bytes == 0) || false, t)
  unfolding send_round
  send_round-result s p code t packed sent all = rw (packed, sent, all) refl

module _ {D G : Type 0} ⦃src : DataSource D⦄ ⦃seg : Segmenter G⦄ ⦃fmt : RingFormat⦄
    ⦃body : BodyFormat⦄ (file : FileSource src) (c : Config) (naming : Naming c) where
  -- What a round makes of the items that are left: it packs some, and sends them. It is done only
  -- if nothing is left.
  pub record Round (before : List (List ℕ)) (s : Sender D G) (r : Bool × Sender D G) : Type 0 where
    pub moved : List (List ℕ)
    pub split : moved ++ left file r.1.pending r.1.source ≡ before
    pub sent_eq : sent_bytes r.1 ≡ sent_bytes s ++ flatten moved
    pub sending : IsSending c r.1
    pub total : r.1.total_bytes ≡ s.total_bytes + length (flatten moved)
    pub last : r.0 ≡ true → left file r.1.pending r.1.source ≡ []
    pub more : r.0 ≡ false → 1 ≤ length (flatten moved)
    pub number : ℕ
    pub is_number : naming.IsNumber s.send_count number
    pub event : Numbers number (flatten moved) s r.1

  pub send_round-Round :
      Queues seg
      → c.n_events ≡ 0
      → 1 ≤ c.evt_buf_size
      → (before : List (List ℕ)) (s : Sender D G) → left file s.pending s.source ≡ before
      → Fit c.evt_buf_size before
      → All naming.IsNamed before
      → s.total_bytes + length (flatten before) < 2 ^ 64
      → (before ≡ [] → 1 ≤ s.total_bytes)
      → IsSending c s
      → (r : Bool × Sender D G) × (send_round c s ≡ ok r) × Round before s r
  unfolding send_round
  send_round-Round queues all pos before s e fit names room some_before v =
      let n = c.evt_buf_size in
      let (p, packed, mv) =
        pack-Moves file (suc n) n [] s.pending s.source before e fit pos (omega arith)
          (omega arith) in
      let fit' : Fit n (left file p.pending p.source) =
        All-append_right _ mv.moved _ (subst (Fit n) (sym mv.split) fit) in
      let s' : Sender D G = record s { source = p.source; pending = p.pending } in
      let sizes : length (flatten mv.moved) + length (flatten (left file p.pending p.source))
          ≡ length (flatten before) =
        sym (length-append (flatten mv.moved) _)
        ∙ ap length (sym (flatten-append mv.moved _))
        ∙ ap (λ (z : List (List ℕ)). length (flatten z)) mv.split in
      let (number, named, is_number) =
        naming.named s.send_count mv.moved
          (All-append_left _ mv.moved _ (subst (All naming.IsNamed) (sym mv.split) names))
          (omega (arith, sizes, room)) in
      let (code, t, sent, source, pending, bytes, sending, total, event) =
        send_sent c queues number p.buffer s'
          (λ some. ap (event_number c s.send_count) mv.bytes_eq ∙ named) mv.fits
          (record {
            fits = v.fits;
            pending_some = λ item q. Fit-pending file n p.pending p.source item fit' q;
          }) in
      let same : left file t.pending t.source ≡ left file p.pending p.source =
        ap₂ (left file) pending source in
      let grown : t.total_bytes ≡ s.total_bytes + length (flatten mv.moved) =
        total (omega (arith, room, sizes, ap length mv.bytes_eq))
        ∙ ap (λ (z : List ℕ). s.total_bytes + length z) mv.bytes_eq in
      let done : Bool = p.ended && not (s.total_bytes == 0) in
      (
        (done || false, t),
        send_round-result c s p code t packed sent all,
        record {
          moved = mv.moved;
          split = ap (◌++◌ mv.moved) same ∙ mv.split;
          sent_eq = bytes ∙ ap (◌++◌ (sent_bytes s)) mv.bytes_eq;
          sending = sending;
          total = grown;
          last = λ h. same ∙ mv.last (and_true p.ended (not (s.total_bytes == 0)) h);
          more = λ h.
              moved_some file n before p s.total_bytes mv fit some_before
                (and_false p.ended (not (s.total_bytes == 0)) h);
          number = number;
          is_number = is_number;
          event = subst (λ (z : List ℕ). Numbers number z s t) mv.bytes_eq event;
        },
      )

  -- The loop ends, and by then has sent all items.
  pub send_loop-ends_named :
      Queues seg
      → c.n_events ≡ 0
      → 1 ≤ c.evt_buf_size
      → (clock : ℕ → ℕ) (fuel i : ℕ) (before : List (List ℕ)) (s : Sender D G)
      → left file s.pending s.source ≡ before
      → Fit c.evt_buf_size before
      → All naming.IsNamed before
      → s.total_bytes + length (flatten before) < 2 ^ 64
      → (before ≡ [] → 1 ≤ s.total_bytes)
      → IsSending c s
      → length before < fuel
      → (t : Sender D G) × (send_loop fuel c clock i s ≡ ok (ExitCode.exit_success, t))
        × (sent_bytes t ≡ sent_bytes s ++ flatten before)
        × (left file t.pending t.source ≡ [])
        × IsSending c t
  unfolding send_loop
  send_loop-ends_named queues all pos clock zero i before s e fit names room sb v f =
      absurd (omega arith)
  send_loop-ends_named queues all pos clock (suc fuel) i before s e fit names room sb v f =
      let (r, run, rd) = send_round-Round queues all pos before s e fit names room sb v in
      let in_time : ltb (clock i + c.sleep_usec) (clock i) ≡ false =
        ge→ltb (clock i + c.sleep_usec) (clock i) (omega arith) in
      let rest = left file r.1.pending r.1.source in
      let sizes : length rd.moved + length rest ≡ length before =
        sym (length-append rd.moved rest) ∙ ap length rd.split in
      let bytes : length (flatten rd.moved) + length (flatten rest) ≡ length (flatten before) =
        sym (length-append (flatten rd.moved) _)
        ∙ ap length (sym (flatten-append rd.moved rest))
        ∙ ap (λ (z : List (List ℕ)). length (flatten z)) rd.split in
      elim (Bool-cases r.0) [
        | inl done ↦
            let moved : rd.moved ≡ before =
              sym (append-nil rd.moved) ∙ ap (◌++◌ rd.moved) (sym (rd.last done)) ∙ rd.split in
            (
              r.1,
              rw run (rw (in_time, done) refl),
              rd.sent_eq ∙ ap (λ (z : List (List ℕ)). sent_bytes s ++ flatten z) moved,
              rd.last done,
              rd.sending,
            )
        | inr more ↦
            let progress : 1 ≤ length rd.moved = length_of_flatten rd.moved (rd.more more) in
            let (t, run', sent, ended, sending) =
              send_loop-ends_named queues all pos clock fuel (i + 1) rest r.1 refl
                (All-append_right _ rd.moved rest (subst (Fit c.evt_buf_size) (sym rd.split) fit))
                (All-append_right _ rd.moved rest (subst (All naming.IsNamed) (sym rd.split) names))
                (omega (arith, room, rd.total, bytes)) (λ x. omega (arith, rd.total, rd.more more))
                rd.sending (omega (arith, sizes, progress, f)) in
            (
              t,
              rw run (rw (in_time, more) run'),
              sent
                  ∙ ap (λ (z : List ℕ). z ++ flatten rest) rd.sent_eq
                  ∙ append_assoc (sent_bytes s) (flatten rd.moved) (flatten rest)
                  ∙ ap (◌++◌ (sent_bytes s)) (sym (flatten-append rd.moved rest))
                  ∙ ap (λ (z : List (List ℕ)). sent_bytes s ++ flatten z) rd.split,
              ended,
              sending,
            )
      ]

module _ {D G : Type 0} ⦃src : DataSource D⦄ ⦃seg : Segmenter G⦄ ⦃fmt : RingFormat⦄
    ⦃body : BodyFormat⦄ (file : FileSource src) (c : Config) where
  -- Reading a file with no limit on the number of buffers, with the event counter as the event
  -- number, a Segmenter that takes every buffer, and items that have a byte and fit into a buffer:
  -- if there is something to send, the send loop ends with success within one round more than
  -- there are items. By then it has sent all bytes of the items, in order, and nothing is pending
  -- or left in the file.
  pub send_loop-ends :
      Queues seg
      → c.use_ct ≡ true
      → c.n_events ≡ 0
      → 1 ≤ c.evt_buf_size
      → (clock : ℕ → ℕ) (fuel i : ℕ) (before : List (List ℕ)) (s : Sender D G)
      → left file s.pending s.source ≡ before
      → Fit c.evt_buf_size before
      → s.total_bytes + length (flatten before) < 2 ^ 64
      → (before ≡ [] → 1 ≤ s.total_bytes)
      → IsSending c s
      → length before < fuel
      → (t : Sender D G) × (send_loop fuel c clock i s ≡ ok (ExitCode.exit_success, t))
        × (sent_bytes t ≡ sent_bytes s ++ flatten before)
        × (left file t.pending t.source ≡ [])
        × IsSending c t
  send_loop-ends queues counts all pos clock fuel i before s e fit room sb v f =
      send_loop-ends_named file c (counting c counts) queues all pos clock fuel i before s e fit
        (All-unit before) room sb v f
