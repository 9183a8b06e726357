-- ===== src/Sender/Laws.antt =====
-- The send loop: what is sent, and when it ends.
use mathlib.Core.List.{append_assoc, append-nil, map-append}
use mathlib.Core.Path.{subst, ap₂}
use mathlib.Core.Option.{some-injective}
use frib_e2sar.Base.{
  ℕ, zero, suc, ◌+◌, ◌^◌, ◌≤◌, ◌<◌, ◌≡◌, refl, sym, ap, ◌∙◌, ◌⊎◌, inl, inr, List, [], ◌∷◌, ◌++◌,
  Option, none, some, map, not, ◌&&◌, ◌||◌, Bool, true, false, Error, ok, err, ltb, lt→ltb, ge→ltb,
  ◌==◌, ne→==, Bool-cases, length, flatten, flatten-append, All, All-append, arith,
}
use frib_e2sar.Base.Words.{add_u64, add_u64_of_lt}
use frib_e2sar.RingItem.{RingFormat}
use frib_e2sar.Sender.{
  DataSource, Segmenter, Config, Sender, ExitCode, pack, next_item, event_number, queue_buffer,
  send_buffer, send_round, send_loop,
}
use frib_e2sar.Sender.Timestamp.{BodyFormat}
use frib_e2sar.Sender.Packing.{bytes_of, NonemptyItems, Yields, Yields-append, pack-Packs}

pack-oversize :
    {D : Type 0} ⦃src : DataSource D⦄ (fuel n : ℕ) (pending : Option (List ℕ)) (item : List ℕ)
    (d : D)
    → pending ≡ some item
    → 0 < n
    → n < length item
    → pack (suc fuel) n [] pending d
      ≡ ok (record { buffer = []; pending = some item; source = d; ended = false })
unfolding pack next_item
pack-oversize fuel n none item d e pos large = cc
pack-oversize fuel n (some x) item d e pos large =
    let same : x ≡ item = some-injective _ _ e in
    rw (lt→ltb 0 n pos, same, lt→ltb n (0 + length item) (omega (arith, large))) refl

module _ {D G : Type 0} ⦃src : DataSource D⦄ ⦃seg : Segmenter G⦄ ⦃fmt : RingFormat⦄
    ⦃body : BodyFormat⦄ (c : Config) where
  -- An item larger than an event buffer stays pending, and a round with it sends nothing.
  pub send_round-oversize :
      (s : Sender D G) (item : List ℕ)
      → s.pending ≡ some item
      → 0 < c.evt_buf_size
      → c.evt_buf_size < length item
      → send_round c s
        ≡ ok (
          not (c.n_events == 0) && (s.send_count == c.n_events),
          record s { held = s.held + 1; pending = some item },
        )
  unfolding send_round send_buffer
  send_round-oversize s item e pos large =
      rw (pack-oversize c.evt_buf_size c.evt_buf_size s.pending item s.source e pos large) refl

-- The Segmenter takes every buffer.
abbrev pub Queues : {G : Type 0} → Segmenter G → Type 0
Queues {G} seg = (b : List ℕ) (n id : ℕ) (g : G) → (seg.add_to_send_queue b n id g).0 ≡ true

-- All bytes on their way to the Segmenter, sent and pending, in order.
abbrev pub stream : {D G : Type 0} → Sender D G → List ℕ
stream s = flatten (map (λ (x : ℕ × List ℕ). x.1) s.sent) ++ bytes_of s.pending

module _ {D G : Type 0} ⦃src : DataSource D⦄ ⦃seg : Segmenter G⦄ where
  -- Each buffer that was sent has data and fits, and the pending item has at least one byte.
  pub record IsSending (c : Config) (s : Sender D G) : Type 0 where
    pub fits : All (λ (x : ℕ × List ℕ). (1 ≤ length x.1) × (length x.1 ≤ c.evt_buf_size)) s.sent
    pub pending_some : (item : List ℕ) → s.pending ≡ some item → 1 ≤ length item

  -- From one state to another the source has given items, and their bytes are in the stream
  -- behind those before.
  pub record Sends (c : Config) (s t : Sender D G) : Type 0 where
    pub items : List (List ℕ)
    pub yields : Yields s.source items t.source
    pub stream_eq : stream s ++ flatten items ≡ stream t
    pub sending : IsSending c t

-- No event, for an empty buffer, or one with the number.
abbrev pub Numbers : {D G : Type 0} → ℕ → List ℕ → Sender D G → Sender D G → Type 0
Numbers number buffer s t =
    ((t.sent ≡ s.sent) × (t.send_count ≡ s.send_count))
    ⊎ ((1 ≤ length buffer)
        × (t.sent ≡ s.sent ++ (number, buffer) ∷ [])
        × (t.send_count ≡ add_u64 s.send_count 1))

module _ ⦃fmt : RingFormat⦄ ⦃body : BodyFormat⦄ (c : Config) where
  -- The event counter as the event number.
  pub event_number-count :
      c.use_ct ≡ true → (n : ℕ) (buffer : List ℕ) → event_number c n buffer ≡ ok n
  unfolding event_number
  event_number-count counts n buffer = rw counts refl

module _ {D G : Type 0} ⦃src : DataSource D⦄ ⦃seg : Segmenter G⦄ ⦃fmt : RingFormat⦄
    ⦃body : BodyFormat⦄ (c : Config) where
  -- What `sendBuffer` makes of a buffer that fits, with its event number.
  pub send_sent :
      Queues seg
      → (number : ℕ) (buffer : List ℕ) (s : Sender D G)
      → (1 ≤ length buffer → event_number c s.send_count buffer ≡ ok number)
      → length buffer ≤ c.evt_buf_size
      → IsSending c s
      → (code : ExitCode) × (t : Sender D G) × (send_buffer c buffer s ≡ ok (code, t))
        × (t.source ≡ s.source)
        × (t.pending ≡ s.pending)
        × (flatten (map (λ (x : ℕ × List ℕ). x.1) t.sent)
            ≡ flatten (map (λ (x : ℕ × List ℕ). x.1) s.sent) ++ buffer)
        × IsSending c t
        × (s.total_bytes + length buffer < 2 ^ 64 → t.total_bytes ≡ s.total_bytes + length buffer)
        × Numbers number buffer s t
  unfolding send_buffer queue_buffer
  send_sent queues number [] s named fits v = (
    _,
    _,
    refl,
    refl,
    refl,
    sym (append-nil _),
    record { fits = v.fits; pending_some = v.pending_some },
    (λ h. omega arith),
    inl (refl, refl),
  )
  send_sent queues number (b ∷ bs) s named fits v =
      let q = queues (b ∷ bs) number c.data_id s.segmenter in
      (
        ExitCode.exit_success,
        record s {
          segmenter = (seg.add_to_send_queue (b ∷ bs) number c.data_id s.segmenter).1;
          total_bytes = add_u64 s.total_bytes (length (b ∷ bs));
          send_count = add_u64 s.send_count 1;
          sent = s.sent ++ (number, b ∷ bs) ∷ [];
        },
        rw (ne→== (length (b ∷ bs)) 0 (omega arith), named (omega arith), q) refl,
        refl,
        refl,
        ap flatten (map-append (λ (x : ℕ × List ℕ). x.1) s.sent _)
            ∙ flatten-append (map (λ (x : ℕ × List ℕ). x.1) s.sent) _
            ∙ ap (◌++◌ (flatten (map (λ (x : ℕ × List ℕ). x.1) s.sent))) (append-nil (b ∷ bs)),
        record {
          fits = All-append _ s.sent _ v.fits ((omega arith, fits), tt);
          pending_some = v.pending_some;
        },
        (λ h. add_u64_of_lt s.total_bytes (length (b ∷ bs)) h),
        inr (omega arith, refl, refl),
      )

  -- With the event counter as the event number and a Segmenter that takes every buffer, a round
  -- of the send loop goes through. The source has given some items; the bytes of all buffers sent
  -- and of the pending item are those before, followed by those of the items, in order; and each
  -- buffer that was sent holds data and no more than the event buffer's size.
  pub send_round-Sends :
      Queues seg
      → NonemptyItems src
      → c.use_ct ≡ true
      → (s : Sender D G) → IsSending c s
      → (r : Bool × Sender D G) × (send_round c s ≡ ok r) × Sends c s r.1
  unfolding send_round
  send_round-Sends queues nonempty counts s v =
      let (p, packed, packs) =
        pack-Packs nonempty (suc c.evt_buf_size) c.evt_buf_size [] s.pending s.source (omega arith)
          v.pending_some (omega arith) in
      let s' : Sender D G = record s { source = p.source; pending = p.pending } in
      let (code, t, sent, source, pending, bytes, sending, _, _) =
        send_sent queues s'.send_count p.buffer s'
          (λ some. event_number-count c counts s'.send_count p.buffer) packs.fits
          (record { fits = v.fits; pending_some = packs.pending_some }) in
      let before = flatten (map (λ (x : ℕ × List ℕ). x.1) s.sent) in
      (
        (
          (p.ended && not (s.total_bytes == 0))
              || (not (c.n_events == 0) && (t.send_count == c.n_events)),
          t,
        ),
        rw packed (rw sent refl),
        record {
          items = packs.items;
          yields = subst (Yields s.source packs.items) (sym source) packs.yields;
          stream_eq =
              append_assoc before (bytes_of s.pending) (flatten packs.items)
              ∙ ap (◌++◌ before) packs.bytes_eq
              ∙ sym (append_assoc before p.buffer (bytes_of p.pending))
              ∙ ap₂ ◌++◌ (sym bytes) (ap bytes_of (sym pending));
          sending = sending;
        },
      )

  Sends-trans : {s t u : Sender D G} → Sends c s t → Sends c t u → Sends c s u
  Sends-trans {s} p q = record {
    items = p.items ++ q.items;
    yields = Yields-append p.yields q.yields;
    stream_eq =
        ap (◌++◌ (stream s)) (flatten-append p.items q.items)
        ∙ sym (append_assoc (stream s) (flatten p.items) (flatten q.items))
        ∙ ap (λ (z : List ℕ). z ++ flatten q.items) p.stream_eq
        ∙ q.stream_eq;
    sending = q.sending;
  }

  -- With the event counter as the event number, a Segmenter that takes every buffer and items of
  -- at least one byte, the send loop, given any number of rounds, either is still running when
  -- they are used up, or has ended with success; then all that was sent and what is pending are
  -- the bytes of the items that the source gave, in order, behind what was there before, and no
  -- buffer that was sent is empty or too large.
  pub send_loop-Sends :
      Queues seg
      → NonemptyItems src
      → c.use_ct ≡ true
      → (clock : ℕ → ℕ) (fuel i : ℕ) (s : Sender D G) → IsSending c s
      → (send_loop fuel c clock i s ≡ err Error.out_of_fuel)
        ⊎ ((t : Sender D G) × (send_loop fuel c clock i s ≡ ok (ExitCode.exit_success, t))
            × Sends c s t)
  unfolding send_loop
  send_loop-Sends queues nonempty counts clock zero i s v = inl refl
  send_loop-Sends queues nonempty counts clock (suc fuel) i s v =
      let (r, run, sends) = send_round-Sends queues nonempty counts s v in
      let in_time : ltb (clock i + c.sleep_usec) (clock i) ≡ false =
        ge→ltb (clock i + c.sleep_usec) (clock i) (omega arith) in
      let later = send_loop-Sends queues nonempty counts clock fuel (i + 1) r.1 sends.sending in
      elim (Bool-cases r.0) [
        | inl done ↦ inr (r.1, rw run (rw (in_time, done) refl), sends)
        | inr more ↦ elim later [
          | inl e ↦ inl (rw run (rw (in_time, more) e))
          | inr (t, e, rest) ↦ inr (t, rw run (rw (in_time, more) e), Sends-trans sends rest)
        ]
      ]
