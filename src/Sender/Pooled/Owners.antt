-- ===== src/Sender/Pooled/Owners.antt =====
-- Who owns the event buffers: the pool, the Segmenter, or no one.
use mathlib.Core.List.{Perm, Mem, Nodup, Nodup-cons, Nodup-append, mem-append_left, perm_middle}
use mathlib.Core.List.Perm
use mathlib.Core.Path.{subst}
use frib_e2sar.Base.{
  ℕ, suc, ◌+◌, ◌≤◌, length-Perm, ◌≡◌, ◌⊎◌, inl, inr, refl, sym, ap, ◌∙◌, List, [], ◌∷◌, ◌++◌, Bool,
  ok, >>=-eq-ok, ok-injective, ◌==◌, Bool-cases, eq→==, ne→==, length, length-append, arith,
}
use frib_e2sar.RingItem.{RingFormat}
use frib_e2sar.BufferedSink.{Fifo}
use frib_e2sar.BufferPool.{Allocator, BufferPool, pop}
use frib_e2sar.BufferPool.Accounts.{
  Accounts, pop-Accounts, push-Accounts, pop-Nodup, push-Nodup, Fresh,
}
use frib_e2sar.Sender.{
  DataSource, Segmenter, Config, Sender, ExitCode, Packed, pack, send_round, send_buffer,
  event_number, queue_buffer,
}
use frib_e2sar.Sender.Timestamp.{BodyFormat}
use frib_e2sar.Sender.Pooled.{Pooled, after_send, pooled_round, release_to_pool}

-- A buffer was queued, or one more is held.
abbrev pub Queued : {D G : Type 0} → Sender D G → Sender D G → Type 0
Queued s t =
    ((t.held ≡ s.held) × (length t.sent ≡ length s.sent + 1))
    ⊎ ((t.held ≡ s.held + 1) × (t.sent ≡ s.sent))

module _ {D G : Type 0} ⦃src : DataSource D⦄ ⦃seg : Segmenter G⦄ ⦃fmt : RingFormat⦄
    ⦃body : BodyFormat⦄ (c : Config) where
  queue_buffer-Queued :
      (buffer : List ℕ) (n : ℕ) (s : Sender D G) → Queued s (queue_buffer c buffer n s).1
  unfolding queue_buffer
  queue_buffer-Queued buffer n s =
      elim (Bool-cases (seg.add_to_send_queue buffer n c.data_id s.segmenter).0) [
        | inl queued ↦ inl (rw queued refl, rw queued (length-append s.sent _))
        | inr refused ↦ inr (rw refused refl, rw refused refl)
      ]

  send_buffer-Queued :
      (buffer : List ℕ) (s : Sender D G) (r : ExitCode × Sender D G)
      → send_buffer c buffer s ≡ ok r
      → Queued s r.1
  unfolding send_buffer
  send_buffer-Queued buffer s r run = elim (Bool-cases (length buffer == 0)) [
    | inl none_there ↦
        subst (λ (x : ExitCode × Sender D G). Queued s x.1) (ok-injective (rw none_there at run))
          (inr (refl, refl))
    | inr some_there ↦
        let (n, stamp, e) =
          >>=-eq-ok (event_number c s.send_count buffer)
            (λ number. ok (queue_buffer c buffer number s)) (rw some_there at run) in
        subst (λ (x : ExitCode × Sender D G). Queued s x.1) (ok-injective e)
          (queue_buffer-Queued buffer n s)
  ]

  pub send_round-Queued :
      (s : Sender D G) (r : Bool × Sender D G) → send_round c s ≡ ok r → Queued s r.1
  unfolding send_round
  send_round-Queued s r run =
      let n = c.evt_buf_size in
      let (packed, packs, more) =
        >>=-eq-ok {R = Packed D} (pack (suc n) n [] s.pending s.source) _ run in
      let s' : Sender D G = record s { source = packed.source; pending = packed.pending } in
      let (t, sends, e) =
        >>=-eq-ok {R = ExitCode × Sender D G} (send_buffer c packed.buffer s') _ more in
      subst (λ (x : Bool × Sender D G). Queued s x.1) (ok-injective e)
        (send_buffer-Queued packed.buffer s' t sends)

module _ {D G Q P : Type 0} ⦃fifo : Fifo Q ℕ⦄ ⦃alloc : Allocator P⦄ where
  -- Each allocated buffer is in the pool's queue, in flight or kept, in one place only; those kept
  -- are counted by `held`; and each buffer that was queued is in flight or was given back.
  pub record IsOwned (s : Pooled D G Q P) : Type 0 where
    pub accounts : Accounts s.pool (s.in_flight ++ s.kept)
    pub once : Nodup (alloc.live s.pool.pool)
    pub kept_eq : length s.kept ≡ s.sender.held
    pub sent_eq : length s.sender.sent ≡ length s.in_flight + s.returned

  -- The buffers that the sender keeps are all allocated.
  pub kept-allocated :
      (u : Pooled D G Q P) (m : ℕ)
      → IsOwned u
      → m ≤ length u.kept
      → m ≤ length (alloc.live u.pool.pool)
  kept-allocated u m owned h = omega (
    arith,
    length-Perm owned.accounts,
    length-append (fifo.contents u.pool.queue) (u.in_flight ++ u.kept),
    length-append u.in_flight u.kept,
    h,
  )

module _ {D G Q P : Type 0} ⦃src : DataSource D⦄ ⦃seg : Segmenter G⦄ ⦃fmt : RingFormat⦄
    ⦃body : BodyFormat⦄ ⦃fifo : Fifo Q ℕ⦄ ⦃alloc : Allocator P⦄ (c : Config) where
  -- A round of the send loop, or a callback for one of the buffers in flight.
  pub data Step (s : Pooled D G Q P) : Pooled D G Q P → Type 0 where
    round : {r : ℕ × Bool × Pooled D G Q P} → pooled_round c s ≡ ok r → Step s r.2
    callback :
        (p : ℕ) (before behind : List ℕ)
        → s.in_flight ≡ before ++ p ∷ behind
        → Step s (release_to_pool p (before ++ behind) s)

  pub data Reach (s : Pooled D G Q P) : Pooled D G Q P → Type 0 where
    here : Reach s s
    next : {t u : Pooled D G Q P} → Reach s t → Step t u → Reach s u

  -- What a round does: it takes a buffer that no one has, and keeps the owners.
  pub record Takes (s : Pooled D G Q P) (r : ℕ × Bool × Pooled D G Q P) : Type 0 where
    pub unused : ¬ Mem r.0 (s.in_flight ++ s.kept)
    pub owned : IsOwned r.2

  after_send-IsOwned :
      (b : ℕ) (pool : BufferPool Q P) (t : Sender D G) (s : Pooled D G Q P)
      → Accounts pool (b ∷ (s.in_flight ++ s.kept))
      → Nodup (alloc.live pool.pool)
      → Queued s.sender t
      → IsOwned s
      → IsOwned (after_send b pool t s)
  unfolding after_send
  after_send-IsOwned b pool t s acc once (inl (same, more)) o =
      rw (eq→== t.held s.sender.held same) (record {
        accounts = acc;
        once = once;
        kept_eq = o.kept_eq ∙ sym same;
        sent_eq = omega (arith, more, o.sent_eq);
      })
  after_send-IsOwned b pool t s acc once (inr (one_more, same)) o =
      rw (ne→== t.held s.sender.held (λ e. omega (arith, one_more, e))) (record {
        accounts =
            Perm.trans
              (Perm.append_left (fifo.contents pool.queue) (perm_middle s.in_flight s.kept)) acc;
        once = once;
        kept_eq = omega (arith, one_more, o.kept_eq);
        sent_eq = ap length same ∙ o.sent_eq;
      })

  pub round-Takes :
      Fresh alloc
      → (s : Pooled D G Q P) (r : ℕ × Bool × Pooled D G Q P) → pooled_round c s ≡ ok r
      → IsOwned s
      → Takes s r
  unfolding pooled_round
  round-Takes fresh s r run o =
      let (popped, pops, more) = >>=-eq-ok {R = ℕ × BufferPool Q P} (pop s.pool) _ run in
      let (t, sends, e) = >>=-eq-ok {R = Bool × Sender D G} (send_round c s.sender) _ more in
      let once = pop-Nodup fresh s.pool popped pops o.once in
      let acc : Accounts popped.1 (popped.0 ∷ (s.in_flight ++ s.kept)) =
        elim (pop-Accounts s.pool (s.in_flight ++ s.kept) o.accounts) [
          | inl full ↦ let bad = sym full ∙ pops in cc
          | inr (b, pool, found, a) ↦
              subst (λ (x : ℕ × BufferPool Q P). Accounts x.1 (x.0 ∷ (s.in_flight ++ s.kept)))
                (ok-injective (sym found ∙ pops)) a
        ] in
      let apart : Nodup (popped.0 ∷ (s.in_flight ++ s.kept)) =
        (Nodup-append.0 (Perm.nodup (Perm.symm acc) once)).1 in
      subst (Takes s) (ok-injective e) (record {
        unused = (Nodup-cons.0 apart).0;
        owned =
            after_send-IsOwned popped.0 popped.1 t.1 s acc once
              (send_round-Queued c s.sender t sends) o;
      })

  callback-IsOwned :
      (p : ℕ) (before behind : List ℕ) (s : Pooled D G Q P)
      → s.in_flight ≡ before ++ p ∷ behind
      → IsOwned s
      → IsOwned (release_to_pool p (before ++ behind) s)
  unfolding release_to_pool
  callback-IsOwned p before behind s e o =
      let front : Perm (p ∷ ((before ++ behind) ++ s.kept)) (s.in_flight ++ s.kept) =
        rw e (Perm.append_right s.kept (Perm.symm (perm_middle before behind))) in
      let acc : Accounts s.pool (p ∷ ((before ++ behind) ++ s.kept)) =
        Perm.trans (Perm.append_left (fifo.contents s.pool.queue) front) o.accounts in
      record {
        accounts = push-Accounts p s.pool _ acc;
        once = push-Nodup p s.pool _ acc o.once;
        kept_eq = o.kept_eq;
        sent_eq = omega (
          arith,
          o.sent_eq,
          ap length e,
          length-append before (p ∷ behind),
          length-append before behind,
        );
      }

  Step-IsOwned : Fresh alloc → {s t : Pooled D G Q P} → Step s t → IsOwned s → IsOwned t
  Step-IsOwned fresh {s} (round {r} run) o = (round-Takes fresh s r run o).owned
  Step-IsOwned fresh {s} (callback p before behind e) o = callback-IsOwned p before behind s e o

  -- However rounds and callbacks come in turn: each allocated buffer stays in the queue of the
  -- pool, in flight or kept by no one, in one place only; as many are kept as `held` counts; and
  -- each buffer that was queued is in flight or was given back. This holds from a state on where it
  -- holds, if the allocator gives no memory that is allocated.
  pub Reach-IsOwned : Fresh alloc → {s t : Pooled D G Q P} → Reach s t → IsOwned s → IsOwned t
  Reach-IsOwned fresh here o = o
  Reach-IsOwned fresh (next r st) o = Step-IsOwned fresh st (Reach-IsOwned fresh r o)

  -- In every state reached from such a state, the buffer that the next round of the send loop
  -- fills is none of those that the Segmenter still has to send.
  pub Reach-unused :
      Fresh alloc
      → {s t : Pooled D G Q P} {r : ℕ × Bool × Pooled D G Q P} → IsOwned s
      → Reach s t
      → pooled_round c t ≡ ok r
      → ¬ Mem r.0 t.in_flight
  Reach-unused fresh {t = t} {r} o reached run there =
      (round-Takes fresh t r run (Reach-IsOwned fresh reached o)).unused
        (mem-append_left t.kept there)
