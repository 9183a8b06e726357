-- ===== src/Sender/Pooled/Oversize.antt =====
-- A send loop with a pending item that no event buffer can take: its rounds use up the pool.
use frib_e2sar.Base.{
  ℕ, zero, suc, ◌+◌, ◌≤◌, ◌<◌, ◌≡◌, ◌⊎◌, inl, inr, refl, ◌∙◌, List, ◌∷◌, ◌++◌, some, false, not,
  ◌&&◌, ◌==◌, Error, ok, err, ne→==, length, arith,
}
use frib_e2sar.RingItem.{RingFormat}
use frib_e2sar.BufferedSink.{Fifo}
use frib_e2sar.BufferPool.{Allocator}
use frib_e2sar.BufferPool.Accounts.{Fresh, pop-Accounts}
use frib_e2sar.Sender.{DataSource, Segmenter, Config, Sender, send_round}
use frib_e2sar.Sender.Timestamp.{BodyFormat}
use frib_e2sar.Sender.Laws.{send_round-oversize}
use frib_e2sar.Sender.Pooled.{Pooled, after_send, pooled_round, pooled_rounds}
use frib_e2sar.Sender.Pooled.Owners.{IsOwned, kept-allocated, round-Takes}

module _ {D G : Type 0} ⦃src : DataSource D⦄ ⦃seg : Segmenter G⦄ ⦃fmt : RingFormat⦄
    ⦃body : BodyFormat⦄ (c : Config) where
  -- The item is pending, and the limit of `n_events` is not met.
  pub record IsBlocked (item : List ℕ) (s : Sender D G) : Type 0 where
    pub pending_eq : s.pending ≡ some item
    pub below : (not (c.n_events == 0) && (s.send_count == c.n_events)) ≡ false

  module _ {Q P : Type 0} ⦃fifo : Fifo Q ℕ⦄ ⦃alloc : Allocator P⦄ where
    -- Rounds that are not done, have read and sent nothing, and kept so many buffers more.
    pub record Stuck (item : List ℕ) (n : ℕ) (s t : Pooled D G Q P) : Type 0 where
      pub same_source : t.sender.source ≡ s.sender.source
      pub same_sent : t.sender.sent ≡ s.sender.sent
      pub same_flight : t.in_flight ≡ s.in_flight
      pub more_kept : length t.kept ≡ length s.kept + n
      pub still_blocked : IsBlocked item t.sender
      pub still_owned : IsOwned t
      pub allocated : n ≤ length (alloc.live t.pool.pool)

    pooled_round-Stuck :
        Fresh alloc
        → 0 < c.evt_buf_size
        → (item : List ℕ) → c.evt_buf_size < length item
        → (s : Pooled D G Q P) → IsBlocked item s.sender
        → IsOwned s
        → (pooled_round c s ≡ err Error.bad_alloc)
          ⊎ ((b : ℕ) × (t : Pooled D G Q P) × (pooled_round c s ≡ ok (b, false, t))
              × Stuck item 1 s t)
    unfolding pooled_round after_send
    pooled_round-Stuck fresh pos item large s i o =
        let held_up : Sender D G = record (s.sender) {
          held = s.sender.held + 1;
          pending = some item;
        } in
        let run : send_round c s.sender ≡ ok (false, held_up) =
          send_round-oversize c s.sender item i.pending_eq pos large ∙ rw i.below refl in
        elim (pop-Accounts s.pool (s.in_flight ++ s.kept) o.accounts) [
          | inl full ↦ inl (rw full refl)
          | inr (b, pool, found, a) ↦
              let t : Pooled D G Q P = record s {
                sender = held_up;
                pool = pool;
                kept = b ∷ s.kept;
              } in
              let done : pooled_round c s ≡ ok (b, false, t) =
                rw (found, run, ne→== (s.sender.held + 1) s.sender.held (λ e. omega (arith, e)))
                  refl in
              let owned = (round-Takes c fresh s (b, false, t) done o).owned in
              let more : length t.kept ≡ length s.kept + 1 = omega arith in
              inr (
                b,
                t,
                done,
                record {
                  same_source = refl;
                  same_sent = refl;
                  same_flight = refl;
                  more_kept = more;
                  still_blocked = record { pending_eq = refl; below = i.below };
                  still_owned = owned;
                  allocated = kept-allocated t 1 owned (omega (arith, more));
                },
              )
        ]

    Stuck-trans :
        {item : List ℕ} {n : ℕ} {s t u : Pooled D G Q P}
        → Stuck item 1 s t
        → Stuck item n t u
        → Stuck item (suc n) s u
    Stuck-trans {n = n} {s = s} {u = u} p q =
        let more : length u.kept ≡ length s.kept + suc n =
          omega (arith, q.more_kept, p.more_kept) in
        record {
          same_source = q.same_source ∙ p.same_source;
          same_sent = q.same_sent ∙ p.same_sent;
          same_flight = q.same_flight ∙ p.same_flight;
          more_kept = more;
          still_blocked = q.still_blocked;
          still_owned = q.still_owned;
          allocated = kept-allocated u (suc n) q.still_owned (omega (arith, more));
        }

    -- With a pending item larger than the event buffer, a limit on the number of events that is
    -- not met, and every buffer owned by the pool, in flight or kept: any number of rounds of the
    -- send loop ends with `bad_alloc` or is not done. The item is then still pending, nothing more
    -- has been read or sent, and each of the rounds has taken a buffer that no one gives back, so
    -- that at least as many are allocated.
    pub pooled_rounds-Stuck :
        Fresh alloc
        → 0 < c.evt_buf_size
        → (item : List ℕ) → c.evt_buf_size < length item
        → (n : ℕ) (s : Pooled D G Q P) → IsBlocked item s.sender
        → IsOwned s
        → (pooled_rounds n c s ≡ err Error.bad_alloc)
          ⊎ ((t : Pooled D G Q P) × (pooled_rounds n c s ≡ ok (false, t)) × Stuck item n s t)
    unfolding pooled_rounds
    pooled_rounds-Stuck fresh pos item large zero s i o = inr (
      s,
      refl,
      record {
        same_source = refl;
        same_sent = refl;
        same_flight = refl;
        more_kept = omega arith;
        still_blocked = i;
        still_owned = o;
        allocated = omega arith;
      },
    )
    pooled_rounds-Stuck fresh pos item large (suc n) s i o =
        elim (pooled_round-Stuck fresh pos item large s i o) [
          | inl full ↦ inl (rw full refl)
          | inr (b, t, run, st) ↦
              elim (pooled_rounds-Stuck fresh pos item large n t st.still_blocked st.still_owned) [
                | inl full ↦ inl (rw run full)
                | inr (u, rest, w) ↦ inr (u, rw run rest, Stuck-trans st w)
              ]
        ]
