-- ===== src/Sender/Pooled/Idle.antt =====
-- A send loop that finds no data: its rounds use up the pool.
use frib_e2sar.Base.{
  ℕ, zero, suc, ◌+◌, ◌≤◌, ◌<◌, ◌≡◌, ◌⊎◌, inl, inr, refl, ap, ◌∙◌, List, [], ◌∷◌, ◌++◌, Option, none,
  false, Error, ok, err, lt→ltb, ne→==, first_eq, second_eq, length, arith,
}
use frib_e2sar.RingItem.{RingFormat}
use frib_e2sar.BufferedSink.{Fifo}
use frib_e2sar.BufferPool.{Allocator}
use frib_e2sar.BufferPool.Accounts.{Fresh, pop-Accounts}
use frib_e2sar.Sender.{
  DataSource, Segmenter, Config, Sender, send_round, send_buffer, pack, next_item,
}
use frib_e2sar.Sender.Timestamp.{BodyFormat}
use frib_e2sar.Sender.Filling.{FileSource}
use frib_e2sar.Sender.Pooled.{Pooled, after_send, pooled_round, pooled_rounds}
use frib_e2sar.Sender.Pooled.Owners.{IsOwned, kept-allocated, round-Takes}

module _ {D G : Type 0} ⦃src : DataSource D⦄ ⦃seg : Segmenter G⦄ ⦃fmt : RingFormat⦄
    ⦃body : BodyFormat⦄ (file : FileSource src) (c : Config) where
  -- Nothing was sent, and nothing is left.
  pub record IsIdle (s : Sender D G) : Type 0 where
    pub none_left : file.remaining s.source ≡ []
    pub none_pending : s.pending ≡ none
    pub none_sent : s.total_bytes ≡ 0

  send_round-IsIdle :
      (s : Sender D G)
      → 0 < c.evt_buf_size
      → c.n_events ≡ 0
      → IsIdle s
      → (t : Sender D G) × (send_round c s ≡ ok (false, t)) × (t.held ≡ s.held + 1) × IsIdle t
  unfolding send_round pack next_item send_buffer
  send_round-IsIdle s pos all i =
      let (d, gives, rest) = file.next_none s.source i.none_left in
      let empty : next_item s.pending s.source ≡ (none, d) =
        ap (λ (p : Option (List ℕ)). next_item p s.source) i.none_pending ∙ gives in
      (
        record s { source = d; pending = none; held = s.held + 1 },
        rw (lt→ltb 0 c.evt_buf_size pos, first_eq empty, second_eq empty, i.none_sent, all) refl,
        refl,
        record { none_left = rest; none_pending = refl; none_sent = i.none_sent },
      )

  module _ {Q P : Type 0} ⦃fifo : Fifo Q ℕ⦄ ⦃alloc : Allocator P⦄ where
    -- Rounds that are not done, have put nothing in flight, and kept so many buffers more.
    pub record Wasted (n : ℕ) (s t : Pooled D G Q P) : Type 0 where
      pub same_flight : t.in_flight ≡ s.in_flight
      pub more_kept : length t.kept ≡ length s.kept + n
      pub still_idle : IsIdle t.sender
      pub still_owned : IsOwned t
      pub allocated : n ≤ length (alloc.live t.pool.pool)

    pooled_round-Kept :
        (s : Pooled D G Q P)
        → 0 < c.evt_buf_size
        → c.n_events ≡ 0
        → IsIdle s.sender
        → IsOwned s
        → (pooled_round c s ≡ err Error.bad_alloc)
          ⊎ ((b : ℕ) × (t : Pooled D G Q P) × (pooled_round c s ≡ ok (b, false, t))
              × (t.in_flight ≡ s.in_flight)
              × (t.kept ≡ b ∷ s.kept)
              × IsIdle t.sender)
    unfolding pooled_round after_send
    pooled_round-Kept s pos all i o =
        let (t, run, held, idle) = send_round-IsIdle s.sender pos all i in
        elim (pop-Accounts s.pool (s.in_flight ++ s.kept) o.accounts) [
          | inl full ↦ inl (rw full refl)
          | inr (b, pool, found, a) ↦ inr (
            b,
            record s { sender = t; pool = pool; kept = b ∷ s.kept },
            rw (found, run, ne→== t.held s.sender.held (λ e. omega (arith, held, e))) refl,
            refl,
            refl,
            idle,
          )
        ]

    -- A file with no data, before anything was sent, with no limit on the number of buffers: any
    -- number of rounds of the send loop ends with `bad_alloc` or is not done. Each of the rounds
    -- has taken a buffer that no one gives back, so that at least as many are allocated.
    pub pooled_rounds-Wasted :
        Fresh alloc
        → 0 < c.evt_buf_size
        → c.n_events ≡ 0
        → (n : ℕ) (s : Pooled D G Q P) → IsIdle s.sender
        → IsOwned s
        → (pooled_rounds n c s ≡ err Error.bad_alloc)
          ⊎ ((t : Pooled D G Q P) × (pooled_rounds n c s ≡ ok (false, t)) × Wasted n s t)
    unfolding pooled_rounds
    pooled_rounds-Wasted fresh pos all zero s i o = inr (
      s,
      refl,
      record {
        same_flight = refl;
        more_kept = omega arith;
        still_idle = i;
        still_owned = o;
        allocated = omega arith;
      },
    )
    pooled_rounds-Wasted fresh pos all (suc n) s i o = elim (pooled_round-Kept s pos all i o) [
      | inl full ↦ inl (rw full refl)
      | inr (b, t, run, flight, kept, idle) ↦
          let owned = (round-Takes c fresh s (b, false, t) run o).owned in
          elim (pooled_rounds-Wasted fresh pos all n t idle owned) [
            | inl full ↦ inl (rw run full)
            | inr (u, rest, w) ↦
                let more : length u.kept ≡ length s.kept + suc n =
                  omega (arith, w.more_kept, ap length kept) in
                inr (
                  u,
                  rw run rest,
                  record {
                    same_flight = w.same_flight ∙ flight;
                    more_kept = more;
                    still_idle = w.still_idle;
                    still_owned = w.still_owned;
                    allocated = kept-allocated u (suc n) w.still_owned (omega (arith, more));
                  },
                )
          ]
    ]
