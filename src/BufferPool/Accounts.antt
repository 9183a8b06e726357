-- ===== src/BufferPool/Accounts.antt =====
-- Every buffer that is allocated is in the queue or handed out, once.
use mathlib.Core.List.{Perm, Mem, Nodup, Nodup-cons, mem-cons_self, append_assoc, perm_middle}
use mathlib.Core.List.Perm
use mathlib.Core.Path.{subst}
use frib_e2sar.Base.{
  ℕ, zero, suc, ◌≡◌, ◌⊎◌, inl, inr, refl, ap, List, [], ◌∷◌, ◌++◌, ◌<◌, length, arith, Error, ok,
  err, Bool-cases, Option-cases, some, ok-injective,
}
use frib_e2sar.BufferedSink.{Fifo}
use frib_e2sar.BufferPool.{
  Allocator, BufferPool, malloc_buffer, pop, push_retry, push, retry_attempts, release_queue,
  destroy,
}

-- Memory that `malloc` gives is not allocated yet.
abbrev pub Fresh : {P : Type 0} → Allocator P → Type 0
Fresh {P} alloc = (p p' : P) (b : ℕ) → alloc.malloc p ≡ (some b, p') → ¬ Mem b (alloc.live p)

module _ {Q P : Type 0} ⦃fifo : Fifo Q ℕ⦄ ⦃alloc : Allocator P⦄ where
  -- The allocated buffers are those in the queue and those handed out.
  abbrev pub Accounts : BufferPool Q P → List ℕ → Type 0
  Accounts s out = Perm (fifo.contents s.queue ++ out) (alloc.live s.pool)

  -- What `pop` does: it finds no memory, or gives a buffer.
  abbrev pub Popped : BufferPool Q P → List ℕ → Type 0
  Popped s out =
      (pop s ≡ err Error.bad_alloc)
      ⊎ ((b : ℕ) × (t : BufferPool Q P) × (pop s ≡ ok (b, t)) × Accounts t (b ∷ out))

  pop-empty :
      (s : BufferPool Q P) (out : List ℕ)
      → Accounts s out
      → fifo.contents s.queue ≡ []
      → Popped s out
  unfolding pop malloc_buffer
  pop-empty s out h none_there =
      let gone = fifo.pop_empty s.queue none_there in
      elim (Option-cases (alloc.malloc s.pool).0) [
        | inl full ↦ inl (rw (pop, gone, malloc_buffer, full) refl)
        | inr (b, got) ↦ inr (
          b,
          record s { pool = (alloc.malloc s.pool).1 },
          rw (pop, gone, malloc_buffer, got) refl,
          Perm.trans (rw none_there (Perm.cons b (rw none_there at h))) (
              alloc.malloc_some s.pool (alloc.malloc s.pool).1 b
                (ap (λ o. (o, (alloc.malloc s.pool).1)) got)),
        )
      ]

  pop-first :
      (s : BufferPool Q P) (out : List ℕ) (a : ℕ) (rest : List ℕ)
      → Accounts s out
      → fifo.contents s.queue ≡ a ∷ rest
      → Popped s out
  unfolding pop
  pop-first s out a rest h there =
      let (q, got, left) = fifo.pop_first s.queue a rest there in
      inr (
        a,
        record s { queue = q },
        rw (pop, got) refl,
        rw left (Perm.trans (perm_middle rest out) (rw there at h)),
      )

  -- If every allocated buffer is in the queue or handed out, once, then `pop` throws `bad_alloc`
  -- or hands out one more buffer and that is still so.
  pub pop-Accounts : (s : BufferPool Q P) (out : List ℕ) → Accounts s out → Popped s out
  pop-Accounts s out h = by_contents (fifo.contents s.queue) refl
    where
      by_contents : (c : List ℕ) → fifo.contents s.queue ≡ c → Popped s out
      by_contents [] e = pop-empty s out h e
      by_contents (a ∷ rest) e = pop-first s out a rest h e

  push_retry-Accounts :
      (attempts b : ℕ) (s : BufferPool Q P) (out : List ℕ)
      → Accounts s (b ∷ out)
      → Accounts (push_retry attempts b s) out
  unfolding push_retry
  push_retry-Accounts zero b s out h =
      let first : Perm (b ∷ (fifo.contents s.queue ++ out)) (alloc.live s.pool) =
        Perm.trans (Perm.symm (perm_middle (fifo.contents s.queue) out)) h in
      let there : Mem b (alloc.live s.pool) = Perm.subset first b mem-cons_self in
      Perm.cons_inv (Perm.trans first (Perm.symm (alloc.free_live s.pool b there)))
  push_retry-Accounts (suc attempts) b s out h = elim (Bool-cases (fifo.push b s.queue).0) [
    | inl stored ↦
        rw
          (
            push_retry,
            stored,
            fifo.push_stored b s.queue stored,
            append_assoc (fifo.contents s.queue) (b ∷ []) out,
          )
          h
    | inr refused ↦
        let same : Accounts (record s { queue = (fifo.push b s.queue).1 }) (b ∷ out) =
          rw (fifo.push_refused b s.queue refused) h in
        rw (push_retry, refused)
          (push_retry-Accounts attempts b (record s { queue = (fifo.push b s.queue).1 }) out same)
  ]

  -- Giving a buffer back ends with every allocated buffer in the queue or handed out, once,
  -- whether one of the pushes is taken or all are refused and the memory is freed.
  pub push-Accounts :
      (b : ℕ) (s : BufferPool Q P) (out : List ℕ) → Accounts s (b ∷ out) → Accounts (push b s) out
  unfolding push
  push-Accounts b s out h = push_retry-Accounts retry_attempts b s out h

  -- `pop` allocates at most the buffer that it gives, and that only where it was not allocated.
  pub pop-Nodup :
      Fresh alloc
      → (s : BufferPool Q P) (r : ℕ × BufferPool Q P) → pop s ≡ ok r
      → Nodup (alloc.live s.pool)
      → Nodup (alloc.live r.1.pool)
  unfolding pop malloc_buffer
  pop-Nodup fresh s r run once = elim (Option-cases (fifo.pop s.queue)) [
    | inr (x, got) ↦
        subst (λ (y : ℕ × BufferPool Q P). Nodup (alloc.live y.1.pool))
          (ok-injective (rw (pop, got) at run)) once
    | inl gone ↦ elim (Option-cases (alloc.malloc s.pool).0) [
      | inl full ↦ let bad = rw (pop, gone, malloc_buffer, full) at run in cc
      | inr (b, got) ↦
          let made : alloc.malloc s.pool ≡ (some b, (alloc.malloc s.pool).1) =
            ap (λ o. (o, (alloc.malloc s.pool).1)) got in
          subst (λ (y : ℕ × BufferPool Q P). Nodup (alloc.live y.1.pool))
            (ok-injective (rw (pop, gone, malloc_buffer, got) at run))
            (Perm.nodup (alloc.malloc_some s.pool _ b made)
              (Nodup-cons.1 (fresh s.pool _ b made, once)))
    ]
  ]

  push_retry-Nodup :
      (attempts b : ℕ) (s : BufferPool Q P)
      → Mem b (alloc.live s.pool)
      → Nodup (alloc.live s.pool)
      → Nodup (alloc.live (push_retry attempts b s).pool)
  unfolding push_retry
  push_retry-Nodup zero b s there once =
      (Nodup-cons.0 (Perm.nodup (Perm.symm (alloc.free_live s.pool b there)) once)).1
  push_retry-Nodup (suc attempts) b s there once = elim (Bool-cases (fifo.push b s.queue).0) [
    | inl stored ↦ rw (push_retry, stored) once
    | inr refused ↦
        rw (push_retry, refused)
          (push_retry-Nodup attempts b (record s { queue = (fifo.push b s.queue).1 }) there once)
  ]

  pub push-Nodup :
      (b : ℕ) (s : BufferPool Q P) (out : List ℕ)
      → Accounts s (b ∷ out)
      → Nodup (alloc.live s.pool)
      → Nodup (alloc.live (push b s).pool)
  unfolding push
  push-Nodup b s out h once =
      push_retry-Nodup retry_attempts b s
        (Perm.subset (Perm.trans (Perm.symm (perm_middle (fifo.contents s.queue) out)) h) b
          mem-cons_self)
        once

  -- What the loop of the destructor does: the queue is empty, and what is still allocated is what
  -- is handed out.
  abbrev pub Released : ℕ → BufferPool Q P → List ℕ → Type 0
  Released fuel s out =
      (t : BufferPool Q P) × (release_queue fuel s ≡ ok t)
      × (fifo.contents t.queue ≡ [])
      × Perm out (alloc.live t.pool)

  release_queue-Released :
      (fuel : ℕ) (s : BufferPool Q P) (out c : List ℕ)
      → fifo.contents s.queue ≡ c
      → Accounts s out
      → length c < fuel
      → Released fuel s out
  unfolding release_queue
  release_queue-Released zero s out c e h f = absurd (omega arith)
  release_queue-Released (suc fuel) s out [] e h f =
      (s, rw (fifo.pop_empty s.queue e, release_queue) refl, e, rw e at h)
  release_queue-Released (suc fuel) s out (b ∷ rest) e h f =
      let (q, got, left) = fifo.pop_first s.queue b rest e in
      let first : Perm (b ∷ (rest ++ out)) (alloc.live s.pool) = rw e at h in
      let there : Mem b (alloc.live s.pool) = Perm.subset first b mem-cons_self in
      let kept : Accounts (record { queue = q; pool = alloc.free b s.pool }) out =
        rw left (Perm.cons_inv (Perm.trans first (Perm.symm (alloc.free_live s.pool b there)))) in
      let (t, run, empty, same) =
        release_queue-Released fuel (record { queue = q; pool = alloc.free b s.pool }) out rest left
          kept (omega arith) in
      (t, rw (got, release_queue) run, empty, same)

  -- With fuel for one round more than there are buffers in the queue, the destructor ends with an
  -- empty queue and nothing allocated. Its loop frees each buffer of the queue once and no other:
  -- what is allocated behind it, and is purged, is just what is handed out.
  pub destroy-Released :
      (fuel : ℕ) (s : BufferPool Q P) (out : List ℕ)
      → Accounts s out
      → length (fifo.contents s.queue) < fuel
      → Released fuel s out
        × ((u : BufferPool Q P) × (destroy fuel s ≡ ok u)
            × (fifo.contents u.queue ≡ [])
            × (alloc.live u.pool ≡ []))
  unfolding destroy
  destroy-Released fuel s out h f =
      let (t, run, empty, same) =
        release_queue-Released fuel s out (fifo.contents s.queue) refl h f in
      (
        (t, run, empty, same),
        (
          record t { pool = alloc.purge_memory t.pool },
          rw run refl,
          empty,
          alloc.purge_live t.pool,
        ),
      )
