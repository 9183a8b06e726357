-- ===== src/BufferedSink/Insert.antt =====
-- `insertBuffer` against its contract: insertion behind everything that is not later.
use mathlib.Core.List.{Perm, reverse-cons, reverse-reverse, append_assoc, append-nil}
use mathlib.Core.List.Perm
use frib_e2sar.Base.{
  ℕ, ◌≤◌, ◌<◌, ◌≡◌, refl, sym, ap, ◌∙◌, inl, inr, List, [], ◌∷◌, ◌++◌, length, suc, reverse, ltb,
  leb, ltb→lt, ltb→ge, leb→le, lt→ltb, ge→ltb, Bool-cases, if◌then◌else◌, All, last, arith,
}
use frib_e2sar.BufferedSink.{Buffer, seek, insert_queue}
use frib_e2sar.BufferedSink.Sorted.{
  IsSorted, AllFrom-mono, AllTo, AllTo-mono, IsSorted-append_left, IsSorted-before, IsSorted-last,
}

-- The contract: from the front, pass what is not later than the buffer.
pub place : Buffer → List Buffer → List Buffer
place b [] = b ∷ []
place b (x ∷ xs) = if ltb b.s_time x.s_time then b ∷ x ∷ xs else x ∷ place b xs

place-newer :
    (b : Buffer) (xs : List Buffer) (r : Buffer)
    → b.s_time < r.s_time
    → place b (xs ++ r ∷ []) ≡ place b xs ++ r ∷ []
unfolding place
place-newer b [] r h = rw (lt→ltb b.s_time r.s_time h) refl
place-newer b (x ∷ xs) r h = ground (arith, place-newer b xs r h)

place-of_le : (b : Buffer) (xs : List Buffer) → AllTo b.s_time xs → place b xs ≡ xs ++ b ∷ []
unfolding place
place-of_le b [] h = refl
place-of_le b (x ∷ xs) h = rw (ge→ltb b.s_time x.s_time h.0) (ap (◌∷◌ x) (place-of_le b xs h.1))

AllTo-snoc :
    {t : ℕ} (xs : List Buffer) (r : Buffer) → r.s_time ≤ t → AllTo t xs → AllTo t (xs ++ r ∷ [])
AllTo-snoc [] r h a = (h, tt)
AllTo-snoc (x ∷ xs) r h a = (a.0, AllTo-snoc xs r h a.1)

seek-place :
    (b : Buffer) (rs passed : List Buffer)
    → IsSorted (reverse rs)
    → seek b rs passed ≡ place b (reverse rs) ++ passed
unfolding seek place
seek-place b [] passed h = refl
seek-place b (r ∷ rs) passed h =
    let h' : IsSorted (reverse rs ++ r ∷ []) = rw (reverse-cons r rs) at h in
    elim (Bool-cases (ltb b.s_time r.s_time)) [
      | inl newer ↦ rw newer (
          seek-place b rs (r ∷ passed) (IsSorted-append_left (reverse rs) (r ∷ []) h')
          ∙ sym (append_assoc (place b (reverse rs)) (r ∷ []) passed)
          ∙ ap (λ (z : List Buffer). z ++ passed)
              (sym (place-newer b (reverse rs) r (ltb→lt b.s_time r.s_time newer)))
          ∙ ap (λ (z : List Buffer). place b z ++ passed) (sym (reverse-cons r rs)))
      | inr older ↦
          let le : r.s_time ≤ b.s_time = ltb→ge b.s_time r.s_time older in
          rw older (
            sym (append_assoc (reverse (r ∷ rs)) (b ∷ []) passed)
            ∙ ap (λ (z : List Buffer). z ++ passed)
                (sym (
                  place-of_le b (reverse (r ∷ rs)) (
                    rw (reverse-cons r rs) (
                      AllTo-snoc (reverse rs) r le
                        (AllTo-mono (reverse rs) le (IsSorted-before (reverse rs) r [] h')))))))
    ]

-- On a queue in time order, the three ways in of `insertBuffer` are one insertion: behind every
-- buffer that is not later, and before every one that is.
pub insert_queue-place : (b : Buffer) (q : List Buffer) → IsSorted q → insert_queue b q ≡ place b q
unfolding insert_queue
insert_queue-place b [] h = unfold place in refl
insert_queue-place b (front ∷ rest) h = elim (Bool-cases (leb (last front rest).s_time b.s_time)) [
  | inl latest ↦ rw latest (
      sym (
        place-of_le b (front ∷ rest)
          (AllTo-mono (front ∷ rest) (leb→le _ _ latest) (IsSorted-last front rest h))))
  | inr inside ↦ rw inside (elim (Bool-cases (ltb b.s_time front.s_time)) [
    | inl earliest ↦ rw earliest (unfold place in rw earliest refl)
    | inr middle ↦ rw middle (
        seek-place b (reverse (front ∷ rest)) [] (rw (reverse-reverse (front ∷ rest)) h)
        ∙ append-nil (place b (reverse (reverse (front ∷ rest))))
        ∙ ap (place b) (reverse-reverse (front ∷ rest)))
  ])
]

pub place-perm : (b : Buffer) (q : List Buffer) → Perm (place b q) (b ∷ q)
unfolding place
place-perm b [] = Perm.refl (b ∷ [])
place-perm b (x ∷ xs) = elim (Bool-cases (ltb b.s_time x.s_time)) [
  | inl newer ↦ rw newer (Perm.refl (b ∷ x ∷ xs))
  | inr older ↦ rw older (Perm.trans (Perm.cons x (place-perm b xs)) (Perm.swap b x xs))
]

module _ {κ} (P : Buffer → Type κ) where
  pub All-place : (b : Buffer) (q : List Buffer) → P b → All P q → All P (place b q)
  unfolding place
  All-place b [] p h = (p, tt)
  All-place b (x ∷ xs) p h = elim (Bool-cases (ltb b.s_time x.s_time)) [
    | inl newer ↦ rw newer (p, h)
    | inr older ↦ rw older (h.0, All-place b xs p h.1)
  ]

pub place-IsSorted : (b : Buffer) (q : List Buffer) → IsSorted q → IsSorted (place b q)
unfolding place
place-IsSorted b [] h = (tt, tt)
place-IsSorted b (x ∷ xs) h = elim (Bool-cases (ltb b.s_time x.s_time)) [
  | inl newer ↦
      let lt : b.s_time < x.s_time = ltb→lt _ _ newer in
      rw newer ((omega arith, AllFrom-mono xs (omega arith) h.0), h)
  | inr older ↦
      rw older
        (All-place (λ y. x.s_time ≤ y.s_time) b xs (ltb→ge _ _ older) h.0, place-IsSorted b xs h.1)
]

pub length-place : (b : Buffer) (q : List Buffer) → length (place b q) ≡ suc (length q)
unfolding place
length-place b [] = refl
length-place b (x ∷ xs) = ground (arith, length-place b xs)
