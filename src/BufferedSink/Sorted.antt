-- ===== src/BufferedSink/Sorted.antt =====
-- Time order on lists of buffers: each buffer is no later than all behind it.
use frib_e2sar.Base.{
  ℕ, ◌≤◌, List, [], ◌∷◌, ◌++◌, All, All-append, All-append_left, All-append_right, last, arith,
}
use frib_e2sar.BufferedSink.{Buffer}

abbrev pub IsSorted : List Buffer → Type 0
IsSorted [] = Unit {0}
IsSorted (b ∷ bs) = All (λ (x : Buffer). b.s_time ≤ x.s_time) bs × IsSorted bs

abbrev pub AllFrom : ℕ → List Buffer → Type 0
AllFrom t = All (λ (x : Buffer). t ≤ x.s_time)

abbrev pub AllTo : ℕ → List Buffer → Type 0
AllTo t = All (λ (x : Buffer). x.s_time ≤ t)

pub AllFrom-mono : {t u : ℕ} (bs : List Buffer) → t ≤ u → AllFrom u bs → AllFrom t bs
AllFrom-mono [] h a = tt
AllFrom-mono (b ∷ bs) h a = (omega (arith, a.0), AllFrom-mono bs h a.1)

pub AllTo-mono : {t u : ℕ} (bs : List Buffer) → t ≤ u → AllTo t bs → AllTo u bs
AllTo-mono [] h a = tt
AllTo-mono (b ∷ bs) h a = (omega (arith, a.0), AllTo-mono bs h a.1)

-- A row of sorted lists is sorted if everything in the first is no later than a time that
-- nothing in the second is before.
pub IsSorted-append :
    (t : ℕ) (xs ys : List Buffer)
    → IsSorted xs
    → IsSorted ys
    → AllTo t xs
    → AllFrom t ys
    → IsSorted (xs ++ ys)
IsSorted-append t [] ys hx hy l r = hy
IsSorted-append t (x ∷ xs) ys hx hy l r =
    (All-append _ xs ys hx.0 (AllFrom-mono ys l.0 r), IsSorted-append t xs ys hx.1 hy l.1 r)

pub IsSorted-append_left : (xs ys : List Buffer) → IsSorted (xs ++ ys) → IsSorted xs
IsSorted-append_left [] ys h = tt
IsSorted-append_left (x ∷ xs) ys h = (All-append_left _ xs ys h.0, IsSorted-append_left xs ys h.1)

pub IsSorted-append_right : (xs ys : List Buffer) → IsSorted (xs ++ ys) → IsSorted ys
IsSorted-append_right [] ys h = h
IsSorted-append_right (x ∷ xs) ys h = IsSorted-append_right xs ys h.1

-- Nothing before an element of a sorted list is later than it.
pub IsSorted-before :
    (xs : List Buffer) (r : Buffer) (ys : List Buffer)
    → IsSorted (xs ++ r ∷ ys)
    → AllTo (r.s_time) xs
IsSorted-before [] r ys h = tt
IsSorted-before (x ∷ xs) r ys h =
    ((All-append_right _ xs (r ∷ ys) h.0).0, IsSorted-before xs r ys h.1)

-- The back of a sorted queue is its latest buffer.
pub IsSorted-last :
    (b : Buffer) (bs : List Buffer) → IsSorted (b ∷ bs) → AllTo (last b bs).s_time (b ∷ bs)
IsSorted-last b [] h = (omega arith, tt)
IsSorted-last b (c ∷ bs) h =
    let rest : AllTo (last c bs).s_time (c ∷ bs) = IsSorted-last c bs h.1 in
    (omega (arith, h.0.0, rest.0), rest)
