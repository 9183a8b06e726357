-- ===== src/BufferedSink/Unique.antt =====
-- Buffers whose times are all different have one row in time order.
use mathlib.Core.Path.{ap₂}
use mathlib.Core.Logic.{∥∥₁_elim}
use mathlib.Core.List.{Perm, Memᴰ, mem-cons_self}
use mathlib.Core.List.Perm
use frib_e2sar.Base.{ℕ, ◌≤◌, ◌<◌, ◌≡◌, List, [], ◌∷◌, All, arith}
use frib_e2sar.BufferedSink.{Buffer}
use frib_e2sar.BufferedSink.Sorted.{IsSorted, AllFrom}

-- Each time is earlier than all behind it.
abbrev pub IsStrict : List Buffer → Type 0
IsStrict [] = Unit {0}
IsStrict (b ∷ bs) = All (λ (x : Buffer). b.s_time < x.s_time) bs × IsStrict bs

Buffer-set : IsSet Buffer
Buffer-set = hlevel

AllFrom-mem : {t : ℕ} {x : Buffer} (bs : List Buffer) → AllFrom t bs → Memᴰ x bs → t ≤ x.s_time
AllFrom-mem [] h m = elim m [ ]
AllFrom-mem (b ∷ bs) h (Memᴰ.head e) = rw e h.0
AllFrom-mem (b ∷ bs) h (Memᴰ.tail m) = AllFrom-mem bs h.1 m

later_mem :
    {t : ℕ} {x : Buffer} (bs : List Buffer)
    → All (λ (y : Buffer). t < y.s_time) bs
    → Memᴰ x bs
    → t < x.s_time
later_mem [] h m = elim m [ ]
later_mem (b ∷ bs) h (Memᴰ.head e) = rw e h.0
later_mem (b ∷ bs) h (Memᴰ.tail m) = later_mem bs h.1 m

heads_eq :
    (x y : Buffer) (xs ys : List Buffer)
    → IsSorted (x ∷ xs)
    → IsStrict (y ∷ ys)
    → Perm (x ∷ xs) (y ∷ ys)
    → x ≡ y
heads_eq x y xs ys h s p =
    ∥∥₁_elim (Perm.subset p x mem-cons_self) (Buffer-set x y) (λ m.
      ∥∥₁_elim (Perm.subset (Perm.symm p) y mem-cons_self) (Buffer-set x y) (λ n. by_cases m n))
  where
    first : Memᴰ y (x ∷ xs) → x.s_time ≤ y.s_time
    first (Memᴰ.head e) = rw e (omega arith)
    first (Memᴰ.tail n) = AllFrom-mem xs h.0 n

    by_cases : Memᴰ x (y ∷ ys) → Memᴰ y (x ∷ xs) → x ≡ y
    by_cases (Memᴰ.head e) n = e
    by_cases (Memᴰ.tail m) n = absurd (omega (arith, later_mem ys s.0 m, first n))

-- A row in time order of the buffers of a row whose times strictly increase is that row.
pub IsSorted-eq_of_perm : (xs ys : List Buffer) → IsSorted xs → IsStrict ys → Perm xs ys → xs ≡ ys
IsSorted-eq_of_perm [] ys h s p = Perm.nil-eq p
IsSorted-eq_of_perm (x ∷ xs) [] h s p = Perm.eq-nil p
IsSorted-eq_of_perm (x ∷ xs) (y ∷ ys) h s p =
    let e = heads_eq x y xs ys h s p in
    let rest : Perm xs ys = Perm.cons_inv (rw e at p) in
    ap₂ ◌∷◌ e (IsSorted-eq_of_perm xs ys h.1 s.1 rest)
