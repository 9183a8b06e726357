-- ===== src/BufferPool/Sample.antt =====
-- The pool over lists: a queue that takes every buffer, and an allocator that numbers its buffers.
use mathlib.Core.List.{Perm, Memᴰ}
use mathlib.Core.List.Perm
use mathlib.Core.Logic.{∥∥₁_elim, ∥∥₁_prop}
use mathlib.Core.Option.{some-injective}
use mathlib.Core.Path.{subst}
use frib_e2sar.Base.{
  ℕ, suc, ◌+◌, ◌<◌, sym, arith, ◌≡◌, refl, ap, List, [], ◌∷◌, ◌++◌, Option, none, some, true, false,
  ◌==◌, ==→eq, eq→==, Bool-cases, inl, inr, if◌then◌else◌,
}
use frib_e2sar.BufferedSink.{Fifo}
use frib_e2sar.BufferPool.{Allocator, BufferPool}
use frib_e2sar.BufferPool.Accounts.{Accounts, Fresh}

abbrev pub pop_list : List ℕ → Option (ℕ × List ℕ)
pop_list [] = none
pop_list (b ∷ bs) = some (b, bs)

pub pop_list-empty : (q : List ℕ) → q ≡ [] → pop_list q ≡ none
pop_list-empty [] e = refl
pop_list-empty (b ∷ bs) e = cc

pub pop_list-first :
    (q : List ℕ) (a : ℕ) (rest : List ℕ)
    → q ≡ a ∷ rest
    → (q' : List ℕ) × (pop_list q ≡ some (a, q')) × (q' ≡ rest)
pop_list-first q a rest e = (rest, rw e refl, refl)

pub never_refused : {a b : List ℕ} → true ≡ false → a ≡ b
never_refused h = cc

instance abbrev pub list_queue : Fifo (List ℕ) ℕ
list_queue = record {
  contents = λ q. q;
  push = λ a q. (true, q ++ a ∷ []);
  pop = pop_list;
  push_stored = λ a q h. refl;
  push_refused = λ a q h. never_refused h;
  pop_empty = pop_list-empty;
  pop_first = pop_list-first;
  reserve = λ n q. q;
  reserve_contents = λ n q. refl;
}

-- A number larger than all in the list.
abbrev pub unused : List ℕ → ℕ
unused [] = 0
unused (x ∷ xs) = suc (x + unused xs)

unused-above : (xs : List ℕ) (x : ℕ) → Memᴰ x xs → x < unused xs
unused-above [] x m = elim m [ ]
unused-above (y ∷ ys) x (Memᴰ.head e) = rw e (omega arith)
unused-above (y ∷ ys) x (Memᴰ.tail m) = omega (arith, unused-above ys x m)

pub number_given :
    (p p' : List ℕ) (b : ℕ)
    → ◌≡◌ {A = Option ℕ × List ℕ} (some (unused p), unused p ∷ p) (some b, p')
    → (unused p ≡ b) × (unused p ∷ p ≡ p')
number_given p p' b e = (some-injective (unused p) b (ap (λ x. x.0) e), ap (λ x. x.1) e)

-- The first occurrence taken out.
abbrev pub erase : ℕ → List ℕ → List ℕ
erase b [] = []
erase b (x ∷ xs) = let rest = erase b xs in if b == x then xs else x ∷ rest

pub erase-Perm : (b : ℕ) (l : List ℕ) → Memᴰ b l → Perm (b ∷ erase b l) l
erase-Perm b [] m = elim m [ ]
erase-Perm b (x ∷ xs) (Memᴰ.head e) = rw (e, eq→== x x refl) (Perm.refl (x ∷ xs))
erase-Perm b (x ∷ xs) (Memᴰ.tail d) =
    let further = erase-Perm b xs d in
    elim (Bool-cases (b == x)) [
      | inl same ↦ rw (==→eq b x same, eq→== x x refl) (Perm.refl (x ∷ xs))
      | inr other ↦ rw other (Perm.trans (Perm.swap x b (erase b xs)) (Perm.cons x further))
    ]

-- An allocator that numbers its buffers and knows those allocated.
instance abbrev pub numbers : Allocator (List ℕ)
numbers = record {
  live = λ p. p;
  malloc = λ p. (some (unused p), unused p ∷ p);
  free = λ b p. erase b p;
  malloc_some = λ p p' b e.
      let (same, more) = number_given p p' b e in
      subst (λ (z : List ℕ). Perm (b ∷ p) z) more
        (subst (λ (z : ℕ). Perm (b ∷ p) (z ∷ p)) (sym same) (Perm.refl (b ∷ p)));
  free_live = λ p b m. ∥∥₁_elim m ∥∥₁_prop (λ d. erase-Perm b p d);
  purge_memory = λ p. [];
  purge_live = λ p. refl;
}

pub numbers-Fresh : Fresh numbers
numbers-Fresh p p' b e m =
    ∥∥₁_elim m (λ x y. absurd x) (λ d. omega (arith, (number_given p p' b e).0, unused-above p b d))

abbrev pub pool : BufferPool (List ℕ) (List ℕ)
pool = record { queue = 4 ∷ []; pool = 9 ∷ 4 ∷ [] }

pub pool-Accounts : Accounts pool (9 ∷ [])
pool-Accounts = Perm.swap 9 4 []
