-- ===== src/BufferedSink/Spec.antt =====
-- What the sink promises, whatever its queues are: a bag of buffers that wait, and those written.
use mathlib.Core.Quot
use mathlib.Core.Quot.{Quot, Quot-set}
use mathlib.Core.List.{Perm}
use mathlib.Core.List.Perm
use frib_e2sar.Base.{ℕ, suc, ◌≤◌, ◌≡◌, ◌⊎◌, List, [], ◌∷◌, ◌++◌, length}
use frib_e2sar.BufferedSink.{Buffer, batch_size}
use frib_e2sar.BufferedSink.Sorted.{IsSorted, AllFrom, AllTo}

abbrev pub Bag : Type 0
Bag = Quot (Perm {A = Buffer})

abbrev pub bag : List Buffer → Bag
bag bs = Quot.mk bs

abbrev pub put : Buffer → Bag → Bag
put b = Quot.lift Quot-set (λ bs. bag (b ∷ bs)) (λ xs ys p. Quot.sound (Perm.cons b p))

pub record Collector : Type 0 where
  pub waiting : Bag
  pub written : List Buffer

-- A buffer is taken in, or some are written: in time order, those up to a time `t`. Of the
-- buffers that wait, at most those behind a whole batch are not looked at.
pub data SpecStep (c : Collector) : Collector → Type 0 where
  takes : (b : Buffer) → SpecStep c (record { waiting = put b c.waiting; written = c.written })
  writes :
      (t : ℕ) (b : Buffer) (bs seen unseen : List Buffer)
      → c.waiting ≡ bag ((b ∷ bs) ++ (seen ++ unseen))
      → IsSorted (b ∷ bs)
      → AllTo t (b ∷ bs)
      → AllFrom (suc t) seen
      → (unseen ≡ []) ⊎ (batch_size ≤ length ((b ∷ bs) ++ seen))
      → SpecStep c (record { waiting = bag (seen ++ unseen); written = c.written ++ b ∷ bs })
