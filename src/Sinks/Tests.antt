-- ===== src/Sinks/Tests.antt =====
-- The two sinks on lists: a ring that times out once before each block, and one file.
use frib_e2sar.Base.{
  ℕ, ◌<◌, ◌≡◌, refl, List, [], ◌∷◌, ◌++◌, map, flatten, some, Bool, true, false, arith,
}
use frib_e2sar.RingItem.{Iovec, bytes}
use frib_e2sar.Sinks.{RingBuffer, Files}

-- The blocks, and whether the next put times out.
abbrev lazy_put : List ℕ → List (List ℕ) × Bool → Bool × (List (List ℕ) × Bool)
lazy_put b (blocks, true) = (false, (blocks, false))
lazy_put b (blocks, false) = (true, (blocks ++ b ∷ [], true))

abbrev timeouts : List (List ℕ) × Bool → ℕ
timeouts (blocks, true) = 1
timeouts (blocks, false) = 0

lazy_put-done :
    (b : List ℕ) (k : List (List ℕ) × Bool)
    → (lazy_put b k).0 ≡ true
    → (lazy_put b k).1.0 ≡ k.0 ++ b ∷ []
lazy_put-done b (blocks, true) h = cc
lazy_put-done b (blocks, false) h = refl

lazy_put-timeout :
    (b : List ℕ) (k : List (List ℕ) × Bool) → (lazy_put b k).0 ≡ false → (lazy_put b k).1.0 ≡ k.0
lazy_put-timeout b (blocks, true) h = refl
lazy_put-timeout b (blocks, false) h = cc

lazy_put-waits :
    (b : List ℕ) (k : List (List ℕ) × Bool)
    → (lazy_put b k).0 ≡ false
    → timeouts (lazy_put b k).1 < timeouts k
lazy_put-waits b (blocks, true) h = omega arith
lazy_put-waits b (blocks, false) h = cc

instance abbrev lazy_ring : RingBuffer (List (List ℕ) × Bool)
lazy_ring = record {
  blocks = λ k. k.0;
  waits = timeouts;
  put = lazy_put;
  put_done = lazy_put-done;
  put_timeout_blocks = lazy_put-timeout;
  put_timeout_waits = lazy_put-waits;
}

timeouts-small : (k : List (List ℕ) × Bool) → timeouts k < 2
timeouts-small (blocks, true) = omega arith
timeouts-small (blocks, false) = omega arith

abbrev pieces : List Iovec
pieces = record { base = 1 ∷ 2 ∷ 3 ∷ []; len = 2 } ∷ record { base = 3 ∷ []; len = 1 } ∷ []

written :
    (vs : List Iovec) (w w' : List ℕ)
    → some (w ++ flatten (map bytes vs)) ≡ some w'
    → w' ≡ w ++ flatten (map bytes vs)
written vs w w' e = cc

put_behind : (b w w' : List ℕ) → some (w ++ b) ≡ some w' → w' ≡ w ++ b
put_behind b w w' e = cc

-- Every file is the same one, which is open for writing.
instance abbrev one_file : Files (List ℕ)
one_file = record {
  file_bytes = λ fd w. w;
  open_file = λ name w. (some 3, []);
  status = λ fd w. some (true, false);
  write_v = λ fd vs w. some (w ++ flatten (map bytes vs));
  write = λ fd b w. some (w ++ b);
  sync = λ fd w. (true, w);
  close = λ fd w. w;
  write_bytes = λ fd b w w' e. put_behind b w w' e;
  write_v_bytes = λ fd vs w w' e. written vs w w' e;
}
