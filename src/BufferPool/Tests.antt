-- ===== src/BufferPool/Tests.antt =====
-- The theorems on the pool at a small one.
use frib_e2sar.Base.{ℕ, ok, arith, ◌≡◌, List, [], ◌∷◌}
use frib_e2sar.BufferPool.{BufferPool, destroy}
use frib_e2sar.BufferPool.Accounts.{Released, destroy-Released}
use frib_e2sar.BufferPool.Sample.{list_queue, numbers, pool, pool-Accounts}

destroy-Released_example :
    Released 2 pool (9 ∷ [])
    × ((u : BufferPool (List ℕ) (List ℕ)) × (destroy 2 pool ≡ ok u)
        × (u.queue ≡ [])
        × (u.pool ≡ []))
destroy-Released_example = destroy-Released 2 pool (9 ∷ []) pool-Accounts (omega arith)
