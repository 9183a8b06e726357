-- ===== src/Sender/Pooled/Tests.antt =====
-- A sender with a small pool: two rounds, and a callback between them.
use mathlib.Core.List.{Mem, Nodup-cons, Nodup-nil}
use mathlib.Core.Logic.{∥∥₁_elim}
use mathlib.Core.List.Perm
use frib_e2sar.Base.{
  ℕ, ◌≡◌, ◌⊎◌, refl, List, [], ◌∷◌, ◌++◌, none, some, true, false, Error, ok, err, arith,
}
use frib_e2sar.Base.Words.{add_u64}
use frib_e2sar.RingItem.Sample.{little_endian, item}
use frib_e2sar.BufferPool.{pop, malloc_buffer}
use frib_e2sar.BufferPool.Sample.{list_queue, numbers, numbers-Fresh}
use frib_e2sar.Sender.{
  send_start, send_round, pack, next_item, send_buffer, event_number, queue_buffer,
}
use frib_e2sar.Sender.Sample.{
  list_source, list_segmenter, small_times, list_file, whole_file, ready,
}
use frib_e2sar.Sender.Pooled.{Pooled, pooled_round, after_send, pooled_rounds, release_to_pool}
use frib_e2sar.Sender.Pooled.Owners.{
  IsOwned, Reach, here, next, round, callback, Reach-IsOwned, Reach-unused,
}
use frib_e2sar.Sender.Pooled.Idle.{Wasted, pooled_rounds-Wasted}
use frib_e2sar.Sender.Pooled.Oversize.{Stuck, pooled_rounds-Stuck}

abbrev Small : Type 0
Small = Pooled (List (List ℕ)) (List ℕ) (List ℕ) (List ℕ)

-- One buffer is in the pool.
abbrev at_first : Small
at_first = record {
  sender = ready;
  pool = record { queue = 4 ∷ []; pool = 4 ∷ [] };
  in_flight = [];
  kept = [];
  returned = 0;
}

at_first-IsOwned : IsOwned at_first
at_first-IsOwned = record {
  accounts = Perm.refl (4 ∷ []);
  once = Nodup-cons.1 ((λ m. ∥∥₁_elim m (λ x y. absurd x) (λ d. elim d [ ])), Nodup-nil);
  kept_eq = refl;
  sent_eq = refl;
}

-- The first two items are sent in that buffer, and the third is pending.
abbrev two_sent : List ℕ
two_sent = item 30 (1 ∷ []) ++ item 30 (2 ∷ 3 ∷ [])

abbrev in_the_air : Small
in_the_air = record at_first {
  sender = record ready {
    source = [];
    segmenter = two_sent;
    pending = some (item 30 (4 ∷ []));
    total_bytes = 19;
    send_count = 1;
    sent = (0, two_sent) ∷ [];
  };
  pool = record { queue = []; pool = 4 ∷ [] };
  in_flight = 4 ∷ [];
}

first_round : pooled_round whole_file at_first ≡ ok (4, false, in_the_air)
unfolding pooled_round after_send pop malloc_buffer send_round pack next_item send_buffer
    event_number queue_buffer add_u64
first_round = refl

in_the_air-Reach : Reach whole_file at_first in_the_air
in_the_air-Reach = next here (round first_round)

Reach-IsOwned_example : IsOwned (release_to_pool 4 [] in_the_air)
Reach-IsOwned_example =
    Reach-IsOwned whole_file numbers-Fresh (next in_the_air-Reach (callback 4 [] [] refl))
      at_first-IsOwned

-- The last item is sent in a new buffer, since the pool is empty.
abbrev all_sent : Small
all_sent = record in_the_air {
  sender = record ready {
    source = [];
    segmenter = two_sent ++ item 30 (4 ∷ []);
    pending = none;
    total_bytes = 28;
    send_count = 2;
    sent = (0, two_sent) ∷ (1, item 30 (4 ∷ [])) ∷ [];
  };
  pool = record { queue = []; pool = 5 ∷ 4 ∷ [] };
  in_flight = 5 ∷ 4 ∷ [];
}

second_round : pooled_round whole_file in_the_air ≡ ok (5, true, all_sent)
unfolding pooled_round after_send pop malloc_buffer send_round pack next_item send_buffer
    event_number queue_buffer add_u64
second_round = refl

Reach-unused_example : ¬ Mem {A = ℕ} 5 (4 ∷ [])
Reach-unused_example =
    Reach-unused whole_file numbers-Fresh at_first-IsOwned in_the_air-Reach second_round

-- Before a file with no data.
abbrev without_data : Small
without_data = record at_first { sender = send_start [] [] }

without_data-IsOwned : IsOwned without_data
without_data-IsOwned = record {
  accounts = at_first-IsOwned.accounts;
  once = at_first-IsOwned.once;
  kept_eq = refl;
  sent_eq = refl;
}

pooled_rounds-Wasted_example :
    (pooled_rounds 1000 whole_file without_data ≡ err Error.bad_alloc)
    ⊎ ((t : Small) × (pooled_rounds 1000 whole_file without_data ≡ ok (false, t))
        × Wasted list_file whole_file 1000 without_data t)
pooled_rounds-Wasted_example =
    pooled_rounds-Wasted list_file whole_file numbers-Fresh (omega arith) refl 1000 without_data
      (record { none_left = refl; none_pending = refl; none_sent = refl }) without_data-IsOwned

-- With an item of 21 bytes for event buffers of 20.
abbrev large_item : List ℕ
large_item = item 30 (1 ∷ 2 ∷ 3 ∷ 4 ∷ 5 ∷ 6 ∷ 7 ∷ 8 ∷ 9 ∷ 10 ∷ 11 ∷ 12 ∷ 13 ∷ [])

abbrev held_up : Small
held_up = record at_first { sender = record ready { pending = some large_item } }

held_up-IsOwned : IsOwned held_up
held_up-IsOwned = record {
  accounts = at_first-IsOwned.accounts;
  once = at_first-IsOwned.once;
  kept_eq = refl;
  sent_eq = refl;
}

pooled_rounds-Stuck_example :
    (pooled_rounds 1000 whole_file held_up ≡ err Error.bad_alloc)
    ⊎ ((t : Small) × (pooled_rounds 1000 whole_file held_up ≡ ok (false, t))
        × Stuck whole_file large_item 1000 held_up t)
pooled_rounds-Stuck_example =
    pooled_rounds-Stuck whole_file numbers-Fresh (omega arith) large_item (omega arith) 1000 held_up
      (record { pending_eq = refl; below = refl }) held_up-IsOwned
