-- ===== src/BufferedSink/Sample.antt =====
-- A lock-free queue and a sink to run the definitions on: lists.
use frib_e2sar.Base.{
  ◌≡◌, refl, sym, ℕ, List, [], ◌∷◌, ◌++◌, Option, none, some, true, false, ok, ok-injective, map,
  flatten, arith,
}
use frib_e2sar.RingItem.{bytes}
use frib_e2sar.RingItem.Sample.{little_endian, item}
use frib_e2sar.BufferedSink.{Buffer, BufferedSink, Fifo, DataSink, Puts}
use frib_e2sar.BufferedSink.Output.{IsFilled}
use frib_e2sar.BufferedSink.Contents.{ByteSink}
use frib_e2sar.BufferedSink.Poll.Invariant.{Valid}
use frib_e2sar.BufferedSink.Threads.{
  System, start, arrival, Reach, here, next, arrive, Reach-IsValid,
}

abbrev pub pop_list : List Buffer → Option (Buffer × List Buffer)
pop_list [] = none
pop_list (b ∷ bs) = some (b, bs)

pub pop_list-empty : (q : List Buffer) → q ≡ [] → pop_list q ≡ none
pop_list-empty [] e = refl
pop_list-empty (b ∷ bs) e = cc

pub pop_list-first :
    (q : List Buffer) (a : Buffer) (rest : List Buffer)
    → q ≡ a ∷ rest
    → (q' : List Buffer) × (pop_list q ≡ some (a, q')) × (q' ≡ rest)
pop_list-first q a rest e = (rest, rw e refl, refl)

pub never_refused : {a b : List Buffer} → true ≡ false → a ≡ b
never_refused h = cc

instance abbrev pub list_fifo : Fifo (List Buffer) Buffer
list_fifo = record {
  contents = λ q. q;
  push = λ a q. (true, q ++ a ∷ []);
  pop = pop_list;
  push_stored = λ a q h. refl;
  push_refused = λ a q h. never_refused h;
  pop_empty = pop_list-empty;
  pop_first = pop_list-first;
  reserve = λ n q. q;
  reserve_contents = λ n q. refl;
}

-- A sink that keeps all bytes that it is given.
instance abbrev pub list_sink : DataSink (List ℕ)
list_sink = record { put_v = λ vs k. ok (k ++ flatten (map bytes vs)) }

pub list_sink-Bytes : ByteSink list_sink
list_sink-Bytes = record { contents = λ k. k; put_contents = λ vs k k' e. sym (ok-injective e) }

pub list_sink-Puts : Puts list_sink
list_sink-Puts vs k = (k ++ flatten (map bytes vs), refl)

-- A buffer with one ring item, whose body is one byte.
abbrev pub one_item : ℕ → Buffer
one_item t = record { s_time = t; payload = item 30 (7 ∷ []); s_size = 9 }

pub one_item-IsFilled : (t : ℕ) → IsFilled (one_item t)
one_item-IsFilled t = (
  item 30 (7 ∷ []) ∷ [],
  record {
    items = ((omega arith, refl), tt);
    payload_eq = refl;
    size_eq = refl;
    small = omega arith;
  },
)

abbrev pub started : System (List Buffer) (List ℕ)
started = start [] [] true 0

abbrev pub two_arrived : System (List Buffer) (List ℕ)
two_arrived = arrival (one_item 3) (arrival (one_item 5) started)

pub two_arrived-Reach : Reach [] [] true 0 two_arrived
two_arrived-Reach =
    next (next here (arrive (one_item 5) (omega arith) (one_item-IsFilled 5)))
      (arrive (one_item 3) (omega arith) (one_item-IsFilled 3))

abbrev pub waiting : BufferedSink (List Buffer) (List ℕ)
waiting = two_arrived.polling.state

pub waiting-Valid : Valid waiting [] two_arrived.arrived
waiting-Valid = Reach-IsValid refl two_arrived-Reach
