-- ===== src/EvbFilter/Tests.antt =====
-- The filter on built events with small bodies, and on standard input as a list of bytes.
use frib_e2sar.Base.{
  ℕ, some, ◌≡◌, ◌≢◌, refl, List, [], ◌∷◌, ◌++◌, true, false, Error, ok, err, flatten, take, drop,
  arith,
}
use frib_e2sar.RingItem.Sample.{little_endian}
use frib_e2sar.EvbFilter.{Input, Filter, put, strip, filtered}
use frib_e2sar.EvbFilter.Layout.{Built, original, payload, IsBodyHeader, IsBuilt}
use frib_e2sar.EvbFilter.Strip.{strip-original, strip-debug_short}
use frib_e2sar.EvbFilter.Loop.{Passed, IsPassed, on_input}
use frib_e2sar.Sender.{ExitCode}
use frib_e2sar.EvbFilter.Program.{FilterOptions, main, main-items}

abbrev empty_header : List ℕ
empty_header = 4 ∷ 0 ∷ 0 ∷ 0 ∷ []

abbrev fragment : List ℕ
fragment = 1 ∷ 2 ∷ 3 ∷ 4 ∷ 5 ∷ 6 ∷ 7 ∷ 8 ∷ 9 ∷ 10 ∷ 11 ∷ 12 ∷ 13 ∷ 14 ∷ 15 ∷ 16 ∷ []

abbrev last_word : List ℕ
last_word = 17 ∷ 18 ∷ 19 ∷ 20 ∷ []

abbrev body_of_16 : List ℕ
body_of_16 = fragment

-- An event with empty body headers and the given body.
abbrev built : List ℕ → Built
built body = record {
  body_header = empty_header;
  event_size = 48 ∷ 0 ∷ 0 ∷ 0 ∷ [];
  fragment_header = fragment ++ last_word;
  item_header = 28 ∷ 0 ∷ 0 ∷ 0 ∷ 30 ∷ 0 ∷ 0 ∷ 0 ∷ [];
  item_body_header = empty_header;
  item_body = body;
}

empty_header-IsBodyHeader : IsBodyHeader empty_header 1
empty_header-IsBodyHeader = record {
  some_words = omega arith;
  words = refl;
  states_size = λ rest. refl;
}

built_16-IsBuilt : IsBuilt (built body_of_16) 1 1
built_16-IsBuilt = record {
  outer = empty_header-IsBodyHeader;
  size_word = refl;
  fragment = refl;
  header = refl;
  inner = empty_header-IsBodyHeader;
  small = omega arith;
}

built_0-IsBuilt : IsBuilt (built []) 1 1
built_0-IsBuilt = record {
  outer = empty_header-IsBodyHeader;
  size_word = refl;
  fragment = refl;
  header = refl;
  inner = empty_header-IsBodyHeader;
  small = omega arith;
}

strip-original_example :
    strip false (payload (built body_of_16)) 56 ≡ ok (original (built body_of_16))
strip-original_example = strip-original (built body_of_16) 1 1 built_16-IsBuilt

strip-debug_short_example : strip true (payload (built [])) 40 ≡ err Error.out_of_bounds
strip-debug_short_example = strip-debug_short (built []) 1 1 built_0-IsBuilt (omega arith)

-- An event of version 11 whose item has the size 40 and the type 30.
abbrev v11_rest : List ℕ
v11_rest = 8 ∷ 0 ∷ 0 ∷ 0 ∷ 0 ∷ 0 ∷ 0 ∷ 0 ∷ 1 ∷ 2 ∷ 3 ∷ 4 ∷ []

abbrev zero_word : List ℕ
zero_word = 0 ∷ 0 ∷ 0 ∷ 0 ∷ []

abbrev v11_payload : List ℕ
v11_payload =
    zero_word ++ (empty_header ++ (fragment ++ (last_word ++ ((40 ∷ 0 ∷ 0 ∷ 0 ∷ []) ++ v11_rest))))

instance abbrev list_input : Input (List ℕ)
list_input = record {
  remaining = λ i. i;
  read = λ n i. (take n i, drop n i);
  read_bytes = λ n i. refl;
  read_rest = λ n i. refl;
}

-- A state change item, which passes as it is, and a physics event.
abbrev state_item : Passed
state_item = record {
  header = 10 ∷ 0 ∷ 0 ∷ 0 ∷ 1 ∷ 0 ∷ 0 ∷ 0 ∷ [];
  payload = 5 ∷ 6 ∷ [];
  out = 10 ∷ 0 ∷ 0 ∷ 0 ∷ 1 ∷ 0 ∷ 0 ∷ 0 ∷ 5 ∷ 6 ∷ [];
}

abbrev physics_item : Passed
physics_item = record {
  header = 64 ∷ 0 ∷ 0 ∷ 0 ∷ 30 ∷ 0 ∷ 0 ∷ 0 ∷ [];
  payload = payload (built body_of_16);
  out = original (built body_of_16);
}

state_item-IsPassed : IsPassed false state_item
unfolding filtered put
state_item-IsPassed = record {
  header_whole = refl;
  size = refl;
  some_payload = omega arith;
  small = omega arith;
  passes = refl;
}

physics_item-IsPassed : IsPassed false physics_item
unfolding filtered
physics_item-IsPassed = record {
  header_whole = refl;
  size = refl;
  some_payload = omega arith;
  small = omega arith;
  passes = strip-original_example;
}

abbrev two_on_input : List ℕ
two_on_input = on_input (state_item ∷ physics_item ∷ []) ++ []

-- `--count 2`.
abbrev two_wanted : FilterOptions
two_wanted = record { help = false; debug = false; count = 2 }

main-items_example :
    (two_wanted.count ≡ 2
      → (t : Filter (List ℕ)) × (main (λ n. true) 2 (some two_wanted) two_on_input
          ≡ ok (ExitCode.exit_success, some t))
        × (t.input ≡ [])
        × (t.output ≡ flatten (state_item.out ∷ physics_item.out ∷ [])))
    × (two_wanted.count ≡ 0
        → (n : ℕ) (t : Filter (List ℕ))
        → main (λ n. true) n (some two_wanted) two_on_input ≢ ok (ExitCode.exit_success, some t))
main-items_example =
    main-items (λ n. true) (λ n. refl) two_wanted state_item (physics_item ∷ []) two_on_input [] 2
      refl (state_item-IsPassed, (physics_item-IsPassed, tt)) refl (omega arith)
