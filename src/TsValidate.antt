-- ===== src/TsValidate.antt =====
-- utils/tsvalidate/tsvalidate.cpp: the check that the timestamps of physics events increase.
pub mod Source
pub mod Tokens
pub mod Validation
pub mod Program
mod Tests
use frib_e2sar.Base.{
  ℕ, zero, suc, ◌+◌, ◌-◌, ◌%◌, ◌^◌, ◌≢◌, List, [], ◌∷◌, Option, none, some, Bool, true, false, ◌&&◌,
  Error, Result, ok, err, ◌>>=◌, leb, ◌==◌, if◌then◌else◌, length,
}
use frib_e2sar.Base.Words.{add_u64}
use frib_e2sar.Sender.{DataSource}

-- `find_first_not_of(delim, end)`: the string from there on.
unfoldable pub skip_delims : ℕ → List ℕ → List ℕ
skip_delims delim [] = []
skip_delims delim (c ∷ cs) = let rest = skip_delims delim cs in if c == delim then rest else c ∷ cs

-- `find(delim, start)`: the word up to there, and the string from there on.
unfoldable pub span_word : ℕ → List ℕ → List ℕ × List ℕ
span_word delim [] = ([], [])
span_word delim (c ∷ cs) =
    let rest = span_word delim cs in if c == delim then ([], c ∷ cs) else (c ∷ rest.0, rest.1)

-- The loop of `tokenize`, with fuel.
unfoldable pub tokenize_loop : ℕ → ℕ → List ℕ → Result (List (List ℕ))
tokenize_loop zero delim str = err Error.out_of_fuel
tokenize_loop (suc fuel) delim str = elim (skip_delims delim str) [
  | [] ↦ ok []
  | c ∷ cs ↦ tokenize_loop fuel delim (span_word delim (c ∷ cs)).1 >>= λ words.
      ok ((span_word delim (c ∷ cs)).0 ∷ words)
]

unfoldable pub tokenize : List ℕ → ℕ → Result (List (List ℕ))
tokenize str delim = tokenize_loop (suc (length str)) delim str

-- `std::stoi`, without a value where it throws, and the ids behind the names of `TypeMap`, which
-- are constants of the NSCLDAQ library.
pub record TypeNames : Type 0 where
  pub stoi : List ℕ → Option ℕ
  pub find_type : List ℕ → Option ℕ

module _ ⦃names : TypeNames⦄ where
  -- A word of the exclusion list: a number as it is, else a name in the map.
  unfoldable pub exclusion : List ℕ → Result ℕ
  exclusion s = elim (names.stoi s) [
    | some value ↦ ok value
    | none ↦ elim (names.find_type s) [ some id ↦ ok id | none ↦ err Error.invalid_argument ]
  ]

  unfoldable pub exclusions_of : List (List ℕ) → Result (List ℕ)
  exclusions_of [] = ok []
  exclusions_of (s ∷ words) = do id ← exclusion s; ids ← exclusions_of words; ok (id ∷ ids)

  -- `makeExclusionList`; 44 is a comma.
  unfoldable pub make_exclusion_list : List ℕ → Result (List ℕ)
  make_exclusion_list exclusions = tokenize exclusions 44 >>= exclusions_of

-- The types of ring items and the factory, which are NSCLDAQ's: `is_format` tells whether a ring
-- format item is one in the factory's format, and an event without a timestamp makes the factory
-- throw.
pub record ItemFactory : Type 0 where
  pub begin_run : ℕ
  pub ring_format : ℕ
  pub physics_event : ℕ
  pub physics_begin : physics_event ≢ begin_run
  pub physics_format : physics_event ≢ ring_format
  pub item_type : List ℕ → ℕ
  pub is_format : List ℕ → Bool
  pub event_timestamp : List ℕ → Result ℕ

-- The global variables. `n_out_of_order` is a 32-bit `int`, here by its bits: its value is below
-- 2^31 as long as it does not overflow.
pub record Validator : Type 0 where
  pub current_ts : ℕ
  pub prev_ts : ℕ
  pub n_out_of_order : ℕ
  pub counter : ℕ

-- The case of a physics event with the given timestamp.
unfoldable pub count_event : ℕ → Validator → Validator
count_event ts s = record {
  current_ts = ts;
  prev_ts = ts;
  n_out_of_order = if leb ts s.prev_ts then (s.n_out_of_order + 1) % 2 ^ 32 else s.n_out_of_order;
  counter = add_u64 s.counter 1;
}

-- `std::find` in the exclusion list.
unfoldable pub is_excluded : ℕ → List ℕ → Bool
is_excluded type [] = false
is_excluded type (x ∷ xs) = let more = is_excluded type xs in if x == type then true else more

module _ ⦃factory : ItemFactory⦄ where
  unfoldable pub process_item : List ℕ → Validator → Result Validator
  process_item item s =
      let event : Result Validator =
        (factory.event_timestamp item >>= λ ts. ok (count_event ts s)) in
      if factory.item_type item == factory.begin_run
      then ok (record s { counter = 0 })
      else if factory.item_type item == factory.ring_format
      then (if factory.is_format item then ok s else err Error.logic_error)
      else if factory.item_type item == factory.physics_event
      then event
      else ok s

module _ {D : Type 0} ⦃src : DataSource D⦄ where
  -- `for (int i = 0; i < skipCount; i++)`: null where the program exits with success.
  unfoldable pub skip_items : ℕ → D → Option D
  skip_items zero d = some d
  skip_items (suc n) d =
      let (got, d') = src.get_item d in elim got [ none ↦ none | some item ↦ skip_items n d' ]

module _ {D : Type 0} ⦃factory : ItemFactory⦄ ⦃src : DataSource D⦄ where
  -- The dump loop of `main`, with fuel. `limit` is whether a count is given, and `remaining` the
  -- count that is left, where a negative one is 0.
  unfoldable pub dump_loop : ℕ → List ℕ → Bool → ℕ → D → Validator → Result (D × Validator)
  dump_loop zero excluded limit remaining d s = err Error.out_of_fuel
  dump_loop (suc fuel) excluded limit remaining d s =
      let (got, d') = src.get_item d in
      elim got [
        | none ↦ ok (d', s)
        | some item ↦
            let pass = dump_loop fuel excluded limit remaining d' s in
            let dumped : Result (D × Validator) =
              (process_item item s >>= λ t.
              let again = dump_loop fuel excluded limit (remaining - 1) d' t in
              if limit && leb remaining 1 then ok (d', t) else again) in
            if is_excluded (factory.item_type item) excluded then pass else dumped
      ]
