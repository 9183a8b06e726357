-- ===== src/TsValidate/Tests.antt =====
-- The splitting of a string and the check of timestamps on small inputs.
use frib_e2sar.Base.{
  ℕ, zero, suc, ◌≡◌, refl, List, [], ◌∷◌, Option, none, some, true, false, ok, ◌==◌, if◌then◌else◌,
  arith,
}
use frib_e2sar.Sender.{DataSource}
use frib_e2sar.Receiver.{equals}
use frib_e2sar.Sender.Source.{Connections, SourceKind}
use frib_e2sar.Sender.Source as Sending
use frib_e2sar.TsValidate.Program.{Args, Format}
use frib_e2sar.TsValidate.Source.{
  source_for, ring_of, make_data_source, opened, make_data_source-agrees,
}
use frib_e2sar.TsValidate.{
  ItemFactory, TypeNames, Validator, tokenize, make_exclusion_list, tokenize_loop, skip_delims,
  span_word, exclusions_of, exclusion,
}
use frib_e2sar.TsValidate.Tokens.{separated, tokenize-separated}

-- "12,A".
abbrev two_words : List (List ℕ)
two_words = (49 ∷ 50 ∷ []) ∷ (65 ∷ []) ∷ []

tokenize-separated_example : tokenize (separated 44 two_words) 44 ≡ ok two_words
tokenize-separated_example = tokenize-separated 44 two_words (
  (omega arith, ((λ e. omega (arith, e)), ((λ e. omega (arith, e)), tt))),
  ((omega arith, ((λ e. omega (arith, e)), tt)), tt),
)

-- One-digit numbers, and the name "A" for the type 30.
instance abbrev digits : TypeNames
digits = record {
  stoi = λ s. elim s [
    | [] ↦ none
    | c ∷ cs ↦ elim cs [ [] ↦ (elim c [ zero ↦ none | suc k ↦ none ]) | x ∷ xs ↦ none ]
  ];
  find_type = λ s. elim s [ [] ↦ none | c ∷ cs ↦ some 30 ];
}

exclusion_of_a_name : make_exclusion_list (44 ∷ 65 ∷ 44 ∷ []) ≡ ok (30 ∷ [])
unfolding make_exclusion_list tokenize tokenize_loop skip_delims span_word exclusions_of exclusion
exclusion_of_a_name = refl

-- An item is its type and its timestamp.
abbrev first_of : List ℕ → ℕ
first_of [] = 0
first_of (x ∷ xs) = x

abbrev second_of : List ℕ → ℕ
second_of [] = 0
second_of (x ∷ xs) = first_of xs

instance abbrev pairs : ItemFactory
pairs = record {
  begin_run = 1;
  ring_format = 12;
  physics_event = 30;
  physics_begin = λ e. omega (arith, e);
  physics_format = λ e. omega (arith, e);
  item_type = first_of;
  is_format = λ i. true;
  event_timestamp = λ i. ok (second_of i);
}

abbrev next_of : List (List ℕ) → Option (List ℕ) × List (List ℕ)
next_of [] = (none, [])
next_of (x ∷ xs) = (some x, xs)

instance abbrev listed : DataSource (List (List ℕ))
listed = record { get_item = next_of }

abbrev run_items : List (List ℕ)
run_items = (1 ∷ []) ∷ (30 ∷ 5 ∷ []) ∷ (30 ∷ 4 ∷ []) ∷ []

abbrev fresh : Validator
fresh = record { current_ts = 0; prev_ts = 0; n_out_of_order = 0; counter = 0 }

-- Every ring and every file can be opened, and the protocol is what stands before the colon.
abbrev before_colon : List ℕ → List ℕ
before_colon [] = []
before_colon (c ∷ cs) = let rest = before_colon cs in if c == 58 then [] else c ∷ rest

instance abbrev connected : Connections
connected = record {
  get_proto = λ u. ok (before_colon u);
  get_path = λ u. ok u;
  consume_from = λ u. some 1;
  is_good = λ p. true;
  is_open = λ p. true;
  good_open = λ p. refl;
}

-- "tcp:".
make_data_source-agrees_example :
    opened (Sending.make_data_source 2 (116 ∷ 99 ∷ 112 ∷ 58 ∷ []))
    ≡ opened (make_data_source (116 ∷ 99 ∷ 112 ∷ 58 ∷ []))
make_data_source-agrees_example = make_data_source-agrees 2 (116 ∷ 99 ∷ 112 ∷ 58 ∷ [])

ring_with_timeout :
    Sending.make_data_source 2 (116 ∷ 99 ∷ 112 ∷ 58 ∷ []) ≡ ok (SourceKind.ring_source 1 (some 2))
unfolding Sending.make_data_source Sending.source_for Sending.ring_of equals
ring_with_timeout = refl

-- `--source tcp: --skip 1`, on the three items.
abbrev skipping : Args
skipping = record {
  source_arg = 116 ∷ 99 ∷ 112 ∷ 58 ∷ [];
  source_is_literal = false;
  skip_given = true;
  skip_arg = 1;
  count_given = false;
  count_arg = 0;
  exclude_arg = [];
  format_arg = Format.format_v12;
}
