-- ===== src/TsValidate/Program.antt =====
-- `main` of tsvalidate.cpp, with `mapVersion` and `makeSourceString`.
pub mod Reports
use frib_e2sar.Base.{
  ℕ, List, [], ◌∷◌, ◌++◌, Option, none, some, Bool, Error, Result, ok, err, ◌>>=◌, if◌then◌else◌,
}
use frib_e2sar.Sender.{DataSource}
use frib_e2sar.Sender.Source.{Connections, SourceKind}
use frib_e2sar.Utils.{SupportedVersion}
use frib_e2sar.TsValidate.{
  TypeNames, ItemFactory, Validator, make_exclusion_list, skip_items, dump_loop,
}
use frib_e2sar.TsValidate.Source.{make_data_source}

-- `enum_format` of the parser of the command line, with its value for none.
pub data Format : Type 0 where
  format_v12 format_v11 format_v10 format_null : Format

unfoldable pub map_version : Format → Result SupportedVersion
map_version format_v12 = ok SupportedVersion.v12
map_version format_v11 = ok SupportedVersion.v11
map_version format_v10 = ok SupportedVersion.v10
map_version format_null = err Error.invalid_argument

-- "tcp://localhost/".
abbrev local_uri : List ℕ
local_uri =
    116 ∷ 99 ∷ 112 ∷ 58 ∷ 47 ∷ 47 ∷ 108 ∷ 111 ∷ 99 ∷ 97 ∷ 108 ∷ 104 ∷ 111 ∷ 115 ∷ 116 ∷ 47 ∷ []

-- `makeSourceString`: whether the pointer is that of the literal "", and the name of the user.
unfoldable pub make_source_string : Bool → List ℕ → List ℕ → List ℕ
make_source_string same_pointer user src_in = if same_pointer then local_uri ++ user else src_in

-- `gengetopt_args_info`. A negative `skip_arg` or `count_arg` is 0 here; it is treated like it.
pub record Args : Type 0 where
  pub source_arg : List ℕ
  pub source_is_literal : Bool
  pub skip_given : Bool
  pub skip_arg : ℕ
  pub count_given : Bool
  pub count_arg : ℕ
  pub exclude_arg : List ℕ
  pub format_arg : Format

abbrev pub skip_count : Args → ℕ
skip_count a = if a.skip_given then a.skip_arg else 0

-- The global variables at the start.
abbrev pub start : Validator
start = record { current_ts = 0; prev_ts = 0; n_out_of_order = 0; counter = 0 }

-- How the program ends; an exception that `main` does not catch terminates it.
pub data Exit : Type 0 where
  exit_success exit_failure terminated : Exit

-- The handlers: for a `std::exception`, and for a `CRangeError`, which no call of the model throws.
unfoldable pub caught : Error → Result Exit
caught Error.bad_alloc = ok Exit.exit_failure
caught Error.runtime_error = ok Exit.exit_failure
caught Error.invalid_argument = ok Exit.exit_failure
caught Error.logic_error = ok Exit.exit_failure
caught Error.errno_exception = ok Exit.terminated
caught Error.thrown_string = ok Exit.terminated
caught Error.daq_exception = ok Exit.terminated
caught Error.e2sar_exception = ok Exit.terminated
caught Error.out_of_bounds = err Error.out_of_bounds
caught Error.out_of_fuel = err Error.out_of_fuel

module _ {D : Type 0} ⦃factory : ItemFactory⦄ ⦃src : DataSource D⦄ where
  -- The dump loop behind the skip loop. None is `exit(EXIT_SUCCESS)`, with nothing reported.
  unfoldable pub after_skip : ℕ → List ℕ → Args → Option D → Result (Option Validator)
  after_skip fuel excluded a none = ok none
  after_skip fuel excluded a (some d) =
      dump_loop fuel excluded a.count_given a.count_arg d start >>= λ r. ok (some r.1)

  module _ ⦃names : TypeNames⦄ ⦃daq : Connections⦄ (open_source : SourceKind → D) where
    -- The body of the `try`, with fuel for the dump loop.
    unfoldable pub validate : ℕ → List ℕ → Args → Result (Option Validator)
    validate fuel user a = do
      excluded ← make_exclusion_list a.exclude_arg
      version ← map_version a.format_arg
      kind ← make_data_source (make_source_string a.source_is_literal user a.source_arg)
      after_skip fuel excluded a (skip_items (skip_count a) (open_source kind))

    abbrev settle : Result (Option Validator) → Result (Exit × Option Validator)
    settle (err e) = caught e >>= λ x. ok (x, none)
    settle (ok report) = ok (Exit.exit_success, report)

    -- `main`: how it ends, and the counts that it reports.
    unfoldable pub main : ℕ → List ℕ → Args → Result (Exit × Option Validator)
    main fuel user a = settle (validate fuel user a)
