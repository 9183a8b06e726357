-- ===== src/Workflow/Tests.antt =====
-- Command lines as the lists of the options that they give.
use Prim.Native.String.{String}
use text.Mathlib.Text.{◌==◌ as same_name}
use frib_e2sar.Base.{
  ℕ, ◌+◌, ◌≡◌, ◌↔◌, ◌⊎◌, refl, List, [], ◌∷◌, Option, none, some, Bool, true, false, not, Error, ok,
  err, if◌then◌else◌,
}
use frib_e2sar.Sender.{ExitCode}
use frib_e2sar.Workflow.{
  OptionSpec, VariablesMap, options, find_option, run_checks, conflicting_options,
  option_dependency, check_options, Applications, main_exit,
}
use frib_e2sar.Workflow.Checks.{IsParsed, Excludes, not_for_send, not_for_recv, check_options_iff}
use frib_e2sar.Workflow.Exit.{AllComplete, main_exit_iff}

abbrev among : String → List String → Bool
among name [] = false
among name (x ∷ xs) = let rest = among name xs in if same_name x name then true else rest

abbrev counted : Option OptionSpec → Bool → Bool
counted none there = false
counted (some o) there = if o.has_default then true else there

abbrev by_default : Option OptionSpec → Bool → Bool
by_default none there = false
by_default (some o) there = if o.has_default then not there else false

abbrev parse : List String → VariablesMap
parse line = record {
  count = λ name. counted (find_option name options) (among name line);
  defaulted = λ name. by_default (find_option name options) (among name line);
}

parse-IsParsed : (line : List String) → IsParsed (parse line)
parse-IsParsed line = record {
  known = λ name h. rw h refl;
  preset = λ name o h d. rw (h, d) refl;
  plain = λ name o h d. rw (h, d) refl;
}

-- `--send --source … --bufsize …`
abbrev sending : VariablesMap
sending = parse ("send" ∷ "source" ∷ "bufsize" ∷ [])

sending_accepted : check_options sending ≡ ok tt
unfolding check_options run_checks conflicting_options option_dependency
sending_accepted = refl

-- `--send` alone is accepted too, and so is `--recv --srcid …`; `--send --port …` is not.
send_alone : check_options (parse ("send" ∷ [])) ≡ ok tt
unfolding check_options run_checks conflicting_options option_dependency
send_alone = refl

recv_with_srcid : check_options (parse ("recv" ∷ "srcid" ∷ [])) ≡ ok tt
unfolding check_options run_checks conflicting_options option_dependency
recv_with_srcid = refl

send_with_port : check_options (parse ("send" ∷ "port" ∷ [])) ≡ err Error.logic_error
unfolding check_options run_checks conflicting_options option_dependency
send_with_port = refl

check_options_iff_example : (check_options sending ≡ ok tt) ↔ (
    Excludes sending "send" not_for_send
    × (Excludes sending "recv" not_for_recv × Excludes sending "cores" ("threads" ∷ [])))
check_options_iff_example =
    check_options_iff sending (parse-IsParsed ("send" ∷ "source" ∷ "bufsize" ∷ []))

-- The world counts the runs; the sender fails, and the receiver throws.
instance abbrev counting : Applications ℕ
counting = record {
  send = λ vm w. (ok ExitCode.exit_failure, w + 1);
  receive = λ vm w. (err Error.runtime_error, w + 2);
}

main_exit_iff_example : ((main_exit {W = ℕ} (some sending) 7).0 ≡ ExitCode.exit_success) ↔ (
    (check_options sending ≡ ok tt)
    × ((sending.count "help" ≡ true) ⊎ AllComplete {W = ℕ} sending 7))
main_exit_iff_example =
    main_exit_iff {W = ℕ} sending (parse-IsParsed ("send" ∷ "source" ∷ "bufsize" ∷ [])) 7
