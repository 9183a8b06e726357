-- ===== src/Workflow.antt =====
-- e2sarwf/e2sarwf.cpp: the options of the program, their checks, and the choice of the application.
pub mod Checks
pub mod Exit
mod Tests
use Prim.Native.String.{String}
use text.Mathlib.Text.{◌==◌ as same_name}
use frib_e2sar.Base.{
  ◌≡◌, List, [], ◌∷◌, ◌++◌, Option, none, some, Bool, true, false, not, ◌&&◌, ◌||◌, Error, Result,
  ok, err, ◌>>=◌, if◌then◌else◌,
}
use frib_e2sar.Sender.{ExitCode}

-- An option: its long name, its letter, and whether it has a default value.
pub record OptionSpec : Type 0 where
  pub name : String
  pub letter : String
  pub has_default : Bool

abbrev plain : String → String → OptionSpec
plain name letter = record { name = name; letter = letter; has_default = false }

abbrev preset : String → String → OptionSpec
preset name letter = record { name = name; letter = letter; has_default = true }

-- `od.add_options()`, in the order of `main`.
abbrev pub options : List OptionSpec
options =
    plain "help" "h"
    ∷ plain "send" ""
    ∷ plain "recv" ""
    ∷ preset "bufsize" "b"
    ∷ preset "uri" "u"
    ∷ preset "num" "n"
    ∷ preset "srcid" ""
    ∷ preset "dataid" ""
    ∷ preset "threads" "t"
    ∷ preset "rate" "r"
    ∷ preset "period" "p"
    ∷ preset "duration" "d"
    ∷ plain "ini" "i"
    ∷ preset "ip" ""
    ∷ preset "port" "p"
    ∷ preset "dequeue" "D"
    ∷ plain "cores" "c"
    ∷ plain "optimize" "o"
    ∷ plain "mtu" "m"
    ∷ preset "nscldaq-version" "v"
    ∷ preset "source" "s"
    ∷ preset "proto" ""
    ∷ preset "hostname" ""
    ∷ preset "basepath" ""
    ∷ preset "sinkname" ""
    ∷ preset "read-timeout" ""
    ∷ plain "sink-timeout" ""
    ∷ plain "sink-window" ""
    ∷ preset "ddasraw" ""
    ∷ preset "useCt" ""
    ∷ preset "debug" ""
    ∷ []

-- `find`: the option of the given name.
abbrev pub find_option : String → List OptionSpec → Option OptionSpec
find_option name [] = none
find_option name (o ∷ os) =
    let rest = find_option name os in if same_name o.name name then some o else rest

-- Boost's `variables_map`: whether it has a value for a name, and whether that is the default.
pub record VariablesMap : Type 0 where
  pub count : String → Bool
  pub defaulted : String → Bool

-- `vm.count(opt) && !vm[opt].defaulted()`.
abbrev pub given : VariablesMap → String → Bool
given vm opt = vm.count opt && not (vm.defaulted opt)

unfoldable pub conflicting_options : VariablesMap → String → String → Result (Unit {0})
conflicting_options vm opt1 opt2 =
    if given vm opt1 && given vm opt2 then err Error.logic_error else ok tt

unfoldable pub option_dependency : VariablesMap → String → String → Result (Unit {0})
option_dependency vm for_what required_option =
    if given vm for_what && not (vm.count required_option) then err Error.logic_error else ok tt

-- A call of one of the two.
pub data Check : Type 0 where
  conflicting dependency : String → String → Check

abbrev pub run_check : VariablesMap → Check → Result (Unit {0})
run_check vm (conflicting a b) = conflicting_options vm a b
run_check vm (dependency a b) = option_dependency vm a b

unfoldable pub run_checks : VariablesMap → List Check → Result (Unit {0})
run_checks vm [] = ok tt
run_checks vm (c ∷ cs) = run_check vm c >>= λ _. run_checks vm cs

-- The calls of `main`, in order.
abbrev pub checks : List Check
checks =
    conflicting "send" "recv"
    ∷ conflicting "send" "threads"
    ∷ conflicting "send" "period"
    ∷ conflicting "send" "duration"
    ∷ conflicting "send" "dequeue"
    ∷ conflicting "send" "port"
    ∷ conflicting "send" "proto"
    ∷ conflicting "send" "hostname"
    ∷ conflicting "send" "basepath"
    ∷ conflicting "send" "sinkname"
    ∷ conflicting "send" "sink-timeout"
    ∷ conflicting "send" "sink-window"
    ∷ dependency "send" "ip"
    ∷ dependency "send" "source"
    ∷ dependency "send" "rate"
    ∷ conflicting "recv" "num"
    ∷ conflicting "recv" "src"
    ∷ conflicting "recv" "dataid"
    ∷ conflicting "recv" "rate"
    ∷ conflicting "recv" "source"
    ∷ conflicting "recv" "mtu"
    ∷ conflicting "recv" "bufsize"
    ∷ conflicting "recv" "optimize"
    ∷ conflicting "recv" "read-timeout"
    ∷ conflicting "recv" "ddasraw"
    ∷ dependency "recv" "ip"
    ∷ dependency "recv" "port"
    ∷ dependency "recv" "proto"
    ∷ dependency "recv" "hostname"
    ∷ dependency "recv" "basepath"
    ∷ dependency "recv" "sinkname"
    ∷ conflicting "cores" "threads"
    ∷ []

unfoldable pub check_options : VariablesMap → Result (Unit {0})
check_options vm = run_checks vm checks

-- The construction and the run of a `Sender` or a `Receiver`, on the world around the program. The
-- number is what `operator()` returns.
pub record Applications (W : Type 0) : Type 0 where
  pub send : VariablesMap → W → Result ExitCode × W
  pub receive : VariablesMap → W → Result ExitCode × W

module _ {W : Type 0} ⦃apps : Applications W⦄ where
  -- After an application: an exception ends the program, and what it returned is not looked at.
  abbrev pub then_run : Result ExitCode × W → (W → ExitCode × W) → ExitCode × W
  then_run (err e, w) rest = (ExitCode.exit_failure, w)
  then_run (ok code, w) rest = rest w

  abbrev pub finish : W → ExitCode × W
  finish w = (ExitCode.exit_success, w)

  unfoldable pub run_receiver : VariablesMap → W → ExitCode × W
  run_receiver vm w = if vm.count "recv" then then_run (apps.receive vm w) finish else finish w

  -- The part of `main` behind the checks.
  unfoldable pub run_application : VariablesMap → W → ExitCode × W
  run_application vm w =
      if vm.count "send" then then_run (apps.send vm w) (run_receiver vm) else run_receiver vm w

  abbrev pub after_checks : Result (Unit {0}) → VariablesMap → W → ExitCode × W
  after_checks (err e) vm w = (ExitCode.exit_failure, w)
  after_checks (ok _) vm w =
      let run = run_application vm w in if vm.count "help" then finish w else run

  -- `main` on what the parser makes of the command line; none is an unknown option.
  unfoldable pub main_exit : Option VariablesMap → W → ExitCode × W
  main_exit none w = (ExitCode.exit_failure, w)
  main_exit (some vm) w = after_checks (check_options vm) vm w
