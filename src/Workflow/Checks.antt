-- ===== src/Workflow/Checks.antt =====
-- What the checks of the options enforce, and what they do not.
use Prim.Native.String.{String}
use frib_e2sar.Base.{
  ◌≡◌, ◌↔◌, refl, inl, inr, List, [], ◌∷◌, ◌++◌, map, none, some, true, false, ok, >>=-eq-ok,
  Bool-cases, All, All-append, All-append_left, All-append_right, drop, length,
}
use frib_e2sar.Workflow.{
  OptionSpec, VariablesMap, options, find_option, given, Check, conflicting, dependency,
  conflicting_options, option_dependency, run_check, run_checks, checks, check_options,
}

-- A map that the parser makes from the table of options: an option with a default always has a
-- value, a name that is no option has none, and a value without a default was given.
pub record IsParsed (vm : VariablesMap) : Type 0 where
  pub known : (name : String) → find_option name options ≡ none → vm.count name ≡ false
  pub preset :
      (name : String) (o : OptionSpec)
      → find_option name options ≡ some o
      → o.has_default ≡ true
      → vm.count name ≡ true
  pub plain :
      (name : String) (o : OptionSpec)
      → find_option name options ≡ some o
      → o.has_default ≡ false
      → vm.defaulted name ≡ false

-- The options that `--send` excludes, and those that `--recv` excludes.
abbrev pub not_for_send : List String
not_for_send =
    "recv" ∷ "threads" ∷ "period" ∷ "duration" ∷ "dequeue" ∷ "port" ∷ "proto" ∷ "hostname"
    ∷ "basepath" ∷ "sinkname" ∷ "sink-timeout" ∷ "sink-window" ∷ []

abbrev pub not_for_recv : List String
not_for_recv =
    "num" ∷ "dataid" ∷ "rate" ∷ "source" ∷ "mtu" ∷ "bufsize" ∷ "optimize" ∷ "read-timeout"
    ∷ "ddasraw" ∷ []

-- None of the options is given if the first is.
abbrev pub Excludes : VariablesMap → String → List String → Type 0
Excludes vm opt others = given vm opt ≡ true → All (λ (o : String). given vm o ≡ false) others

-- The options that `option_dependency` is called for.
abbrev send_required : List String
send_required = "ip" ∷ "source" ∷ "rate" ∷ []

abbrev recv_required : List String
recv_required = "ip" ∷ "port" ∷ "proto" ∷ "hostname" ∷ "basepath" ∷ "sinkname" ∷ []

abbrev pub required : List String
required = send_required ++ recv_required

-- The name of an option with a default.
abbrev HasDefault : String → Type 0
HasDefault name = (o : OptionSpec) × (find_option name options ≡ some o) × (o.has_default ≡ true)

preset_name :
    (name : String) (o : OptionSpec)
    → find_option name options ≡ some o
    → o.has_default ≡ true
    → HasDefault name
preset_name name o found preset = (o, found, preset)

send_required-HasDefault : All HasDefault send_required
send_required-HasDefault = (
  preset_name "ip" _ refl refl,
  (preset_name "source" _ refl refl, (preset_name "rate" _ refl refl, tt)),
)

recv_required-HasDefault : All HasDefault recv_required
recv_required-HasDefault = (
  preset_name "ip" _ refl refl,
  (
    preset_name "port" _ refl refl,
    (
      preset_name "proto" _ refl refl,
      (
        preset_name "hostname" _ refl refl,
        (preset_name "basepath" _ refl refl, (preset_name "sinkname" _ refl refl, tt)),
      ),
    ),
  ),
)

required-HasDefault : All HasDefault required
required-HasDefault =
    All-append HasDefault send_required recv_required send_required-HasDefault
      recv_required-HasDefault

abbrev Passes : VariablesMap → Check → Type 0
Passes vm c = run_check vm c ≡ ok tt

-- The checks throw nothing exactly if each of them throws nothing.
run_checks-Passes :
    (vm : VariablesMap) (cs : List Check) → All (Passes vm) cs → run_checks vm cs ≡ ok tt
unfolding run_checks
run_checks-Passes vm [] h = refl
run_checks-Passes vm (c ∷ cs) h = rw h.0 (run_checks-Passes vm cs h.1)

Passes-run_checks :
    (vm : VariablesMap) (cs : List Check) → run_checks vm cs ≡ ok tt → All (Passes vm) cs
unfolding run_checks
Passes-run_checks vm [] h = tt
Passes-run_checks vm (c ∷ cs) h =
    let (u, first, rest) = >>=-eq-ok (run_check vm c) (λ _. run_checks vm cs) h in
    (first, Passes-run_checks vm cs rest)

-- The checks of one option against others, and what they say.
Excludes-Passes :
    (vm : VariablesMap) (opt : String) (others : List String)
    → Excludes vm opt others
    → All (Passes vm) (map (conflicting opt) others)
unfolding conflicting_options
Excludes-Passes vm opt [] h = tt
Excludes-Passes vm opt (o ∷ os) h = elim (Bool-cases (given vm opt)) [
  | inl yes_given ↦ (
    rw (conflicting_options, yes_given, (h yes_given).0) refl,
    Excludes-Passes vm opt os (λ e. (h e).1),
  )
  | inr not_given ↦
      (rw (conflicting_options, not_given) refl, Excludes-Passes vm opt os (λ e. (h e).1))
]

Passes-Excludes :
    (vm : VariablesMap) (opt : String) (others : List String)
    → All (Passes vm) (map (conflicting opt) others)
    → Excludes vm opt others
unfolding conflicting_options
Passes-Excludes vm opt [] h e = tt
Passes-Excludes vm opt (o ∷ os) h e = elim (Bool-cases (given vm o)) [
  | inl also ↦ let bad = rw (conflicting_options, e, also) at h.0 in cc
  | inr other ↦ (other, Passes-Excludes vm opt os h.1 e)
]

-- The checks, from behind those that `--send` excludes and from behind those that `--recv` does.
abbrev after_send : List Check
after_send = drop (length not_for_send) checks

abbrev after_src : List Check
after_src = drop 5 after_send

abbrev after_recv : List Check
after_recv = drop 8 after_src

module _ (vm : VariablesMap) (parsed : IsParsed vm) where
  -- An option that there is not is never given.
  unknown-Passes :
      (opt name : String) → find_option name options ≡ none → Passes vm (conflicting opt name)
  unfolding conflicting_options
  unknown-Passes opt name h = elim (Bool-cases (given vm opt)) [
    | inl yes_given ↦ rw (conflicting_options, yes_given, parsed.known name h) refl
    | inr not_given ↦ rw (conflicting_options, not_given) refl
  ]

  default-Passes : (opt name : String) → HasDefault name → Passes vm (dependency opt name)
  unfolding option_dependency
  default-Passes opt name (o, found, preset) = elim (Bool-cases (given vm opt)) [
    | inl yes_given ↦ rw (option_dependency, yes_given, parsed.preset name o found preset) refl
    | inr not_given ↦ rw (option_dependency, not_given) refl
  ]

  dependencies_pass :
      (opt : String) (names : List String)
      → All HasDefault names
      → All (Passes vm) (map (dependency opt) names)
  dependencies_pass opt [] h = tt
  dependencies_pass opt (n ∷ ns) h = (default-Passes opt n h.0, dependencies_pass opt ns h.1)

  -- The calls of `option_dependency` in `main` never throw, whatever the command line is: all the
  -- options that they require have default values.
  pub check_options-dependency :
      (opt : String) → All (λ (name : String). option_dependency vm opt name ≡ ok tt) required
  check_options-dependency opt = each required required-HasDefault
    where
      each :
          (names : List String)
          → All HasDefault names
          → All (λ (name : String). option_dependency vm opt name ≡ ok tt) names
      each [] h = tt
      each (n ∷ ns) h = (default-Passes opt n h.0, each ns h.1)

  -- On a map that the parser made, which knows just the options of the program and has their default
  -- values, the checks accept a command line exactly if `--send` comes with no option that is for
  -- the receiver, `--recv` with no option that is for the sender, and `--cores` not with
  -- `--threads`. Whether the options that they require are given makes no difference, nor does an
  -- option `src`, while `srcid` is not among those excluded by `--recv`.
  pub check_options_iff : (check_options vm ≡ ok tt) ↔ (
      Excludes vm "send" not_for_send
      × (Excludes vm "recv" not_for_recv × Excludes vm "cores" ("threads" ∷ [])))
  unfolding check_options
  check_options_iff = (accepted, accepts)
    where
      accepted :
          check_options vm ≡ ok tt
          → Excludes vm "send" not_for_send
            × (Excludes vm "recv" not_for_recv × Excludes vm "cores" ("threads" ∷ []))
      accepted h =
          let all : All (Passes vm) checks = Passes-run_checks vm checks h in
          let send_part =
            All-append_left (Passes vm) (map (conflicting "send") not_for_send) after_send all in
          let rest =
            All-append_right (Passes vm) (map (conflicting "send") not_for_send) after_send all in
          let recv_rest = rest.1.1.1 in
          let recv_part : All (Passes vm) (map (conflicting "recv") not_for_recv) = (
            recv_rest.0,
            All-append_left (Passes vm) (map (conflicting "recv") (drop 1 not_for_recv)) after_recv
                recv_rest.1.1,
          ) in
          let cores_part =
            All-append_right (Passes vm) (map (dependency "recv") recv_required)
              (conflicting "cores" "threads" ∷ [])
              (All-append_right (Passes vm) (map (conflicting "recv") (drop 1 not_for_recv))
                after_recv recv_rest.1.1) in
          (
            Passes-Excludes vm "send" not_for_send send_part,
            (
              Passes-Excludes vm "recv" not_for_recv recv_part,
              Passes-Excludes vm "cores" ("threads" ∷ []) cores_part,
            ),
          )

      accepts :
          Excludes vm "send" not_for_send
            × (Excludes vm "recv" not_for_recv × Excludes vm "cores" ("threads" ∷ []))
          → check_options vm ≡ ok tt
      accepts h =
          let recv_part : All (Passes vm) (map (conflicting "recv") not_for_recv) =
            Excludes-Passes vm "recv" not_for_recv h.1.0 in
          run_checks-Passes vm checks (
            All-append (Passes vm) (map (conflicting "send") not_for_send) after_send
              (Excludes-Passes vm "send" not_for_send h.0)
              (All-append (Passes vm) (map (dependency "send") send_required) (drop 3 after_send)
                (dependencies_pass "send" send_required send_required-HasDefault)
                (
                  recv_part.0,
                  (
                    unknown-Passes "recv" "src" refl,
                    All-append (Passes vm) (map (conflicting "recv") (drop 1 not_for_recv))
                        after_recv recv_part.1
                        (All-append (Passes vm) (map (dependency "recv") recv_required)
                          (conflicting "cores" "threads" ∷ [])
                          (dependencies_pass "recv" recv_required recv_required-HasDefault)
                          (Excludes-Passes vm "cores" ("threads" ∷ []) h.1.1)),
                  ),
                )))
