-- ===== src/Workflow/Exit.antt =====
-- Which application runs, and with what the program exits.
use mathlib.Core.Bool.{true≢false}
use frib_e2sar.Base.{
  ◌≡◌, ◌↔◌, ◌⊎◌, refl, inl, inr, first_eq, ap, sym, ◌∙◌, some, true, false, Result, ok, err,
  Bool-cases,
}
use frib_e2sar.Sender.{ExitCode}
use frib_e2sar.Workflow.{
  VariablesMap, given, check_options, Applications, then_run, finish, run_receiver, run_application,
  after_checks, main_exit,
}
use frib_e2sar.Workflow.Checks.{IsParsed, check_options_iff}

-- It comes to an end without an exception, whatever it returns.
abbrev pub Completes : {W : Type 0} → Result ExitCode × W → Type 0
Completes {W} r = (code : ExitCode) × (w : W) × (r ≡ (ok code, w))

-- The cases of a run behind the checks, at most one application being asked for.
pub data Outcome {W : Type 0} ⦃apps : Applications W⦄ (vm : VariablesMap) (w : W)
    : ExitCode × W → Type 0 where
  idle :
      {r : ExitCode × W}
      → vm.count "send" ≡ false
      → vm.count "recv" ≡ false
      → r ≡ (ExitCode.exit_success, w)
      → Outcome vm w r
  sent :
      {r : ExitCode × W}
      → vm.count "send" ≡ true
      → vm.count "recv" ≡ false
      → r ≡ then_run (apps.send vm w) finish
      → Outcome vm w r
  received :
      {r : ExitCode × W}
      → vm.count "send" ≡ false
      → vm.count "recv" ≡ true
      → r ≡ then_run (apps.receive vm w) finish
      → Outcome vm w r

module _ (vm : VariablesMap) (parsed : IsParsed vm) where
  -- `--send` and `--recv` have no default, so that they are given if they are there.
  send_given : vm.count "send" ≡ true → given vm "send" ≡ true
  send_given h = rw (h, parsed.plain "send" _ refl refl) refl

  not_received : given vm "recv" ≡ false → vm.count "recv" ≡ false
  not_received h = elim (Bool-cases (vm.count "recv")) [
    | inr absent ↦ absent
    | inl there ↦ let bad = rw (there, parsed.plain "recv" _ refl refl) at h in cc
  ]

module _ {W : Type 0} ⦃apps : Applications W⦄ (vm : VariablesMap) where
  run_receiver-absent : (w : W) → vm.count "recv" ≡ false → run_receiver vm w ≡ finish w
  unfolding run_receiver
  run_receiver-absent w h = rw h refl

  then_run-finish :
      (r : Result ExitCode × W)
      → vm.count "recv" ≡ false
      → then_run r (run_receiver vm) ≡ then_run r finish
  then_run-finish (err e, w) h = refl
  then_run-finish (ok code, w) h = run_receiver-absent w h

  -- What the applications that are asked for have to do.
  abbrev pub AllComplete : W → Type 0
  AllComplete w =
      (vm.count "send" ≡ true → Completes (apps.send vm w))
      × (vm.count "recv" ≡ true → Completes (apps.receive vm w))

  then_run-Completes :
      (r : Result ExitCode × W) → ((then_run r finish).0 ≡ ExitCode.exit_success) ↔ Completes r
  then_run-Completes (err e, w) = ((λ h. cc), (λ h. let bad = first_eq h.2 in cc))
  then_run-Completes (ok code, w) = ((λ h. (code, w, refl)), (λ h. refl))

module _ {W : Type 0} ⦃apps : Applications W⦄ (vm : VariablesMap) (parsed : IsParsed vm) where
  -- If the checks accept the command line, at most one application is run, the one that was asked
  -- for, on the world as it was; if none was asked for, the program does nothing and succeeds.
  pub run_application-Outcome :
      (w : W) → check_options vm ≡ ok tt → Outcome vm w (run_application vm w)
  unfolding run_application run_receiver
  run_application-Outcome w accepted = elim (Bool-cases (vm.count "send")) [
    | inl send ↦
        let alone : vm.count "recv" ≡ false =
          not_received vm parsed
            (((check_options_iff vm parsed).0 accepted).0 (send_given vm parsed send)).0 in
        sent send alone (rw send (then_run-finish vm (apps.send vm w) alone))
    | inr no_send ↦ elim (Bool-cases (vm.count "recv")) [
      | inl receive ↦ received no_send receive (rw (no_send, receive) refl)
      | inr absent ↦ idle no_send absent (rw (no_send, absent) refl)
    ]
  ]

  Outcome-AllComplete :
      (w : W) (r : ExitCode × W) → Outcome vm w r → (r.0 ≡ ExitCode.exit_success) ↔ AllComplete vm w
  Outcome-AllComplete w r (idle no_send absent e) = (
    (λ h. (
      (λ x. absurd (true≢false (sym x ∙ no_send))),
      (λ x. absurd (true≢false (sym x ∙ absent))),
    )),
    (λ h. first_eq e),
  )
  Outcome-AllComplete w r (sent send alone e) =
      let same = then_run-Completes vm (apps.send vm w) in
      (
        (λ h. (
          (λ x. same.0 (ap (λ z. z.0) (sym e) ∙ h)),
          (λ x. absurd (true≢false (sym x ∙ alone))),
        )),
        (λ h. ap (λ z. z.0) e ∙ same.1 (h.0 send)),
      )
  Outcome-AllComplete w r (received no_send receive e) =
      let same = then_run-Completes vm (apps.receive vm w) in
      (
        (λ h. (
          (λ x. absurd (true≢false (sym x ∙ no_send))),
          (λ x. same.0 (ap (λ z. z.0) (sym e) ∙ h)),
        )),
        (λ h. ap (λ z. z.0) e ∙ same.1 (h.1 receive)),
      )

  -- For a command line that was parsed, the program exits with success exactly if the checks accept
  -- it and either help is asked for or each application that is asked for ends without an
  -- exception. What the application returns makes no difference.
  pub main_exit_iff :
      (w : W)
      → ((main_exit (some vm) w).0 ≡ ExitCode.exit_success)
        ↔ ((check_options vm ≡ ok tt) × ((vm.count "help" ≡ true) ⊎ AllComplete vm w))
  unfolding main_exit
  main_exit_iff w = by_checks (check_options vm) refl
    where
      by_checks :
          (checked : Result (Unit {0}))
          → check_options vm ≡ checked
          → ((after_checks checked vm w).0 ≡ ExitCode.exit_success)
            ↔ ((check_options vm ≡ ok tt) × ((vm.count "help" ≡ true) ⊎ AllComplete vm w))
      by_checks (err e) h = ((λ x. cc), (λ x. let bad : err e ≡ ok tt = sym h ∙ x.0 in cc))
      by_checks (ok u) h =
          let same = Outcome-AllComplete w (run_application vm w) (run_application-Outcome w h) in
          elim (Bool-cases (vm.count "help")) [
            | inl help ↦ ((λ x. (h, inl help)), (λ x. rw help refl))
            | inr no_help ↦ (
              (λ x. (h, inr (same.0 (rw no_help at x)))),
              (λ x. rw no_help (elim x.1 [
                | inl help ↦ absurd (true≢false (sym help ∙ no_help))
                | inr complete ↦ same.1 complete
              ])),
            )
          ]
