-- ===== src/Receiver/Session.antt =====
-- `Receiver::prepareToReceive`: the order in which the worker is registered and started.
use frib_e2sar.Base.{
  ℕ, ◌≡◌, ◌⊎◌, inl, inr, refl, ◌∙◌, List, Option, none, some, Bool, true, false, Bool-cases,
  Option-cases, if◌then◌else◌,
}

-- `getHostName` and the E2SAR `Reassembler`, whose operations tell whether there was no error.
-- `is_registered` and `is_open` are what they have done so far.
pub record Worker (R : Type 0) : Type 0 where
  pub is_registered : R → Bool
  pub is_open : R → Bool
  pub host_name : R → Option (List ℕ)
  pub register_worker : List ℕ → R → Bool × R
  pub open_and_start : R → Bool × R
  pub register_done :
      (n : List ℕ) (r : R)
      → (register_worker n r).0 ≡ true
      → is_registered (register_worker n r).1 ≡ true
  pub register_open : (n : List ℕ) (r : R) → is_open (register_worker n r).1 ≡ is_open r
  pub open_done : (r : R) → (open_and_start r).0 ≡ true → is_open (open_and_start r).1 ≡ true
  pub open_failed :
      (r : R) → (open_and_start r).0 ≡ false → is_open (open_and_start r).1 ≡ is_open r
  pub open_registered : (r : R) → is_registered (open_and_start r).1 ≡ is_registered r
  pub deregister_worker : R → Bool × R
  pub stop_threads : R → R
  pub deregister_done :
      (r : R) → (deregister_worker r).0 ≡ true → is_registered (deregister_worker r).1 ≡ false
  pub stop_done : (r : R) → is_open (stop_threads r) ≡ false
  pub stop_registered : (r : R) → is_registered (stop_threads r) ≡ is_registered r

module _ {R : Type 0} ⦃worker : Worker R⦄ where
  unfoldable pub start_worker : List ℕ → R → ℕ × R
  start_worker name r =
      let (registered, s) = worker.register_worker name r in
      let (started, t) = worker.open_and_start s in
      if registered then (if started then (0, t) else (1, t)) else (1, s)

  unfoldable pub prepare_to_receive : R → ℕ × R
  prepare_to_receive r = elim (worker.host_name r) [
    | none ↦ (1, r)
    | some name ↦ start_worker name r
  ]

  -- 0 with the worker registered and started, or 1 with the worker not started.
  abbrev pub Prepared : R → ℕ × R → Type 0
  Prepared r result =
      ((result.0 ≡ 0) × (worker.is_registered result.1 ≡ true) × (worker.is_open result.1 ≡ true))
      ⊎ ((result.0 ≡ 1) × (worker.is_open result.1 ≡ worker.is_open r))

  started :
      (name : List ℕ) (r : R)
      → (worker.register_worker name r).0 ≡ true
      → Prepared r (start_worker name r)
  unfolding start_worker
  started name r ok_name =
      let s = (worker.register_worker name r).1 in
      elim (Bool-cases (worker.open_and_start s).0) [
        | inl runs ↦
            rw (start_worker, ok_name, runs)
              (inl (
                refl,
                worker.open_registered s ∙ worker.register_done name r ok_name,
                worker.open_done s runs,
              ))
        | inr fails ↦
            rw (start_worker, ok_name, fails)
              (inr (refl, worker.open_failed s fails ∙ worker.register_open name r))
      ]

  -- `prepareToReceive` returns 0 with the worker registered and the Reassembler started, or 1, and
  -- then the Reassembler has not been started: it is never started without a registration.
  pub prepare_to_receive-Prepared : (r : R) → Prepared r (prepare_to_receive r)
  unfolding prepare_to_receive start_worker
  prepare_to_receive-Prepared r = elim (Option-cases (worker.host_name r)) [
    | inl nameless ↦ rw (prepare_to_receive, nameless) (inr (refl, refl))
    | inr (name, named) ↦
        rw (prepare_to_receive, named)
          (elim (Bool-cases (worker.register_worker name r).0) [
            | inl registered ↦ started name r registered
            | inr refused ↦ rw (start_worker, refused) (inr (refl, worker.register_open name r))
          ])
  ]
