-- ===== src/EvbFilter/Program.antt =====
-- `main` of evbfilter.cpp around the event loop.
use mathlib.Core.Option.{some-injective}
use frib_e2sar.Base.{
  ℕ, ◌≤◌, ◌≡◌, ◌≢◌, refl, ap, List, [], ◌∷◌, ◌++◌, map, flatten, Option, none, some, Bool, true,
  false, Error, Result, ok, err, ok-injective, second_eq, if◌then◌else◌, All, length, arith,
}
use frib_e2sar.RingItem.{RingFormat}
use frib_e2sar.Sender.{ExitCode}
use frib_e2sar.EvbFilter.{Input, Filter, filter_loop}
use frib_e2sar.EvbFilter.Loop.{Passed, IsPassed, on_input, filter_loop-items, filter_loop-endless}

-- The variables map.
pub record FilterOptions : Type 0 where
  pub help : Bool
  pub debug : Bool
  pub count : ℕ

-- The state before the first item: no buffer, and nothing put out.
abbrev pub started : {I : Type 0} → I → Filter I
started i = record { input = i; alloc_bytes = 0; output = [] }

-- The handlers: both return EXIT_FAILURE.
unfoldable pub caught : {I : Type 0} → Result (Filter I) → Result (ExitCode × Option (Filter I))
caught (ok s) = ok (ExitCode.exit_success, some s)
caught (err Error.out_of_bounds) = err Error.out_of_bounds
caught (err Error.out_of_fuel) = err Error.out_of_fuel
caught (err e) = ok (ExitCode.exit_failure, none)

-- Success is only reported of a loop that has ended.
caught-success :
    {I : Type 0} (r : Result (Filter I)) (t : Filter I)
    → caught r ≡ ok (ExitCode.exit_success, some t)
    → r ≡ ok t
unfolding caught
caught-success (ok s) t h = ap ok (some-injective s t (second_eq (ok-injective h)))
caught-success (err Error.bad_alloc) t h = cc
caught-success (err Error.runtime_error) t h = cc
caught-success (err Error.invalid_argument) t h = cc
caught-success (err Error.logic_error) t h = cc
caught-success (err Error.errno_exception) t h = cc
caught-success (err Error.thrown_string) t h = cc
caught-success (err Error.daq_exception) t h = cc
caught-success (err Error.e2sar_exception) t h = cc
caught-success (err Error.out_of_bounds) t h = cc
caught-success (err Error.out_of_fuel) t h = cc

module _ {I : Type 0} ⦃io : Input I⦄ ⦃fmt : RingFormat⦄ (can_alloc : ℕ → Bool) where
  -- `main` on what the parser makes of the command line, in which none is an unknown option, with
  -- fuel for the event loop: the exit code, and the state behind the loop.
  unfoldable pub main : ℕ → Option FilterOptions → I → Result (ExitCode × Option (Filter I))
  main fuel none i = ok (ExitCode.exit_failure, none)
  main fuel (some o) i =
      let run = caught (filter_loop can_alloc o.debug fuel o.count 0 (started i)) in
      if o.help then ok (ExitCode.exit_success, none) else run

  -- If there is always space to allocate and no help is asked for: asked for as many items as
  -- there are on the input before the rest, and at least one, all of which the filter
  -- understands, the program exits with success, leaves the rest unread, and has put out
  -- those items filtered, in order; and without a count no number of rounds brings it to
  -- success.
  pub main-items :
      ((n : ℕ) → can_alloc n ≡ true)
      → (o : FilterOptions) (x : Passed) (xs : List Passed) (i : I) (rest : List ℕ) (fuel : ℕ)
      → o.help ≡ false
      → All (IsPassed o.debug) (x ∷ xs)
      → io.remaining i ≡ on_input (x ∷ xs) ++ rest
      → length (x ∷ xs) ≤ fuel
      → (o.count ≡ length (x ∷ xs)
          → (t : Filter I) × (main fuel (some o) i ≡ ok (ExitCode.exit_success, some t))
            × (io.remaining t.input ≡ rest)
            × (t.output ≡ flatten (map (λ (y : Passed). y.out) (x ∷ xs))))
        × (o.count ≡ 0
            → (n : ℕ) (t : Filter I) → main n (some o) i ≢ ok (ExitCode.exit_success, some t))
  unfolding main caught
  main-items can o x xs i rest fuel no_help passed there f = (
    (λ c.
        let (t, run, left, out) =
          filter_loop-items can_alloc o.debug can x xs fuel o.count 0 (started i) rest passed there
            (omega (arith, c)) f in
        (t, rw (no_help, run) refl, left, out)),
    λ z n t done.
        let ended : filter_loop can_alloc o.debug n o.count 0 (started i) ≡ ok t =
          caught-success (filter_loop can_alloc o.debug n o.count 0 (started i)) t
            (rw no_help at done) in
        filter_loop-endless can_alloc o.debug n 0 (started i) t (rw z at ended),
  )
