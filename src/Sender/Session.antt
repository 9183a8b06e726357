-- ===== src/Sender/Session.antt =====
-- The life of a `Sender`: its constructor, the start of the Segmenter in `operator()`, and
-- `shutdown`, which the destructor calls.
mod Tests
pub mod Balance
pub mod Interrupt
use frib_e2sar.Base.{
  guard_that, ℕ, ◌+◌, ◌≡◌, ◌⊎◌, refl, sym, ap, ◌∙◌, inl, inr, List, [], ◌∷◌, ◌++◌, Option, none,
  some, Bool, true, false, Error, Result, ok, err, ◌>>=◌, Bool-cases, if◌then◌else◌,
}
use frib_e2sar.Sender.{ExitCode}
use frib_e2sar.Sender.Source.{Connections, SourceKind, make_data_source}
use frib_e2sar.Utils.{
  UriFactory, SegmenterFlags, SupportedVersion, map_version, get_uri, get_segmenter_flags_from_file,
}

-- The load balancer and the Segmenter behind it: the senders that are registered, and whether an
-- operation had no error. `makes_segmenter` and `makes_pool` tell whether the constructor of the
-- Segmenter and that of the BufferPool, which allocates, do not throw.
pub record LoadBalancer (L : Type 0) : Type 0 where
  pub senders : L → List (List ℕ)
  pub add_senders : List (List ℕ) → L → Bool × L
  pub remove_senders : List (List ℕ) → L → Bool × L
  pub makes_segmenter : L → Bool
  pub makes_pool : L → Bool
  pub open_and_start : L → Bool × L
  pub stop_threads : L → L
  pub add_done :
      (new : List (List ℕ)) (l : L)
      → (add_senders new l).0 ≡ true
      → senders (add_senders new l).1 ≡ new ++ senders l
  pub add_failed :
      (new : List (List ℕ)) (l : L)
      → (add_senders new l).0 ≡ false
      → senders (add_senders new l).1 ≡ senders l
  pub remove_done :
      (gone rest : List (List ℕ)) (l : L)
      → (remove_senders gone l).0 ≡ true
      → senders l ≡ gone ++ rest
      → senders (remove_senders gone l).1 ≡ rest
  pub open_senders : (l : L) → senders (open_and_start l).1 ≡ senders l
  pub stop_senders : (l : L) → senders (stop_threads l) ≡ senders l

-- What the constructor takes from the variables map, beyond the `Config` of the send loop.
pub record SenderOptions : Type 0 where
  pub nscldaq_version : ℕ
  pub source : List ℕ
  pub read_timeout : ℕ
  pub ini : Option (List ℕ)
  pub cwd : List ℕ
  pub mtu : Option ℕ
  pub uri : List ℕ
  pub optimize : List (List ℕ)
  pub ip : List ℕ

-- `cwd.string() + "/segmenter_config.ini"`, where the name is given.
abbrev pub ini_file : List ℕ → SenderOptions → List ℕ
ini_file default_name o = elim o.ini [ none ↦ o.cwd ++ default_name | some name ↦ name ]

-- What `shutdown` needs: whether there is a Segmenter, whether there is an `LBManager`, and the
-- senders that it registered.
pub record Session : Type 0 where
  pub has_segmenter : Bool
  pub has_manager : Bool
  pub m_senders : List (List ℕ)

-- The members after the control plane is configured; there is no Segmenter yet.
abbrev pub session : Bool → SenderOptions → Session
session has_manager o = record {
  has_segmenter = false;
  has_manager = has_manager;
  m_senders = if has_manager then o.ip ∷ [] else [];
}

-- "/segmenter_config.ini".
abbrev pub segmenter_ini : List ℕ
segmenter_ini =
    47 ∷ 115 ∷ 101 ∷ 103 ∷ 109 ∷ 101 ∷ 110 ∷ 116 ∷ 101 ∷ 114 ∷ 95 ∷ 99 ∷ 111 ∷ 110 ∷ 102 ∷ 105 ∷ 103
    ∷ 46 ∷ 105 ∷ 110 ∷ 105 ∷ []

abbrev pub with_mtu : {F : Type 0} ⦃flags : SegmenterFlags F⦄ → Option ℕ → F → F
with_mtu none f = f
with_mtu ⦃flags⦄ (some n) f = flags.set_mtu n f

module _ {U F : Type 0} ⦃daq : Connections⦄ ⦃uris : UriFactory U⦄ ⦃flags : SegmenterFlags F⦄ where
  -- The constructor up to the control plane. `instance_free` tells that there is no other `Sender`,
  -- and `selects` what `Optimizations::select` makes of the options.
  unfoldable pub prepare :
      (List (List ℕ) → Bool) → Bool → SenderOptions → Result (SourceKind × F × U)
  prepare selects instance_free o = do
    one ← guard_that instance_free Error.runtime_error
    version ← map_version o.nscldaq_version
    opened ← make_data_source o.read_timeout o.source
    read ← get_segmenter_flags_from_file (ini_file segmenter_ini o)
    uri ← get_uri o.uri (flags.dp_v6 (with_mtu o.mtu read))
    optimized ← guard_that (selects o.optimize) Error.runtime_error
    ok (opened, with_mtu o.mtu read, uri)

module _ {L : Type 0} ⦃lb : LoadBalancer L⦄ where
  -- `std::make_unique<Segmenter>`.
  unfoldable pub make_segmenter : Session → L → Result Session × L
  make_segmenter s l =
      if lb.makes_segmenter l
      then (ok (record s { has_segmenter = true }), l)
      else (err Error.e2sar_exception, l)

  -- `std::make_unique<BufferPool>`.
  unfoldable pub make_pool : Result Session × L → Result Session × L
  make_pool (err e, l) = (err e, l)
  make_pool (ok s, l) = if lb.makes_pool l then (ok s, l) else (err Error.bad_alloc, l)

  -- `shutdown`; an error of `removeSenders` is only reported.
  unfoldable pub shutdown : Session → L → L
  shutdown s l =
      let left = (if s.has_manager then (lb.remove_senders s.m_senders l).1 else l) in
      if s.has_segmenter then lb.stop_threads left else l

  -- `ctrlCHandler`, with the exit code.
  unfoldable pub ctrl_c_handler : Option Session → L → ℕ × L
  ctrl_c_handler none l = (0, l)
  ctrl_c_handler (some s) l = (0, shutdown s l)

  -- `operator()` with what its send loop comes to, and the destructor, which also runs if the loop
  -- throws.
  unfoldable pub operate : Result ExitCode → Session → L → Result ExitCode × L
  operate sent s l =
      let (started, l') = lb.open_and_start l in
      (if started then sent else ok ExitCode.exit_failure, shutdown s l')

  -- The Segmenter and the BufferPool.
  unfoldable pub instantiate : Session → L → Result Session × L
  instantiate s l = make_pool (make_segmenter s l)

  -- The control plane, if the flags say that it is used, and what is instantiated behind it.
  unfoldable pub connect : Bool → SenderOptions → L → Result Session × L
  connect use_cp o l =
      let (added, registered) = lb.add_senders (o.ip ∷ []) l in
      let with_manager = instantiate (session true o) registered in
      if use_cp
      then (if added then with_manager else (err Error.runtime_error, registered))
      else instantiate (session false o) l

  -- A run of the sender that has a session, or none.
  unfoldable pub run_session : Result ExitCode → Result Session × L → Result ExitCode × L
  run_session sent (err e, l) = (err e, l)
  run_session sent (ok s, l) = operate sent s l

  -- Both are made, or one constructor throws.
  pub instantiate-cases :
      (s : Session) (l : L)
      → (instantiate s l ≡ (ok (record s { has_segmenter = true }), l))
        ⊎ ((e : Error) × ((e ≡ Error.e2sar_exception) ⊎ (e ≡ Error.bad_alloc))
            × (instantiate s l ≡ (err e, l)))
  unfolding instantiate make_segmenter make_pool
  instantiate-cases s l = elim (Bool-cases (lb.makes_segmenter l)) [
    | inr throws ↦ inr (Error.e2sar_exception, inl refl, rw throws refl)
    | inl made ↦ elim (Bool-cases (lb.makes_pool l)) [
      | inl pool ↦ inl (rw (made, pool) refl)
      | inr full ↦ inr (Error.bad_alloc, inr refl, rw (made, full) refl)
    ]
  ]

module _ (U F : Type 0) {L : Type 0} ⦃daq : Connections⦄ ⦃uris : UriFactory U⦄
    ⦃flags : SegmenterFlags F⦄ ⦃lb : LoadBalancer L⦄ (selects : List (List ℕ) → Bool) where
  -- The constructor.
  unfoldable pub construct : Bool → SenderOptions → L → Result Session × L
  construct instance_free o l =
      let prepared : Result (SourceKind × F × U) = prepare selects instance_free o in
      elim prepared [ err e ↦ (err e, l) | ok (opened, f, uri) ↦ connect (flags.use_cp f) o l ]

  -- `Sender sender(vm); sender();`. Where the constructor throws there is no destructor.
  unfoldable pub run_sender : Bool → Result ExitCode → SenderOptions → L → Result ExitCode × L
  run_sender instance_free sent o l = run_session sent (construct instance_free o l)
