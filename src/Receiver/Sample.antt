-- ===== src/Receiver/Sample.antt =====
-- A worker to run the definitions on.
use frib_e2sar.Base.{◌≡◌, refl, [], ◌∷◌, some, Bool, true, false}
use frib_e2sar.Receiver.Session.{Worker}

pub never_failed : {a b : Bool} → true ≡ false → a ≡ b
never_failed e = cc

-- A worker that is always registered, deregistered, started and stopped when it is asked to be.
instance abbrev pub willing : Worker (Bool × Bool)
willing = record {
  is_registered = λ r. r.0;
  is_open = λ r. r.1;
  host_name = λ r. some (104 ∷ []);
  register_worker = λ n r. (true, (true, r.1));
  open_and_start = λ r. (true, (r.0, true));
  register_done = λ n r e. refl;
  register_open = λ n r. refl;
  open_done = λ r e. refl;
  open_failed = λ r e. never_failed e;
  open_registered = λ r. refl;
  deregister_worker = λ r. (true, (false, r.1));
  stop_threads = λ r. (r.0, false);
  deregister_done = λ r e. refl;
  stop_done = λ r. refl;
  stop_registered = λ r. refl;
}
