-- ===== src/Sender/Session/Tests.antt =====
-- A sender on a load balancer that is the list of its senders.
use frib_e2sar.Base.{
  ◌≡◌, ℕ, refl, ap, List, [], ◌∷◌, ◌++◌, none, some, Bool, true, false, ok, length, drop,
  drop-append, ◌∙◌,
}
use frib_e2sar.Sender.Source.{Connections, source_for, stream_of, make_data_source}
use frib_e2sar.Receiver.{equals}
use frib_e2sar.Utils.{
  UriFactory, SegmenterFlags, value_of, get_uri, get_segmenter_flags_from_file, map_version,
}
use frib_e2sar.Sender.Session.{
  LoadBalancer, SenderOptions, Session, session, prepare, connect, instantiate, make_segmenter,
  make_pool, construct, ctrl_c_handler,
}
use frib_e2sar.Sender.Session.Interrupt.{ctrl_c_handler-senders}

never_failed : {a b : List (List ℕ)} → true ≡ false → a ≡ b
never_failed e = cc

instance abbrev list_balancer : LoadBalancer (List (List ℕ))
list_balancer = record {
  senders = λ l. l;
  add_senders = λ new l. (true, new ++ l);
  remove_senders = λ gone l. (true, drop (length gone) l);
  makes_segmenter = λ l. true;
  makes_pool = λ l. true;
  open_and_start = λ l. (true, l);
  stop_threads = λ l. l;
  add_done = λ new l e. refl;
  add_failed = λ new l e. never_failed e;
  remove_done = λ gone rest l e h. ap (drop (length gone)) h ∙ drop-append gone rest;
  open_senders = λ l. refl;
  stop_senders = λ l. refl;
}

-- A file for every URI.
instance abbrev files : Connections
files = record {
  get_proto = λ uri. ok (102 ∷ 105 ∷ 108 ∷ 101 ∷ []);
  get_path = λ uri. ok uri;
  consume_from = λ uri. none;
  is_good = λ path. true;
  is_open = λ path. true;
  good_open = λ path. refl;
}

instance abbrev any_uri : UriFactory (List ℕ)
any_uri = record { get_from_env = λ v6. none; get_from_string = λ uri v6. some uri }

-- The flags are whether there is a control plane.
instance abbrev plane_flags : SegmenterFlags Bool
plane_flags = record {
  get_from_ini = λ name. some true;
  use_cp = λ f. f;
  dp_v6 = λ f. false;
  set_mtu = λ n f. f;
}

abbrev options : SenderOptions
options = record {
  nscldaq_version = 12;
  source = 120 ∷ [];
  read_timeout = 5;
  ini = none;
  cwd = 47 ∷ [];
  mtu = some 9000;
  uri = 101 ∷ [];
  optimize = [];
  ip = 49 ∷ [];
}

abbrev others : List (List ℕ)
others = (50 ∷ []) ∷ []

abbrev connected : Session
connected = record (session true options) { has_segmenter = true }

ctrl_c_handler-senders_example :
    ((ctrl_c_handler (some connected) ((49 ∷ []) ∷ others)).1 ≡ others)
    × ((ctrl_c_handler (some connected) ((49 ∷ []) ∷ others)).1 ≡ others)
    × ((ctrl_c_handler (some (session true options)) ((49 ∷ []) ∷ others)).1 ≡ (49 ∷ []) ∷ others)
unfolding construct prepare connect instantiate make_segmenter make_pool map_version
    make_data_source source_for stream_of equals get_uri get_segmenter_flags_from_file value_of
ctrl_c_handler-senders_example =
    ctrl_c_handler-senders (List ℕ) Bool (λ names. true) (λ gone l. refl) true options others
      ((49 ∷ []) ∷ others) connected refl
