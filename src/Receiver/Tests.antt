-- ===== src/Receiver/Tests.antt =====
-- The receiver with lists for the Reassembler's queue and for the sink, and with a URL that is
-- split at the first colon.
use frib_e2sar.Base.{
  ℕ, ◌+◌, sym, ◌∙◌, ok-injective, ◌*◌, ◌^◌, ◌≡◌, ◌≢◌, ◌↔◌, refl, ap, List, [], ◌∷◌, ◌++◌, none,
  some, true, false, ok, ◌==◌, ne→==, if◌then◌else◌, All, arith,
}
use frib_e2sar.BufferedSink.{Buffer, BufferedSink, init, emit_from_window}
use frib_e2sar.BufferedSink.Sample.{list_fifo}
use frib_e2sar.BufferedSink.Window.{Spans}
use frib_e2sar.Receiver.{
  SinkNames, SinkOptions, Url, Reception, Reassembler, Receiving, file_proto, authority_mark,
  evt_suffix, equals, print_uri, make_sink_uri, configure_sink, receive_loop, to_double, nearest,
  round_at,
}
use frib_e2sar.Receiver.Uri.{Opens, make_sink_uri-make_data_sink}
use frib_e2sar.Receiver.Window.{configure_sink-emit_from_window}
use frib_e2sar.Receiver.Sample.{willing}
use frib_e2sar.Receiver.Delivery.{Delivers, receive_loop-Delivers}

abbrev before_colon : List ℕ → List ℕ
before_colon [] = []
before_colon (c ∷ cs) = let rest = before_colon cs in if c == 58 then [] else c ∷ rest

before_colon-proto :
    (p rest : List ℕ) → All (λ (c : ℕ). c ≢ 58) p → before_colon (p ++ (authority_mark ++ rest)) ≡ p
before_colon-proto [] rest h = refl
before_colon-proto (c ∷ cs) rest h =
    rw (ne→== c 58 h.0) (ap (◌∷◌ c) (before_colon-proto cs rest h.1))

instance abbrev colon_url : Url
colon_url = record {
  parse_url = λ u. ok (before_colon u, u);
  proto_before = λ p rest proto path h e.
      ap (λ (x : List ℕ × List ℕ). x.0) (sym (ok-injective e)) ∙ before_colon-proto p rest h;
}

-- "file", "h", "d" and "x".
abbrev names : SinkNames
names = record {
  proto = file_proto;
  host_name = 104 ∷ [];
  base_path = 100 ∷ [];
  sink_name = 120 ∷ [];
}

abbrev file_uri : List ℕ
file_uri = file_proto ++ (authority_mark ++ (100 ∷ 47 ∷ 120 ∷ evt_suffix))

names-file_uri : make_sink_uri names ≡ ok file_uri
unfolding make_sink_uri equals print_uri
names-file_uri = refl

make_sink_uri-make_data_sink_example : Opens names file_uri
make_sink_uri-make_data_sink_example = make_sink_uri-make_data_sink names file_uri names-file_uri

abbrev two_times : List Buffer
two_times =
    record { s_time = 1; payload = []; s_size = 0 }
    ∷ record { s_time = 5; payload = []; s_size = 0 }
    ∷ []

abbrev queued : BufferedSink (List Buffer) (List ℕ)
queued = record (init [] [] true) { sorted_queue = two_times }

abbrev options : SinkOptions
options = record { use_ct = true; sink_timeout = none; sink_window = some 2 }

configure_sink-emit_from_window_example :
    (t : BufferedSink (List Buffer) (List ℕ)) × (configure_sink options queued ≡ ok t)
    × ((emit_from_window t ≡ true) ↔ Spans (2 * 10 ^ 6) two_times)
configure_sink-emit_from_window_example =
    configure_sink-emit_from_window true none 2 queued (omega arith) ((omega arith, tt), (tt, tt))
      (omega arith, (omega arith, tt))

-- 2^53 + 1 is no `double`, and 2^53 + 3 lies between two of which the upper is even.
rounded :
    (to_double (2 ^ 53 + 1) ≡ 2 ^ 53)
    × (to_double (2 ^ 53 + 3) ≡ 2 ^ 53 + 4)
    × (to_double (2 ^ 60 + 129) ≡ 2 ^ 60 + 256)
unfolding to_double nearest round_at
rounded = (refl, refl, refl)

instance abbrev list_reassembler : Reassembler (List Reception)
list_reassembler = record {
  get_event = λ r. elim r [ [] ↦ (Reception.empty, []) | e ∷ es ↦ (e, es) ];
}

abbrev ready : Receiving (List Reception) (List Buffer) (List ℕ)
ready = record {
  reassembler = Reception.event 3 (1 ∷ 2 ∷ []) ∷ Reception.empty ∷ Reception.failed ∷ [];
  sink = init [] [] false;
  total_bytes = 0;
}

receive_loop-Delivers_example : Delivers ready (receive_loop 5 (λ i. false) 0 (λ i. i) 0 ready).1
receive_loop-Delivers_example = receive_loop-Delivers 5 (λ i. false) (λ i. i) 0 ready
