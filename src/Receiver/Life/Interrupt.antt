-- ===== src/Receiver/Life/Interrupt.antt =====
-- What an interrupt of the receiver writes, beside what its destructor would have written.
use mathlib.Core.List.{Perm, append_assoc}
use mathlib.Core.List.Perm
use mathlib.Core.Path.{subst}
use frib_e2sar.Base.{
  ℕ, ◌+◌, ◌<◌, ◌≡◌, refl, ap, ◌∙◌, List, [], ◌∷◌, ◌++◌, false, some, ok, length, length-drop, drop,
  drop_add, arith,
}
use frib_e2sar.RingItem.{RingFormat}
use frib_e2sar.BufferedSink.{Buffer, Fifo, DataSink, Puts, batch_size}
use frib_e2sar.BufferedSink.Poll.Invariant.{Valid}
use frib_e2sar.BufferedSink.Stop.{stop_threads-Flushes, destroy-drops}
use frib_e2sar.Receiver.Session.{Worker}
use frib_e2sar.Receiver.Life.{Receiver, shutdown, close, ctrl_c_handler}
use frib_e2sar.Receiver.Life.Closing.{IsReleased, released}

append_cancel-Perm : (xs ys zs : List Buffer) → Perm (xs ++ ys) (xs ++ zs) → Perm ys zs
append_cancel-Perm [] ys zs p = p
append_cancel-Perm (x ∷ xs) ys zs p = append_cancel-Perm xs ys zs (Perm.cons_inv p)

module _ {R Q S : Type 0} ⦃worker : Worker R⦄ ⦃fifo : Fifo Q Buffer⦄ ⦃dev : DataSink S⦄
    ⦃fmt : RingFormat⦄ where
  -- What SIGINT makes of a receiver, and what its destructor would have written more.
  pub record Interrupted (fuel : ℕ) (s : Receiver R Q S) (written arrived : List Buffer)
      : Type 0 where
    pub out : List Buffer
    pub final : Receiver R Q S
    pub ends : ctrl_c_handler (some s) ≡ ok (0, out, some final)
    pub none_sorted : final.sink.sorted_queue ≡ []
    pub left_eq :
        fifo.contents final.sink.input_queue ≡ drop batch_size (fifo.contents s.sink.input_queue)
    pub conserved : Perm ((written ++ out) ++ fifo.contents final.sink.input_queue) arrived
    pub is_released : IsReleased s.reassembler final.reassembler
    pub more : List Buffer
    pub closed : (u : Receiver R Q S) × (close fuel s ≡ ok (out ++ more, u))
    pub lost :
        Perm
          (more ++ drop (batch_size + batch_size) (fifo.contents s.sink.input_queue))
          (fifo.contents final.sink.input_queue)

  -- A receiver whose sink is in a state that keeps the invariant and takes its data ends with 0
  -- when it is interrupted. Its Reassembler is stopped and its worker deregistered, if E2SAR does,
  -- and the sorted queue and the first batch of the input queue are written. What is in the input
  -- queue behind that batch stays unwritten, though the destructor would have written a second
  -- batch of it.
  pub ctrl_c_handler-Interrupted :
      Puts dev
      → (fuel : ℕ) (s : Receiver R Q S) {written arrived : List Buffer}
      → Valid s.sink written arrived
      → length (fifo.contents s.sink.input_queue) < fuel
      → Interrupted fuel s written arrived
  unfolding ctrl_c_handler close shutdown
  ctrl_c_handler-Interrupted puts fuel s {written} {arrived} v enough =
      let input = fifo.contents s.sink.input_queue in
      let (out, t, run, empty, left, gone, u) = stop_threads-Flushes puts s.sink v in
      let (more, t', run', empty', none_left, _, perm) =
        destroy-drops puts fuel t u
          (rw left (omega (arith, length-drop batch_size input, enough))) in
      let r : R = worker.stop_threads (worker.deregister_worker s.reassembler).1 in
      let rest : drop batch_size (fifo.contents t.input_queue)
          ≡ drop (batch_size + batch_size) input =
        ap (drop batch_size) left ∙ drop_add batch_size batch_size _ input refl in
      let kept : Perm ((written ++ out) ++ fifo.contents t.input_queue) arrived =
        subst
          (λ (q : List Buffer).
            Perm ((written ++ out) ++ (q ++ fifo.contents t.input_queue)) arrived)
          empty u.conserved in
      record {
        out = out;
        final = record { reassembler = r; sink = t; threads_running = false };
        ends = rw run refl;
        none_sorted = empty;
        left_eq = left;
        conserved = kept;
        is_released = released s.reassembler;
        more = more;
        closed =
            (record { reassembler = r; sink = t'; threads_running = false }, rw (run, run') refl);
        lost = append_cancel-Perm (written ++ out) _ _ (
            Perm.trans
              (subst (λ (z : List Buffer). Perm z arrived)
                (append_assoc (written ++ out) more _
                  ∙ ap (λ (z : List Buffer). (written ++ out) ++ (more ++ z)) rest)
                perm)
              (Perm.symm kept));
      }
