-- ===== src/Sender/Session/Balance.antt =====
-- What a run of the sender leaves registered with the load balancer.
use frib_e2sar.Base.{◌≡◌, ◌⊎◌, ◌∷◌, Bool, true, Error, Result, err}
use frib_e2sar.Sender.{ExitCode}
use frib_e2sar.Sender.Session.{LoadBalancer, SenderOptions, Session, session}

-- The session that the constructor leaves.
abbrev built : Bool → SenderOptions → Session
built has_manager o = record (session has_manager o) { has_segmenter = true }

module _ {L : Type 0} ⦃lb : LoadBalancer L⦄ where
  -- What a run of the sender does to the registered senders: nothing, or its own address is left
  -- there by an exception of the Segmenter or of the BufferPool.
  abbrev pub Balanced : SenderOptions → L → Result ExitCode × L → Type 0
  Balanced o l r =
      (lb.senders r.1 ≡ lb.senders l)
      ⊎ (((r.0 ≡ err Error.e2sar_exception) ⊎ (r.0 ≡ err Error.bad_alloc))
          × (lb.senders r.1 ≡ o.ip ∷ lb.senders l))
