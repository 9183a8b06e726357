-- ===== src/Sender/Session/Interrupt.antt =====
-- What an interrupt of the sender leaves registered with the load balancer.
use frib_e2sar.Base.{
  ℕ, ◌≡◌, ◌⊎◌, refl, ◌∙◌, inl, inr, List, [], ◌∷◌, ◌++◌, some, Bool, true, false, Result, ok, err,
  ok-injective, first_eq, second_eq, Bool-cases,
}
use frib_e2sar.Sender.Source.{Connections, SourceKind}
use frib_e2sar.Utils.{UriFactory, SegmenterFlags}
use frib_e2sar.Sender.Session.{
  LoadBalancer, SenderOptions, Session, session, prepare, instantiate, instantiate-cases, shutdown,
  connect, construct, ctrl_c_handler,
}

module _ {L : Type 0} ⦃lb : LoadBalancer L⦄ where
  -- What a sender has registered stands before the others.
  abbrev IsRegistered : List (List ℕ) → Session → L → Type 0
  IsRegistered before s l =
      ((s.has_manager ≡ true) × (lb.senders l ≡ s.m_senders ++ before))
      ⊎ ((s.has_manager ≡ false) × (lb.senders l ≡ before))

  instantiate-IsRegistered :
      (before : List (List ℕ)) (s t : Session) (l l' : L)
      → instantiate s l ≡ (ok t, l')
      → IsRegistered before s l
      → (t.has_segmenter ≡ true) × IsRegistered before t l'
  instantiate-IsRegistered before s t l l' run h = elim (instantiate-cases s l) [
    | inr (e, _, throws) ↦ let bad = first_eq (rw throws at run) in cc
    | inl made ↦
        let same = rw made at run in rw (← ok-injective (first_eq same), ← second_eq same) (refl, h)
  ]

  connect-IsRegistered :
      (use_cp : Bool) (o : SenderOptions) (l l' : L) (t : Session)
      → connect use_cp o l ≡ (ok t, l')
      → (t.has_segmenter ≡ true) × IsRegistered (lb.senders l) t l'
  unfolding connect
  connect-IsRegistered false o l l' t run =
      instantiate-IsRegistered (lb.senders l) (session false o) t l l' run (inr (refl, refl))
  connect-IsRegistered true o l l' t run =
      let added = (lb.add_senders (o.ip ∷ []) l).1 in
      elim (Bool-cases (lb.add_senders (o.ip ∷ []) l).0) [
        | inl done ↦
            instantiate-IsRegistered (lb.senders l) (session true o) t added l' (rw done at run)
              (inl (refl, lb.add_done (o.ip ∷ []) l done))
        | inr failed ↦ let bad = first_eq (rw failed at run) in cc
      ]

  shutdown-senders :
      ((gone : List (List ℕ)) (l : L) → (lb.remove_senders gone l).0 ≡ true)
      → (before : List (List ℕ)) (s : Session) (l : L) → s.has_segmenter ≡ true
      → IsRegistered before s l
      → lb.senders (shutdown s l) ≡ before
  unfolding shutdown
  shutdown-senders removes before s l made (inl (manager, e)) = rw made (
      lb.stop_senders _
      ∙ rw manager (lb.remove_done s.m_senders before l (removes s.m_senders l) e))
  shutdown-senders removes before s l made (inr (none_there, e)) =
      rw made (lb.stop_senders _ ∙ rw none_there e)

module _ (U F : Type 0) {L : Type 0} ⦃daq : Connections⦄ ⦃uris : UriFactory U⦄
    ⦃flags : SegmenterFlags F⦄ ⦃lb : LoadBalancer L⦄ (selects : List (List ℕ) → Bool) where
  -- If every removal succeeds, an interrupt of a sender whose constructor has returned, be it
  -- before the Segmenter is started or after, leaves those senders registered with the load
  -- balancer that were there before the constructor. An interrupt in the constructor between
  -- `addSenders` and the making of the Segmenter removes none: whatever was added stays there.
  pub ctrl_c_handler-senders :
      ((gone : List (List ℕ)) (l : L) → (lb.remove_senders gone l).0 ≡ true)
      → (instance_free : Bool) (o : SenderOptions) (l l' : L) (s : Session)
      → construct U F selects instance_free o l ≡ (ok s, l')
      → let started = (lb.open_and_start l').1 in
        let added = (lb.add_senders (o.ip ∷ []) l).1 in
        (lb.senders (ctrl_c_handler (some s) l').1 ≡ lb.senders l)
        × (lb.senders (ctrl_c_handler (some s) started).1 ≡ lb.senders l)
        × (lb.senders (ctrl_c_handler (some (session true o)) added).1 ≡ lb.senders added)
  unfolding construct ctrl_c_handler shutdown
  ctrl_c_handler-senders removes instance_free o l l' s run =
      let (now, later) = by_cases (prepare selects instance_free o) run in (now, later, refl)
    where
      kept :
          s.has_segmenter ≡ true
          → IsRegistered (lb.senders l) s l'
          → (lb.senders (shutdown s l') ≡ lb.senders l)
            × (lb.senders (shutdown s (lb.open_and_start l').1) ≡ lb.senders l)
      kept made h = (
        shutdown-senders removes (lb.senders l) s l' made h,
        shutdown-senders removes (lb.senders l) s (lb.open_and_start l').1 made
            (rw (lb.open_senders l') h),
      )

      by_cases :
          (prepared : Result (SourceKind × F × U))
          → (elim prepared [
            | err e ↦ (err e, l)
            | ok (opened, f, uri) ↦ connect (flags.use_cp f) o l
          ])
            ≡ (ok s, l')
          → (lb.senders (shutdown s l') ≡ lb.senders l)
            × (lb.senders (shutdown s (lb.open_and_start l').1) ≡ lb.senders l)
      by_cases (err e) h = let bad = first_eq h in cc
      by_cases (ok (opened, f, uri)) h =
          let (made, there) = connect-IsRegistered (flags.use_cp f) o l l' s h in kept made there
