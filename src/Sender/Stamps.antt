-- ===== src/Sender/Stamps.antt =====
-- Events numbered by their first timestamp.
use frib_e2sar.Base.{
  ℕ, ◌<◌, ◌^◌, ◌≡◌, refl, ◌∙◌, inl, inr, List, [], ◌∷◌, ◌++◌, Bool, false, ok, ◌>>=◌, ◌==◌, ==→eq,
  Bool-cases, length, flatten, All,
}
use frib_e2sar.RingItem.{RingFormat, header_bytes, advance}
use frib_e2sar.RingItem.Laws.{IsItem}
use frib_e2sar.Sender.{Config, event_number}
use frib_e2sar.Sender.Timestamp.{
  BodyFormat, physics_timestamp, get_first_timestamp, first_time, get_first_timestamp-first_time,
}
use frib_e2sar.Sender.Naming.{Naming}

module _ ⦃fmt : RingFormat⦄ ⦃body : BodyFormat⦄ where
  -- A whole ring item from which a time can be read if it is a physics item.
  abbrev pub IsStamped : Bool → List ℕ → Type 0
  IsStamped is_ddas it =
      IsItem it
      × (fmt.s_type it ≡ fmt.physics_event
          → (rest : List ℕ)
          → (t : ℕ) × ((advance header_bytes (it ++ rest) >>= physics_timestamp is_ddas) ≡ ok t))

  IsStamped-items :
      (is_ddas : Bool) (its : List (List ℕ)) → All (IsStamped is_ddas) its → All IsItem its
  IsStamped-items is_ddas [] h = tt
  IsStamped-items is_ddas (it ∷ its) h = (h.0.0, IsStamped-items is_ddas its h.1)

  first_time-IsStamped :
      (is_ddas : Bool) (its : List (List ℕ))
      → All (IsStamped is_ddas) its
      → (t : ℕ) × (first_time is_ddas its ≡ ok t)
  unfolding first_time
  first_time-IsStamped is_ddas [] h = (0, refl)
  first_time-IsStamped is_ddas (it ∷ its) h =
      elim (Bool-cases (fmt.s_type it == fmt.physics_event)) [
        | inl physics ↦ let (t, e) = h.0.1 (==→eq _ _ physics) (flatten its) in (t, rw physics e)
        | inr other ↦ let (t, e) = first_time-IsStamped is_ddas its h.1 in (t, rw other e)
      ]

  event_number-stamp :
      (c : Config) (n : ℕ) (buffer : List ℕ)
      → c.use_ct ≡ false
      → event_number c n buffer ≡ get_first_timestamp c.is_ddas buffer
  unfolding event_number
  event_number-stamp c n buffer stamps = rw stamps refl

  pub stamped_number :
      (c : Config)
      → c.use_ct ≡ false
      → (n : ℕ) (its : List (List ℕ)) → All (IsStamped c.is_ddas) its
      → length (flatten its) < 2 ^ 64
      → (k : ℕ) × (event_number c n (flatten its) ≡ ok k) × Unit {0}
  stamped_number c stamps n its h room =
      let (t, e) = first_time-IsStamped c.is_ddas its h in
      (
        t,
        event_number-stamp c n (flatten its) stamps
            ∙ get_first_timestamp-first_time c.is_ddas its (IsStamped-items c.is_ddas its h) room
            ∙ e,
        tt,
      )

  -- The first timestamp numbers every event of such items.
  abbrev pub stamping : (c : Config) → c.use_ct ≡ false → Naming c
  stamping c stamps = record {
    IsNamed = IsStamped c.is_ddas;
    IsNumber = λ n k. Unit {0};
    named = stamped_number c stamps;
  }
