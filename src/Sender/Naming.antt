-- ===== src/Sender/Naming.antt =====
-- How the events of a file get their numbers.
use frib_e2sar.Base.{ℕ, ◌<◌, ◌^◌, ◌≡◌, refl, List, [], ◌∷◌, true, ok, length, flatten, All}
use frib_e2sar.RingItem.{RingFormat}
use frib_e2sar.Sender.{Config, event_number}
use frib_e2sar.Sender.Timestamp.{BodyFormat}
use frib_e2sar.Sender.Laws.{event_number-count}

-- How the events of a file are numbered: its items are such that every row of them has an event
-- number, which is as said.
pub record Naming ⦃fmt : RingFormat⦄ ⦃body : BodyFormat⦄ (c : Config) : Type 1 where
  pub IsNamed : List ℕ → Type 0
  pub IsNumber : ℕ → ℕ → Type 0
  pub named :
      (n : ℕ) (its : List (List ℕ))
      → All IsNamed its
      → length (flatten its) < 2 ^ 64
      → (k : ℕ) × (event_number c n (flatten its) ≡ ok k) × IsNumber n k

-- The event counter numbers every event.
abbrev pub counting :
    ⦃fmt : RingFormat⦄ ⦃body : BodyFormat⦄ (c : Config) → c.use_ct ≡ true → Naming c
counting c counts = record {
  IsNamed = λ it. Unit {0};
  IsNumber = λ n k. k ≡ n;
  named = λ n its h room. (n, event_number-count c counts n (flatten its), refl);
}

pub All-unit : (its : List (List ℕ)) → All (λ (it : List ℕ). Unit {0}) its
All-unit [] = tt
All-unit (it ∷ its) = (tt, All-unit its)
