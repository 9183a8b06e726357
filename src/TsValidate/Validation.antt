-- ===== src/TsValidate/Validation.antt =====
-- What the dump loop counts: the physics events that are not later than the one before.
use mathlib.Core.Path.{ap₂}
use frib_e2sar.Base.{
  ℕ, zero, suc, ◌+◌, ◌-◌, ◌<◌, ◌≤◌, ◌^◌, Bool, ◌≡◌, ◌↔◌, refl, sym, ap, ◌∙◌, inl, inr, List, [],
  ◌∷◌, none, some, true, false, ok, leb, leb→gt, gt→leb, ◌==◌, ne→==, ==→eq, Bool-cases,
  if◌then◌else◌, length, All, first_eq, second_eq, arith,
}
use frib_e2sar.Sender.{DataSource}
use frib_e2sar.TsValidate.{
  ItemFactory, Validator, count_event, is_excluded, process_item, dump_loop,
}

-- Reading a source until it gives null.
pub data Gives {D : Type 0} ⦃src : DataSource D⦄ : D → List (List ℕ) → D → Type 0 where
  ended : {d e : D} → src.get_item d ≡ (none, e) → Gives d [] e
  gives :
      {d d' e : D} {item : List ℕ} {its : List (List ℕ)}
      → src.get_item d ≡ (some item, d')
      → Gives d' its e
      → Gives d (item ∷ its) e

-- Every time is later than the one before, the first later than `prev`.
abbrev pub IsIncreasing : ℕ → List ℕ → Type 0
IsIncreasing prev [] = Unit
IsIncreasing prev (t ∷ ts) = (prev < t) × IsIncreasing t ts

-- The number of times that are not later than the one before.
abbrev pub violations : ℕ → List ℕ → ℕ
violations prev [] = 0
violations prev (t ∷ ts) = (if leb t prev then 1 else 0) + violations t ts

pub violations-IsIncreasing :
    (prev : ℕ) (ts : List ℕ) → (violations prev ts ≡ 0) ↔ IsIncreasing prev ts
violations-IsIncreasing prev ts = (to prev ts, from prev ts)
  where
    to : (prev : ℕ) (ts : List ℕ) → violations prev ts ≡ 0 → IsIncreasing prev ts
    to prev [] h = tt
    to prev (t ∷ ts) h = elim (Bool-cases (leb t prev)) [
      | inl early ↦ absurd (omega (arith, rw early at h))
      | inr later ↦ (leb→gt t prev later, to t ts (omega (arith, rw later at h)))
    ]

    from : (prev : ℕ) (ts : List ℕ) → IsIncreasing prev ts → violations prev ts ≡ 0
    from prev [] h = refl
    from prev (t ∷ ts) h = rw (gt→leb t prev h.0) (omega (arith, from t ts h.1))

counted :
    (ts : ℕ) (s : Validator)
    → s.n_out_of_order + 1 < 2 ^ 31
    → (count_event ts s).n_out_of_order ≡ s.n_out_of_order + (if leb ts s.prev_ts then 1 else 0)
unfolding count_event
counted ts s room = elim (Bool-cases (leb ts s.prev_ts)) [
  | inl early ↦ rw early (omega arith)
  | inr later ↦ rw later (omega arith)
]

at_most_one : (b : Bool) → (if b then 1 else 0) ≤ 1
at_most_one true = omega arith
at_most_one false = omega arith

module _ ⦃factory : ItemFactory⦄ where
  -- An item that the factory takes: an event has the given time, a format item is in its format.
  pub record IsGood (time : List ℕ → ℕ) (item : List ℕ) : Type 0 where
    pub stamped :
        factory.item_type item ≡ factory.physics_event
        → factory.event_timestamp item ≡ ok (time item)
    pub formatted : factory.item_type item ≡ factory.ring_format → factory.is_format item ≡ true

  -- The times of the physics events, unless those are excluded.
  abbrev pub event_times : (List ℕ → ℕ) → List ℕ → List (List ℕ) → List ℕ
  event_times time excluded [] = []
  event_times time excluded (item ∷ its) =
      let rest = event_times time excluded its in
      if is_excluded (factory.item_type item) excluded
      then rest
      else (if factory.item_type item == factory.physics_event then time item ∷ rest else rest)

  process_item-event :
      (time : List ℕ → ℕ) (item : List ℕ) (s : Validator)
      → IsGood time item
      → (factory.item_type item == factory.physics_event) ≡ true
      → process_item item s ≡ ok (count_event (time item) s)
  unfolding process_item
  process_item-event time item s good e =
      let physics = ==→eq (factory.item_type item) factory.physics_event e in
      rw
        (
          ne→== (factory.item_type item) factory.begin_run
              (λ b. factory.physics_begin (sym physics ∙ b)),
          ne→== (factory.item_type item) factory.ring_format
              (λ b. factory.physics_format (sym physics ∙ b)),
          e,
          good.stamped physics,
        )
        refl

  process_item-other :
      (time : List ℕ → ℕ) (item : List ℕ) (s : Validator)
      → IsGood time item
      → (factory.item_type item == factory.physics_event) ≡ false
      → (t : Validator) × (process_item item s ≡ ok t)
        × (t.prev_ts ≡ s.prev_ts)
        × (t.n_out_of_order ≡ s.n_out_of_order)
  unfolding process_item
  process_item-other time item s good e =
      elim (Bool-cases (factory.item_type item == factory.begin_run)) [
        | inl b ↦ (record s { counter = 0 }, rw b refl, refl, refl)
        | inr nb ↦ elim (Bool-cases (factory.item_type item == factory.ring_format)) [
          | inl f ↦
              let right = good.formatted (==→eq (factory.item_type item) factory.ring_format f) in
              (s, rw (nb, f, right) refl, refl, refl)
          | inr nf ↦ (s, rw (nb, nf, e) refl, refl, refl)
        ]
      ]

module _ {D : Type 0} ⦃factory : ItemFactory⦄ ⦃src : DataSource D⦄ (time : List ℕ → ℕ)
    (excluded : List ℕ) where
  -- Without a count, on a source that gives these items and then null, with fuel for one round
  -- more than items, and with fewer items than would let the 32-bit count overflow, the dump loop ends having read them all, and it has counted exactly the
  -- physics events, among the items not excluded, that are not later than the one before.
  pub dump_loop-violations :
      (its : List (List ℕ)) (fuel n : ℕ) (d e : D) (s : Validator)
      → Gives d its e
      → All (IsGood time) its
      → length its < fuel
      → s.n_out_of_order + length its < 2 ^ 31
      → (t : Validator) × (dump_loop fuel excluded false n d s ≡ ok (e, t))
        × (t.n_out_of_order
            ≡ s.n_out_of_order + violations s.prev_ts (event_times time excluded its))
  unfolding dump_loop count_event
  dump_loop-violations its zero n d e s g good f room = absurd (omega arith)
  dump_loop-violations [] (suc fuel) n d e s (ended stop) good f room =
      (s, rw (dump_loop, first_eq stop, second_eq stop) refl, omega arith)
  dump_loop-violations (item ∷ its) (suc fuel) n d e s (gives next g) good f room =
      elim (Bool-cases (is_excluded (factory.item_type item) excluded)) [
        | inl skip ↦
            let (t, run, count) =
              dump_loop-violations its fuel n _ e s g good.1 (omega arith) (omega arith) in
            (t, rw (dump_loop, first_eq next, second_eq next, skip) run, rw skip count)
        | inr keep ↦ elim (Bool-cases (factory.item_type item == factory.physics_event)) [
          | inl event ↦
              let more = counted (time item) s (omega arith) in
              let (t, run, count) =
                dump_loop-violations its fuel (n - 1) _ e (count_event (time item) s) g good.1
                  (omega arith) (omega (arith, more, at_most_one (leb (time item) s.prev_ts))) in
              (
                t,
                rw
                    (
                      dump_loop,
                      first_eq next,
                      second_eq next,
                      keep,
                      process_item-event time item s good.0 event,
                    )
                    run,
                rw (keep, event) (omega (arith, count, more)),
              )
          | inr other ↦
              let (u, done, prev, same) = process_item-other time item s good.0 other in
              let (t, run, count) =
                dump_loop-violations its fuel (n - 1) _ e u g good.1 (omega arith)
                  (omega (arith, same)) in
              (
                t,
                rw (dump_loop, first_eq next, second_eq next, keep, done) run,
                rw (keep, other)
                    (count
                      ∙ ap₂ (λ (a b : ℕ). a + violations b (event_times time excluded its)) same
                          prev),
              )
        ]
      ]

  -- On a source of items that the factory takes, without a count, and with fuel for one round
  -- more than there are items, which are fewer than 2^31, the dump loop ends, and started from its initial state it
  -- reports no timestamp out of order exactly when the timestamps of the physics events that
  -- are not excluded increase strictly, from above 0.
  pub dump_loop-iff_IsIncreasing :
      (its : List (List ℕ)) (fuel n : ℕ) (d e : D) (s : Validator)
      → Gives d its e
      → All (IsGood time) its
      → length its < fuel
      → length its < 2 ^ 31
      → s.n_out_of_order ≡ 0
      → s.prev_ts ≡ 0
      → (t : Validator) × (dump_loop fuel excluded false n d s ≡ ok (e, t))
        × ((t.n_out_of_order ≡ 0) ↔ IsIncreasing 0 (event_times time excluded its))
  dump_loop-iff_IsIncreasing its fuel n d e s g good f room none_yet start =
      let (t, run, count) =
        dump_loop-violations its fuel n d e s g good f (omega (arith, none_yet)) in
      let zero_count : t.n_out_of_order ≡ violations 0 (event_times time excluded its) = omega (
        arith,
        count
            ∙ ap (λ (k : ℕ). k + violations s.prev_ts (event_times time excluded its)) none_yet
            ∙ ap (λ (k : ℕ). 0 + violations k (event_times time excluded its)) start,
      ) in
      (t, run, rw zero_count (violations-IsIncreasing 0 (event_times time excluded its)))
