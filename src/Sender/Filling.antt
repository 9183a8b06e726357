-- ===== src/Sender/Filling.antt =====
-- Packing what is left of a file.
use mathlib.Core.List.{append_assoc, append-nil, head-eq_of_cons-eq, tail-eq_of_cons-eq}
use frib_e2sar.Base.{
  ℕ, zero, suc, ◌+◌, ◌-◌, ◌≤◌, ◌<◌, ◌≡◌, refl, sym, ap, ◌∙◌, inl, inr, List, [], ◌∷◌, ◌++◌, Option,
  none, some, true, false, ok, ltb, ltb→lt, ltb→ge, Bool-cases, first_eq, second_eq, if◌then◌else◌,
  length, All, flatten, length-append, arith,
}
use frib_e2sar.Sender.{DataSource, Packed, next_item, pack}

-- A source that reads a file: it gives the items that remain, and then null for ever.
pub record FileSource {D : Type 0} (src : DataSource D) : Type 0 where
  pub remaining : D → List (List ℕ)
  pub next_some :
      (d : D) (item : List ℕ) (rest : List (List ℕ))
      → remaining d ≡ item ∷ rest
      → (e : D) × (src.get_item d ≡ (some item, e)) × (remaining e ≡ rest)
  pub next_none :
      (d : D) → remaining d ≡ [] → (e : D) × (src.get_item d ≡ (none, e)) × (remaining e ≡ [])

-- Every item has at least one byte and fits into an event buffer.
abbrev pub Fit : ℕ → List (List ℕ) → Type 0
Fit n = All (λ (item : List ℕ). (1 ≤ length item) × (length item ≤ n))

module _ {D : Type 0} ⦃src : DataSource D⦄ (file : FileSource src) where
  -- The items that are still to be packed.
  abbrev pub left : Option (List ℕ) → D → List (List ℕ)
  left none d = file.remaining d
  left (some item) d = item ∷ file.remaining d

  -- Packing has moved some items into the buffer. If the source did not end, there is something in
  -- the buffer; if it did, nothing is left.
  pub record Moves (n : ℕ) (buffer : List ℕ) (before : List (List ℕ)) (r : Packed D) : Type 0 where
    pub moved : List (List ℕ)
    pub split : moved ++ left r.pending r.source ≡ before
    pub bytes_eq : r.buffer ≡ buffer ++ flatten moved
    pub fits : length r.buffer ≤ n
    pub filled : r.ended ≡ false → 1 ≤ length r.buffer
    pub last : r.ended ≡ true → left r.pending r.source ≡ []

  -- The step that has an item at hand.
  add_item :
      (fuel n : ℕ) (buffer item : List ℕ) (d : D) (rest : List (List ℕ))
      → file.remaining d ≡ rest
      → Fit n (item ∷ rest)
      → n - length buffer < suc fuel
      → length buffer ≤ n
      → ((b : List ℕ)
          → length b ≤ n
          → n - length b < fuel
          → (r : Packed D) × (pack fuel n b none d ≡ ok r) × Moves n b rest r)
      → (r : Packed D) × ((if ltb n (length buffer + length item)
            then ok (record { buffer = buffer; pending = some item; source = d; ended = false })
            else pack fuel n (buffer ++ item) none d)
          ≡ ok r)
        × Moves n buffer (item ∷ rest) r
  add_item fuel n buffer item d rest same fit f h more =
      elim (Bool-cases (ltb n (length buffer + length item))) [
        | inl large ↦ (
          record { buffer = buffer; pending = some item; source = d; ended = false },
          rw large refl,
          record {
            moved = [];
            split = ap (◌∷◌ item) same;
            bytes_eq = sym (append-nil buffer);
            fits = h;
            filled = λ e. omega (arith, ltb→lt n (length buffer + length item) large, fit.0.1);
            last = λ e. cc;
          },
        )
        | inr small ↦
            let le : length buffer + length item ≤ n =
              ltb→ge n (length buffer + length item) small in
            let len = length-append buffer item in
            let (r, run, moves) =
              more (buffer ++ item) (omega (arith, len, le)) (omega (arith, len, le, fit.0.0)) in
            (
              r,
              rw small run,
              record {
                moved = item ∷ moves.moved;
                split = ap (◌∷◌ item) moves.split;
                bytes_eq = moves.bytes_eq ∙ append_assoc buffer item (flatten moves.moved);
                fits = moves.fits;
                filled = moves.filled;
                last = moves.last;
              },
            )
      ]

  -- The next item to be packed is the first of those that are left.
  next_item-first :
      (pending : Option (List ℕ)) (d : D) (item : List ℕ) (rest : List (List ℕ))
      → left pending d ≡ item ∷ rest
      → (e : D) × (next_item pending d ≡ (some item, e)) × (file.remaining e ≡ rest)
  unfolding next_item
  next_item-first none d item rest h = file.next_some d item rest h
  next_item-first (some x) d item rest h =
      (d, ap (λ (z : List ℕ). (some z, d)) (head-eq_of_cons-eq h), tail-eq_of_cons-eq h)

  next_item-end :
      (pending : Option (List ℕ)) (d : D)
      → left pending d ≡ []
      → (e : D) × (next_item pending d ≡ (none, e)) × (file.remaining e ≡ [])
  unfolding next_item
  next_item-end none d h = file.next_none d h
  next_item-end (some x) d h = cc

  -- A round that has room in the buffer.
  fetch-Moves :
      (fuel n : ℕ) (buffer : List ℕ) (pending : Option (List ℕ)) (d : D) (before : List (List ℕ))
      → left pending d ≡ before
      → Fit n before
      → length buffer ≤ n
      → n - length buffer < suc fuel
      → ltb (length buffer) n ≡ true
      → ((b : List ℕ) (d' : D) (rest : List (List ℕ))
          → file.remaining d' ≡ rest
          → Fit n rest
          → length b ≤ n
          → n - length b < fuel
          → (r : Packed D) × (pack fuel n b none d' ≡ ok r) × Moves n b rest r)
      → (r : Packed D) × (pack (suc fuel) n buffer pending d ≡ ok r) × Moves n buffer before r
  unfolding pack
  fetch-Moves fuel n buffer pending d [] e fit h f room more =
      let (d', next, rest) = next_item-end pending d e in
      (
        record { buffer = buffer; pending = none; source = d'; ended = true },
        rw (pack, room, first_eq next, second_eq next) refl,
        record {
          moved = [];
          split = rest;
          bytes_eq = sym (append-nil buffer);
          fits = h;
          filled = λ x. cc;
          last = λ x. rest;
        },
      )
  fetch-Moves fuel n buffer pending d (item ∷ before) e fit h f room more =
      let (d', next, rest) = next_item-first pending d item before e in
      let (r, run, moves) =
        add_item fuel n buffer item d' before rest fit f h (λ b. more b d' before rest fit.1) in
      (r, rw (pack, room, first_eq next, second_eq next) run, moves)

  pub pack-Moves :
      (fuel n : ℕ) (buffer : List ℕ) (pending : Option (List ℕ)) (d : D) (before : List (List ℕ))
      → left pending d ≡ before
      → Fit n before
      → 1 ≤ n
      → length buffer ≤ n
      → n - length buffer < fuel
      → (r : Packed D) × (pack fuel n buffer pending d ≡ ok r) × Moves n buffer before r
  unfolding pack next_item
  pack-Moves zero n buffer pending d before e fit pos h f = absurd (omega arith)
  pack-Moves (suc fuel) n buffer pending d before e fit pos h f =
      elim (Bool-cases (ltb (length buffer) n)) [
        | inl room ↦
            fetch-Moves fuel n buffer pending d before e fit h f room
              (λ b d' rest e' fit' h' f'. pack-Moves fuel n b none d' rest e' fit' pos h' f')
        | inr full ↦ (
          record { buffer = buffer; pending = pending; source = d; ended = false },
          rw full refl,
          record {
            moved = [];
            split = e;
            bytes_eq = sym (append-nil buffer);
            fits = h;
            filled = λ x. omega (arith, ltb→ge (length buffer) n full);
            last = λ x. cc;
          },
        )
      ]
