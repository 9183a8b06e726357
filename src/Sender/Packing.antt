-- ===== src/Sender/Packing.antt =====
-- Packing: what goes into a buffer, what is kept for the next, and that it ends.
use mathlib.Core.List.{append_assoc, append-nil}
use mathlib.Core.Option.{some-injective}
use mathlib.Core.Path.{subst}
use frib_e2sar.Base.{
  ℕ, zero, suc, ◌+◌, ◌-◌, ◌≤◌, ◌<◌, ◌≡◌, refl, sym, ap, ◌∙◌, inl, inr, List, [], ◌∷◌, ◌++◌, Option,
  none, some, true, false, ok, ltb, ltb→ge, Bool-cases, Option-cases, if◌then◌else◌, length,
  flatten, length-append, arith,
}
use frib_e2sar.Sender.{DataSource, Packed, next_item, pack}

-- The bytes of a pending item.
abbrev pub bytes_of : Option (List ℕ) → List ℕ
bytes_of none = []
bytes_of (some item) = item

-- Every item of the source has at least one byte.
abbrev pub NonemptyItems : {D : Type 0} → DataSource D → Type 0
NonemptyItems {D} src = (d : D) (item : List ℕ) → (src.get_item d).0 ≡ some item → 1 ≤ length item

module _ {D : Type 0} ⦃src : DataSource D⦄ where
  -- Reading a source until it has given these items; it may give null in between.
  pub data Yields : D → List (List ℕ) → D → Type 0 where
    stop : (d : D) → Yields d [] d
    gives :
        {d d' e : D} {item : List ℕ} {its : List (List ℕ)}
        → src.get_item d ≡ (some item, d')
        → Yields d' its e
        → Yields d (item ∷ its) e
    waits :
        {d d' e : D} {its : List (List ℕ)}
        → src.get_item d ≡ (none, d')
        → Yields d' its e
        → Yields d its e

  pub Yields-append :
      {d e f : D} {xs ys : List (List ℕ)} → Yields d xs e → Yields e ys f → Yields d (xs ++ ys) f
  Yields-append (stop d) q = q
  Yields-append (gives e p) q = gives e (Yields-append p q)
  Yields-append (waits e p) q = waits e (Yields-append p q)

  -- The buffer stays within its capacity, and it and the pending item hold, in order, the bytes
  -- that were there before and those of the items that were read.
  pub record Packs (capacity : ℕ) (buffer : List ℕ) (pending : Option (List ℕ)) (d : D)
      (r : Packed D) : Type 0 where
    pub items : List (List ℕ)
    pub yields : Yields d items r.source
    pub bytes_eq : buffer ++ (bytes_of pending ++ flatten items) ≡ r.buffer ++ bytes_of r.pending
    pub fits : length r.buffer ≤ capacity
    pub pending_some : (item : List ℕ) → r.pending ≡ some item → 1 ≤ length item

  -- The step that has an item at hand: it goes into the buffer, or it is left pending.
  add_item :
      (fuel n : ℕ) (buffer item : List ℕ) (d : D)
      → ((b : List ℕ)
          → length b ≤ n
          → n - length b < fuel
          → (r : Packed D) × (pack fuel n b none d ≡ ok r) × Packs n b none d r)
      → length buffer ≤ n
      → 1 ≤ length item
      → n - length buffer < suc fuel
      → (r : Packed D) × ((if ltb n (length buffer + length item)
            then ok (record { buffer = buffer; pending = some item; source = d; ended = false })
            else pack fuel n (buffer ++ item) none d)
          ≡ ok r)
        × Packs n buffer (some item) d r
  add_item fuel n buffer item d ih h one f =
      elim (Bool-cases (ltb n (length buffer + length item))) [
        | inl large ↦ (
          record { buffer = buffer; pending = some item; source = d; ended = false },
          rw large refl,
          record {
            items = [];
            yields = stop d;
            bytes_eq = ap (◌++◌ buffer) (append-nil item);
            fits = h;
            pending_some = λ x e. subst (λ (z : List ℕ). 1 ≤ length z) (some-injective _ _ e) one;
          },
        )
        | inr small ↦
            let le : length buffer + length item ≤ n = ltb→ge _ _ small in
            let len : length (buffer ++ item) ≡ length buffer + length item =
              length-append buffer item in
            let (r, run, packs) =
              ih (buffer ++ item) (omega (arith, len, le)) (omega (arith, len, le)) in
            (
              r,
              rw small run,
              record {
                items = packs.items;
                yields = packs.yields;
                bytes_eq = sym (append_assoc buffer item (flatten packs.items)) ∙ packs.bytes_eq;
                fits = packs.fits;
                pending_some = packs.pending_some;
              },
            )
      ]

  -- The step of a round that has room: the pending item, or the next of the source.
  fetch :
      (fuel n : ℕ) (buffer : List ℕ) (pending : Option (List ℕ)) (d : D)
      → ltb (length buffer) n ≡ true
      → length buffer ≤ n
      → ((item : List ℕ) → pending ≡ some item → 1 ≤ length item)
      → n - length buffer < suc fuel
      → ((b : List ℕ) (d' : D)
          → length b ≤ n
          → n - length b < fuel
          → (r : Packed D) × (pack fuel n b none d' ≡ ok r) × Packs n b none d' r)
      → NonemptyItems src
      → (r : Packed D) × (pack (suc fuel) n buffer pending d ≡ ok r) × Packs n buffer pending d r
  unfolding pack next_item
  fetch fuel n buffer (some item) d room h p f ih ne =
      let (r, run, packs) = add_item fuel n buffer item d (λ b. ih b d) h (p item refl) f in
      (r, rw room run, packs)
  fetch fuel n buffer none d room h p f ih ne =
      let d' = (src.get_item d).1 in
      elim (Option-cases (src.get_item d).0) [
        | inl nothing ↦ (
          record { buffer = buffer; pending = none; source = d'; ended = true },
          rw (room, nothing) refl,
          record {
            items = [];
            yields = waits (ap (λ (o : Option (List ℕ)). (o, d')) nothing) (stop d');
            bytes_eq = refl;
            fits = h;
            pending_some = λ item e. cc;
          },
        )
        | inr (item, something) ↦
            let (r, run, packs) =
              add_item fuel n buffer item d' (λ b. ih b d') h (ne d item something) f in
            (
              r,
              rw (room, something) run,
              record {
                items = item ∷ packs.items;
                yields = gives (ap (λ (o : Option (List ℕ)). (o, d')) something) packs.yields;
                bytes_eq = packs.bytes_eq;
                fits = packs.fits;
                pending_some = packs.pending_some;
              },
            )
      ]

  -- With fuel for one round more than the bytes that are left in the buffer, and items that have at least one byte,
  -- packing ends and packs: the buffer does not run over its capacity, and no byte of the pending
  -- item or of the items read is lost, repeated or put out of order.
  pub pack-Packs :
      NonemptyItems src
      → (fuel n : ℕ) (buffer : List ℕ) (pending : Option (List ℕ)) (d : D) → length buffer ≤ n
      → ((item : List ℕ) → pending ≡ some item → 1 ≤ length item)
      → n - length buffer < fuel
      → (r : Packed D) × (pack fuel n buffer pending d ≡ ok r) × Packs n buffer pending d r
  unfolding pack next_item
  pack-Packs ne zero n buffer pending d h p f = absurd (omega arith)
  pack-Packs ne (suc fuel) n buffer pending d h p f = elim (Bool-cases (ltb (length buffer) n)) [
    | inl room ↦
        fetch fuel n buffer pending d room h p f
          (λ b d' h' f'. pack-Packs ne fuel n b none d' h' (λ item e. cc) f') ne
    | inr full ↦ (
      record { buffer = buffer; pending = pending; source = d; ended = false },
      rw full refl,
      record {
        items = [];
        yields = stop d;
        bytes_eq = ap (◌++◌ buffer) (append-nil (bytes_of pending));
        fits = h;
        pending_some = p;
      },
    )
  ]
