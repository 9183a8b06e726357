-- ===== src/Sender/Layout.antt =====
-- What `Sender::getFirstTimestamp` reads, from the layout of the bytes of a physics item.
use mathlib.Core.List.{append_assoc}
use frib_e2sar.Base.{
  ℕ, ◌+◌, ◌*◌, ◌%◌, ◌^◌, ◌<◌, ◌≡◌, ◌≢◌, refl, ap, ◌∙◌, List, [], ◌∷◌, ◌++◌, Bool, true, false, ok,
  ge→ltb, ◌>>=◌, ne→==, eq→==, length, flatten, All, arith,
}
use frib_e2sar.RingItem.{RingFormat, header_bytes, body_header_bytes, advance}
use frib_e2sar.RingItem.Laws.{IsItem}
use frib_e2sar.EvbFilter.{read_word, word_bytes}
use frib_e2sar.EvbFilter.Strip.{advance-append}
use frib_e2sar.Sender.Timestamp.{
  BodyFormat, read_byte, ddas_timestamp, physics_timestamp, get_first_timestamp, first_time,
  get_first_timestamp-first_time,
}

-- The number that bytes spell, the lowest first.
abbrev pub little : List ℕ → ℕ
little [] = 0
little (b ∷ bs) = b + 256 * little bs

-- A DDAS hit: behind the words for the empty body header, the event size and the module type stands
-- the clock calibration, then word 0 of the hit, the six bytes of its time, and two more of word 2.
pub record Hit : Type 0 where
  pub words : List ℕ
  pub calibration : List ℕ
  pub word0 : List ℕ
  pub t0 : ℕ
  pub t1 : ℕ
  pub t2 : ℕ
  pub t3 : ℕ
  pub t4 : ℕ
  pub t5 : ℕ
  pub b6 : ℕ
  pub b7 : ℕ

-- The words 1 and 2, and what lies behind them.
abbrev pub time_words : Hit → List ℕ → List ℕ
time_words h rest = h.t0 ∷ h.t1 ∷ h.t2 ∷ h.t3 ∷ h.t4 ∷ h.t5 ∷ h.b6 ∷ h.b7 ∷ rest

-- The bytes from the calibration on.
abbrev pub from_calibration : Hit → List ℕ → List ℕ
from_calibration h rest = h.calibration ++ (h.word0 ++ time_words h rest)

abbrev pub hit_time : Hit → ℕ
hit_time h = little (h.t0 ∷ h.t1 ∷ h.t2 ∷ h.t3 ∷ h.t4 ∷ h.t5 ∷ [])

pub record IsHit (h : Hit) : Type 0 where
  pub words_size : length h.words ≡ 12
  pub calibration_size : length h.calibration ≡ 8
  pub word0_size : length h.word0 ≡ 4
  pub low_bytes : All (λ (b : ℕ). b < 256) (h.t0 ∷ h.t1 ∷ h.t2 ∷ h.t3 ∷ [])
  pub high_bytes : All (λ (b : ℕ). b < 256) (h.t4 ∷ h.t5 ∷ h.b6 ∷ h.b7 ∷ [])

read_word-four :
    (a b c d : ℕ) (rest : List ℕ)
    → read_word (a ∷ b ∷ c ∷ d ∷ rest) ≡ ok (a + 256 * b + 65536 * c + 16777216 * d)
unfolding read_word
read_word-four a b c d rest =
    rw (ge→ltb (length (a ∷ b ∷ c ∷ d ∷ rest)) word_bytes (omega arith)) refl

-- The lower word and the lower half of the upper word are the time.
words-hit_time :
    (h : Hit)
    → IsHit h
    → (h.t4 + 256 * h.t5 + 65536 * h.b6 + 16777216 * h.b7) % 2 ^ 16 * 2 ^ 32
        + (h.t0 + 256 * h.t1 + 65536 * h.t2 + 16777216 * h.t3)
      ≡ hit_time h
words-hit_time h is = omega (arith, is.high_bytes.0, is.high_bytes.1.0)

module _ ⦃fmt : RingFormat⦄ ⦃body : BodyFormat⦄ where
  ddas_timestamp-Hit :
      (h : Hit) (rest : List ℕ)
      → IsHit h
      → ddas_timestamp (h.words ++ from_calibration h rest)
        ≡ ok (body.scale (from_calibration h rest) (hit_time h))
  unfolding ddas_timestamp
  ddas_timestamp-Hit h rest is =
      let behind = h.t4 ∷ h.t5 ∷ h.b6 ∷ h.b7 ∷ rest in
      rw
        (
          advance-append (3 * word_bytes) h.words (from_calibration h rest) is.words_size,
          advance-append 8 h.calibration (h.word0 ++ time_words h rest) is.calibration_size,
          advance-append word_bytes h.word0 (time_words h rest) is.word0_size,
          read_word-four h.t0 h.t1 h.t2 h.t3 behind,
          advance-append word_bytes (h.t0 ∷ h.t1 ∷ h.t2 ∷ h.t3 ∷ []) behind refl,
          read_word-four h.t4 h.t5 h.b6 h.b7 rest,
          words-hit_time h is,
        )
        refl

  -- What the bytes behind the header of a physics item state: with a body header, which has 20
  -- bytes, its timestamp; else the time of a DDAS hit in units of its calibration; else nothing.
  pub data States (is_ddas : Bool) : List ℕ → ℕ → Type 0 where
    with_header : (bs : List ℕ) → States is_ddas (20 ∷ bs) (body.s_timestamp (20 ∷ bs))
    of_hit :
        (size : ℕ) (bs : List ℕ) (h : Hit) (rest : List ℕ)
        → size ≢ 20
        → is_ddas ≡ true
        → IsHit h
        → size ∷ bs ≡ h.words ++ from_calibration h rest
        → States is_ddas (size ∷ bs) (body.scale (from_calibration h rest) (hit_time h))
    without : (size : ℕ) (bs : List ℕ) → size ≢ 20 → is_ddas ≡ false → States is_ddas (size ∷ bs) 0

  -- The time that a row of items states: that of the first physics item, or 0.
  pub data FirstTime (is_ddas : Bool) : List (List ℕ) → ℕ → Type 0 where
    no_event : FirstTime is_ddas [] 0
    skip :
        {it : List ℕ} {its : List (List ℕ)} {t : ℕ}
        → fmt.s_type it ≢ fmt.physics_event
        → FirstTime is_ddas its t
        → FirstTime is_ddas (it ∷ its) t
    event :
        {it : List ℕ} {its : List (List ℕ)} {t : ℕ} (header payload : List ℕ)
        → fmt.s_type it ≡ fmt.physics_event
        → it ≡ header ++ payload
        → length header ≡ header_bytes
        → States is_ddas (payload ++ flatten its) t
        → FirstTime is_ddas (it ∷ its) t

  physics_timestamp-States :
      (is_ddas : Bool) (p : List ℕ) (t : ℕ)
      → States is_ddas p t
      → physics_timestamp is_ddas p ≡ ok t
  unfolding physics_timestamp read_byte
  physics_timestamp-States is_ddas p t (with_header bs) = refl
  physics_timestamp-States is_ddas p t (of_hit size bs h rest other ddas is e) =
      rw (ne→== size body_header_bytes other, ddas)
        (ap ddas_timestamp e ∙ ddas_timestamp-Hit h rest is)
  physics_timestamp-States is_ddas p t (without size bs other ddas) =
      rw (ne→== size body_header_bytes other, ddas) refl

  first_time-FirstTime :
      (is_ddas : Bool) (its : List (List ℕ)) (t : ℕ)
      → FirstTime is_ddas its t
      → first_time is_ddas its ≡ ok t
  unfolding first_time
  first_time-FirstTime is_ddas [] t no_event = refl
  first_time-FirstTime is_ddas (it ∷ its) t (skip other more) =
      rw (ne→== (fmt.s_type it) fmt.physics_event other) (first_time-FirstTime is_ddas its t more)
  first_time-FirstTime is_ddas (it ∷ its) t (event header payload physics e size states) =
      rw (eq→== (fmt.s_type it) fmt.physics_event physics) (
        ap (λ (p : List ℕ). advance header_bytes p >>= physics_timestamp is_ddas)
          (ap (λ (x : List ℕ). x ++ flatten its) e ∙ append_assoc header payload (flatten its))
        ∙ rw (advance-append header_bytes header (payload ++ flatten its) size)
            (physics_timestamp-States is_ddas (payload ++ flatten its) t states))

  -- On a buffer that is a row of whole ring items, whatever items come before the first physics
  -- item, the event number is the time that its bytes state by their layout: with a body header
  -- the timestamp there; without one, for a DDAS hit, the 48 bits of its time, lowest byte first,
  -- scaled by its clock calibration, and 0 if hits of that kind are not expected. Without a
  -- physics item it is 0.
  pub get_first_timestamp-FirstTime :
      (is_ddas : Bool) (its : List (List ℕ)) (t : ℕ)
      → FirstTime is_ddas its t
      → All IsItem its
      → length (flatten its) < 2 ^ 64
      → get_first_timestamp is_ddas (flatten its) ≡ ok t
  get_first_timestamp-FirstTime is_ddas its t f w b =
      get_first_timestamp-first_time is_ddas its w b ∙ first_time-FirstTime is_ddas its t f
