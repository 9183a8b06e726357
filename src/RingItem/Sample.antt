-- ===== src/RingItem/Sample.antt =====
-- A ring format to run the definitions on: a header of two little-endian words, size and type.
use frib_e2sar.Base.{ℕ, ◌+◌, ◌*◌, ◌≤◌, ◌≡◌, refl, List, [], ◌∷◌, ◌++◌, length, arith}
use frib_e2sar.RingItem.{RingFormat, header_bytes}

abbrev pub word0 : List ℕ → ℕ
word0 (a ∷ b ∷ c ∷ d ∷ _) = a + 256 * b + 65536 * c + 16777216 * d
word0 _ = 0

abbrev pub word1 : List ℕ → ℕ
word1 (_ ∷ _ ∷ _ ∷ _ ∷ rest) = word0 rest
word1 _ = 0

pub word0-local : (h rest : List ℕ) → header_bytes ≤ length h → word0 (h ++ rest) ≡ word0 h
word0-local [] rest k = absurd (omega arith)
word0-local (a ∷ []) rest k = absurd (omega arith)
word0-local (a ∷ b ∷ []) rest k = absurd (omega arith)
word0-local (a ∷ b ∷ c ∷ []) rest k = absurd (omega arith)
word0-local (a ∷ b ∷ c ∷ d ∷ h) rest k = refl

pub word1-local : (h rest : List ℕ) → header_bytes ≤ length h → word1 (h ++ rest) ≡ word1 h
word1-local [] rest k = absurd (omega arith)
word1-local (_ ∷ []) rest k = absurd (omega arith)
word1-local (_ ∷ _ ∷ []) rest k = absurd (omega arith)
word1-local (_ ∷ _ ∷ _ ∷ []) rest k = absurd (omega arith)
word1-local (_ ∷ _ ∷ _ ∷ _ ∷ []) rest k = absurd (omega arith)
word1-local (_ ∷ _ ∷ _ ∷ _ ∷ _ ∷ []) rest k = absurd (omega arith)
word1-local (_ ∷ _ ∷ _ ∷ _ ∷ _ ∷ _ ∷ []) rest k = absurd (omega arith)
word1-local (_ ∷ _ ∷ _ ∷ _ ∷ _ ∷ _ ∷ _ ∷ []) rest k = absurd (omega arith)
word1-local (_ ∷ _ ∷ _ ∷ _ ∷ a ∷ b ∷ c ∷ d ∷ h) rest k = refl

instance abbrev pub little_endian : RingFormat
little_endian = record {
  s_size = word0;
  s_type = word1;
  physics_event = 30;
  s_size_local = word0-local;
  s_type_local = word1-local;
}

-- An item of the given type whose body is the given bytes.
abbrev pub item : ℕ → List ℕ → List ℕ
item type body = (length body + 8) ∷ 0 ∷ 0 ∷ 0 ∷ type ∷ 0 ∷ 0 ∷ 0 ∷ body
