-- ===== src/Utils/Dump.antt =====
-- The dump of a buffer shows each byte once.
use mathlib.Core.Path.{subst, ap₂}
use frib_e2sar.Base.{
  ℕ, zero, suc, ◌+◌, ◌-◌, ◌*◌, ◌/◌, ◌%◌, ◌==◌, ◌≤◌, ◌<◌, ◌≡◌, refl, sym, ap, ◌∙◌, inl, inr, List,
  [], ◌∷◌, ◌++◌, map, flatten, false, ok, ltb, ltb→lt, ltb→ge, Bool-cases, if◌then◌else◌, length,
  length-append, take, drop, length-take, length-drop, take-append-drop, All, All-take, All-drop,
  arith,
}
use frib_e2sar.Sender.Timestamp.{read_byte}
use frib_e2sar.RingItem.{advance}
use frib_e2sar.Utils.{
  hex_digit, byte_text, print_bytes, print_blanks, smaller, dump_lines, dump_buffer,
}

-- The text of some bytes in hexadecimal.
abbrev pub bytes_text : List ℕ → List ℕ
bytes_text bs = flatten (map byte_text bs)

print_bytes-text :
    (bs rest : List ℕ) → print_bytes (length bs) (bs ++ rest) ≡ ok (bytes_text bs, rest)
unfolding print_bytes read_byte
print_bytes-text [] rest = refl
print_bytes-text (b ∷ bs) rest =
    rw (print_bytes, advance_one b (bs ++ rest), print_bytes-text bs rest) refl
  where
    advance_one : (b : ℕ) (rest : List ℕ) → advance 1 (b ∷ rest) ≡ ok rest
    advance_one b rest = unfold advance in ground arith

-- The value of a digit, and the bytes that a line shows, up to the first blank cell.
abbrev pub from_hex : ℕ → ℕ
from_hex c = if ltb c b'a' then c - b'0' else c - b'a' + 10

abbrev pub read_line : List ℕ → List ℕ
read_line [] = []
read_line (hi ∷ []) = []
read_line (hi ∷ lo ∷ []) = []
read_line (hi ∷ lo ∷ space ∷ rest) =
    let more = read_line rest in if hi == b' ' then [] else (16 * from_hex hi + from_hex lo) ∷ more

from_hex-hex_digit : (d : ℕ) → d < 16 → from_hex (hex_digit d) ≡ d
from_hex-hex_digit d h = ground arith

hex_digit-ne : (d : ℕ) → d < 16 → (hex_digit d == b' ') ≡ false
hex_digit-ne d h = ground arith

blank_line : (k : ℕ) → read_line (print_blanks k) ≡ []
unfolding print_blanks
blank_line zero = refl
blank_line (suc k) = refl

read_line-text :
    (bs : List ℕ) (k : ℕ)
    → All (λ (b : ℕ). b < 256) bs
    → read_line (bytes_text bs ++ print_blanks k) ≡ bs
read_line-text [] k h = blank_line k
read_line-text (b ∷ bs) k h =
    rw
      (
        hex_digit-ne (b / 16) (omega (arith, h.0)),
        from_hex-hex_digit (b / 16) (omega (arith, h.0)),
        from_hex-hex_digit (b % 16) (omega arith),
        read_line-text bs k h.1,
      )
      (ap (λ (x : ℕ). x ∷ bs) (omega arith))

length-blanks : (k : ℕ) → length (print_blanks k) ≡ 3 * k
unfolding print_blanks
length-blanks zero = refl
length-blanks (suc k) = omega (arith, length-blanks k)

length-text : (bs : List ℕ) → length (bytes_text bs) ≡ 3 * length bs
length-text [] = refl
length-text (b ∷ bs) = omega (arith, length-text bs)

take_none : (j : ℕ) → take {A = ℕ} j [] ≡ []
take_none zero = refl
take_none (suc j) = refl

take_add : (k j m : ℕ) (xs : List ℕ) → k + j ≡ m → take k xs ++ take j (drop k xs) ≡ take m xs
take_add zero j m xs h = ap (λ (n : ℕ). take n xs) (omega (arith, h))
take_add (suc k) j zero xs h = absurd (omega (arith, h))
take_add (suc k) j (suc m) [] h = take_none j
take_add (suc k) j (suc m) (x ∷ xs) h = ap (◌∷◌ x) (take_add k j m xs (omega (arith, h)))

print_bytes-take :
    (k : ℕ) (buf : List ℕ)
    → k ≤ length buf
    → print_bytes k buf ≡ ok (bytes_text (take k buf), drop k buf)
print_bytes-take k buf h =
    let len : length (take k buf) ≡ k = omega (arith, length-take k buf, h) in
    subst (λ (x : List ℕ). print_bytes k x ≡ ok (bytes_text (take k buf), drop k buf))
      (take-append-drop k buf)
      (subst
        (λ (j : ℕ).
          print_bytes j (take k buf ++ drop k buf) ≡ ok (bytes_text (take k buf), drop k buf))
        len (print_bytes-text (take k buf) (drop k buf)))

smaller_lem :
    (m : ℕ) → 1 ≤ m → (smaller m 8 ≤ m) × ((smaller m 8 ≤ 8) × (smaller m 8 + (m - 8) ≡ m))
smaller_lem m h = ground arith

-- The lines of a dump, and what they show.
abbrev pub ShowsAll : List ℕ → List (List ℕ) → Type 0
ShowsAll bs lines =
    (flatten (map read_line lines) ≡ bs) × All (λ (line : List ℕ). length line ≡ 24) lines

dump_lines-ShowsAll :
    (fuel : ℕ) (buf : List ℕ) (n printed m : ℕ)
    → n - printed ≡ m
    → m ≤ length buf
    → m < fuel
    → All (λ (b : ℕ). b < 256) buf
    → (lines : List (List ℕ)) × (dump_lines fuel buf n printed ≡ ok lines)
      × ShowsAll (take m buf) lines
unfolding dump_lines
dump_lines-ShowsAll zero buf n printed m e h f small = absurd (omega arith)
dump_lines-ShowsAll (suc fuel) buf n printed m e h f small = elim (Bool-cases (ltb printed n)) [
  | inr done ↦
      let none_left : m ≡ 0 = omega (arith, ltb→ge printed n done, e) in
      ([], rw (dump_lines, done) refl, (ap (λ (k : ℕ). take k buf) (sym none_left), tt))
  | inl more ↦
      let k = smaller (n - printed) 8 in
      let some_left : 1 ≤ n - printed = omega (arith, ltb→lt printed n more) in
      let (le, (le8, sum)) = smaller_lem (n - printed) some_left in
      let fits : k ≤ length buf = omega (arith, le, e, h) in
      let (lines, run, (shown, widths)) =
        dump_lines-ShowsAll fuel (drop k buf) n (printed + 8) (m - 8) (omega (arith, e))
          (omega (arith, length-drop k buf, sum, e, h)) (omega (arith, e, f, some_left))
          (All-drop (λ (b : ℕ). b < 256) k buf small) in
      (
        (bytes_text (take k buf) ++ print_blanks (8 - k)) ∷ lines,
        rw (dump_lines, more, print_bytes-take k buf fits, run) refl,
        (
          ap₂ ◌++◌ (read_line-text (take k buf) (8 - k) (All-take (λ (b : ℕ). b < 256) k buf small))
                shown
              ∙ take_add k (m - 8) m buf (omega (arith, sum, e)),
          (
            omega (
              arith,
              length-append (bytes_text (take k buf)) (print_blanks (8 - k)),
              length-text (take k buf),
              length-blanks (8 - k),
              length-take k buf,
              le8,
              fits,
            ),
            widths,
          ),
        ),
      )
]

-- On a buffer of bytes that has the number asked for, the dump ends, and it shows just those bytes,
-- in order: they can be read back from its lines, each of which is 24 characters wide.
pub dump_buffer-ShowsAll :
    (buf : List ℕ) (n : ℕ)
    → n ≤ length buf
    → All (λ (b : ℕ). b < 256) buf
    → (lines : List (List ℕ)) × (dump_buffer buf n ≡ ok lines) × ShowsAll (take n buf) lines
unfolding dump_buffer
dump_buffer-ShowsAll buf n h small =
    dump_lines-ShowsAll (suc n) buf n 0 n (omega arith) h (omega arith) small
