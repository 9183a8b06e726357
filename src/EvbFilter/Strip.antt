-- ===== src/EvbFilter/Strip.antt =====
-- What the physics branch puts out for a built event.
use mathlib.Core.List.{append_assoc}
use frib_e2sar.Base.{
  ℕ, ◌+◌, ◌*◌, ◌/◌, ◌^◌, ◌≤◌, ◌<◌, ◌≡◌, refl, ap, ◌∙◌, sym, List, ◌++◌, Bool, true, false, Error,
  Result, ok, err, ◌>>=◌, ge→ltb, lt→ltb, length, take, drop, length-append, take-append,
  drop-append, arith, take_of_le, length-drop, take-append-drop, >>=-eq-ok, ok-injective,
}
use frib_e2sar.Base.Words.{sub_u64, sub_u64_of_le}
use frib_e2sar.RingItem.{header_bytes, body_header_bytes, advance}
use frib_e2sar.EvbFilter.{
  word_bytes, word_value, read_word, advance_words, put, strip, debug_size, fragment_header_bytes,
}
use frib_e2sar.EvbFilter.Layout.{Built, original, payload, IsBodyHeader, IsBuilt}

pub advance-append : (n : ℕ) (h rest : List ℕ) → length h ≡ n → advance n (h ++ rest) ≡ ok rest
unfolding advance
advance-append n h rest e =
    let len : length (h ++ rest) ≡ length h + length rest = length-append h rest in
    rw (← e, ge→ltb (length (h ++ rest)) (length h) (omega (arith, len)))
      (ap ok (drop-append h rest))

put-append : (n : ℕ) (h rest : List ℕ) → length h ≡ n → put (h ++ rest) n ≡ ok h
unfolding put
put-append n h rest e =
    let len : length (h ++ rest) ≡ length h + length rest = length-append h rest in
    rw (← e, ge→ltb (length (h ++ rest)) (length h) (omega (arith, len)))
      (ap ok (take-append h rest))

put-all : (p : List ℕ) (n : ℕ) → length p ≡ n → put p n ≡ ok p
unfolding put
put-all p n e =
    rw (← e, ge→ltb (length p) (length p) (omega arith))
      (ap ok (take_of_le (length p) p (omega arith)))

read_word-append :
    (h rest : List ℕ) (n : ℕ) → IsBodyHeader h n → read_word (h ++ rest) ≡ ok (length h)
unfolding read_word
read_word-append h rest n b =
    let len : length (h ++ rest) ≡ length h + length rest = length-append h rest in
    rw (ge→ltb (length (h ++ rest)) word_bytes (omega (arith, len, b.words, b.some_words)))
      (ap ok (b.states_size rest))

advance_words-append :
    (h rest : List ℕ) (n : ℕ) → length h ≡ n * 4 → advance_words (length h) (h ++ rest) ≡ ok rest
unfolding advance_words
advance_words-append h rest n e = advance-append _ h rest (omega (arith, e))

sub_u64-add : (a r : ℕ) → a + r < 2 ^ 64 → sub_u64 (a + r) a ≡ r
sub_u64-add a r h = sub_u64_of_le (a + r) a h (omega arith) ∙ omega arith

-- `dataBytes` after the headers are taken off: what lies behind them.
left_bytes :
    (n a r : ℕ)
    → n ≡ a + (4 + (20 + (8 + r)))
    → n < 2 ^ 64
    → sub_u64 (sub_u64 (sub_u64 (sub_u64 n a) 4) 20) 8 ≡ r
left_bytes n a r e h =
    rw
      (
        e,
        sub_u64-add a (4 + (20 + (8 + r))) (omega (arith, e)),
        sub_u64-add 4 (20 + (8 + r)) (omega (arith, e)),
        sub_u64-add 20 (8 + r) (omega (arith, e)),
      )
      (sub_u64-add 8 r (omega (arith, e)))

-- The last steps of the branch, at the body header of the item inside the fragment.
put_body : List ℕ → List ℕ → ℕ → Result (List ℕ)
put_body header body d = do
  body_header ← put body d
  rest ← advance_words d body
  last_part ← put rest (sub_u64 (length body) d)
  ok (header ++ (body_header ++ last_part))

strip-put_body :
    (debug : Bool) (e : Built) (n m : ℕ)
    → IsBuilt e n m
    → strip debug (payload e) (length (payload e))
      ≡ put_body e.item_header
          (e.item_body_header ++ e.item_body)
          (debug_size debug (length e.item_body_header))
unfolding strip put_body
strip-put_body debug e n m b =
    let inner = e.item_body_header ++ e.item_body in
    let after_outer = e.event_size ++ (e.fragment_header ++ original e) in
    let l1 : length (payload e) ≡ length e.body_header + length after_outer =
      length-append e.body_header after_outer in
    let l2 : length after_outer ≡ length e.event_size + length (e.fragment_header ++ original e) =
      length-append e.event_size _ in
    let l3 : length (e.fragment_header ++ original e)
        ≡ length e.fragment_header + length (original e) =
      length-append e.fragment_header _ in
    let l4 : length (original e) ≡ length e.item_header + length inner =
      length-append e.item_header inner in
    let total : length (payload e) ≡ length e.body_header + (4 + (20 + (8 + length inner))) =
      omega (arith, l1, l2, l3, l4, b.size_word, b.fragment, b.header) in
    rw
      (
        read_word-append e.body_header after_outer n b.outer,
        advance_words-append e.body_header after_outer n b.outer.words,
        advance-append word_bytes e.event_size _ b.size_word,
        advance-append fragment_header_bytes e.fragment_header (original e) b.fragment,
        put-append header_bytes e.item_header inner b.header,
        advance-append header_bytes e.item_header inner b.header,
        read_word-append e.item_body_header e.item_body m b.inner,
        left_bytes (length (payload e)) (length e.body_header) (length inner) total b.small,
      )
      refl

-- Cut in two at a word, and put out one after the other, the bytes are all there.
put_body-whole :
    (header inner : List ℕ) (d k : ℕ)
    → d ≡ k * 4
    → d ≤ length inner
    → length inner < 2 ^ 64
    → put_body header inner d ≡ ok (header ++ inner)
unfolding put_body advance_words advance
put_body-whole header inner d k words enough small =
    let same : d / word_bytes * word_bytes ≡ d = omega (arith, words) in
    let last_part : sub_u64 (length inner) d ≡ length (drop d inner) =
      sub_u64_of_le (length inner) d small enough ∙ sym (length-drop d inner) in
    let front : put inner d ≡ ok (take d inner) =
      unfold put in rw (ge→ltb (length inner) d enough) refl in
    rw
      (
        front,
        same,
        ge→ltb (length inner) d enough,
        last_part,
        put-all (drop d inner) (length (drop d inner)) refl,
        take-append-drop d inner,
      )
      refl

length-inner :
    (e : Built) (n m : ℕ) → IsBuilt e n m → length (e.item_body_header ++ e.item_body) < 2 ^ 64
length-inner e n m b =
    let inner = e.item_body_header ++ e.item_body in
    let l1 : length (payload e)
        ≡ length e.body_header + length (e.event_size ++ (e.fragment_header ++ original e)) =
      length-append e.body_header _ in
    let l2 : length (e.event_size ++ (e.fragment_header ++ original e))
        ≡ length e.event_size + length (e.fragment_header ++ original e) =
      length-append e.event_size _ in
    let l3 : length (e.fragment_header ++ original e)
        ≡ length e.fragment_header + length (original e) =
      length-append e.fragment_header _ in
    let l4 : length (original e) ≡ length e.item_header + length inner =
      length-append e.item_header inner in
    omega (arith, l1, l2, l3, l4, b.small)

-- With debugging off, for a built event laid out as in the table, in which both body headers state
-- their own size and so are not 0, the filter puts out exactly the item inside the fragment: its
-- header, its body header and its body.
pub strip-original :
    (e : Built) (n m : ℕ)
    → IsBuilt e n m
    → strip false (payload e) (length (payload e)) ≡ ok (original e)
unfolding debug_size
strip-original e n m b =
    let l : length (e.item_body_header ++ e.item_body)
        ≡ length e.item_body_header + length e.item_body =
      length-append e.item_body_header _ in
    strip-put_body false e n m b
    ∙ put_body-whole e.item_header _ (length e.item_body_header) m b.inner.words (omega (arith, l))
        (length-inner e n m b)

-- With debugging output on, the size of the item's body header is overwritten by 20. The bytes
-- put out are still the same if body header and body have 20 bytes together.
pub strip-debug :
    (e : Built) (n m : ℕ)
    → IsBuilt e n m
    → body_header_bytes ≤ length (e.item_body_header ++ e.item_body)
    → strip true (payload e) (length (payload e)) ≡ strip false (payload e) (length (payload e))
unfolding debug_size
strip-debug e n m b enough =
    strip-put_body true e n m b
    ∙ put_body-whole e.item_header _ body_header_bytes 5 refl enough (length-inner e n m b)
    ∙ sym (strip-original e n m b)

-- With debugging output on, if the item's body header and body have fewer than 20 bytes together,
-- the filter reads behind the end of the data.
pub strip-debug_short :
    (e : Built) (n m : ℕ)
    → IsBuilt e n m
    → length (e.item_body_header ++ e.item_body) < body_header_bytes
    → strip true (payload e) (length (payload e)) ≡ err Error.out_of_bounds
unfolding put_body debug_size put
strip-debug_short e n m b short =
    strip-put_body true e n m b
    ∙ rw (lt→ltb (length (e.item_body_header ++ e.item_body)) body_header_bytes short) refl

starts-header :
    (p fragment item header out : List ℕ) (n : ℕ)
    → read_word p ≡ ok 0
    → advance word_bytes p ≡ ok fragment
    → advance fragment_header_bytes fragment ≡ ok item
    → put item header_bytes ≡ ok header
    → length header ≡ header_bytes
    → strip false p n ≡ ok out
    → take header_bytes out ≡ header
unfolding strip advance_words
starts-header p fragment item header out n size skip first cut len run =
    let none : advance 0 p ≡ ok p = unfold advance in rw (ge→ltb (length p) 0 (omega arith)) refl in
    let run1 = rw (size, none, skip, first, cut) at run in
    let (body, _, run2) = >>=-eq-ok (advance header_bytes item) _ run1 in
    let (k, _, run3) = >>=-eq-ok (read_word body) _ run2 in
    let (x, _, run4) = >>=-eq-ok (put body (debug_size false k)) _ run3 in
    let (rest, _, run5) = >>=-eq-ok (advance_words (debug_size false k) body) _ run4 in
    let left : ℕ =
      sub_u64
        (sub_u64 (sub_u64 (sub_u64 (sub_u64 n 0) word_bytes) fragment_header_bytes) header_bytes)
        (debug_size false k) in
    let (y, _, run6) = >>=-eq-ok (put rest left) _ run5 in
    let same : header ++ (x ++ y) ≡ out = ok-injective run6 in
    ap (take header_bytes) (sym same)
    ∙ ap (λ k. take k (header ++ (x ++ y))) (sym len)
    ∙ take-append header (x ++ y)

-- An empty body header of size 0, as in version 11, is not skipped: whatever comes out then
-- begins with the last word of the fragment header and the first word of the item, in place of
-- the two words of the item's header.
pub strip-v11 :
    (zero_word event fragment last_word first_word rest out : List ℕ) (n : ℕ)
    → length zero_word ≡ word_bytes
    → word_value (zero_word ++ (event ++ (fragment ++ (last_word ++ (first_word ++ rest))))) ≡ 0
    → length event ≡ word_bytes
    → length fragment ≡ 16
    → length last_word ≡ word_bytes
    → length first_word ≡ word_bytes
    → strip false (zero_word ++ (event ++ (fragment ++ (last_word ++ (first_word ++ rest))))) n
      ≡ ok out
    → take header_bytes out ≡ last_word ++ first_word
strip-v11 z ev fr l f rest out n hz zero_size hev hfr hl hf run =
    let p = z ++ (ev ++ (fr ++ (l ++ (f ++ rest)))) in
    let len : length p ≡ length z + length (ev ++ (fr ++ (l ++ (f ++ rest)))) = length-append z _ in
    let size : read_word p ≡ ok 0 =
      unfold read_word in
      rw (ge→ltb (length p) word_bytes (omega (arith, len, hz))) (ap ok zero_size) in
    let first : advance fragment_header_bytes (ev ++ (fr ++ (l ++ (f ++ rest))))
        ≡ ok (l ++ (f ++ rest)) =
      rw (← append_assoc ev fr (l ++ (f ++ rest))) (
        advance-append fragment_header_bytes (ev ++ fr) _
          (length-append ev fr ∙ omega (arith, hev, hfr))) in
    let header : put (l ++ (f ++ rest)) header_bytes ≡ ok (l ++ f) =
      rw (← append_assoc l f rest)
        (put-append header_bytes (l ++ f) rest (length-append l f ∙ omega (arith, hl, hf))) in
    starts-header p (ev ++ (fr ++ (l ++ (f ++ rest)))) (l ++ (f ++ rest)) (l ++ f) out n size
      (advance-append word_bytes z _ hz) first header (length-append l f ∙ omega (arith, hl, hf))
      run
