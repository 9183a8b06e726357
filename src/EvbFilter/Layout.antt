-- ===== src/EvbFilter/Layout.antt =====
-- The layout of a built event, by the table above `filterItem`.
use frib_e2sar.Base.{ℕ, ◌*◌, ◌^◌, ◌≤◌, ◌<◌, ◌≡◌, List, ◌++◌, length}
use frib_e2sar.EvbFilter.{word_value, fragment_header_bytes, word_bytes}
use frib_e2sar.RingItem.{header_bytes}

-- The payload of a built physics event. The body headers are rows of words that begin with their
-- size in bytes: 4 if empty, else 20.
pub record Built : Type 0 where
  pub body_header : List ℕ
  pub event_size : List ℕ
  pub fragment_header : List ℕ
  pub item_header : List ℕ
  pub item_body_header : List ℕ
  pub item_body : List ℕ

-- What the filter is to put out: the parts of the item inside the fragment.
abbrev pub original : Built → List ℕ
original e = e.item_header ++ (e.item_body_header ++ e.item_body)

abbrev pub payload : Built → List ℕ
payload e = e.body_header ++ (e.event_size ++ (e.fragment_header ++ original e))

-- A body header of `n` words.
pub record IsBodyHeader (h : List ℕ) (n : ℕ) : Type 0 where
  pub some_words : 1 ≤ n
  pub words : length h ≡ n * 4
  pub states_size : (rest : List ℕ) → word_value (h ++ rest) ≡ length h

pub record IsBuilt (e : Built) (n m : ℕ) : Type 0 where
  pub outer : IsBodyHeader e.body_header n
  pub size_word : length e.event_size ≡ word_bytes
  pub fragment : length e.fragment_header ≡ fragment_header_bytes
  pub header : length e.item_header ≡ header_bytes
  pub inner : IsBodyHeader e.item_body_header m
  pub small : length (payload e) < 2 ^ 64
