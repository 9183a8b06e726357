-- ===== src/Sender/Sample.antt =====
-- A source that is a list of the bodies of items, and a Segmenter that keeps what it is given.
use frib_e2sar.Base.{
  ℕ, ◌*◌, ◌≡◌, refl, ap, List, [], ◌∷◌, ◌++◌, Option, none, some, true, false, arith,
}
use mathlib.Core.Option.{some-injective}
use mathlib.Core.List.{head-eq_of_cons-eq, tail-eq_of_cons-eq}
use frib_e2sar.RingItem.Sample.{little_endian, item}
use frib_e2sar.Sender.{DataSource, Segmenter, Config, Sender, send_start}
use frib_e2sar.Sender.Timestamp.{BodyFormat}
use frib_e2sar.Sender.Packing.{NonemptyItems}
use frib_e2sar.Sender.Filling.{FileSource}
use frib_e2sar.Sender.Laws.{Queues, IsSending}

-- Items of two kinds, by their bodies; the empty list stands for the end of the data.
abbrev pub next_of : List (List ℕ) → Option (List ℕ) × List (List ℕ)
next_of [] = (none, [])
next_of (body ∷ rest) = (some (item 30 body), rest)

instance abbrev pub list_source : DataSource (List (List ℕ))
list_source = record { get_item = next_of }

instance abbrev pub list_segmenter : Segmenter (List ℕ)
list_segmenter = record { add_to_send_queue = λ b n id g. (true, g ++ b) }

-- The time is the fifth byte of the body header; doubles are whole numbers.
abbrev pub fifth : List ℕ → ℕ
fifth (_ ∷ _ ∷ _ ∷ _ ∷ t ∷ _) = t
fifth _ = 0

abbrev pub first_of : List ℕ → ℕ
first_of (k ∷ _) = k
first_of _ = 1

instance abbrev pub small_times : BodyFormat
small_times = record { s_timestamp = fifth; scale = λ bytes n. n * first_of bytes }

pub list_source-NonemptyItems : NonemptyItems list_source
list_source-NonemptyItems [] x e = cc
list_source-NonemptyItems (body ∷ rest) x e = rw (← some-injective (item 30 body) x e) (omega arith)

pub list_segmenter-Queues : Queues list_segmenter
list_segmenter-Queues b n id g = refl

abbrev pub config : Config
config = record {
  data_id = 0;
  n_events = 2;
  evt_buf_size = 20;
  is_ddas = false;
  use_ct = true;
  sleep_usec = 1;
}

abbrev pub ready : Sender (List (List ℕ)) (List ℕ)
ready = send_start ((1 ∷ []) ∷ (2 ∷ 3 ∷ []) ∷ (4 ∷ []) ∷ []) []

pub ready-IsSending : IsSending config ready
ready-IsSending = record { fits = tt; pending_some = λ x e. cc }

-- The list of bodies as a file of items.
abbrev pub items_of : List (List ℕ) → List (List ℕ)
items_of [] = []
items_of (body ∷ rest) = item 30 body ∷ items_of rest

pub list_source-some :
    (d : List (List ℕ)) (x : List ℕ) (rest : List (List ℕ))
    → items_of d ≡ x ∷ rest
    → (e : List (List ℕ)) × (next_of d ≡ (some x, e)) × (items_of e ≡ rest)
list_source-some [] x rest h = cc
list_source-some (body ∷ d) x rest h =
    (d, ap (λ (z : List ℕ). (some z, d)) (head-eq_of_cons-eq h), tail-eq_of_cons-eq h)

pub list_source-none :
    (d : List (List ℕ))
    → items_of d ≡ []
    → (e : List (List ℕ)) × (next_of d ≡ (none, e)) × (items_of e ≡ [])
list_source-none [] h = ([], refl, refl)
list_source-none (body ∷ d) h = cc

abbrev pub list_file : FileSource list_source
list_file = record {
  remaining = items_of;
  next_some = list_source-some;
  next_none = list_source-none;
}

abbrev pub whole_file : Config
whole_file = record config { n_events = 0 }
