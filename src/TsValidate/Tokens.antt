-- ===== src/TsValidate/Tokens.antt =====
-- `tokenize` splits a string into its words.
use frib_e2sar.Base.{
  ℕ, zero, suc, ◌≤◌, ◌<◌, ◌≡◌, ◌≢◌, refl, ◌∙◌, List, [], ◌∷◌, ◌++◌, ok, eq→==, ne→==, length, All,
  length-append, arith,
}
use frib_e2sar.TsValidate.{skip_delims, span_word, tokenize_loop, tokenize}

-- A word is not empty and has no delimiter.
abbrev pub IsWord : ℕ → List ℕ → Type 0
IsWord delim w = (0 < length w) × All (λ (c : ℕ). c ≢ delim) w

-- Words with a delimiter before each.
abbrev pub after_delims : ℕ → List (List ℕ) → List ℕ
after_delims delim [] = []
after_delims delim (w ∷ ws) = delim ∷ (w ++ after_delims delim ws)

-- Words with delimiters between them.
abbrev pub separated : ℕ → List (List ℕ) → List ℕ
separated delim [] = []
separated delim (w ∷ ws) = w ++ after_delims delim ws

span_word-word :
    (delim : ℕ) (w : List ℕ) (ws : List (List ℕ))
    → All (λ (c : ℕ). c ≢ delim) w
    → span_word delim (w ++ after_delims delim ws) ≡ (w, after_delims delim ws)
unfolding span_word
span_word-word delim [] [] h = refl
span_word-word delim [] (w ∷ ws) h = rw (eq→== delim delim refl) refl
span_word-word delim (c ∷ cs) ws h = rw (ne→== c delim h.0, span_word-word delim cs ws h.1) refl

skip_delims-word : (delim c : ℕ) (cs : List ℕ) → c ≢ delim → skip_delims delim (c ∷ cs) ≡ c ∷ cs
unfolding skip_delims
skip_delims-word delim c cs h = rw (ne→== c delim h) refl

skip_delims-delim :
    (delim : ℕ) (cs : List ℕ) → skip_delims delim (delim ∷ cs) ≡ skip_delims delim cs
unfolding skip_delims
skip_delims-delim delim cs = rw (eq→== delim delim refl) refl

tokenize_loop-starts :
    (delim : ℕ) (w : List ℕ) (ws : List (List ℕ)) (fuel : ℕ) (str : List ℕ)
    → skip_delims delim str ≡ skip_delims delim (w ++ after_delims delim ws)
    → All (IsWord delim) (w ∷ ws)
    → length (w ∷ ws) < fuel
    → tokenize_loop fuel delim str ≡ ok (w ∷ ws)
unfolding tokenize_loop skip_delims
tokenize_loop-starts delim w ws zero str e h f = absurd (omega arith)
tokenize_loop-starts delim [] ws (suc fuel) str e h f = absurd (omega (arith, h.0.0))
tokenize_loop-starts delim (c ∷ cs) [] (suc zero) str e h f = absurd (omega arith)
tokenize_loop-starts delim (c ∷ cs) [] (suc (suc fuel)) str e h f =
    let at : skip_delims delim str ≡ c ∷ (cs ++ []) =
      e ∙ skip_delims-word delim c (cs ++ []) h.0.1.0 in
    rw (tokenize_loop, at, span_word-word delim (c ∷ cs) [] h.0.1) refl
tokenize_loop-starts delim (c ∷ cs) (w ∷ ws) (suc fuel) str e h f =
    let at : skip_delims delim str ≡ c ∷ (cs ++ after_delims delim (w ∷ ws)) =
      e ∙ skip_delims-word delim c (cs ++ after_delims delim (w ∷ ws)) h.0.1.0 in
    let others : tokenize_loop fuel delim (after_delims delim (w ∷ ws)) ≡ ok (w ∷ ws) =
      tokenize_loop-starts delim w ws fuel (after_delims delim (w ∷ ws))
        (skip_delims-delim delim (w ++ after_delims delim ws)) h.1 (omega arith) in
    rw (tokenize_loop, at, span_word-word delim (c ∷ cs) (w ∷ ws) h.0.1, others) refl

length-after : (delim : ℕ) (ws : List (List ℕ)) → length ws ≤ length (after_delims delim ws)
length-after delim [] = omega arith
length-after delim (w ∷ ws) =
    omega (arith, length-append w (after_delims delim ws), length-after delim ws)

length-separated :
    (delim : ℕ) (ws : List (List ℕ))
    → All (IsWord delim) ws
    → length ws ≤ length (separated delim ws)
length-separated delim [] h = omega arith
length-separated delim (w ∷ ws) h =
    omega (arith, h.0.0, length-append w (after_delims delim ws), length-after delim ws)

-- Words that are not empty and do not hold the delimiter, put together with a delimiter between
-- each two, are split into the same words, and the loop of `tokenize` ends.
pub tokenize-separated :
    (delim : ℕ) (ws : List (List ℕ))
    → All (IsWord delim) ws
    → tokenize (separated delim ws) delim ≡ ok ws
unfolding tokenize tokenize_loop skip_delims
tokenize-separated delim [] h = refl
tokenize-separated delim (w ∷ ws) h =
    let room : length (w ∷ ws) ≤ length (separated delim (w ∷ ws)) =
      length-separated delim (w ∷ ws) h in
    tokenize_loop-starts delim w ws (suc (length (separated delim (w ∷ ws))))
      (separated delim (w ∷ ws)) refl h (omega arith)
