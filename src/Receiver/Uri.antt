-- ===== src/Receiver/Uri.antt =====
-- The URI that the receiver makes is one that `makeDataSink` reads.
use mathlib.Core.Path.{subst}
use frib_e2sar.Base.{
  ℕ, ◌≡◌, ◌≢◌, inl, inr, refl, sym, ap, List, [], ◌∷◌, ◌++◌, Bool, true, false, ok, err, Error,
  Result, ◌⊎◌, ◌∙◌, leb, ◌==◌, ==→eq, ok-injective, Bool-cases, length, All, arith,
}
use frib_e2sar.Receiver.{
  SinkNames, Url, SinkKind, ring_proto, tcp_proto, file_proto, authority_mark, equals, print_uri,
  sink_for, make_sink_uri, make_data_sink,
}

equals→≡ : (xs ys : List ℕ) → equals xs ys ≡ true → xs ≡ ys
unfolding equals
equals→≡ [] [] h = refl
equals→≡ [] (y ∷ ys) h = cc
equals→≡ (x ∷ xs) [] h = cc
equals→≡ (x ∷ xs) (y ∷ ys) h = elim (Bool-cases (x == y)) [
  | inl same ↦ rw (==→eq x y same) (ap (◌∷◌ y) (equals→≡ xs ys (rw same at h)))
  | inr other ↦ let bad = rw other at h in cc
]

print_uri-ok : (text uri : List ℕ) → print_uri text ≡ ok uri → text ≡ uri
unfolding print_uri
print_uri-ok text uri h = elim (Bool-cases (leb 1024 (length text))) [
  | inl long ↦ let bad = rw long at h in cc
  | inr short ↦ ok-injective (rw short at h)
]

-- The kind of sink: a file for the protocol "file", else a ring.
abbrev pub kind_of : Bool → List ℕ → SinkKind
kind_of true path = SinkKind.file_sink path
kind_of false path = SinkKind.ring_sink path

-- The three protocols, none with a colon, and what sink they are for.
abbrev Known : List ℕ → Type 0
Known proto =
    All (λ (c : ℕ). c ≢ 58) proto
    × ((path : List ℕ) → sink_for proto path ≡ ok (kind_of (equals proto file_proto) path))

ring_proto-Known : Known ring_proto
unfolding sink_for equals
ring_proto-Known = (
  (
    (λ e. omega (arith, e)),
    ((λ e. omega (arith, e)), ((λ e. omega (arith, e)), ((λ e. omega (arith, e)), tt))),
  ),
  λ path. refl,
)

tcp_proto-Known : Known tcp_proto
unfolding sink_for equals
tcp_proto-Known = (
  ((λ e. omega (arith, e)), ((λ e. omega (arith, e)), ((λ e. omega (arith, e)), tt))),
  λ path. refl,
)

file_proto-Known : Known file_proto
unfolding sink_for equals
file_proto-Known = (
  (
    (λ e. omega (arith, e)),
    ((λ e. omega (arith, e)), ((λ e. omega (arith, e)), ((λ e. omega (arith, e)), tt))),
  ),
  λ path. refl,
)

-- A URI that was made has a known protocol.
made :
    (n : SinkNames) (uri : List ℕ)
    → make_sink_uri n ≡ ok uri
    → Known n.proto × ((rest : List ℕ) × (uri ≡ n.proto ++ (authority_mark ++ rest)))
unfolding make_sink_uri
made n uri h = elim (Bool-cases (equals n.proto ring_proto)) [
  | inl e ↦ (
    subst Known (sym (equals→≡ n.proto ring_proto e)) ring_proto-Known,
    (_, sym (print_uri-ok _ uri (rw e at h))),
  )
  | inr x ↦ elim (Bool-cases (equals n.proto tcp_proto)) [
    | inl e ↦ (
      subst Known (sym (equals→≡ n.proto tcp_proto e)) tcp_proto-Known,
      (_, sym (print_uri-ok _ uri (rw (x, e) at h))),
    )
    | inr y ↦ elim (Bool-cases (equals n.proto file_proto)) [
      | inl e ↦ (
        subst Known (sym (equals→≡ n.proto file_proto e)) file_proto-Known,
        (_, sym (print_uri-ok _ uri (rw (x, y, e) at h))),
      )
      | inr z ↦ let bad = rw (x, y, z) at h in cc
    ]
  ]
]

-- What becomes of a URI: what the constructor of `URL` throws, or the sink for what it reads.
abbrev pub Opens : ⦃url : Url⦄ → SinkNames → List ℕ → Type 0
Opens ⦃url⦄ n uri =
    ((e : Error) × (url.parse_url uri ≡ err e) × (make_data_sink uri ≡ err e))
    ⊎ ((path : List ℕ) × (url.parse_url uri ≡ ok (n.proto, path))
        × (make_data_sink uri ≡ ok (kind_of (equals n.proto file_proto) path)))

-- On every URI that `makeSinkUri` makes, `makeDataSink` throws just what the constructor of `URL`
-- throws, or it opens the sink for the path that the `URL` gives: for the protocol "file" a file,
-- and else, for "ring" and "tcp", a ring buffer.
pub make_sink_uri-make_data_sink :
    ⦃url : Url⦄ (n : SinkNames) (uri : List ℕ) → make_sink_uri n ≡ ok uri → Opens n uri
unfolding make_data_sink
make_sink_uri-make_data_sink ⦃url⦄ n uri h = by_cases (url.parse_url uri) refl
  where
    by_cases : (r : Result (List ℕ × List ℕ)) → url.parse_url uri ≡ r → Opens n uri
    by_cases (err e) parsed = inl (e, parsed, rw parsed refl)
    by_cases (ok (proto, path)) parsed =
        let (known, (rest, e)) = made n uri h in
        let same : proto ≡ n.proto =
          url.proto_before n.proto rest proto path known.0 (ap url.parse_url (sym e) ∙ parsed) in
        inr
          (path, parsed ∙ ap (λ (p : List ℕ). ok (p, path)) same, rw (parsed, same) (known.1 path))
