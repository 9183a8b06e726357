-- ===== src/Utils.antt =====
-- e2sarwf/FribE2sarUtils.cpp: the dump of a buffer, the URI, the flags and the data format.
pub mod Dump
mod Tests
use frib_e2sar.Base.{
  ℕ, zero, suc, ◌+◌, ◌-◌, ◌*◌, ◌/◌, ◌%◌, ◌≤◌, ◌≡◌, List, [], ◌∷◌, ◌++◌, map, flatten, Option, none,
  some, Bool, true, false, not, Error, Result, ok, err, ◌>>=◌, ltb, ◌==◌, if◌then◌else◌, length,
}
use frib_e2sar.Sender.Timestamp.{read_byte}
use frib_e2sar.RingItem.{advance}

-- A digit of `std::hex`.
abbrev pub hex_digit : ℕ → ℕ
hex_digit d = if ltb d 10 then b'0' + d else b'a' + (d - 10)

-- `std::setw(2) << std::setfill('0') << unsigned(*buf) << " "`.
abbrev pub byte_text : ℕ → List ℕ
byte_text b = hex_digit (b / 16) ∷ hex_digit (b % 16) ∷ b' ' ∷ []

-- `for (size_t i = 0; i < bytesToPrint; i++)`: the text, and the pointer behind the bytes.
unfoldable pub print_bytes : ℕ → List ℕ → Result (List ℕ × List ℕ)
print_bytes zero buf = ok ([], buf)
print_bytes (suc n) buf = do
  b ← read_byte buf
  rest ← advance 1 buf
  r ← print_bytes n rest
  ok (byte_text b ++ r.0, r.1)

-- `for (size_t i = bytesToPrint; i < perLine; ++i)`.
unfoldable pub print_blanks : ℕ → List ℕ
print_blanks zero = []
print_blanks (suc n) = b' ' ∷ b' ' ∷ b' ' ∷ print_blanks n

-- `std::min`.
abbrev pub smaller : ℕ → ℕ → ℕ
smaller a b = if ltb b a then b else a

-- `perLine`.
abbrev pub per_line : ℕ
per_line = 8

-- `while (printed < nBytes)`, with fuel: the lines, each without its end.
unfoldable pub dump_lines : ℕ → List ℕ → ℕ → ℕ → Result (List (List ℕ))
dump_lines zero buf n_bytes printed = err Error.out_of_fuel
dump_lines (suc fuel) buf n_bytes printed =
    let k = smaller (n_bytes - printed) per_line in
    let line : Result (List (List ℕ)) =
      (print_bytes k buf >>= λ r. dump_lines fuel r.1 n_bytes (printed + per_line) >>= λ lines.
      ok ((r.0 ++ print_blanks (per_line - k)) ∷ lines)) in
    if ltb printed n_bytes then line else ok []

-- `dumpBuffer`, between its first and its last line.
unfoldable pub dump_buffer : List ℕ → ℕ → Result (List (List ℕ))
dump_buffer buf n_bytes = dump_lines (suc n_bytes) buf n_bytes 0

-- E2SAR's `EjfatURI`: from the environment or from a string, for a preference for IPv6; none is an
-- error.
pub record UriFactory (U : Type 0) : Type 0 where
  pub get_from_env : Bool → Option U
  pub get_from_string : List ℕ → Bool → Option U

-- The value of an E2SAR result, or an exception.
unfoldable pub value_of {ℓ} : {A : Type ℓ} → Option A → Result A
value_of none = err Error.runtime_error
value_of (some a) = ok a

unfoldable pub get_uri : {U : Type 0} ⦃uris : UriFactory U⦄ → List ℕ → Bool → Result U
get_uri ⦃uris⦄ uri prefer_v6 =
    value_of
      (if length uri == 0 then uris.get_from_env prefer_v6 else uris.get_from_string uri prefer_v6)

-- E2SAR's flags of a Segmenter and of a Reassembler, read from a file.
pub record SegmenterFlags (F : Type 0) : Type 0 where
  pub get_from_ini : List ℕ → Option F
  pub use_cp : F → Bool
  pub dp_v6 : F → Bool
  pub set_mtu : ℕ → F → F

pub record ReassemblerFlags (F : Type 0) : Type 0 where
  pub get_from_ini : List ℕ → Option F
  pub use_cp : F → Bool
  pub with_lb_header : F → Bool
  pub set_with_lb_header : Bool → F → F
  pub with_lb_header_set : (b : Bool) (f : F) → with_lb_header (set_with_lb_header b f) ≡ b
  pub use_cp_set : (b : Bool) (f : F) → use_cp (set_with_lb_header b f) ≡ use_cp f

unfoldable pub get_segmenter_flags_from_file :
    {F : Type 0} ⦃flags : SegmenterFlags F⦄ → List ℕ → Result F
get_segmenter_flags_from_file ⦃flags⦄ fname = value_of (flags.get_from_ini fname)

unfoldable pub get_reassembler_flags_from_file :
    {F : Type 0} ⦃flags : ReassemblerFlags F⦄ → List ℕ → Result F
get_reassembler_flags_from_file ⦃flags⦄ fname = value_of (flags.get_from_ini fname) >>= λ f.
    ok (flags.set_with_lb_header (not (flags.use_cp f)) f)

-- The formats of NSCLDAQ data that a factory can be selected for.
pub data SupportedVersion : Type 0 where
  v10 v11 v12 : SupportedVersion

-- `mapVersion` of the workflow.
unfoldable pub map_version : ℕ → Result SupportedVersion
map_version vsn =
    if vsn == 12
    then ok SupportedVersion.v12
    else if vsn == 11
    then ok SupportedVersion.v11
    else err Error.invalid_argument
