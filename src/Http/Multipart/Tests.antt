-- ===== src/Http/Multipart/Tests.antt =====
-- Multipart bodies at concrete inputs: tests, and the instances of the theorems.
use clueapi.Base.{
  inl, ℕ, ◌≡◌, ◌+◌, ◌<◌, refl, true, false, [], ◌∷◌, ◌++◌, some, none, arith, take, drop, length,
  List, take-append-drop, zero, suc, All,
}
use clueapi.Base.Bytes.{Bytes, codes, equal, is_empty, find, starts_with}
use clueapi.Http.Multipart.{
  no_parts, Config, default_config, Disk, accepted, dash_boundary, crlf_dash_boundary, emplace,
  contains,
}
use clueapi.Http.Multipart.Headers.{parse_parameters, no_headers}
use clueapi.Http.Multipart.Headers.Parameters.{render_parameters, parse_parameters-render, IsPlain}
use clueapi.Http.Multipart.Strings
use clueapi.Http.Multipart.Strings.Limits.{Keeps}
use clueapi.Http.Multipart.Strings.Bounds.{parse-Keeps}
use clueapi.Http.Multipart.Strings.Rendering.{IsClean, body_of, collect, parse-body_of}
use clueapi.Http.Multipart.Strings.Accepted.{parse-accepted}
use clueapi.Http.Multipart.Strings.Heads.{IsBoost, IsField, head_of}
use clueapi.Http.Multipart.Strings.Form.{first_values, written, parse-form}
use clueapi.Http.Multipart.Files.{Source, Reader, ReadEnd, got, eof, parse_field_part}
use clueapi.Http.Multipart.Files.Storage.{parse_file_part}
use clueapi.Http.Multipart.Files.Reading.{IsPlainFile}
use clueapi.Http.Multipart.Files.Fields.{IsFieldOf, parse_field_part-reads}
use clueapi.Http.Multipart.Files.Unstored.{Becomes, parse_file_part-throws}
use clueapi.Shared.Text.{ascii_space, iequals_ascii, unquote}

-- The parameters of a field with a file.
abbrev two : List (Bytes × Bytes)
two = (codes "name", codes "f") ∷ (codes "filename", codes "a;b.txt") ∷ []

two-IsPlain : All IsPlain two
unfolding is_empty ascii_space
two-IsPlain = (
  record {
    named = refl;
    front = refl;
    back = refl;
    mark = refl;
    sign = ground arith;
    quotes = ground arith;
    backslashes = ground arith;
  },
  (
    record {
      named = refl;
      front = refl;
      back = refl;
      mark = refl;
      sign = ground arith;
      quotes = ground arith;
      backslashes = ground arith;
    },
    tt,
  ),
)

parse_parameters-render_example : parse_parameters (render_parameters two) ≡ two
parse_parameters-render_example = parse_parameters-render two two-IsPlain

-- A disk on which everything succeeds, with one path.
abbrev pub disk : Disk Bytes
disk = record {
  unique_path = λ w. (codes "/tmp/clueapi.tmp", w);
  open_file = λ p w. (true, w);
  write = λ p b w. (true, w);
  remove = λ p w. w;
  file_size = λ p w. 0;
}

-- Nothing is folded in the texts below, so the replacement has nothing to replace.
abbrev pub replace : Bytes → Bytes → Bytes → Bytes
replace t a b = elim (find t a) [ none ↦ t | some i ↦ take i t ++ (b ++ drop (i + length a) t) ]

abbrev pub cfg : Config
cfg = default_config (codes "XyZ")

abbrev pub fields : List (Bytes × Bytes)
fields = (codes "a", codes "1") ∷ (codes "b", codes "2") ∷ []

pub boost : IsBoost iequals_ascii replace
boost = record { same = λ a b. refl; kept = λ t a b e. rw (replace, e) refl }

pub fields-IsField : All (IsField cfg) fields
unfolding is_empty unquote head_of render_parameters crlf_dash_boundary dash_boundary find
    starts_with
fields-IsField = (
  record {
    named = refl;
    quotes = ground arith;
    backslashes = ground arith;
    returns = ground arith;
    bare = refl;
    short = omega arith;
    content_ends = refl;
  },
  (
    record {
      named = refl;
      quotes = ground arith;
      backslashes = ground arith;
      returns = ground arith;
      bare = refl;
      short = omega arith;
      content_ends = refl;
    },
    tt,
  ),
)

parse-form_example :
    Strings.parse disk cfg iequals_ascii replace (body_of cfg (written fields) (codes "\r\n")) []
    ≡ (accepted (record { files = []; fields = fields }), [])
unfolding first_values emplace contains equal
parse-form_example =
    parse-form disk cfg iequals_ascii replace boost fields (codes "\r\n") [] (omega arith)
      (omega arith) fields-IsField

parse-Keeps_example :
    Keeps cfg (Strings.parse disk cfg iequals_ascii replace (codes "--XyZ--") []).0
parse-Keeps_example = parse-Keeps disk cfg iequals_ascii replace (codes "--XyZ--") [] (omega arith)

abbrev one : List (Bytes × Bytes)
one = (codes "A: b", codes "c") ∷ []

one-IsClean : All (IsClean cfg) one
unfolding crlf_dash_boundary dash_boundary find starts_with
one-IsClean = (record { head_ends = refl; content_ends = refl }, tt)

parse-body_of_example :
    Strings.parse disk cfg iequals_ascii replace (body_of cfg one []) []
    ≡ collect disk cfg iequals_ascii replace one (Strings.start disk cfg [] [])
parse-body_of_example =
    parse-body_of disk cfg iequals_ascii replace one [] [] (omega arith) one-IsClean

parse-accepted_example :
    (ps : List (Bytes × Bytes)) × (rest : Bytes) × (codes "--XyZ--" ≡ body_of cfg ps rest)
    × (length ps < Strings.max_iterations)
    × All (IsClean cfg) ps
    × (collect disk cfg iequals_ascii replace ps (Strings.start disk cfg [] [])
        ≡ (accepted no_parts, []))
unfolding Strings.parse Strings.rounds Strings.round Strings.after_boundary Strings.start
    Strings.finish dash_boundary starts_with
parse-accepted_example = parse-accepted disk cfg iequals_ascii replace (codes "--XyZ--") [] refl

-- A file that is read from its bytes.
unfoldable pub read_bytes : ℕ → Bytes → Bytes × (ReadEnd × Bytes)
read_bytes n [] = ([], (eof, []))
read_bytes n (c ∷ w) = (take n (c ∷ w), (got, drop n (c ∷ w)))

abbrev pub plain : Source Bytes
plain = record { open_read = λ p w. (true, w); read_some = read_bytes }

take_some : (n : ℕ) (c : ℕ) (w : Bytes) → 0 < n → 0 < length (take n (c ∷ w))
take_some zero c w h = absurd (omega arith)
take_some (suc n) c w h = omega arith

plain_at_end :
    (n : ℕ) (w : Bytes)
    → w ≡ []
    → ((read_bytes n w).0 ≡ []) × ((read_bytes n w).1.0 ≡ eof) × ((read_bytes n w).1.1 ≡ [])
unfolding read_bytes
plain_at_end n [] h = (refl, refl, refl)
plain_at_end n (c ∷ w) h = ground arith

plain_ahead :
    (n : ℕ) (w : Bytes)
    → 0 < n
    → 0 < length w
    → (0 < length (read_bytes n w).0)
      × ((read_bytes n w).1.0 ≡ got)
      × ((read_bytes n w).0 ++ (read_bytes n w).1.1 ≡ w)
unfolding read_bytes
plain_ahead n [] k h = absurd (omega arith)
plain_ahead n (c ∷ w) k h = (take_some n c w k, refl, take-append-drop n (c ∷ w))

plain-IsPlainFile : IsPlainFile plain (λ w. w)
plain-IsPlainFile = record { at_end = plain_at_end; ahead = plain_ahead }

-- Chunks of three bytes.
abbrev small : Config
small = record cfg { chunk_size = 3 }

abbrev reader : Reader Bytes
reader = record {
  buffer = codes "x";
  processed = 0;
  eof_reached = false;
  total = 0;
  world = codes "yz\r\n--XyZ--";
}

parse_file_part-throws_example :
    Becomes plain disk small
      (λ w. w)
      plain-IsPlainFile
      (omega arith)
      no_headers
      (parse_file_part plain disk small 20 no_headers reader)
      3
unfolding crlf_dash_boundary dash_boundary find starts_with
parse_file_part-throws_example =
    parse_file_part-throws plain disk small (λ w. w) plain-IsPlainFile (omega arith) 20 no_headers
      reader (inl refl) (omega arith) refl

parse_field_part-reads_example :
    IsFieldOf plain small
      (λ w. w)
      plain-IsPlainFile
      (omega arith)
      (parse_field_part plain small 20 reader)
      reader
      (find (codes "xyz\r\n--XyZ--") (crlf_dash_boundary small))
parse_field_part-reads_example =
    parse_field_part-reads plain small (λ w. w) plain-IsPlainFile (omega arith) 20 reader (inl refl)
      (omega arith)
