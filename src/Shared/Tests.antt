-- ===== src/Shared/Tests.antt =====
-- The helpers on texts at concrete inputs: tests, and the instances of the theorems.
use clueapi.Base.{◌≡◌, refl, none, [], ◌∷◌}
use clueapi.Base.Bytes.{Bytes, codes, find, find_char, is_empty, equal}
use clueapi.Shared.Extract.{match_part}
use clueapi.Shared.Filename.{sanitize_filename, IsSafe, is_kept, sanitize_filename-IsSafe}
use clueapi.Shared.Split.Pieces.{pieces}
use clueapi.Shared.Text.{trim, rtrim, ltrim, keep, ascii_space}

-- What `sanitize_filename` makes of a path that climbs.
climbing_path : sanitize_filename (codes "../../etc/pass wd") ≡ codes "....etcpasswd"
unfolding sanitize_filename is_empty is_kept equal
climbing_path = refl

sanitize_filename-IsSafe_example : IsSafe (sanitize_filename (codes "../x"))
sanitize_filename-IsSafe_example = sanitize_filename-IsSafe (codes "../x")

-- The two pieces of a text with two delimiters.
two_pieces :
    pieces (codes "a,b,c") (codes ",") (find (codes "a,b,c") (codes ","))
    ≡ codes "a" ∷ codes "b,c" ∷ []
unfolding find
two_pieces = refl

abbrev content_type : Bytes
content_type = codes "multipart/form-data; boundary=\"xyz\""

no_key : match_part (codes "multipart/form-data") (codes "boundary") ≡ none
unfolding match_part trim rtrim ltrim ascii_space keep is_empty find_char
no_key = refl
