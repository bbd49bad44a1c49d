-- ===== src/Shared/Filename.antt =====
-- clueapi/shared/impl/shared.cxx: the name under which an uploaded file may be stored.
use clueapi.Base.{
  ℕ, ◌≡◌, ◌≢◌, ◌↔◌, refl, subst, Bool, true, ◌||◌, ◌&&◌, [], ◌∷◌, arith, All, ◌==◌, leb,
  if◌then◌else◌,
}
use clueapi.Base.Bytes.{Bytes, codes, equal, equal_iff, is_empty}

-- `std::isalnum` in the C locale.
unfoldable isalnum : ℕ → Bool
isalnum c = (leb b'0' c && leb c b'9') || (leb b'A' c && leb c b'Z') || (leb b'a' c && leb c b'z')

-- The predicate of `copy_if`.
unfoldable pub is_kept : ℕ → Bool
unfolding isalnum
is_kept c = isalnum c || c == b'_' || c == b'-' || c == b'.'

-- `std::copy_if`
keep_if : Bytes → Bytes
keep_if [] = []
keep_if (c ∷ s) = if is_kept c then c ∷ keep_if s else keep_if s

unfoldable pub sanitize_filename : Bytes → Bytes
unfolding keep_if
sanitize_filename name =
    if is_empty name
    then codes "untitled"
    else let sanitized = keep_if name in
      if is_empty sanitized || equal sanitized (codes ".") || equal sanitized (codes "..")
      then codes "untitled"
      else sanitized

-- A name that cannot leave its directory: some bytes, all of them letters, digits, `_`, `-` or `.`,
-- and not one of the two names of directories.
abbrev pub IsSafe : Bytes → Type 0
IsSafe s = (s ≢ []) × (s ≢ codes ".") × (s ≢ codes "..") × All (λ c. is_kept c ≡ true) s

keep_if-kept : (s : Bytes) → All (λ c. is_kept c ≡ true) (keep_if s)
unfolding keep_if
keep_if-kept [] = tt
keep_if-kept (c ∷ s) = ground (arith, keep_if-kept s)

keep_if-All : (s : Bytes) → All (λ c. is_kept c ≡ true) s → keep_if s ≡ s
unfolding keep_if
keep_if-All [] h = refl
keep_if-All (c ∷ s) h = ground (arith, keep_if-All s h.1)

-- The name that comes out is safe, whatever name came in.
pub sanitize_filename-IsSafe : (name : Bytes) → IsSafe (sanitize_filename name)
unfolding sanitize_filename keep_if is_empty equal is_kept isalnum
sanitize_filename-IsSafe [] = ground arith
sanitize_filename-IsSafe (c ∷ s) = ground (
  arith,
  keep_if-kept (c ∷ s),
  equal_iff (keep_if (c ∷ s)) (codes "."),
  equal_iff (keep_if (c ∷ s)) (codes ".."),
)

-- A name is left as it is exactly when it is safe.
pub sanitize_filename_iff : (name : Bytes) → (sanitize_filename name ≡ name) ↔ IsSafe name
unfolding sanitize_filename is_empty
sanitize_filename_iff [] = ground arith
sanitize_filename_iff (c ∷ s) = (
  λ e. subst IsSafe e (sanitize_filename-IsSafe (c ∷ s)),
  λ safe.
      let kept = keep_if-All (c ∷ s) safe.3 in
      ground (arith, kept, equal_iff (c ∷ s) (codes "."), equal_iff (c ∷ s) (codes "..")),
)
