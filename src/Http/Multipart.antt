-- ===== src/Http/Multipart.antt =====
-- clueapi/http/multipart and clueapi/http/types: the configuration, the files and fields that the
-- two parsers collect, and what they give back.
pub mod Headers
pub mod Strings
pub mod Files
pub mod Tests
use clueapi.Base.{
  ℕ, ◌+◌, ◌*◌, ◌^◌, Bool, true, false, ◌||◌, List, [], ◌∷◌, ◌++◌, length, if◌then◌else◌,
}
use clueapi.Base.Bytes.{Bytes, codes, equal, is_empty}

-- The fields of `cfg_t`.
pub record Config : Type 0 where
  pub boundary : Bytes
  pub chunk_size : ℕ
  pub max_file_size_in_memory : ℕ
  pub max_files_size_in_memory : ℕ
  pub max_parts_count : ℕ

abbrev pub default_config : Bytes → Config
default_config boundary = record {
  boundary = boundary;
  chunk_size = 65536;
  max_file_size_in_memory = 1048576;
  max_files_size_in_memory = 1048576 * 10;
  max_parts_count = 1024;
}

-- `m_dash_boundary` and `m_crlf_dash_boundary` of `parser_t`.
unfoldable pub dash_boundary : Config → Bytes
dash_boundary cfg = codes "--" ++ cfg.boundary

unfoldable pub crlf_dash_boundary : Config → Bytes
unfolding dash_boundary
crlf_dash_boundary cfg = codes "\r\n" ++ dash_boundary cfg

-- Where the bytes of a `file_t` are: the two constructors of the struct that take bytes or a path.
pub data Content : Type 0 where
  in_memory : Bytes → Content
  temp_path : Bytes → Content

pub record File : Type 0 where
  pub name : Bytes
  pub content_type : Bytes
  pub content : Content

-- The file system, as the parsers use it. `open_file` says whether the file could be created; `write` is
-- `async_write`, and `false` means that it throws.
pub record Disk (W : Type 0) : Type 0 where
  pub unique_path : W → Bytes × W
  pub open_file : Bytes → W → Bool × W
  pub write : Bytes → Bytes → W → Bool × W
  pub remove : Bytes → W → W
  pub file_size : Bytes → W → ℕ

-- `file_size` of the disk gives 0 for a file that is missing or cannot be read.
unfoldable pub size : {W : Type 0} → Disk W → W → File → ℕ
size disk w f = elim f.content [
  | in_memory bytes ↦ length bytes
  | temp_path path ↦ if is_empty path then 0 else disk.file_size path w
]

-- `~file_t`
unfoldable pub destroy : {W : Type 0} → Disk W → File → W → W
destroy disk f w = elim f.content [
  | in_memory bytes ↦ w
  | temp_path path ↦ if is_empty path then w else disk.remove path w
]

-- The fields of `parts_t`. The maps list their entries in the order they were inserted in.
pub record Parts : Type 0 where
  pub files : List (Bytes × File)
  pub fields : List (Bytes × Bytes)

abbrev pub no_parts : Parts
no_parts = record { files = []; fields = [] }

unfoldable pub contains {ℓ} : {A : Type ℓ} → Bytes → List (Bytes × A) → Bool
contains key [] = false
contains key ((k, v) ∷ m) = equal k key || contains key m

-- `emplace`: an entry that is there stays.
unfoldable pub emplace {ℓ} : {A : Type ℓ} → Bytes → A → List (Bytes × A) → List (Bytes × A)
unfolding contains
emplace key value m = if contains key m then m else m ++ (key, value) ∷ []

-- `m_files.emplace`: a file that is not taken is destroyed, and its temporary file with it.
unfoldable pub add_file : {W : Type 0} → Disk W → Bytes → File → Parts × W → Parts × W
unfolding emplace contains destroy
add_file disk key f (parts, w) = (
  record parts { files = emplace key f parts.files },
  if contains key parts.files then destroy disk f w else w,
)

-- `~parts_t`
unfoldable pub destroy_all : {W : Type 0} → Disk W → List (Bytes × File) → W → W
unfolding destroy
destroy_all disk [] w = w
destroy_all disk ((key, f) ∷ m) w = destroy_all disk m (destroy disk f w)

-- The errors of the parsers, one for each message.
pub data Error : Type 0 where
  body_start : Error
  too_many_parts : Error
  boundary_line : Error
  headers_end : Error
  content_end : Error
  temp_file : Error
  iterations : Error
  file_open : Error
  first_boundary : Error
  headers_size : Error
  headers_read : Error
  headers_missing : Error
  part_boundary : Error
  part_read : Error
  field_boundary : Error
  field_read : Error

-- What `parse` ends with: its parts, an unexpected value, or an exception.
pub data Outcome : Type 0 where
  accepted : Parts → Outcome
  refused : Error → Outcome
  thrown : Outcome
