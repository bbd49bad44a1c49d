-- ===== src/Http/Multipart/Strings.antt =====
-- clueapi/http/multipart/detail/string_parser: a body that is in memory, part by part.
pub mod Limits
pub mod Bounds
pub mod Rendering
pub mod Accepted
pub mod Heads
pub mod Form
use clueapi.Base.{
  ℕ, zero, suc, ◌+◌, ◌%◌, ◌||◌, Bool, true, false, [], ◌∷◌, Option, none, some, length, take, drop,
  ltb, leb, if◌then◌else◌, not,
}
use clueapi.Base.Bytes.{Bytes, codes, find, is_empty, starts_with}
use clueapi.Shared.Split.{size_mod}
use clueapi.Http.Multipart.{
  Config, Disk, Outcome, accepted, refused, thrown, Parts, no_parts, File, in_memory, temp_path,
  add_file, emplace, dash_boundary, crlf_dash_boundary, destroy_all, body_start, too_many_parts,
  boundary_line, headers_end, content_end, temp_file, iterations,
}
use clueapi.Http.Multipart.Headers.{Headers, parse_headers}

-- `m_str`, `m_total_in_memory_size`, the parts so far, and the file system.
pub record State (W : Type 0) : Type 0 where
  pub view : Bytes
  pub total : ℕ
  pub parts : Parts
  pub world : W

-- A round of the loop ends the parser, or leaves it in the next state.
pub data Step (W : Type 0) : Type 0 where
  stop : Outcome → W → Step W
  next : State W → Step W

-- The parser returns, or goes on.
unfoldable pub finish : {W : Type 0} → Step W → (State W → Outcome × W) → Outcome × W
finish (stop o w) go_on = (o, w)
finish (next s) go_on = go_on s

abbrev pub max_iterations : ℕ
max_iterations = 100000

module _ {W : Type 0} (disk : Disk W) (cfg : Config) where
  -- An end without parts: those so far are destroyed.
  unfoldable pub give_up : Outcome → State W → Step W
  unfolding destroy_all
  give_up o s = stop o (destroy_all disk s.parts.files s.world)

  -- A file goes into the map under the name of its part.
  unfoldable pub keep_file : Bytes → File → State W → State W
  unfolding add_file
  keep_file key f s =
      let (parts, w) = add_file disk key f (s.parts, s.world) in
      record s { parts = parts; world = w }

  unfoldable pub save_to_disk : Headers → Bytes → State W → Step W
  unfolding give_up keep_file
  save_to_disk h content s =
      let (path, w) = disk.unique_path s.world in
      let (opened, w1) = disk.open_file path w in
      let (written, w2) = disk.write path content w1 in
      if not opened
      then give_up (refused temp_file) (record s { world = w1 })
      else if not written
      then give_up thrown (record s { world = w2 })
      else next (
          keep_file h.name
            (record { name = h.file_name; content_type = h.content_type; content = temp_path path })
            (record s { world = w2 }))

  unfoldable pub is_large : ℕ → ℕ → Bool
  is_large content_len total =
      ltb cfg.max_file_size_in_memory content_len
      || ltb cfg.max_files_size_in_memory ((total + content_len) % size_mod)

  unfoldable pub store_file : Headers → Bytes → State W → Step W
  unfolding save_to_disk keep_file is_large
  store_file h content s =
      if is_large (length content) s.total
      then save_to_disk h content s
      else next (
          keep_file h.name
            (record {
              name = h.file_name;
              content_type = h.content_type;
              content = in_memory content;
            })
            (record s { total = (s.total + length content) % size_mod }))

  -- `if (!headers.m_name.empty())`
  unfoldable pub store_part : Headers → Bytes → State W → Step W
  unfolding store_file emplace
  store_part h content s =
      if is_empty h.name
      then next s
      else if is_empty h.file_name
      then next
          (record s { parts = record s.parts { fields = emplace h.name content s.parts.fields } })
      else store_file h content s

  -- `m_str.remove_prefix`, once the part is stored.
  unfoldable pub continue_at : Bytes → Step W → Step W
  continue_at rest (stop o w) = stop o w
  continue_at rest (next s) = next (record s { view = rest })

  -- The content that begins at `body`.
  unfoldable pub read_content : Headers → Bytes → State W → Step W
  unfolding store_part continue_at give_up crlf_dash_boundary
  read_content h body s = elim (find body (crlf_dash_boundary cfg)) [
    | none ↦ give_up (refused content_end) s
    | some end ↦
        continue_at (drop (end + length (crlf_dash_boundary cfg)) body)
          (store_part h (take end body) s)
  ]

  -- The state before the first round.
  unfoldable pub start : Bytes → W → State W
  unfolding dash_boundary
  start body w = record {
    view = drop (length (dash_boundary cfg)) body;
    total = 0;
    parts = no_parts;
    world = w;
  }

-- `iequals` and `replace_all` are Boost's.
module _ {W : Type 0} (disk : Disk W) (cfg : Config) (iequals : Bytes → Bytes → Bool)
    (replace_all : Bytes → Bytes → Bytes → Bytes) where
  -- A part, behind the line break that ends the line of its boundary.
  unfoldable pub read_part : Bytes → State W → Step W
  unfolding read_content give_up
  read_part text s = elim (find text (codes "\r\n\r\n")) [
    | none ↦ give_up disk cfg (refused headers_end) s
    | some end ↦
        read_content disk cfg (parse_headers iequals replace_all (take end text))
          (drop (end + 4) text) s
  ]

  -- What stands behind a boundary: the end mark, or a line break and a part.
  unfoldable pub after_boundary : Bytes → State W → Step W
  unfolding read_part give_up
  after_boundary text s =
      if starts_with text (codes "--")
      then stop (accepted s.parts) s.world
      else if not (starts_with text (codes "\r\n"))
      then give_up disk cfg (refused boundary_line) s
      else read_part (drop 2 text) s

  -- The body of the loop.
  unfoldable pub round : State W → Step W
  unfolding after_boundary give_up
  round s =
      if leb cfg.max_parts_count (length s.parts.fields + length s.parts.files)
      then give_up disk cfg (refused too_many_parts) s
      else after_boundary s.view s

  -- `while (iteration_count++ < k_max_iterations)`, with the rounds that are left.
  unfoldable pub rounds : ℕ → State W → Outcome × W
  unfolding round finish destroy_all
  rounds zero s = (refused iterations, destroy_all disk s.parts.files s.world)
  rounds (suc left) s = finish (round s) (λ r. rounds left r)

  unfoldable pub parse : Bytes → W → Outcome × W
  unfolding rounds dash_boundary start
  parse body w =
      if starts_with body (dash_boundary cfg)
      then rounds max_iterations (start disk cfg body w)
      else (refused body_start, w)
