-- ===== src/Files.antt =====
-- What `os.stat` and `os.fstat` report of a file, as far as the program reads it.
use yantra_os.Prelude.{ℕ, Bool, true, false, List, [], ◌∷◌, ◌||◌, ◌==◌}

pub data FileKind : Type 0 where
  regular directory socket other : FileKind

pub record Stat : Type 0 where
  pub kind : FileKind
  pub uid : ℕ
  pub gid : ℕ
  pub mode : ℕ
  pub size : ℕ
  pub device : ℕ
  pub inode : ℕ

-- stat.S_ISREG, stat.S_ISDIR, stat.S_ISSOCK of `st_mode`
abbrev pub is_regular : FileKind → Bool
is_regular regular = true
is_regular _ = false

abbrev pub is_directory : FileKind → Bool
is_directory directory = true
is_directory _ = false

abbrev pub is_socket : FileKind → Bool
is_socket socket = true
is_socket _ = false

-- `uid in {…}`
unfoldable pub member : ℕ → List ℕ → Bool
member u [] = false
member u (v ∷ vs) = u == v || member u vs
