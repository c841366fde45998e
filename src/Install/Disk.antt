-- ===== src/Install/Disk.antt =====
-- The calls of the operating system that orchestration/internal/install/files.go makes on what it
-- writes, and the functions built from them: writeFile, CopyFile, AtomicWrite. A disk has no symbolic
-- links. Faults are what makes a call fail besides the state of the disk.
use csfleet.Prelude.{
  ℕ, Bool, true, false, List, [], ◌∷◌, ◌++◌, Option, none, some, String, ite, if◌then◌else◌, take,
}
use csfleet.Fleet.Services.{Answer, got, failed}
use csfleet.Install.Paths.{FilePath, FilePath_discrete, parent, is_under}

abbrev pub Content : Type 0
Content = List ℕ

pub data Entry : Type 0 where
  folder : Entry
  regular : Content → (mode : ℕ) → Entry

abbrev pub Disk : Type 0
Disk = FilePath → Option Entry

pub data Failure : Type 0 where
  not_a_directory : FilePath → Failure
  is_a_directory : FilePath → Failure
  no_such_directory : FilePath → Failure
  escapes : List ℕ → Failure
  io : String → Failure

-- A state and the error, if any.
abbrev pub Ran : Type 0
Ran = Disk × Option Failure

infixl 5 ◌>=>◌
abbrev pub ◌>=>◌ : Ran → (Disk → Ran) → Ran
(d, none) >=> f = f d
(d, some e) >=> f = (d, some e)

-- What a reader gives, and the error that ends it early.
pub record Reader : Type 0 where
  pub content : Content
  pub broken : Option String

-- `make_dirs` gives the number of components that exist when os.MkdirAll fails, `masked` is the umask.
pub record Faults : Type 0 where
  pub make_dirs : FilePath → Option (ℕ × String)
  pub open_file : FilePath → Option String
  pub close_file : FilePath → Option String
  pub replace_file : FilePath → Option String
  pub masked : ℕ → ℕ

abbrev pub put : Disk → FilePath → Entry → Disk
put d p e q = ite (FilePath_discrete p q) (some e) (d q)

unfoldable pub make_missing : FilePath → Disk → Disk
make_missing p d q = elim (d q) [
  | some e ↦ some e
  | none ↦ if is_under q p then some folder else none
]

abbrev is_file : Option Entry → Bool
is_file (some (regular c m)) = true
is_file _ = false

-- Whether a file stands on the way to a path, which has so many components.
unfoldable pub blocked : FilePath → FilePath → Disk → Bool
blocked done [] d = is_file (d done)
blocked done (n ∷ p) d =
    let rest = blocked (done ++ (n ∷ [])) p d in if is_file (d done) then true else rest

module _ (o : Faults) where
  -- os.MkdirAll
  unfoldable pub mkdir_all : FilePath → Disk → Ran
  unfolding make_missing blocked
  mkdir_all p d = if blocked [] p d then (d, some (not_a_directory p)) else elim (o.make_dirs p) [
    | some (n, e) ↦ (make_missing (take n p) d, some (io e))
    | none ↦ (make_missing p d, none)
  ]

  -- io.Copy into the opened file, and its Close: what was read before an error stays in the file.
  unfoldable pub close_error : FilePath → Reader → Option Failure
  close_error p r = elim r.broken [
    | some e ↦ some (io e)
    | none ↦ elim (o.close_file p) [ some e ↦ some (io e) | none ↦ none ]
  ]

  unfoldable pub finish : FilePath → Reader → ℕ → Disk → Ran
  unfolding close_error
  finish p r mode d = (put d p (regular r.content mode), close_error p r)

  -- os.OpenFile creates a file with the mode, or truncates the one that is there, which keeps its own.
  unfoldable pub open_entry : FilePath → Reader → ℕ → Option Entry → Option Entry → Disk → Ran
  unfolding finish
  open_entry p r mode (some folder) above d = (d, some (is_a_directory p))
  open_entry p r mode (some (regular c old)) above d = finish p r old d
  open_entry p r mode none (some folder) d = finish p r (o.masked mode) d
  open_entry p r mode none above d = (d, some (no_such_directory p))

  -- writeFile
  unfoldable pub write_file : FilePath → Reader → ℕ → Disk → Ran
  unfolding open_entry
  write_file p r mode d = elim (o.open_file p) [
    | some e ↦ (d, some (io e))
    | none ↦ open_entry p r mode (d p) (d (parent p)) d
  ]

  -- CopyFile, from what opening the source gives.
  unfoldable pub copy_file : Answer Reader → ℕ → FilePath → Disk → Ran
  unfolding mkdir_all write_file
  copy_file (failed e) mode dest d = (d, some (io e))
  copy_file (got r) mode dest d = mkdir_all (parent dest) d >=> write_file dest r mode

  -- os.Rename onto the destination.
  unfoldable pub rename_onto : FilePath → Content → Option Entry → Disk → Ran
  rename_onto dest content (some folder) d = (d, some (is_a_directory dest))
  rename_onto dest content here d = (put d dest (regular content 0o644), none)

  -- The temporary file, which is removed on every error, and the rename.
  unfoldable pub replace : FilePath → Content → Disk → Ran
  unfolding rename_onto
  replace dest content d = elim (o.replace_file dest) [
    | some e ↦ (d, some (io e))
    | none ↦ rename_onto dest content (d dest) d
  ]

  -- AtomicWrite
  unfoldable pub atomic_write : FilePath → Content → Disk → Ran
  unfolding mkdir_all replace
  atomic_write dest content d = mkdir_all (parent dest) d >=> replace dest content
