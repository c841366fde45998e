-- ===== src/Install/Trees.antt =====
-- orchestration/internal/install/files.go: ExtractZip and CopyTree. What is read is a list of entries
-- or a tree, with what opening and reading each file gives; what is written is a disk.
use csfleet.Prelude.{Bool, List, [], ◌∷◌, ◌++◌, none, some, String, ℕ, if◌then◌else◌}
use csfleet.Fleet.Services.{Answer, got, failed}
use csfleet.Install.Paths.{Name, FilePath, parent, safe_join}
use csfleet.Install.Disk.{
  Disk, escapes, io, Ran, ◌>=>◌, Reader, Faults, mkdir_all, write_file, copy_file,
}

-- A zip.File.
pub record ZipEntry : Type 0 where
  pub name : List ℕ
  pub is_dir : Bool
  pub opened : Answer Reader
  pub mode : ℕ

-- A directory tree as filepath.WalkDir meets it: entries in their order, and directories that cannot
-- be listed.
mutual
  pub data Node : Type 0 where
    file : Answer Reader → (mode : ℕ) → Node
    dir : Entries → Node
    unreadable : String → Node

  pub data Entries : Type 0 where
    nil : Entries
    entry : Name → Node → Entries → Entries

module _ (o : Faults) where
  unfoldable pub write_opened : FilePath → Answer Reader → ℕ → Disk → Ran
  unfolding write_file
  write_opened target (failed m) mode d = (d, some (io m))
  write_opened target (got r) mode d = write_file o target r mode d

  unfoldable pub extract_to : FilePath → ZipEntry → Disk → Ran
  unfolding mkdir_all write_opened
  extract_to target e d =
      if e.is_dir
      then mkdir_all o target d
      else mkdir_all o (parent target) d >=> write_opened target e.opened e.mode

  -- A round of the loop.
  unfoldable pub extract_entry : FilePath → ZipEntry → Disk → Ran
  unfolding extract_to safe_join
  extract_entry dest e d = elim (safe_join dest e.name) [
    | none ↦ (d, some (escapes e.name))
    | some target ↦ extract_to target e d
  ]

  -- The loop over the archive's entries.
  unfoldable pub extract_entries : FilePath → List ZipEntry → Disk → Ran
  unfolding extract_entry
  extract_entries dest [] d = (d, none)
  extract_entries dest (e ∷ es) d = extract_entry dest e d >=> extract_entries dest es

  unfoldable pub extract_zip : Answer (List ZipEntry) → FilePath → Disk → Ran
  unfolding extract_entries
  extract_zip (failed m) dest d = (d, some (io m))
  extract_zip (got es) dest d = extract_entries dest es d

  unfoldable mutual
    unfolding mkdir_all copy_file

    pub copy_tree : Node → FilePath → Disk → Ran
    copy_tree (file opened mode) dest d = copy_file o opened mode dest d
    copy_tree (dir es) dest d = mkdir_all o dest d >=> copy_entries es dest
    copy_tree (unreadable m) dest d = mkdir_all o dest d >=> λ d'. (d', some (io m))

    pub copy_entries : Entries → FilePath → Disk → Ran
    copy_entries nil dest d = (d, none)
    copy_entries (entry n t es) dest d = copy_tree t (dest ++ (n ∷ [])) d >=> copy_entries es dest
