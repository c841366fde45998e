-- ===== src/Install/Unpacking.antt =====
-- ExtractZip and CopyTree of files.go write inside their destination.
use csfleet.Prelude.{
  ℕ, true, List, [], ◌∷◌, ◌++◌, none, some, ◌≡◌, inl, inr, refl, Option-cases, split_if,
}
use csfleet.Fleet.Services.{Answer, got, failed}
use csfleet.Install.Paths.{
  FilePath, parent, is_under, is_under-append, is_under-inv, safe_join, safe_join-is_under,
}
use csfleet.Install.Disk.{Disk, escapes, Ran, Reader, Faults, mkdir_all, io}
use csfleet.Install.Trees.{
  ZipEntry, Node, file, dir, unreadable, Entries, nil, entry, extract_entry, extract_entries,
  extract_zip, extract_to, write_opened, copy_tree, copy_entries,
}
use mathlib.Core.List.{append_assoc}
use csfleet.Install.Inside.{
  Exists, Inside, Below-append, Inside-refl, Inside-Exists, mkdir_all-Inside, write_file-Inside,
  Below-parent, then-Inside, mkdir-Inside, copy_file-Inside,
}

module _ (dest : FilePath) (o : Faults) where
  write_opened-Inside :
      (p : FilePath) (opened : Answer Reader) (mode : ℕ) (d : Disk)
      → is_under dest p ≡ true
      → Inside dest d (write_opened o p opened mode d).0
  unfolding write_opened
  write_opened-Inside p (failed m) mode d u = Inside-refl dest d
  write_opened-Inside p (got r) mode d u = write_file-Inside dest o p r mode d u

  extract_to-Inside :
      (r : FilePath) (e : ZipEntry) (d : Disk)
      → Exists dest d
      → Inside dest d (extract_to o (dest ++ r) e d).0
  unfolding extract_to
  extract_to-Inside r e d x =
      split_if (λ (a : Ran). Inside dest d a.0) e.is_dir _ _ (λ _. mkdir-Inside dest o r d x)
        (λ _.
          then-Inside dest o (mkdir_all o (parent (dest ++ r)) d)
            (write_opened o (dest ++ r) e.opened e.mode) d
            (mkdir_all-Inside dest o (parent (dest ++ r)) d
              (Below-parent dest o (dest ++ r) (Below-append dest r)) x)
            (λ d' i. write_opened-Inside (dest ++ r) e.opened e.mode d' (is_under-append dest r)))

  entry_accepted :
      (e : ZipEntry) (t : FilePath) (d : Disk)
      → safe_join dest e.name ≡ some t
      → extract_entry o dest e d ≡ extract_to o t e d
  unfolding extract_entry
  entry_accepted e t d f = rw (f, extract_entry) refl

  entry_refused :
      (e : ZipEntry) (d : Disk)
      → safe_join dest e.name ≡ none
      → extract_entry o dest e d ≡ (d, some (escapes e.name))
  unfolding extract_entry
  entry_refused e d f = rw (f, extract_entry) refl

  extract_under :
      (t r : FilePath) (e : ZipEntry) (d : Disk)
      → t ≡ dest ++ r
      → Exists dest d
      → Inside dest d (extract_to o t e d).0
  extract_under t r e d g x = rw g (extract_to-Inside r e d x)

  extract_entry-Inside :
      (e : ZipEntry) (d : Disk) → Exists dest d → Inside dest d (extract_entry o dest e d).0
  extract_entry-Inside e d x = elim (Option-cases (safe_join dest e.name)) [
    | inl f ↦ rw (entry_refused e d f) (Inside-refl dest d)
    | inr (t, f) ↦
        let (r, g) = is_under-inv dest t (safe_join-is_under dest e.name f) in
        rw (entry_accepted e t d f) (extract_under t r e d g x)
  ]

  extract_entries-Inside :
      (es : List ZipEntry) (d : Disk)
      → Exists dest d
      → Inside dest d (extract_entries o dest es d).0
  unfolding extract_entries
  extract_entries-Inside [] d x = Inside-refl dest d
  extract_entries-Inside (e ∷ es) d x =
      then-Inside dest o (extract_entry o dest e d) (extract_entries o dest es) d
        (extract_entry-Inside e d x) (λ d' i. extract_entries-Inside es d' (Inside-Exists dest i x))

  -- Unpacking an archive writes in the destination only, whatever the names of its entries, and
  -- whether or not it ends in an error: outside of the destination every file and directory is as it
  -- was, and no directory is lost. (The destination exists. There are no symbolic links.)
  pub extract_zip-Inside :
      (opened : Answer (List ZipEntry)) (d : Disk)
      → Exists dest d
      → Inside dest d (extract_zip o opened dest d).0
  unfolding extract_zip
  extract_zip-Inside (failed e) d x = Inside-refl dest d
  extract_zip-Inside (got es) d x = extract_entries-Inside es d x

  mutual
    unfolding copy_tree copy_entries

    pub copy_tree-Inside :
        (t : Node) (r : FilePath) (d : Disk)
        → Exists dest d
        → Inside dest d (copy_tree o t (dest ++ r) d).0
    copy_tree-Inside (file opened mode) r d x = copy_file-Inside dest o opened mode r d x
    copy_tree-Inside (dir es) r d x =
        then-Inside dest o (mkdir_all o (dest ++ r) d) (copy_entries o es (dest ++ r)) d
          (mkdir-Inside dest o r d x) (λ e i. copy_entries-Inside es r e (Inside-Exists dest i x))
    copy_tree-Inside (unreadable m) r d x =
        then-Inside dest o (mkdir_all o (dest ++ r) d) (λ e. (e, some (io m))) d
          (mkdir-Inside dest o r d x) (λ e i. Inside-refl dest e)

    copy_entries-Inside :
        (es : Entries) (r : FilePath) (d : Disk)
        → Exists dest d
        → Inside dest d (copy_entries o es (dest ++ r) d).0
    copy_entries-Inside nil r d x = Inside-refl dest d
    copy_entries-Inside (entry n t es) r d x =
        then-Inside dest o (copy_tree o t ((dest ++ r) ++ (n ∷ [])) d)
          (copy_entries o es (dest ++ r)) d
          (rw (append_assoc dest r (n ∷ [])) (copy_tree-Inside t (r ++ (n ∷ [])) d x))
          (λ e i. copy_entries-Inside es r e (Inside-Exists dest i x))
