-- ===== src/Install/Inside.antt =====
-- What is written by files.go stays inside its destination: the rest of the disk is as it was, also
-- after an error.
use csfleet.Prelude.{
  ℕ, zero, suc, true, false, List, [], ◌∷◌, ◌++◌, Option, none, some, take, ◌≡◌, ◌≢◌, ◌⊎◌, inl, inr,
  refl, sym, ◌∙◌, ap, split_ite, Bool-cases, Option-cases, split_if, arith,
}
use csfleet.Fleet.Services.{Answer, got, failed}
use csfleet.Install.Paths.{
  FilePath, FilePath_discrete, drop_last, parent, is_under, is_under-append,
}
use csfleet.Install.Disk.{
  Disk, Entry, folder, regular, Ran, ◌>=>◌, Reader, Faults, put, make_missing, blocked, mkdir_all,
  finish, open_entry, write_file, copy_file, atomic_write, replace, rename_onto,
}

-- The destination is a directory, and so are those above it.
abbrev pub Exists : FilePath → Disk → Type 0
Exists dest d = (q : FilePath) → is_under q dest ≡ true → d q ≡ some folder

-- Nothing outside of the destination is changed, and no directory is lost.
pub record Inside (dest : FilePath) (d d' : Disk) : Type 0 where
  pub outside : (q : FilePath) → is_under dest q ≡ false → d' q ≡ d q
  pub folders : (q : FilePath) → d q ≡ some folder → d' q ≡ some folder

-- The directories above a path are the destination's, or lie in the destination.
abbrev pub Below : FilePath → FilePath → Type 0
Below dest p =
    (q : FilePath) → is_under q p ≡ true → (is_under q dest ≡ true) ⊎ (is_under dest q ≡ true)

none-ne : {A : Type 0} {a : A} → none ≢ some a
none-ne e = cc

file-ne : {c : List ℕ} {m : ℕ} → some (regular c m) ≢ some folder
file-ne e = cc

true-ne : true ≢ false
true-ne e = cc

is_under-drop_last : (q p : FilePath) → is_under q (drop_last p) ≡ true → is_under q p ≡ true
unfolding is_under drop_last
is_under-drop_last [] p h = refl
is_under-drop_last (m ∷ q) [] h = h
is_under-drop_last (m ∷ q) (n ∷ []) h = cc
is_under-drop_last (m ∷ q) (n ∷ k ∷ p) h = ground (arith, is_under-drop_last q (k ∷ p))

is_under-take : (k : ℕ) (q p : FilePath) → is_under q (take k p) ≡ true → is_under q p ≡ true
unfolding is_under
is_under-take k [] p h = refl
is_under-take zero (m ∷ q) p h = cc
is_under-take (suc k) (m ∷ q) [] h = h
is_under-take (suc k) (m ∷ q) (n ∷ p) h = ground (arith, is_under-take k q p)

pub Below-append : (dest r : FilePath) → Below dest (dest ++ r)
unfolding is_under
Below-append [] r q h = inr refl
Below-append (n ∷ dest) r [] h = inl refl
Below-append (n ∷ dest) r (m ∷ q) h = ground (arith, Below-append dest r q)

module _ (p : FilePath) (d : Disk) (q : FilePath) where
  make_missing-some : {e : Entry} → d q ≡ some e → make_missing p d q ≡ some e
  unfolding make_missing
  make_missing-some h = ground arith

  make_missing-none : d q ≡ none → is_under q p ≡ false → make_missing p d q ≡ none
  unfolding make_missing
  make_missing-none h f = ground arith

module _ (dest : FilePath) where
  pub Inside-refl : (d : Disk) → Inside dest d d
  Inside-refl d = record { outside = λ q h. refl; folders = λ q h. h }

  pub Inside-trans : {d e f : Disk} → Inside dest d e → Inside dest e f → Inside dest d f
  Inside-trans a b = record {
    outside = λ q h. b.outside q h ∙ a.outside q h;
    folders = λ q h. b.folders q (a.folders q h);
  }

  pub Inside-Exists : {d e : Disk} → Inside dest d e → Exists dest d → Exists dest e
  Inside-Exists a x q h = a.folders q (x q h)

  not_made :
      (p : FilePath) (d : Disk)
      → Below dest p
      → Exists dest d
      → (q : FilePath) → is_under dest q ≡ false
      → d q ≡ none
      → is_under q p ≡ false
  not_made p d b x q h e = elim (Bool-cases (is_under q p)) [
    | inr f ↦ f
    | inl f ↦ elim (b q f) [ inl above ↦ absurd (none-ne (sym e ∙ x q above)) | inr under ↦ cc ]
  ]

  make_missing-Inside :
      (p : FilePath) (d : Disk) → Below dest p → Exists dest d → Inside dest d (make_missing p d)
  make_missing-Inside p d b x = record {
    outside = λ q h. elim (Option-cases (d q)) [
      | inr (e, f) ↦ make_missing-some p d q f ∙ sym f
      | inl f ↦ make_missing-none p d q f (not_made p d b x q h f) ∙ sym f
    ];
    folders = λ q h. make_missing-some p d q h;
  }

  put-Inside :
      (p : FilePath) (e : Entry) (d : Disk)
      → is_under dest p ≡ true
      → d p ≢ some folder
      → Inside dest d (put d p e)
  put-Inside p e d u n = record {
    outside = λ q h.
        split_ite (λ y. y ≡ d q) (FilePath_discrete p q) _ _
          (λ same. absurd (true-ne (sym u ∙ ap (is_under dest) same ∙ h))) (λ _. refl);
    folders = λ q h.
        split_ite (λ y. y ≡ some folder) (FilePath_discrete p q) _ _
          (λ same. absurd (n (ap d same ∙ h))) (λ _. h);
  }

  module _ (o : Faults) where
    pub mkdir_all-Inside :
        (p : FilePath) (d : Disk) → Below dest p → Exists dest d → Inside dest d (mkdir_all o p d).0
    unfolding mkdir_all
    mkdir_all-Inside p d b x =
        split_if (λ (r : Ran). Inside dest d r.0) (blocked [] p d) _ _ (λ _. Inside-refl d)
          (λ _. elim (Option-cases (o.make_dirs p)) [
            | inl e ↦ rw e (make_missing-Inside p d b x)
            | inr ((k, m), e) ↦
                rw e (make_missing-Inside (take k p) d (λ q h. b q (is_under-take k q p h)) x)
          ])

    finish-Inside :
        (p : FilePath) (r : Reader) (mode : ℕ) (d : Disk)
        → is_under dest p ≡ true
        → d p ≢ some folder
        → Inside dest d (finish o p r mode d).0
    unfolding finish
    finish-Inside p r mode d u n = put-Inside p (regular r.content mode) d u n

    open_entry-Inside :
        (p : FilePath) (r : Reader) (mode : ℕ) (here above : Option Entry) (d : Disk)
        → is_under dest p ≡ true
        → d p ≡ here
        → Inside dest d (open_entry o p r mode here above d).0
    unfolding open_entry
    open_entry-Inside p r mode (some folder) above d u e = Inside-refl d
    open_entry-Inside p r mode (some (regular c old)) above d u e =
        finish-Inside p r old d u (λ f. file-ne (sym e ∙ f))
    open_entry-Inside p r mode none (some folder) d u e =
        finish-Inside p r (o.masked mode) d u (λ f. none-ne (sym e ∙ f))
    open_entry-Inside p r mode none (some (regular c m)) d u e = Inside-refl d
    open_entry-Inside p r mode none none d u e = Inside-refl d

    pub write_file-Inside :
        (p : FilePath) (r : Reader) (mode : ℕ) (d : Disk)
        → is_under dest p ≡ true
        → Inside dest d (write_file o p r mode d).0
    unfolding write_file
    write_file-Inside p r mode d u = elim (Option-cases (o.open_file p)) [
      | inr (e, f) ↦ rw (f, write_file) (Inside-refl d)
      | inl f ↦ rw (f, write_file) (open_entry-Inside p r mode (d p) (d (parent p)) d u refl)
    ]

    pub Below-parent : (p : FilePath) → Below dest p → Below dest (parent p)
    Below-parent p b q h = b q (is_under-drop_last q p h)

    -- A run inside, and a second one after it.
    pub then-Inside :
        (r : Ran) (f : Disk → Ran) (d : Disk)
        → Inside dest d r.0
        → ((e : Disk) → Inside dest d e → Inside dest e (f e).0)
        → Inside dest d (r >=> f).0
    then-Inside (e, none) f d i next = Inside-trans i (next e i)
    then-Inside (e, some x) f d i next = i

    -- Every file and directory that CopyFile makes is inside.
    pub copy_file-Inside :
        (opened : Answer Reader) (mode : ℕ) (r : FilePath) (d : Disk)
        → Exists dest d
        → Inside dest d (copy_file o opened mode (dest ++ r) d).0
    unfolding copy_file
    copy_file-Inside (failed e) mode r d x = Inside-refl d
    copy_file-Inside (got c) mode r d x =
        then-Inside (mkdir_all o (parent (dest ++ r)) d) (write_file o (dest ++ r) c mode) d
          (mkdir_all-Inside (parent (dest ++ r)) d (Below-parent (dest ++ r) (Below-append dest r))
            x)
          (λ e i. write_file-Inside (dest ++ r) c mode e (is_under-append dest r))

    pub mkdir-Inside :
        (r : FilePath) (d : Disk) → Exists dest d → Inside dest d (mkdir_all o (dest ++ r) d).0
    mkdir-Inside r d x = mkdir_all-Inside (dest ++ r) d (Below-append dest r) x

    replace-Inside :
        (p : FilePath) (content : List ℕ) (here : Option Entry) (d : Disk)
        → is_under dest p ≡ true
        → d p ≡ here
        → Inside dest d (rename_onto o p content here d).0
    unfolding rename_onto
    replace-Inside p content (some folder) d u e = Inside-refl d
    replace-Inside p content (some (regular c m)) d u e =
        put-Inside p (regular content 0o644) d u (λ f. file-ne (sym e ∙ f))
    replace-Inside p content none d u e =
        put-Inside p (regular content 0o644) d u (λ f. none-ne (sym e ∙ f))

    pub atomic_write-Inside :
        (r : FilePath) (content : List ℕ) (d : Disk)
        → Exists dest d
        → Inside dest d (atomic_write o (dest ++ r) content d).0
    unfolding atomic_write replace
    atomic_write-Inside r content d x =
        then-Inside (mkdir_all o (parent (dest ++ r)) d) (replace o (dest ++ r) content) d
          (mkdir_all-Inside (parent (dest ++ r)) d (Below-parent (dest ++ r) (Below-append dest r))
            x)
          (λ e i. elim (Option-cases (o.replace_file (dest ++ r))) [
            | inr (m, f) ↦ rw (f, replace) (Inside-refl e)
            | inl f ↦
                rw (f, replace)
                  (replace-Inside (dest ++ r) content (e (dest ++ r)) e (is_under-append dest r)
                    refl)
          ])
