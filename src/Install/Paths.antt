-- ===== src/Install/Paths.antt =====
-- path/filepath as orchestration/internal/install/files.go uses it, and its safeJoin. An absolute,
-- clean path is the list of its components from the root on.
use csfleet.Prelude.{
  ℕ, Bool, true, false, List, [], ◌∷◌, ◌++◌, Option, none, some, ite, ◌==◌, ◌≡◌, ◌≢◌, refl, sym,
  ◌∙◌, ap, All, split_if, split_ite, if◌then◌else◌, ℕ_discrete, arith,
}
use mathlib.Core.List.{append-nil, append_assoc}

abbrev pub Name : Type 0
Name = List ℕ

abbrev pub FilePath : Type 0
FilePath = List Name

module _ {A : Type 0} where
  cons_dec : {x y : A} {xs ys : List A} → Dec (x ≡ y) → Dec (xs ≡ ys) → Dec (x ∷ xs ≡ y ∷ ys)
  cons_dec (yes p) (yes q) = yes (λ i. p i ∷ q i)
  cons_dec (no n) d = no (λ e. n (cc))
  cons_dec (yes p) (no n) = no (λ e. n (cc))

  unfoldable pub list_discrete : Discrete A → Discrete (List A)
  unfolding cons_dec
  list_discrete d [] [] = yes refl
  list_discrete d [] (y ∷ ys) = no (λ e. cc)
  list_discrete d (x ∷ xs) [] = no (λ e. cc)
  list_discrete d (x ∷ xs) (y ∷ ys) = cons_dec (d x y) (list_discrete d xs ys)

unfoldable pub Name_discrete : Discrete Name
unfolding list_discrete
Name_discrete = list_discrete ℕ_discrete

unfoldable pub FilePath_discrete : Discrete FilePath
unfolding list_discrete Name_discrete
FilePath_discrete = list_discrete Name_discrete

-- os.PathSeparator
abbrev pub separator : ℕ
separator = 0x2f

abbrev pub dot : Name
dot = 0x2e ∷ []

abbrev pub dot_dot : Name
dot_dot = 0x2e ∷ 0x2e ∷ []

abbrev onto_first : ℕ → List Name → List Name
onto_first c [] = (c ∷ []) ∷ []
onto_first c (n ∷ ns) = (c ∷ n) ∷ ns

unfoldable pub components : List ℕ → List Name
components [] = [] ∷ []
components (c ∷ s) =
    let rest = components s in if c == separator then [] ∷ rest else onto_first c rest

unfoldable pub drop_last : FilePath → FilePath
drop_last [] = []
drop_last (n ∷ []) = []
drop_last (n ∷ m ∷ p) = n ∷ drop_last (m ∷ p)

-- filepath.Dir
abbrev pub parent : FilePath → FilePath
parent = drop_last

-- What filepath.Clean does with a component of a rooted path.
unfoldable pub clean_step : FilePath → Name → FilePath
unfolding Name_discrete drop_last
clean_step p n =
    ite (Name_discrete n []) p
      (ite (Name_discrete n dot) p (ite (Name_discrete n dot_dot) (drop_last p) (p ++ (n ∷ []))))

unfoldable pub clean_onto : FilePath → List Name → FilePath
unfolding clean_step
clean_onto p [] = p
clean_onto p (n ∷ ns) = clean_onto (clean_step p n) ns

-- filepath.Join(dest, name) for a clean `dest`.
unfoldable pub join : FilePath → List ℕ → FilePath
unfolding clean_onto components
join dest name = clean_onto dest (components name)

-- A path is another one or stands below it.
unfoldable pub is_under : FilePath → FilePath → Bool
unfolding Name_discrete
is_under [] p = true
is_under (n ∷ d) [] = false
is_under (n ∷ d) (m ∷ p) = let rest = is_under d p in ite (Name_discrete n m) rest false

-- safeJoin
unfoldable pub safe_join : FilePath → List ℕ → Option FilePath
unfolding join is_under
safe_join dest name =
    let target = join dest name in if is_under dest target then some target else none

pub is_under-append : (d r : FilePath) → is_under d (d ++ r) ≡ true
unfolding is_under
is_under-append [] r = refl
is_under-append (n ∷ d) r = ground (arith, is_under-append d r)

pub is_under-inv : (d p : FilePath) → is_under d p ≡ true → (r : FilePath) × (p ≡ d ++ r)
unfolding is_under
is_under-inv [] p h = (p, refl)
is_under-inv (n ∷ d) [] h = cc
is_under-inv (n ∷ d) (m ∷ p) h = let (r, e) = is_under-inv d p (ground arith) in (r, ground arith)

-- A component that names an entry of a directory.
abbrev pub Proper : Name → Type 0
Proper n = (n ≢ []) × (n ≢ dot) × (n ≢ dot_dot) × All (λ c. c ≢ separator) n

abbrev Whole : Name → Type 0
Whole n = All (λ c. c ≢ separator) n

components-Whole : (s : List ℕ) → All Whole (components s)
unfolding components
components-Whole [] = (tt, tt)
components-Whole (c ∷ s) =
    split_if (All Whole) (c == separator) _ _ (λ _. (tt, components-Whole s))
      (λ n. onto_first-Whole c (components s) (ground arith) (components-Whole s))
  where
    onto_first-Whole :
        (c : ℕ) (ns : List Name) → c ≢ separator → All Whole ns → All Whole (onto_first c ns)
    onto_first-Whole c [] n a = ((n, tt), tt)
    onto_first-Whole c (m ∷ ns) n a = ((n, a.0), a.1)

drop_last-Proper : (p : FilePath) → All Proper p → All Proper (drop_last p)
unfolding drop_last
drop_last-Proper [] a = tt
drop_last-Proper (n ∷ []) a = tt
drop_last-Proper (n ∷ m ∷ p) a = (a.0, drop_last-Proper (m ∷ p) a.1)

All-append {κ} :
    {A : Type 0} (P : A → Type κ) (xs ys : List A) → All P xs → All P ys → All P (xs ++ ys)
All-append P [] ys a b = b
All-append P (x ∷ xs) ys a b = (a.0, All-append P xs ys a.1 b)

All-append_right {κ} : {A : Type 0} (P : A → Type κ) (xs ys : List A) → All P (xs ++ ys) → All P ys
All-append_right P [] ys a = a
All-append_right P (x ∷ xs) ys a = All-append_right P xs ys a.1

clean_step-Proper : (p : FilePath) (n : Name) → All Proper p → Whole n → All Proper (clean_step p n)
unfolding clean_step
clean_step-Proper p n a w =
    split_ite (All Proper) (Name_discrete n []) _ _ (λ _. a)
      (λ some_name.
        split_ite (All Proper) (Name_discrete n dot) _ _ (λ _. a)
          (λ no_dot.
            split_ite (All Proper) (Name_discrete n dot_dot) _ _ (λ _. drop_last-Proper p a)
              (λ no_dots. All-append Proper p (n ∷ []) a ((some_name, no_dot, no_dots, w), tt))))

clean_onto-Proper :
    (p : FilePath) (ns : List Name) → All Proper p → All Whole ns → All Proper (clean_onto p ns)
unfolding clean_onto
clean_onto-Proper p [] a w = a
clean_onto-Proper p (n ∷ ns) a w =
    clean_onto-Proper (clean_step p n) ns (clean_step-Proper p n a w.0) w.1

safe_join-inv :
    (dest : FilePath) (name : List ℕ) {t : FilePath}
    → safe_join dest name ≡ some t
    → (join dest name ≡ t) × (is_under dest t ≡ true)
unfolding safe_join
safe_join-inv dest name h = ground arith

pub safe_join-is_under :
    (dest : FilePath) (name : List ℕ) {t : FilePath}
    → safe_join dest name ≡ some t
    → is_under dest t ≡ true
safe_join-is_under dest name h = (safe_join-inv dest name h).1

-- A target lies in the destination, and the rest of its path is made of names: no `..` is left, and no
-- separator.
pub safe_join-under :
    (dest : FilePath) (name : List ℕ) {t : FilePath}
    → All Proper dest
    → safe_join dest name ≡ some t
    → (r : FilePath) × (t ≡ dest ++ r) × All Proper r
unfolding join
safe_join-under dest name {t} proper h =
    let (e, u) = safe_join-inv dest name h in
    let (r, f) = is_under-inv dest t u in
    (
      r,
      f,
      All-append_right Proper dest r
          (rw (e ∙ f) at (clean_onto-Proper dest (components name) proper (components-Whole name))),
    )

clean_step-append :
    (p : FilePath) (n : Name) → n ≢ dot_dot → (r : FilePath) × (clean_step p n ≡ p ++ r)
unfolding clean_step
clean_step-append p n no_dots =
    split_ite (λ q. (r : FilePath) × (q ≡ p ++ r)) (Name_discrete n []) _ _
      (λ _. ([], sym (append-nil p)))
      (λ _.
        split_ite (λ q. (r : FilePath) × (q ≡ p ++ r)) (Name_discrete n dot) _ _
          (λ _. ([], sym (append-nil p)))
          (λ _.
            split_ite (λ q. (r : FilePath) × (q ≡ p ++ r)) (Name_discrete n dot_dot) _ _
              (λ e. absurd (no_dots e)) (λ _. (n ∷ [], refl))))

clean_onto-append :
    (p : FilePath) (ns : List Name)
    → All (λ n. n ≢ dot_dot) ns
    → (r : FilePath) × (clean_onto p ns ≡ p ++ r)
unfolding clean_onto
clean_onto-append p [] a = ([], sym (append-nil p))
clean_onto-append p (n ∷ ns) a =
    let (r, e) = clean_step-append p n a.0 in
    let (q, f) = clean_onto-append (clean_step p n) ns a.1 in
    (r ++ q, f ∙ ap (λ (x : FilePath). x ++ q) e ∙ append_assoc p r q)

pub join-append :
    (dest : FilePath) (name : List ℕ)
    → All (λ n. n ≢ dot_dot) (components name)
    → (r : FilePath) × (join dest name ≡ dest ++ r)
unfolding join
join-append dest name a = clean_onto-append dest (components name) a

-- An entry whose name has no component `..` is accepted.
pub safe_join-accepts :
    (dest : FilePath) (name : List ℕ)
    → All (λ n. n ≢ dot_dot) (components name)
    → (r : FilePath) × (safe_join dest name ≡ some (dest ++ r))
unfolding safe_join join
safe_join-accepts dest name a =
    let (r, e) = clean_onto-append dest (components name) a in
    (r, rw e (rw (is_under-append dest r) refl))
