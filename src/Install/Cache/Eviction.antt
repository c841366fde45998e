-- ===== src/Install/Cache/Eviction.antt =====
-- The loop of evict in cache.go cuts the sorted blobs in two.
use csfleet.Prelude.{
  ℕ, ◌+◌, ◌-◌, ◌≤◌, ◌<◌, true, false, List, [], ◌∷◌, ◌++◌, String, ite, leb, ◌≡◌, ◌≢◌, ◌⊎◌, inl,
  inr, refl, sym, ◌∙◌, ap, All, Shuffle, same, nothing, keep, swap, both, total, String_discrete,
  Bool-cases, arith,
}
use mathlib.Core.List.{}
use csfleet.Install.Cache.{
  Blob, Dir, System, without, size_of, total_size, remove_entry, evict_loop,
}

-- No blob under a key.
abbrev pub Unkeyed : String → List Blob → Type 0
Unkeyed k bs = All (λ b. b.key ≢ k) bs

-- A directory has one file of a name.
abbrev pub Distinct : List Blob → Type 0
Distinct [] = Unit
Distinct (b ∷ bs) = Unkeyed b.key bs × Distinct bs

-- Least recently used first.
abbrev pub Oldest : List Blob → Type 0
Oldest [] = Unit
Oldest (b ∷ bs) = All (λ x. b.mod_time ≤ x.mod_time) bs × Oldest bs

pub without-Unkeyed : (k : String) (bs : List Blob) → Unkeyed k bs → without k bs ≡ bs
unfolding without
without-Unkeyed k [] u = refl
without-Unkeyed k (b ∷ bs) u = ground (arith, without-Unkeyed k bs u.1)

module _ {X : Type 0} (a : Blob) {xs ys : List Blob} where
  keep_or : (d : Dec X) → Shuffle xs ys → Shuffle (ite d xs (a ∷ xs)) (ite d ys (a ∷ ys))
  keep_or (yes _) s = s
  keep_or (no _) s = keep a s

module _ {X Y : Type 0} (a b : Blob) (xs : List Blob) where
  swap_or :
      (d : Dec X) (e : Dec Y)
      → Shuffle
          (ite d (ite e xs (b ∷ xs)) (a ∷ ite e xs (b ∷ xs)))
          (ite e (ite d xs (a ∷ xs)) (b ∷ ite d xs (a ∷ xs)))
  swap_or (yes _) (yes _) = same xs
  swap_or (yes _) (no _) = same (b ∷ xs)
  swap_or (no _) (yes _) = same (a ∷ xs)
  swap_or (no _) (no _) = swap a b xs

without_head : (b : Blob) (bs : List Blob) → Unkeyed b.key bs → without b.key (b ∷ bs) ≡ bs
unfolding without
without_head b bs u = ground (arith, without-Unkeyed b.key bs u)

without-Shuffle :
    (k : String) {xs ys : List Blob} → Shuffle xs ys → Shuffle (without k xs) (without k ys)
unfolding without
without-Shuffle k nothing = nothing
without-Shuffle k (keep b s) = keep_or b (String_discrete b.key k) (without-Shuffle k s)
without-Shuffle k (swap a b xs) =
    swap_or a b (without k xs) (String_discrete a.key k) (String_discrete b.key k)
without-Shuffle k (both s t) = both (without-Shuffle k s) (without-Shuffle k t)

Unkeyed-Shuffle : (k : String) {xs ys : List Blob} → Shuffle xs ys → Unkeyed k xs → Unkeyed k ys
Unkeyed-Shuffle k nothing u = u
Unkeyed-Shuffle k (keep b s) u = (u.0, Unkeyed-Shuffle k s u.1)
Unkeyed-Shuffle k (swap a b xs) (p, (q, u)) = (q, (p, u))
Unkeyed-Shuffle k (both s t) u = Unkeyed-Shuffle k t (Unkeyed-Shuffle k s u)

pub Distinct-Shuffle : {xs ys : List Blob} → Shuffle xs ys → Distinct xs → Distinct ys
Distinct-Shuffle nothing d = d
Distinct-Shuffle (keep b s) d = (Unkeyed-Shuffle b.key s d.0, Distinct-Shuffle s d.1)
Distinct-Shuffle (swap a b xs) (p, (q, d)) = ((λ e. p.0 (sym e), q), (p.1, d))
Distinct-Shuffle (both s t) d = Distinct-Shuffle t (Distinct-Shuffle s d)

-- Without its last victim, the loop would have stopped over the bound.
abbrev pub LastNeeded : ℕ → List Blob → List Blob → Type 0
LastNeeded max_bytes dropped kept =
    (init : List Blob) × (x : Blob) × (dropped ≡ init ++ x ∷ [])
    × (max_bytes < size_of x + total_size kept)

-- The blobs in the order of the loop are those that it removed and those that it left.
pub record Cut (max_bytes : ℕ) (sorted : List Blob) (d d' : Dir) : Type 0 where
  pub dropped : List Blob
  pub kept : List Blob
  pub split : sorted ≡ dropped ++ kept
  pub left : Shuffle kept d'.blobs
  pub fits : total_size kept ≤ max_bytes
  pub needed : (dropped ≡ []) ⊎ LastNeeded max_bytes dropped kept
  pub metas_kept : (k : String) → Unkeyed k dropped → d'.metas k ≡ d.metas k

module _ (o : System) (removes : (k : String) → o.remove_blob k ≡ true) (max_bytes : ℕ) where
  module _ (b : Blob) (bs : List Blob) (n : ℕ) (d : Dir) where
    pub loop_enough : leb n max_bytes ≡ true → evict_loop o max_bytes (b ∷ bs) n d ≡ d
    unfolding evict_loop
    loop_enough e = ground arith

    pub loop_more :
        leb n max_bytes ≡ false
        → evict_loop o max_bytes (b ∷ bs) n d
          ≡ evict_loop o max_bytes bs (n - size_of b) (remove_entry o b.key d)
    unfolding evict_loop
    loop_more e = ground arith

  removed :
      (b : Blob) (bs : List Blob) (d : Dir)
      → Shuffle (b ∷ bs) d.blobs
      → Unkeyed b.key bs
      → Shuffle bs (remove_entry o b.key d).blobs
  unfolding remove_entry
  removed b bs d s u = rw (removes b.key) (rw (without_head b bs u) at (without-Shuffle b.key s))

  other_meta : (j k : String) (d : Dir) → j ≢ k → (remove_entry o j d).metas k ≡ d.metas k
  unfolding remove_entry
  other_meta j k d n = ground arith

  more_needed :
      (b : Blob) (bs dropped kept : List Blob)
      → bs ≡ dropped ++ kept
      → (dropped ≡ []) ⊎ LastNeeded max_bytes dropped kept
      → max_bytes < total_size (b ∷ bs)
      → LastNeeded max_bytes (b ∷ dropped) kept
  unfolding total
  more_needed b bs dropped kept e (inl none_yet) m =
      ([], b, ap (◌∷◌ b) none_yet, omega (arith, ap total_size (rw none_yet at e)))
  more_needed b bs dropped kept e (inr (init, x, f, m')) m = (b ∷ init, x, ap (◌∷◌ b) f, m')

  pub evict_loop-Cut :
      (sorted : List Blob) (n : ℕ) (d : Dir)
      → Shuffle sorted d.blobs
      → Distinct sorted
      → total_size sorted ≡ n
      → Cut max_bytes sorted d (evict_loop o max_bytes sorted n d)
  unfolding total
  evict_loop-Cut [] n d s u e =
      unfold evict_loop in
      record {
        dropped = [];
        kept = [];
        split = refl;
        left = s;
        fits = omega arith;
        needed = inl refl;
        metas_kept = λ k _. refl;
      }
  evict_loop-Cut (b ∷ bs) n d s u e = elim (Bool-cases (leb n max_bytes)) [
    | inl enough ↦ rw (loop_enough b bs n d enough) (record {
      dropped = [];
      kept = b ∷ bs;
      split = refl;
      left = s;
      fits = ground arith;
      needed = inl refl;
      metas_kept = λ k _. refl;
    })
    | inr more ↦
        rw (loop_more b bs n d more)
          let d' = remove_entry o b.key d in
            let rest =
              evict_loop-Cut bs (n - size_of b) d' (removed b bs d s u.0) u.1 (omega arith) in
            record {
              dropped = b ∷ rest.dropped;
              kept = rest.kept;
              split = ap (◌∷◌ b) rest.split;
              left = rest.left;
              fits = rest.fits;
              needed =
                  inr
                    (more_needed b bs rest.dropped rest.kept rest.split rest.needed (ground arith));
              metas_kept = λ k f. rest.metas_kept k f.1 ∙ other_meta b.key k d f.0;
            }
  ]
