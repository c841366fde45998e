-- ===== src/Install/Cache/Recency.antt =====
-- evict of cache.go: which blobs go, and which stay.
use csfleet.Prelude.{
  ℕ, ◌+◌, ◌≤◌, ◌<◌, true, List, [], ◌∷◌, ◌++◌, some, String, leb, ◌≡◌, ◌≢◌, ◌⊎◌, inl, inr, refl, ap,
  Has, Has-append, Has-append_left, All-Has, Has-append_right, Shuffle, total, total-Shuffle,
  Has-Shuffle, Shuffle-sym, Bool-cases, arith,
}
use mathlib.Core.List.{append-nil}
use csfleet.Install.Cache.{Blob, Dir, Cache, System, size_of, total_size, evict}
use csfleet.Install.Cache.Eviction.{Distinct, Oldest, Distinct-Shuffle, Cut, evict_loop-Cut}

-- In a sorted list, what stands later is no older.
Oldest-append :
    (xs ys : List Blob)
    → Oldest (xs ++ ys)
    → (x y : Blob) → Has x xs
    → Has y ys
    → x.mod_time ≤ y.mod_time
Oldest-append [] ys o x y h k = absurd h
Oldest-append (z ∷ xs) ys o x y (inl e) k =
    rw (← e) (All-Has _ (xs ++ ys) o.0 y (Has-append_right y xs ys k))
Oldest-append (z ∷ xs) ys o x y (inr h) k = Oldest-append xs ys o.1 x y h k

-- A key is not on both sides of a list of distinct keys.
Distinct-append :
    (xs ys : List Blob) → Distinct (xs ++ ys) → (x y : Blob) → Has x xs → Has y ys → y.key ≢ x.key
Distinct-append [] ys d x y h k = absurd h
Distinct-append (z ∷ xs) ys d x y (inl e) k =
    rw (← e) (All-Has _ (xs ++ ys) d.0 y (Has-append_right y xs ys k))
Distinct-append (z ∷ xs) ys d x y (inr h) k = Distinct-append xs ys d.1 x y h k

-- Behind a newest blob of a sorted list there is none.
abbrev pub Newest : Blob → List Blob → Type 0
Newest x bs = (y : Blob) → Has y bs → y.key ≢ x.key → y.mod_time < x.mod_time

latest_last :
    (xs ys : List Blob) (x y : Blob)
    → Oldest (xs ++ ys)
    → Distinct (xs ++ ys)
    → Newest x (xs ++ ys)
    → Has x xs
    → Has y ys
    → ⊥
latest_last xs ys x y o u newest h k = absurd (
    omega (
      arith,
      newest y (Has-append_right y xs ys k) (Distinct-append xs ys u x y h k),
      Oldest-append xs ys o x y h k,
    ))

-- In a sorted list cut at its last victim `z`, a newest blob within the bound is behind the cut.
latest-dropped :
    (max_bytes : ℕ) (init kept : List Blob) (z x : Blob)
    → Oldest ((init ++ z ∷ []) ++ kept)
    → Distinct ((init ++ z ∷ []) ++ kept)
    → Newest x ((init ++ z ∷ []) ++ kept)
    → size_of x ≤ max_bytes
    → max_bytes < size_of z + total_size kept
    → Has x (init ++ z ∷ [])
    → ⊥
unfolding total
latest-dropped max_bytes init (y ∷ kept) z x o u newest small m h =
    latest_last (init ++ z ∷ []) (y ∷ kept) x y o u newest h (inl refl)
latest-dropped max_bytes init [] z x o u newest small m h =
    let e = append-nil (init ++ z ∷ []) in
    elim (Has-append x init (z ∷ []) h) [
      | inl before ↦
          latest_last init (z ∷ []) x z (rw e at o) (rw e at u) (rw e at newest) before (inl refl)
      | inr (inr none_after) ↦ none_after
      | inr (inl same_blob) ↦ absurd (omega (arith, ap size_of same_blob))
    ]

-- What an eviction does.
pub record Evicts (max_bytes : ℕ) (d d' : Dir) : Type 0 where
  pub fits : total_size d'.blobs ≤ max_bytes
  pub only_removes : (y : Blob) → Has y d'.blobs → Has y d.blobs
  pub oldest_first :
      (x y : Blob) → Has x d.blobs → ¬ Has x d'.blobs → Has y d'.blobs → x.mod_time ≤ y.mod_time
  pub no_more :
      (x : Blob)
      → Has x d.blobs
      → ¬ Has x d'.blobs
      → (z : Blob) × Has z d.blobs
        × (¬ Has z d'.blobs)
        × (max_bytes < size_of z + total_size d'.blobs)

-- What evict relies on: the listing is complete, the removals succeed, and the sort rearranges by time.
pub record Works (o : System) (d : Dir) : Type 0 where
  pub lists : o.list_blobs d.blobs ≡ some d.blobs
  pub removes : (k : String) → o.remove_blob k ≡ true
  pub shuffles : Shuffle (o.sort d.blobs) d.blobs
  pub sorts : Oldest (o.sort d.blobs)
  pub distinct : Distinct d.blobs

module _ (o : System) (c : Cache) (d : Dir) (w : Works o d) where
  -- Either everything fits and stays, or the loop cuts the sorted blobs.
  pub evict_cases :
      ((total_size d.blobs ≤ c.max_bytes) × (evict o c d ≡ d))
      ⊎ Cut c.max_bytes (o.sort d.blobs) d (evict o c d)
  evict_cases = elim (Bool-cases (leb (total_size d.blobs) c.max_bytes)) [
    | inl e ↦ inl (ground arith, unfold evict in rw (w.lists, evict) (rw e refl))
    | inr e ↦ inr (
        unfold evict in
        rw (w.lists, evict)
          (rw e (
            evict_loop-Cut o w.removes c.max_bytes (o.sort d.blobs) (total_size d.blobs) d
              w.shuffles (Distinct-Shuffle (Shuffle-sym w.shuffles) w.distinct)
              (total-Shuffle size_of w.shuffles))))
  ]

  dropped_lem :
      (u : Cut c.max_bytes (o.sort d.blobs) d (evict o c d)) (x : Blob)
      → Has x d.blobs
      → ¬ Has x (evict o c d).blobs
      → Has x u.dropped
  dropped_lem u x h n =
      elim (Has-append x u.dropped u.kept
        (rw u.split at (Has-Shuffle x (Shuffle-sym w.shuffles) h))) [
          | inl p ↦ p
          | inr p ↦ absurd (n (Has-Shuffle x u.left p))
        ]

  -- The blobs of both sides of the cut were there before.
  from_sorted :
      (u : Cut c.max_bytes (o.sort d.blobs) d (evict o c d)) (y : Blob)
      → Has y (u.dropped ++ u.kept)
      → Has y d.blobs
  from_sorted u y h = Has-Shuffle y w.shuffles (rw u.split h)

  last_victim :
      (u : Cut c.max_bytes (o.sort d.blobs) d (evict o c d)) (x : Blob)
      → Has x u.dropped
      → (z : Blob) × Has z u.dropped × (c.max_bytes < size_of z + total_size u.kept)
  last_victim u x h = elim u.needed [
    | inl e ↦ absurd (rw e at h)
    | inr (init, z, e, m) ↦ (z, rw e (Has-append_right z init (z ∷ []) (inl refl)), m)
  ]

  Cut-Evicts : Cut c.max_bytes (o.sort d.blobs) d (evict o c d) → Evicts c.max_bytes d (evict o c d)
  Cut-Evicts u =
      let same_total = total-Shuffle size_of u.left in
      let gone = λ (z : Blob) (h : Has z u.dropped) (k : Has z (evict o c d).blobs).
        Distinct-append u.dropped u.kept
          (rw u.split at (Distinct-Shuffle (Shuffle-sym w.shuffles) w.distinct)) z z h
          (Has-Shuffle z (Shuffle-sym u.left) k) refl in
      record {
        fits = omega (arith, u.fits);
        only_removes = λ y h.
            from_sorted u y
              (Has-append_right y u.dropped u.kept (Has-Shuffle y (Shuffle-sym u.left) h));
        oldest_first = λ x y h n k.
            Oldest-append u.dropped u.kept (rw u.split at w.sorts) x y (dropped_lem u x h n)
              (Has-Shuffle y (Shuffle-sym u.left) k);
        no_more = λ x h n.
            let (z, in_dropped, m) = last_victim u x (dropped_lem u x h n) in
            (
              z,
              from_sorted u z (Has-append_left z u.dropped u.kept in_dropped),
              gone z in_dropped,
              omega (arith, m),
            );
      }

  -- An eviction brings the blobs within the bound. It removes none that is more recently used than one
  -- that stays, and none beyond need: with its last victim the rest would be over the bound. It adds
  -- and changes nothing. (The listing is complete, the removals succeed, the sort rearranges by time,
  -- and no name is listed twice.)
  pub evict-Evicts : Evicts c.max_bytes d (evict o c d)
  evict-Evicts = elim evict_cases [
    | inr u ↦ Cut-Evicts u
    | inl (fits, e) ↦ rw e (record {
      fits = fits;
      only_removes = λ y h. h;
      oldest_first = λ x y h n k. absurd (n h);
      no_more = λ x h n. absurd (n h);
    })
  ]

  not_dropped :
      (u : Cut c.max_bytes (o.sort d.blobs) d (evict o c d)) (x : Blob)
      → size_of x ≤ c.max_bytes
      → Newest x d.blobs
      → Has x u.dropped
      → ⊥
  not_dropped u x small newest h = elim u.needed [
    | inl e ↦ absurd (rw e at h)
    | inr (init, z, e, m) ↦
        latest-dropped c.max_bytes init u.kept z x (rw (u.split, e) at w.sorts)
          (rw (u.split, e) at (Distinct-Shuffle (Shuffle-sym w.shuffles) w.distinct))
          (λ y k. newest y (from_sorted u y (rw e k))) small m (rw e at h)
  ]

  -- A blob that fits on its own and is used later than every other survives the eviction.
  pub latest_stays :
      (x : Blob)
      → Has x d.blobs
      → size_of x ≤ c.max_bytes
      → Newest x d.blobs
      → Has x (evict o c d).blobs
  latest_stays x h fits newest = elim evict_cases [
    | inl (_, e) ↦ rw e h
    | inr u ↦
        elim (Has-append x u.dropped u.kept
          (rw u.split at (Has-Shuffle x (Shuffle-sym w.shuffles) h))) [
            | inr k ↦ Has-Shuffle x u.left k
            | inl g ↦ absurd (not_dropped u x fits newest g)
          ]
  ]
