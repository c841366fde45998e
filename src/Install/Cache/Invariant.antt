-- ===== src/Install/Cache/Invariant.antt =====
-- The well-formed cache directory, which evictions keep.
use csfleet.Prelude.{
  ℕ, ◌-◌, ◌≤◌, true, List, [], ◌∷◌, some, String, ◌≡◌, ◌≢◌, inl, inr, refl, ◌∙◌, ap, All, All-map,
  split_ite, Has, Shuffle, String_discrete, Bool-cases, arith, leb,
}
use csfleet.Install.Cache.{
  Blob, Meta, Dir, Cache, System, has_blob, without, touch, size_of, total_size, write_meta,
  remove_entry, evict_loop, evict,
}
use csfleet.Install.Cache.Eviction.{Unkeyed, Distinct, Oldest, loop_enough, loop_more}
use csfleet.Install.Cache.Recency.{Works}

-- Every `.meta` stands beside its blob.
abbrev pub Paired : Dir → Type 0
Paired d = (k : String) (m : Meta) → d.metas k ≡ some m → has_blob k d.blobs ≡ true

-- The directory at an instant: no `.meta` without its blob, no name twice, no blob from the future.
pub record Good (now : ℕ) (d : Dir) : Type 0 where
  pub paired : Paired d
  pub distinct : Distinct d.blobs
  pub past : All (λ b. b.mod_time ≤ now) d.blobs

pub has_blob-without :
    (j k : String) (bs : List Blob) → j ≢ k → has_blob k (without j bs) ≡ has_blob k bs
unfolding has_blob without
has_blob-without j k [] n = refl
has_blob-without j k (b ∷ bs) n = ground (arith, has_blob-without j k bs n)

pub has_blob-touch :
    (j k : String) (now : ℕ) (bs : List Blob) → has_blob k (touch j now bs) ≡ has_blob k bs
unfolding has_blob touch
has_blob-touch j k now [] = refl
has_blob-touch j k now (b ∷ bs) = ground (arith, has_blob-touch j k now bs)

pub has_blob-Has : (b : Blob) (bs : List Blob) → Has b bs → has_blob b.key bs ≡ true
unfolding has_blob
has_blob-Has b [] h = absurd h
has_blob-Has b (c ∷ bs) (inl e) = ground (arith, ap (λ (x : Blob). x.key) e)
has_blob-Has b (c ∷ bs) (inr h) = ground (arith, has_blob-Has b bs h)

pub Unkeyed-without : (k : String) (bs : List Blob) → Unkeyed k (without k bs)
unfolding without
Unkeyed-without k [] = tt
Unkeyed-without k (b ∷ bs) = ground (arith, Unkeyed-without k bs)

Unkeyed-touch :
    (j k : String) (now : ℕ) (bs : List Blob) → Unkeyed k bs → Unkeyed k (touch j now bs)
unfolding touch
Unkeyed-touch j k now [] u = tt
Unkeyed-touch j k now (b ∷ bs) u = ground (arith, Unkeyed-touch j k now bs u.1)

Unkeyed-without_other : (j k : String) (bs : List Blob) → Unkeyed k bs → Unkeyed k (without j bs)
unfolding without
Unkeyed-without_other j k [] u = tt
Unkeyed-without_other j k (b ∷ bs) u = ground (arith, Unkeyed-without_other j k bs u.1)

pub Distinct-without : (k : String) (bs : List Blob) → Distinct bs → Distinct (without k bs)
unfolding without
Distinct-without k [] d = tt
Distinct-without k (b ∷ bs) d =
    ground (arith, Distinct-without k bs d.1, Unkeyed-without_other k b.key bs d.0)

pub Distinct-touch :
    (k : String) (now : ℕ) (bs : List Blob) → Distinct bs → Distinct (touch k now bs)
unfolding touch
Distinct-touch k now [] d = tt
Distinct-touch k now (b ∷ bs) d =
    ground (arith, Distinct-touch k now bs d.1, Unkeyed-touch k b.key now bs d.0)

pub All-without :
    (P : Blob → Type 0) (k : String) (bs : List Blob) → All P bs → All P (without k bs)
unfolding without
All-without P k [] a = tt
All-without P k (b ∷ bs) a =
    split_ite (All P) (String_discrete b.key k) _ _ (λ _. All-without P k bs a.1)
      (λ _. (a.0, All-without P k bs a.1))

pub Has-without : (x : Blob) (k : String) (bs : List Blob) → Has x (without k bs) → Has x bs
unfolding without
Has-without x k [] h = h
Has-without x k (b ∷ bs) h = ground (arith, Has-without x k bs)

pub All-touch :
    (k : String) (now later : ℕ) (bs : List Blob)
    → now ≤ later
    → All (λ b. b.mod_time ≤ later) bs
    → All (λ b. b.mod_time ≤ later) (touch k now bs)
unfolding touch
All-touch k now later [] le a = tt
All-touch k now later (b ∷ bs) le a = ground (arith, All-touch k now later bs le a.1)

pub Good-later : (now later : ℕ) (d : Dir) → now ≤ later → Good now d → Good later d
Good-later now later d h g = record {
  paired = g.paired;
  distinct = g.distinct;
  past = All-map d.blobs (λ b le. omega (arith, le, h)) g.past;
}

pub touch-Good :
    (k : String) (now : ℕ) (d : Dir)
    → Good now d
    → Good now (record d { blobs = touch k now d.blobs })
touch-Good k now d g = record {
  paired = λ j m e. has_blob-touch k j now d.blobs ∙ g.paired j m e;
  distinct = Distinct-touch k now d.blobs g.distinct;
  past = All-touch k now now d.blobs (omega arith) g.past;
}

pub write_meta_blobs :
    (o : System) (k : String) (m : Meta) (d : Dir) → (write_meta o k m d).blobs ≡ d.blobs
unfolding write_meta
write_meta_blobs o k m d = ground arith

pub write_meta-Paired :
    (o : System) (k : String) (m : Meta) (d : Dir)
    → has_blob k d.blobs ≡ true
    → Paired d
    → Paired (write_meta o k m d)
unfolding write_meta
write_meta-Paired o k m d h p j n e = ground (arith, p j n)

pub write_meta-Good :
    (o : System) (k : String) (m : Meta) (now : ℕ) (d : Dir)
    → has_blob k d.blobs ≡ true
    → Good now d
    → Good now (write_meta o k m d)
write_meta-Good o k m now d h g = record {
  paired = write_meta-Paired o k m d h g.paired;
  distinct = rw (write_meta_blobs o k m d) g.distinct;
  past = rw (write_meta_blobs o k m d) g.past;
}

-- What a fetch relies on: the listing is complete, removals succeed, and the sort rearranges by time.
pub record Healthy (o : System) : Type 0 where
  pub lists : (bs : List Blob) → o.list_blobs bs ≡ some bs
  pub removes_blob : (k : String) → o.remove_blob k ≡ true
  pub removes_meta : (k : String) → o.remove_meta k ≡ true
  pub shuffles : (bs : List Blob) → Shuffle (o.sort bs) bs
  pub sorts : (bs : List Blob) → Oldest (o.sort bs)

module _ (o : System) (ok : Healthy o) where
  pub Healthy-Works : (d : Dir) → Distinct d.blobs → Works o d
  Healthy-Works d u = record {
    lists = ok.lists d.blobs;
    removes = ok.removes_blob;
    shuffles = ok.shuffles d.blobs;
    sorts = ok.sorts d.blobs;
    distinct = u;
  }

  remove_entry-Paired : (j : String) (d : Dir) → Paired d → Paired (remove_entry o j d)
  unfolding remove_entry
  remove_entry-Paired j d p k m h =
      rw (ok.removes_blob j)
        (ground (arith, ok.removes_meta j, has_blob-without j k d.blobs, p k m))

  remove_entry-Good : (now : ℕ) (j : String) (d : Dir) → Good now d → Good now (remove_entry o j d)
  remove_entry-Good now j d g = record {
    paired = remove_entry-Paired j d g.paired;
    distinct =
        unfold remove_entry in rw (ok.removes_blob j) (Distinct-without j d.blobs g.distinct);
    past = unfold remove_entry in rw (ok.removes_blob j) (All-without _ j d.blobs g.past);
  }

  evict_loop-Good :
      (now max_bytes : ℕ) (bs : List Blob) (n : ℕ) (d : Dir)
      → Good now d
      → Good now (evict_loop o max_bytes bs n d)
  evict_loop-Good now max_bytes [] n d g = unfold evict_loop in g
  evict_loop-Good now max_bytes (b ∷ bs) n d g = elim (Bool-cases (leb n max_bytes)) [
    | inl e ↦ rw (loop_enough o ok.removes_blob max_bytes b bs n d e) g
    | inr e ↦ rw (loop_more o ok.removes_blob max_bytes b bs n d e) (
        evict_loop-Good now max_bytes bs (n - size_of b) (remove_entry o b.key d)
          (remove_entry-Good now b.key d g))
  ]

  pub evict-Good : (now : ℕ) (c : Cache) (d : Dir) → Good now d → Good now (evict o c d)
  evict-Good now c d g = elim (Bool-cases (leb (total_size d.blobs) c.max_bytes)) [
    | inl e ↦ unfold evict in rw (ok.lists d.blobs, evict) (rw e g)
    | inr e ↦
        unfold evict in
        rw (ok.lists d.blobs, evict)
          (rw e (evict_loop-Good now c.max_bytes (o.sort d.blobs) (total_size d.blobs) d g))
  ]
