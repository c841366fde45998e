-- ===== src/Install/Cache/Presence.antt =====
-- fetch of cache.go: a path that it answers is the path of a file.
use csfleet.Prelude.{
  ℕ, ◌+◌, ◌≤◌, ◌<◌, true, ◌∷◌, Option, none, some, String, ◌==◌, ◌&&◌, ◌≡◌, inl, inr, refl, sym,
  ◌∙◌, ap, split_if, zero, suc, All-Has, All-map, Has, Option-cases, arith, length,
}
use csfleet.Fleet.Services.{got, failed, Answer-cases}
use csfleet.Install.Cache.{
  Body, Blob, Meta, Dir, Cache, Times, System, Request, Response, Fetched, path, error, has_blob,
  without, touch, write_meta, evict, receive, store, refresh, settle, do_request, request_for,
  revalidate, fetch, is_fresh, new_blob, new_meta, blob_usable, is_some, storage,
}
use csfleet.Install.Cache.Invariant.{
  Paired, Good, Good-later, touch-Good, write_meta_blobs, write_meta-Good, Healthy, Healthy-Works,
  evict-Good, has_blob-without, has_blob-touch, has_blob-Has, Unkeyed-without, Distinct-without,
  All-without, Has-without,
}
use csfleet.Install.Cache.Recency.{Newest, latest_stays}

usable :
    (k : String) (d : Dir) (meta : Option Meta)
    → blob_usable k d (is_some meta) ≡ true
    → has_blob k d.blobs ≡ true
unfolding blob_usable
usable k d none u = cc
usable k d (some m) u = u

module _ (o : System) (req : Request) (left n : ℕ) (e : String) where
  do_first :
      (resp r : Response)
      → o.respond req n ≡ got r
      → do_request o req (suc left) n e ≡ got resp
      → o.respond req n ≡ got resp
  unfolding do_request
  do_first resp r f h = ground arith

  do_next :
      (m : String) (resp : Response)
      → o.respond req n ≡ failed m
      → do_request o req (suc left) n e ≡ got resp
      → do_request o req left (n + 1) m ≡ got resp
  unfolding do_request
  do_next m resp f h = ground arith

module _ (o : System) (ok : Healthy o) where
  module _ (c : Cache) (t : Times) (url : String) (now : ℕ) (d : Dir) (g : Good now d)
      (moved_on : now < t.written) where
    -- A response of status 200 is stored.
    module _ (resp : Response) (body : Body) where
      renamed : Dir
      renamed = record d { blobs = new_blob (o.key_of url) body t ∷ without (o.key_of url) d.blobs }

      pub stored : Dir
      stored = write_meta o (o.key_of url) (new_meta url body resp t) renamed

      stored-Paired : Paired stored
      unfolding stored renamed write_meta has_blob
      stored-Paired k m h = ground (arith, has_blob-without (o.key_of url) k d.blobs, g.paired k m)

      pub stored_blobs :
          stored.blobs ≡ new_blob (o.key_of url) body t ∷ without (o.key_of url) d.blobs
      unfolding stored renamed write_meta
      stored_blobs = ground arith

      pub stored-Good : Good t.written stored
      stored-Good = record {
        paired = stored-Paired;
        distinct = rw stored_blobs (
          Unkeyed-without (o.key_of url) d.blobs,
          Distinct-without (o.key_of url) d.blobs g.distinct,
        );
        past = rw stored_blobs (
          omega arith,
          All-map (without (o.key_of url) d.blobs) (λ b h. omega (arith, h, moved_on))
              (All-without _ (o.key_of url) d.blobs g.past),
        );
      }

      stored-Newest : Newest (new_blob (o.key_of url) body t) stored.blobs
      stored-Newest y h n =
          let h' : Has y (new_blob (o.key_of url) body t ∷ without (o.key_of url) d.blobs) =
            rw stored_blobs at h in
          elim h' [
            | inl e ↦ absurd (n (ap (λ (b : Blob). b.key) (sym e)))
            | inr k ↦
                omega (arith, All-Has _ d.blobs g.past y (Has-without y (o.key_of url) d.blobs k))
          ]

      stored-Has :
          length body ≤ c.max_bytes → Has (new_blob (o.key_of url) body t) (evict o c stored).blobs
      stored-Has small =
          latest_stays o c stored (Healthy-Works o ok stored stored-Good.distinct)
            (new_blob (o.key_of url) body t) (rw stored_blobs (inl refl)) small stored-Newest

      pub store_got :
          receive o resp ≡ got body
          → store o c t url resp d ≡ (evict o c stored, path (o.key_of url))
      unfolding store stored renamed
      store_got e = rw (e, store) refl

    -- A directory and an answer: a path is that of a file, and an error has changed nothing.
    abbrev pub Present : Dir → Fetched → Type 0
    Present d' (path k) = has_blob k d'.blobs ≡ true
    Present d' (error e) = d' ≡ d

    abbrev pub Settled : Dir × Fetched → Type 0
    Settled r = Good t.touched r.0 × Present r.0 r.1

    module _ (in_order : t.written ≤ t.touched) where
      now_touched : Good t.touched d
      now_touched = Good-later now t.touched d (omega (arith, moved_on, in_order)) g

      touched-Settled :
          (k : String)
          → has_blob k d.blobs ≡ true
          → Settled (record d { blobs = touch k t.touched d.blobs }, path k)
      touched-Settled k h =
          (touch-Good k t.touched d now_touched, has_blob-touch k k t.touched d.blobs ∙ h)

      refresh-Settled :
          (m : Meta)
          → has_blob (o.key_of url) d.blobs ≡ true
          → Settled (refresh o t (o.key_of url) m d, path (o.key_of url))
      unfolding refresh
      refresh-Settled m h =
          let k = o.key_of url in
          let m' = record m { fetched_at = t.stamped } in
          let w = write_meta o k m' d in
          (
            touch-Good k t.touched w (write_meta-Good o k m' t.touched d h now_touched),
            has_blob-touch k k t.touched w.blobs ∙ ap (has_blob k) (write_meta_blobs o k m' d) ∙ h,
          )

      module _ (resp : Response)
          (fits : (body : Body) → resp.body ≡ got body → length body ≤ c.max_bytes) where
        receive_body : (body : Body) → receive o resp ≡ got body → resp.body ≡ got body
        unfolding receive
        receive_body body e = ground arith

        store_failed :
            (e : String)
            → receive o resp ≡ failed e
            → store o c t url resp d ≡ (d, error (storage e))
        unfolding store
        store_failed f e = rw (e, store) refl

        store-Settled : Settled (store o c t url resp d)
        store-Settled = elim (Answer-cases (receive o resp)) [
          | inr (e, f) ↦ rw (store_failed e f) (now_touched, refl)
          | inl (body, f) ↦ rw (store_got resp body f) (
            evict-Good o ok t.touched c (stored resp body) (
                Good-later t.written t.touched (stored resp body) in_order (stored-Good resp body)),
            has_blob-Has (new_blob (o.key_of url) body t) (evict o c (stored resp body)).blobs
                (stored-Has resp body (fits body (receive_body body f))),
          )
        ]

        settle-Settled :
            (meta : Option Meta)
            → d.metas (o.key_of url) ≡ meta
            → Settled (settle o c t url meta resp d)
        unfolding settle
        settle-Settled none e =
            split_if Settled (resp.status == 200) _ _ (λ _. store-Settled)
              (λ _. (now_touched, refl))
        settle-Settled (some m) e =
            let h = g.paired (o.key_of url) m e in
            split_if Settled (resp.status == 304) _ _ (λ _. refresh-Settled m h)
              (λ _.
                split_if Settled (resp.status == 200) _ _ (λ _. store-Settled)
                  (λ _.
                    split_if Settled (has_blob (o.key_of url) d.blobs) _ _ (λ _. (now_touched, h))
                      (λ _. (now_touched, refl))))

      -- No response is larger than the cache.
      module _
          (fits : (req : Request) (n : ℕ) (resp : Response) (body : Body)
            → o.respond req n ≡ got resp
            → resp.body ≡ got body
            → length body ≤ c.max_bytes) where
        do_fits :
            (req : Request) (left n : ℕ) (e : String) (resp : Response) (body : Body)
            → do_request o req left n e ≡ got resp
            → resp.body ≡ got body
            → length body ≤ c.max_bytes
        do_fits req zero n e resp body h b = unfold do_request in cc
        do_fits req (suc left) n e resp body h b = elim (Answer-cases (o.respond req n)) [
          | inl (r, f) ↦ fits req n resp body (do_first o req left n e resp r f h) b
          | inr (m, f) ↦ do_fits req left (n + 1) m resp body (do_next o req left n e m resp f h) b
        ]

        revalidate-Settled :
            (meta : Option Meta)
            → d.metas (o.key_of url) ≡ meta
            → Settled (revalidate o c t url meta d)
        unfolding revalidate
        revalidate-Settled meta e = elim (Option-cases (o.new_request url)) [
          | inr (m, f) ↦ rw (f, revalidate) (now_touched, refl)
          | inl f ↦ elim (Answer-cases (do_request o (request_for o url meta) 3 1 "")) [
            | inl (resp, r) ↦
                rw (f, revalidate)
                  (rw r (
                    settle-Settled resp
                      (λ body. do_fits (request_for o url meta) 3 1 "" resp body r) meta e))
            | inr (m, r) ↦
                rw (f, revalidate)
                  (rw r (
                    split_if Settled (blob_usable (o.key_of url) d (is_some meta)) _ _
                      (λ u. (now_touched, usable (o.key_of url) d meta u))
                      (λ _. (now_touched, refl))))
          ]
        ]

        -- An answer of a fetch is right about the directory that it leaves: a path is that of a blob,
        -- and after an error the directory is as it was. The directory stays well-formed: every `.meta`
        -- has its blob, and no name stands twice. (The directory was well-formed, the clock has moved
        -- on since its newest blob and does not go back during the fetch, the removals succeed, and no response is larger than the cache.)
        pub fetch-Present : Settled (fetch o c t url d)
        unfolding fetch
        fetch-Present = elim (Option-cases (d.metas (o.key_of url))) [
          | inl e ↦ rw (e, fetch) (revalidate-Settled none e)
          | inr (m, e) ↦
              rw (e, fetch)
                (split_if Settled (is_fresh o c t m && has_blob (o.key_of url) d.blobs) _ _
                  (λ _. touched-Settled (o.key_of url) (g.paired (o.key_of url) m e))
                  (λ _. revalidate-Settled (some m) e))
        ]
