-- ===== src/Install/Cache/Outages.antt =====
-- fetch of cache.go where upstream does not answer with a new body: the copy that is served, and the
-- paths without a file.
use csfleet.Prelude.{
  ℕ, zero, suc, ◌+◌, ◌≤◌, ◌<◌, true, false, List, [], ◌∷◌, none, some, String, ◌==◌, ◌&&◌, ◌≡◌, ◌≢◌,
  inl, inr, refl, ◌∙◌, ap, All-Has, Has, split_if, Bool-cases, length, total, String_discrete,
  arith,
}
use csfleet.Fleet.Services.{Answer, got, Answer-cases}
use csfleet.Install.Cache.{
  Body, Blob, Meta, Dir, Cache, Times, System, Response, Fetched, path, has_blob, without, size_of,
  total_size, write_meta, evict, receive, store, refresh, settle, do_request, request_for,
  revalidate, fetch, is_fresh, new_blob, blob_usable,
}
use csfleet.Install.Cache.Recency.{evict-Evicts}
use csfleet.Install.Cache.Invariant.{
  Good, Healthy, Healthy-Works, has_blob-touch, write_meta_blobs, Unkeyed-without,
}
use csfleet.Install.Cache.Presence.{stored, stored_blobs, stored-Good, store_got}

module _ (o : System) (c : Cache) (t : Times) (url : String) (m : Meta) (d : Dir)
    (known : d.metas (o.key_of url) ≡ some m) (well_formed : o.new_request url ≡ none) where
  -- The fetch of a known URL, past the fresh hit.
  abbrev answer : Answer Response
  answer = do_request o (request_for o url (some m)) 3 1 ""

  no_200 :
      (left n : ℕ) (e : String) (resp : Response)
      → ((n : ℕ) (r : Response) → o.respond (request_for o url (some m)) n ≡ got r → r.status ≢ 200)
      → do_request o (request_for o url (some m)) left n e ≡ got resp
      → resp.status ≢ 200
  unfolding do_request
  no_200 zero n e resp h q = cc
  no_200 (suc left) n e resp h q = elim (Answer-cases (o.respond (request_for o url (some m)) n)) [
    | inl (r, f) ↦ h n resp (ground arith)
    | inr (x, f) ↦ no_200 left (n + 1) x resp h (ground arith)
  ]

  abbrev Serves : Dir × Fetched → Type 0
  Serves r = (r.1 ≡ path (o.key_of url)) × (has_blob (o.key_of url) r.0.blobs ≡ true)

  refresh-has_blob :
      has_blob (o.key_of url) (refresh o t (o.key_of url) m d).blobs
      ≡ has_blob (o.key_of url) d.blobs
  unfolding refresh
  refresh-has_blob =
      let w = write_meta o (o.key_of url) (record m { fetched_at = t.stamped }) d in
      has_blob-touch (o.key_of url) (o.key_of url) t.touched w.blobs
      ∙ ap (has_blob (o.key_of url))
          (write_meta_blobs o (o.key_of url) (record m { fetched_at = t.stamped }) d)

  settle-Serves :
      (resp : Response)
      → has_blob (o.key_of url) d.blobs ≡ true
      → resp.status ≢ 200
      → Serves (settle o c t url (some m) resp d)
  unfolding settle
  settle-Serves resp h n =
      split_if Serves (resp.status == 304) _ _ (λ _. (refl, refresh-has_blob ∙ h))
        (λ _.
          split_if Serves (resp.status == 200) _ _ (λ e. absurd (n (ground arith)))
            (λ _. split_if Serves (has_blob (o.key_of url) d.blobs) _ _ (λ _. (refl, h)) (λ e. cc)))

  revalidate-Serves :
      has_blob (o.key_of url) d.blobs ≡ true
      → ((n : ℕ) (r : Response) → o.respond (request_for o url (some m)) n ≡ got r → r.status ≢ 200)
      → Serves (revalidate o c t url (some m) d)
  unfolding revalidate blob_usable
  revalidate-Serves h silent =
      rw (well_formed, revalidate)
        (elim (Answer-cases answer) [
          | inl (resp, r) ↦ rw r (settle-Serves resp h (no_200 3 1 "" resp silent r))
          | inr (x, r) ↦ rw r (rw h (refl, h))
        ])

  abbrev Dangles : Dir × Fetched → Type 0
  Dangles r = (r.1 ≡ path (o.key_of url)) × (has_blob (o.key_of url) r.0.blobs ≡ false)

  first_answer :
      (resp : Response) → o.respond (request_for o url (some m)) 1 ≡ got resp → answer ≡ got resp
  unfolding do_request
  first_answer resp r = ground arith

  settle-Dangles :
      (resp : Response)
      → has_blob (o.key_of url) d.blobs ≡ false
      → resp.status ≡ 304
      → Dangles (settle o c t url (some m) resp d)
  unfolding settle
  settle-Dangles resp gone e =
      split_if Dangles (resp.status == 304) _ _ (λ _. (refl, refresh-has_blob ∙ gone))
        (λ n. absurd (ground arith))

  revalidate-Dangles :
      (resp : Response)
      → has_blob (o.key_of url) d.blobs ≡ false
      → o.respond (request_for o url (some m)) 1 ≡ got resp
      → resp.status ≡ 304
      → Dangles (revalidate o c t url (some m) d)
  unfolding revalidate
  revalidate-Dangles resp gone r e =
      rw (well_formed, revalidate) (rw (first_answer resp r) (settle-Dangles resp gone e))

  -- A URL that has a copy is served from it, whatever upstream answers short of a new body: no
  -- connection, an error status or "not modified".
  pub fetch-Serves :
      has_blob (o.key_of url) d.blobs ≡ true
      → ((n : ℕ) (r : Response) → o.respond (request_for o url (some m)) n ≡ got r → r.status ≢ 200)
      → ((fetch o c t url d).1 ≡ path (o.key_of url))
        × (has_blob (o.key_of url) (fetch o c t url d).0.blobs ≡ true)
  unfolding fetch
  fetch-Serves h silent =
      rw (known, fetch)
        (split_if Serves (is_fresh o c t m && has_blob (o.key_of url) d.blobs) _ _
          (λ _. (refl, has_blob-touch (o.key_of url) (o.key_of url) t.touched d.blobs ∙ h))
          (λ _. revalidate-Serves h silent))

  -- If the blob of a URL is gone and its `.meta` is not, "not modified" is answered with the path of
  -- the file that is not there.
  pub not_modified_dangles :
      (resp : Response)
      → has_blob (o.key_of url) d.blobs ≡ false
      → o.respond (request_for o url (some m)) 1 ≡ got resp
      → resp.status ≡ 304
      → ((fetch o c t url d).1 ≡ path (o.key_of url))
        × (has_blob (o.key_of url) (fetch o c t url d).0.blobs ≡ false)
  unfolding fetch
  not_modified_dangles resp gone r e =
      rw (known, fetch)
        (split_if Dangles (is_fresh o c t m && has_blob (o.key_of url) d.blobs) _ _
          (λ fresh. ground arith) (λ _. revalidate-Dangles resp gone r e))

-- A blob under a key is a member with that key.
has_blob-inv :
    (k : String) (bs : List Blob) → has_blob k bs ≡ true → (b : Blob) × Has b bs × (b.key ≡ k)
unfolding has_blob
has_blob-inv k [] h = cc
has_blob-inv k (b ∷ bs) h = elim (String_discrete b.key k) [
  | yes e ↦ (b, inl refl, e)
  | no n ↦ let (x, i, e) = has_blob-inv k bs (ground arith) in (x, inr i, e)
]

size-total : (b : Blob) (bs : List Blob) → Has b bs → size_of b ≤ total_size bs
unfolding total
size-total b [] h = absurd h
size-total b (x ∷ bs) (inl e) = omega (arith, ap size_of e)
size-total b (x ∷ bs) (inr h) = omega (arith, size-total b bs h)

module _ (o : System) (ok : Healthy o) (c : Cache) (t : Times) (url : String) (now : ℕ) (d : Dir)
    (g : Good now d) (moved_on : now < t.written) (resp : Response) (body : Body) where
  abbrev after : Dir
  after = stored o ok c t url now d g moved_on resp body

  abbrev left_over : Dir
  left_over = evict o c after

  not_left :
      (b : Blob) → c.max_bytes < length body → Has b left_over.blobs → b.key ≡ o.key_of url → ⊥
  not_left b large h e =
      let works =
        Healthy-Works o ok after (stored-Good o ok c t url now d g moved_on resp body).distinct in
      let ev = evict-Evicts o c after works in
      let before : Has b (new_blob (o.key_of url) body t ∷ without (o.key_of url) d.blobs) =
        rw (stored_blobs o ok c t url now d g moved_on resp body) at (ev.only_removes b h) in
      elim before [
        | inl new ↦ absurd (omega (arith, ap size_of new, size-total b left_over.blobs h, ev.fits))
        | inr old ↦ All-Has _ _ (Unkeyed-without (o.key_of url) d.blobs) b old e
      ]

  -- A stored response that is larger than the cache is evicted at once: the path that is answered is
  -- that of no file. (The directory is well-formed and the removals succeed.)
  pub too_large_dangles :
      receive o resp ≡ got body
      → c.max_bytes < length body
      → ((store o c t url resp d).1 ≡ path (o.key_of url))
        × (has_blob (o.key_of url) (store o c t url resp d).0.blobs ≡ false)
  too_large_dangles r large = rw (store_got o ok c t url now d g moved_on resp body r) (
    refl,
    elim (Bool-cases (has_blob (o.key_of url) left_over.blobs)) [
      | inr e ↦ e
      | inl h ↦
          let (b, i, e) = has_blob-inv (o.key_of url) left_over.blobs h in
          absurd (not_left b large i e)
    ],
  )
