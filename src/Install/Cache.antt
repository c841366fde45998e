-- ===== src/Install/Cache.antt =====
-- orchestration/internal/install/cache.go: the cache of responses. A key is `paths` less its suffixes.
-- The directory is the blobs, as os.ReadDir lists them, and the `.meta` files that can be decoded. What
-- the network, the operating system and the clock answer is a parameter.
pub mod Eviction
pub mod Recency
pub mod Invariant
pub mod Presence
pub mod Outages
use csfleet.Prelude.{
  ℕ, zero, suc, ◌+◌, ◌-◌, Bool, true, false, ◌&&◌, List, [], ◌∷◌, Option, none, some, String, ite,
  length, total, ltb, leb, ◌==◌, if◌then◌else◌, Map, update, String_discrete,
}
use csfleet.Fleet.Services.{Answer, got, failed}

abbrev pub Body : Type 0
Body = List ℕ

-- A blob. Its size is the length of its body.
pub record Blob : Type 0 where
  pub key : String
  pub body : Body
  pub mod_time : ℕ

-- cacheMeta
pub record Meta : Type 0 where
  pub url : String
  pub fetched_at : ℕ
  pub etag : String
  pub last_modified : String
  pub size : ℕ

pub record Dir : Type 0 where
  pub blobs : List Blob
  pub metas : Map String Meta

-- Cache
pub record Cache : Type 0 where
  pub ttl : ℕ
  pub max_bytes : ℕ
  pub started_at : ℕ

-- 60 * time.Minute
abbrev pub cache_ttl : ℕ
cache_ttl = 3600000000000

unfoldable pub new_cache : ℕ → ℕ → Cache
new_cache max_bytes now = record { ttl = cache_ttl; max_bytes = max_bytes; started_at = now }

pub record Request : Type 0 where
  pub url : String
  pub accept_github : Bool
  pub token : Option String
  pub if_none_match : Option String
  pub if_modified_since : Option String

pub record Response : Type 0 where
  pub status : ℕ
  pub body : Answer Body
  pub etag : String
  pub last_modified : String
  pub rate_remaining : String
  pub rate_reset : String

pub data Failure : Type 0 where
  bad_url : String → Failure
  transport : String → Failure
  storage : String → Failure
  rate_limited : (has_token : Bool) → (reset : String) → Failure
  bad_status : ℕ → Failure

-- A path, by its key, or an error.
pub data Fetched : Type 0 where
  path : String → Fetched
  error : Failure → Fetched

-- The instants at which a fetch reads the clock or writes a file.
pub record Times : Type 0 where
  pub checked : ℕ
  pub written : ℕ
  pub stamped : ℕ
  pub touched : ℕ

-- What a fetch asks of the operating system, the environment and the network. The calls of `store`
-- answer an error or nothing, the removals and the write of a `.meta` whether they succeed.
-- `list_blobs` is os.ReadDir with the entries that can be read, and `sort` is sort.Slice by mod_time.
pub record System : Type 0 where
  pub key_of : String → String
  pub is_github : String → Bool
  pub github_token : String
  pub new_request : String → Option String
  pub respond : Request → ℕ → Answer Response
  pub make_dir : Option String
  pub create_temp : Option String
  pub close : Option String
  pub rename : Option String
  pub list_blobs : List Blob → Option (List Blob)
  pub sort : List Blob → List Blob
  pub remove_blob : String → Bool
  pub remove_meta : String → Bool
  pub save_meta : String → Bool

unfoldable pub has_blob : String → List Blob → Bool
has_blob k [] = false
has_blob k (b ∷ bs) = ite (String_discrete b.key k) true (has_blob k bs)

unfoldable pub without : String → List Blob → List Blob
without k [] = []
without k (b ∷ bs) = let rest = without k bs in ite (String_discrete b.key k) rest (b ∷ rest)

-- touch, whose errors are ignored.
unfoldable pub touch : String → ℕ → List Blob → List Blob
touch k now [] = []
touch k now (b ∷ bs) =
    let rest = touch k now bs in
    ite (String_discrete b.key k) (record b { mod_time = now } ∷ rest) (b ∷ rest)

abbrev pub size_of : Blob → ℕ
size_of b = length b.body

abbrev pub total_size : List Blob → ℕ
total_size bs = total size_of bs

unfoldable pub blob_usable : String → Dir → Bool → Bool
unfolding has_blob
blob_usable k d have_meta = if have_meta then has_blob k d.blobs else false

abbrev pub is_some : Option Meta → Bool
is_some none = false
is_some (some m) = true

abbrev pub non_empty : String → Option String
non_empty s = ite (String_discrete s "") none (some s)

abbrev pub new_blob : String → Body → Times → Blob
new_blob k body t = record { key = k; body = body; mod_time = t.written }

abbrev pub new_meta : String → Body → Response → Times → Meta
new_meta url body resp t = record {
  url = url;
  fetched_at = t.stamped;
  etag = resp.etag;
  last_modified = resp.last_modified;
  size = length body;
}

module _ (o : System) where
  unfoldable pub write_meta : String → Meta → Dir → Dir
  write_meta k m d =
      if o.save_meta k then record d { metas = update String_discrete d.metas k (some m) } else d

  -- The two os.Remove of a victim.
  unfoldable pub remove_entry : String → Dir → Dir
  unfolding without
  remove_entry k d = record d {
    blobs = if o.remove_blob k then without k d.blobs else d.blobs;
    metas = if o.remove_meta k then update String_discrete d.metas k none else d.metas;
  }

  -- The last loop of evict, over the sorted blobs.
  unfoldable pub evict_loop : ℕ → List Blob → ℕ → Dir → Dir
  unfolding remove_entry
  evict_loop max_bytes [] total d = d
  evict_loop max_bytes (b ∷ bs) total d = elim (leb total max_bytes) [
    | true ↦ d
    | false ↦ evict_loop max_bytes bs (total - size_of b) (remove_entry b.key d)
  ]

  unfoldable pub evict : Cache → Dir → Dir
  unfolding evict_loop total
  evict c d = elim (o.list_blobs d.blobs) [
    | none ↦ d
    | some blobs ↦
        if leb (total_size blobs) c.max_bytes
        then d
        else evict_loop c.max_bytes (o.sort blobs) (total_size blobs) d
  ]

  -- do, with the attempts that are left, the number of the next one, and the last error.
  unfoldable pub do_request : Request → ℕ → ℕ → String → Answer Response
  do_request req zero attempt e = failed e
  do_request req (suc left) attempt e = elim (o.respond req attempt) [
    | got resp ↦ got resp
    | failed e' ↦ do_request req left (attempt + 1) e'
  ]

  -- The steps of store before the rename: the error of the first that fails.
  unfoldable pub receive : Response → Answer Body
  receive resp = elim o.make_dir [
    | some e ↦ failed e
    | none ↦ elim o.create_temp [
      | some e ↦ failed e
      | none ↦ elim resp.body [
        | failed e ↦ failed e
        | got body ↦ elim o.close [
          | some e ↦ failed e
          | none ↦ elim o.rename [ some e ↦ failed e | none ↦ got body ]
        ]
      ]
    ]
  ]

  unfoldable pub store : Cache → Times → String → Response → Dir → Dir × Fetched
  unfolding receive write_meta evict
  store c t url resp d =
      let k = o.key_of url in
      elim (receive resp) [
        | failed e ↦ (d, error (storage e))
        | got body ↦
            let renamed = record d { blobs = new_blob k body t ∷ without k d.blobs } in
            (evict c (write_meta k (new_meta url body resp t) renamed), path k)
      ]

  unfoldable pub status_error : Response → Failure
  status_error resp =
      if resp.status == 403
      then ite (String_discrete resp.rate_remaining "0")
          (rate_limited (ite (String_discrete o.github_token "") false true) resp.rate_reset)
          (bad_status resp.status)
      else bad_status resp.status

  unfoldable pub request_for : String → Option Meta → Request
  request_for url meta =
      let github = o.is_github url in
      record {
        url = url;
        accept_github = github;
        token = if github then non_empty o.github_token else none;
        if_none_match = elim meta [ none ↦ none | some m ↦ non_empty m.etag ];
        if_modified_since = elim meta [ none ↦ none | some m ↦ non_empty m.last_modified ];
      }

  -- The branch for 304.
  unfoldable pub refresh : Times → String → Meta → Dir → Dir
  unfolding write_meta touch
  refresh t k m d =
      let d' = write_meta k (record m { fetched_at = t.stamped }) d in
      record d' { blobs = touch k t.touched d'.blobs }

  -- The fetch from the response on.
  unfoldable pub settle : Cache → Times → String → Option Meta → Response → Dir → Dir × Fetched
  unfolding store status_error refresh has_blob
  settle c t url none resp d =
      if resp.status == 200 then store c t url resp d else (d, error (status_error resp))
  settle c t url (some m) resp d =
      let k = o.key_of url in
      if resp.status == 304
      then (refresh t k m d, path k)
      else if resp.status == 200
      then store c t url resp d
      else if has_blob k d.blobs
      then (d, path k)
      else (d, error (status_error resp))

  unfoldable pub is_fresh : Cache → Times → Meta → Bool
  is_fresh c t m = ltb c.started_at m.fetched_at && ltb (t.checked - m.fetched_at) c.ttl

  -- The fetch past the fresh hit.
  unfoldable pub revalidate : Cache → Times → String → Option Meta → Dir → Dir × Fetched
  unfolding do_request request_for settle blob_usable
  revalidate c t url meta d = elim (o.new_request url) [
    | some e ↦ (d, error (bad_url e))
    | none ↦ elim (do_request (request_for url meta) 3 1 "") [
      | failed e ↦
          let k = o.key_of url in
          if blob_usable k d (is_some meta) then (d, path k) else (d, error (transport e))
      | got resp ↦ settle c t url meta resp d
    ]
  ]

  unfoldable pub fetch : Cache → Times → String → Dir → Dir × Fetched
  unfolding is_fresh revalidate touch has_blob
  fetch c t url d =
      let k = o.key_of url in
      elim (d.metas k) [
        | none ↦ revalidate c t url none d
        | some m ↦
            if is_fresh c t m && has_blob k d.blobs
            then (record d { blobs = touch k t.touched d.blobs }, path k)
            else revalidate c t url (some m) d
      ]
