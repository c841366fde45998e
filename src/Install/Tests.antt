-- ===== src/Install/Tests.antt =====
-- Runs of the modelled functions, and the theorems at concrete inputs.
use csfleet.Prelude.{
  ℕ, ◌≤◌, ◌<◌, true, false, List, [], ◌∷◌, none, some, String, String_discrete, ◌≡◌, ◌≢◌, refl, leb,
  length, ◌++◌, ℕ_discrete, All, Shuffle, nothing, keep, swap, both, empty_map, update,
  if◌then◌else◌, split_if, arith,
}
use mathlib.Core.Bool.{false≢true}
use text.Mathlib.TextEquality.{eq_iff}
use csfleet.Fleet.Services.{Answer, got, failed}
use csfleet.Install.Cache.{
  Body, Blob, Meta, Dir, Cache, Times, System, Request, Response, path, has_blob, fetch, evict,
}
use csfleet.Install.Cache.Eviction.{Oldest}
use csfleet.Install.Cache.Recency.{Works, Evicts, evict-Evicts}
use csfleet.Install.Cache.Invariant.{Good, Healthy}
use csfleet.Install.Cache.Presence.{Settled, fetch-Present}
use csfleet.Install.Cache.Outages.{fetch-Serves, not_modified_dangles}
use csfleet.Install.Paths.{FilePath, safe_join, safe_join-under, Proper, is_under}
use csfleet.Install.Disk.{Disk, folder, Faults, escapes}
use csfleet.Install.Trees.{ZipEntry, extract_zip}
use csfleet.Install.Inside.{Inside}
use csfleet.Install.Unpacking.{extract_zip-Inside}

insert : Blob → List Blob → List Blob
insert b [] = b ∷ []
insert b (x ∷ xs) =
    let rest = insert b xs in if leb b.mod_time x.mod_time then b ∷ x ∷ xs else x ∷ rest

by_time : List Blob → List Blob
unfolding insert
by_time [] = []
by_time (b ∷ bs) = insert b (by_time bs)

insert-Shuffle : (b : Blob) (xs : List Blob) → Shuffle (insert b xs) (b ∷ xs)
unfolding insert
insert-Shuffle b [] = keep b nothing
insert-Shuffle b (x ∷ xs) =
    split_if (λ l. Shuffle l (b ∷ x ∷ xs)) (leb b.mod_time x.mod_time) _ _ (λ _. same_list)
      (λ _. both (keep x (insert-Shuffle b xs)) (swap x b xs))
  where
    same_list : Shuffle (b ∷ x ∷ xs) (b ∷ x ∷ xs)
    same_list = both (swap b x xs) (swap x b xs)

by_time-Shuffle : (bs : List Blob) → Shuffle (by_time bs) bs
unfolding by_time
by_time-Shuffle [] = nothing
by_time-Shuffle (b ∷ bs) = both (insert-Shuffle b (by_time bs)) (keep b (by_time-Shuffle bs))

All-insert :
    (n : ℕ) (b : Blob) (xs : List Blob)
    → n ≤ b.mod_time
    → All (λ x. n ≤ x.mod_time) xs
    → All (λ x. n ≤ x.mod_time) (insert b xs)
unfolding insert
All-insert n b [] h a = (h, tt)
All-insert n b (x ∷ xs) h a =
    split_if (All (λ y. n ≤ y.mod_time)) (leb b.mod_time x.mod_time) _ _ (λ _. (h, a))
      (λ _. (a.0, All-insert n b xs h a.1))

All-weaker :
    (m n : ℕ) (xs : List Blob) → m ≤ n → All (λ x. n ≤ x.mod_time) xs → All (λ x. m ≤ x.mod_time) xs
All-weaker m n [] h a = tt
All-weaker m n (x ∷ xs) h a = (omega (arith, a.0), All-weaker m n xs h a.1)

Oldest-insert : (b : Blob) (xs : List Blob) → Oldest xs → Oldest (insert b xs)
unfolding insert
Oldest-insert b [] o = (tt, tt)
Oldest-insert b (x ∷ xs) o =
    split_if Oldest (leb b.mod_time x.mod_time) _ _
      (λ e. ((ground arith, All-weaker b.mod_time x.mod_time xs (ground arith) o.0), o))
      (λ e. (All-insert x.mod_time b xs (ground arith) o.0, Oldest-insert b xs o.1))

by_time-Oldest : (bs : List Blob) → Oldest (by_time bs)
unfolding by_time
by_time-Oldest [] = tt
by_time-Oldest (b ∷ bs) = Oldest-insert b (by_time bs) (by_time-Oldest bs)

abbrev answer : ℕ → Response
answer status = record {
  status = status;
  body = got (7 ∷ 7 ∷ []);
  etag = "e1";
  last_modified = "";
  rate_remaining = "";
  rate_reset = "";
}

abbrev system : Answer Response → System
system resp = record {
  key_of = λ url. url;
  is_github = λ url. false;
  github_token = "";
  new_request = λ url. none;
  respond = λ req n. resp;
  make_dir = none;
  create_temp = none;
  close = none;
  rename = none;
  list_blobs = some;
  sort = by_time;
  remove_blob = λ k. true;
  remove_meta = λ k. true;
  save_meta = λ k. true;
}

system-Healthy : (resp : Answer Response) → Healthy (system resp)
system-Healthy resp = record {
  lists = λ bs. refl;
  removes_blob = λ k. refl;
  removes_meta = λ k. refl;
  shuffles = by_time-Shuffle;
  sorts = by_time-Oldest;
}

abbrev cache : Cache
cache = record { ttl = 10; max_bytes = 3; started_at = 20 }

abbrev times : Times
times = record { checked = 30; written = 31; stamped = 32; touched = 33 }

abbrev blob : String → ℕ → Blob
blob k time = record { key = k; body = 1 ∷ 2 ∷ []; mod_time = time }

abbrev note : String → Meta
note url = record { url = url; fetched_at = 5; etag = "e0"; last_modified = ""; size = 2 }

-- Two blobs of two bytes, of which `b` is the older, and the `.meta` of `a`.
abbrev two_blobs : Dir
two_blobs = record {
  blobs = blob "a" 9 ∷ blob "b" 4 ∷ [];
  metas = update String_discrete empty_map "a" (some (note "a"));
}

text-ne : ◌≢◌ {A = String} "b" "a"
text-ne e = false≢true ((eq_iff "b" "a").1 e)

two-Works : Works (system (got (answer 200))) two_blobs
two-Works = record {
  lists = refl;
  removes = λ k. refl;
  shuffles = by_time-Shuffle two_blobs.blobs;
  sorts = by_time-Oldest two_blobs.blobs;
  distinct = ((text-ne, tt), (tt, tt));
}

evict-Evicts_example : Evicts 3 two_blobs (evict (system (got (answer 200))) cache two_blobs)
evict-Evicts_example = evict-Evicts (system (got (answer 200))) cache two_blobs two-Works

evicted_oldest : (evict (system (got (answer 200))) cache two_blobs).blobs ≡ blob "a" 9 ∷ []
unfolding evict by_time String_discrete
evicted_oldest = refl

abbrev nothing_yet : Dir
nothing_yet = record { blobs = []; metas = empty_map }

empty-Good : Good 0 nothing_yet
empty-Good = record { paired = λ k m e. cc; distinct = tt; past = tt }

answer_fits :
    (req : Request) (n : ℕ) (resp : Response) (body : Body)
    → got (answer 200) ≡ got resp
    → resp.body ≡ got body
    → length body ≤ 3
answer_fits req n resp body e f = ground arith

clock_moved : 0 < 31
clock_moved = omega arith

fetch-Present_example :
    Settled
      (system (got (answer 200)))
      (system-Healthy (got (answer 200)))
      cache
      times
      "u"
      0
      nothing_yet
      empty-Good
      clock_moved
      (fetch (system (got (answer 200))) cache times "u" nothing_yet)
fetch-Present_example =
    fetch-Present (system (got (answer 200))) (system-Healthy (got (answer 200))) cache times "u" 0
      nothing_yet empty-Good clock_moved (omega arith) answer_fits

stored_new : (fetch (system (got (answer 200))) cache times "u" nothing_yet).1 ≡ path "u"
unfolding fetch by_time String_discrete
stored_new = refl

not_200 : (n : ℕ) (r : Response) → failed "no route to host" ≡ got r → r.status ≢ 200
not_200 n r e = cc

has_a : has_blob "a" two_blobs.blobs ≡ true
unfolding has_blob String_discrete
has_a = refl

fetch-Serves_example :
    ((fetch (system (failed "no route to host")) cache times "a" two_blobs).1 ≡ path "a")
    × (has_blob "a" (fetch (system (failed "no route to host")) cache times "a" two_blobs).0.blobs
        ≡ true)
unfolding String_discrete
fetch-Serves_example =
    fetch-Serves (system (failed "no route to host")) cache times "a" (note "a") two_blobs refl refl
      has_a not_200

-- The blob of `a` has been removed and its `.meta` has not.
abbrev orphaned : Dir
orphaned = record { blobs = blob "b" 4 ∷ []; metas = two_blobs.metas }

no_a : has_blob "a" orphaned.blobs ≡ false
unfolding has_blob String_discrete
no_a = refl

not_modified_dangles_example :
    ((fetch (system (got (answer 304))) cache times "a" orphaned).1 ≡ path "a")
    × (has_blob "a" (fetch (system (got (answer 304))) cache times "a" orphaned).0.blobs ≡ false)
unfolding String_discrete
not_modified_dangles_example =
    not_modified_dangles (system (got (answer 304))) cache times "a" (note "a") orphaned refl refl
      (answer 304) no_a refl refl

-- An archive with the entries `a/b` and `../x`, unpacked into `/r`.
abbrev letter : ℕ → List ℕ
letter c = c ∷ []

abbrev root_dir : FilePath
root_dir = letter b'r' ∷ []

abbrev calm : Faults
calm = record {
  make_dirs = λ p. none;
  open_file = λ p. none;
  close_file = λ p. none;
  replace_file = λ p. none;
  masked = λ m. m;
}

abbrev zip_file : List ℕ → ZipEntry
zip_file name = record {
  name = name;
  is_dir = false;
  opened = got (record { content = 1 ∷ []; broken = none });
  mode = 0o644;
}

abbrev archive : List ZipEntry
archive = zip_file (b'a' ∷ b'/' ∷ b'b' ∷ []) ∷ zip_file (b'.' ∷ b'.' ∷ b'/' ∷ b'x' ∷ []) ∷ []

abbrev bare : Disk
bare q = if is_under q root_dir then some folder else none

bare-Exists : (q : FilePath) → is_under q root_dir ≡ true → bare q ≡ some folder
bare-Exists q h = rw h refl

extract_zip-Inside_example : Inside root_dir bare (extract_zip calm (got archive) root_dir bare).0
extract_zip-Inside_example = extract_zip-Inside root_dir calm (got archive) bare bare-Exists

slip_refused :
    (extract_zip calm (got archive) root_dir bare).1
    ≡ some (escapes (b'.' ∷ b'.' ∷ b'/' ∷ b'x' ∷ []))
unfolding extract_zip is_under ℕ_discrete
slip_refused = refl

accepted :
    safe_join root_dir (b'a' ∷ b'/' ∷ b'b' ∷ [])
    ≡ some (letter b'r' ∷ letter b'a' ∷ letter b'b' ∷ [])
unfolding safe_join ℕ_discrete
accepted = refl

root-Proper : All Proper root_dir
root-Proper = ((λ e. cc, λ e. cc, λ e. cc, (λ e. absurd (omega arith), tt)), tt)

safe_join-under_run :
    (r : FilePath) × ((letter b'r' ∷ letter b'a' ∷ letter b'b' ∷ []) ≡ root_dir ++ r) × All Proper r
safe_join-under_run = safe_join-under root_dir (b'a' ∷ b'/' ∷ b'b' ∷ []) root-Proper accepted
