-- ===== src/Plugin/Apply.antt =====
-- orchestration/plugin/apply.go: Apply and its stages, with the releases of internal/install/fetch.go.
-- The directories of local sources, which applyIgnore changes, and the count of temporary directories
-- are kept apart from the rest of the disk. The extraction of an archive, which may write anywhere on
-- the disk through the symbolic links of a tar file, is a parameter, and so are TOML, regular
-- expressions, GitHub, downloads and filepath.Glob.
pub mod Cleanup
pub mod Confined
use csfleet.Prelude.{
  ℕ, ◌+◌, ◌-◌, Bool, List, [], ◌∷◌, Option, none, some, String, ite, String_discrete, if◌then◌else◌,
}
use csfleet.Fleet.Services.{Answer, got, failed}
use csfleet.Install.Paths.{FilePath, join}
use csfleet.Install.Disk.{Disk, Failure, Ran, ◌>=>◌, Faults}
use csfleet.Install.Trees.{Node, copy_tree}
use csfleet.Plugin.Ignore.{Removal, apply_ignore}
use csfleet.Plugin.Templates.{Text, EnvVar, TemplateRule, TemplateError, templates}

pub record Source : Type 0 where
  pub type : String
  pub repo : String
  pub asset : String
  pub url : String
  pub version : String
  pub path : String

pub record LayoutRule : Type 0 where
  pub from : Text
  pub to : Text

pub record Manifest : Type 0 where
  pub requires : List String
  pub ignore : List Text
  pub source : Source
  pub layout_rules : List LayoutRule
  pub template_rules : List TemplateRule

pub record ReleaseAsset : Type 0 where
  pub name : String
  pub url : String

pub record Release : Type 0 where
  pub tag_name : String
  pub assets : List ReleaseAsset

-- `fetch_release` is FetchJSON at the URL of a repository and a tag, `none` for the latest.
pub record Tools : Type 0 where
  pub parse : String → Answer Manifest
  pub fetch_release : String → Option String → Answer Release
  pub compile : String → Answer (String → Bool)
  pub is_abs : String → Bool
  pub has_suffix : String → String → Bool
  pub make_temp : Option String
  pub download : String → Option String
  pub make_root : Option String
  pub unpack_tar : String → Disk → Disk × Answer Node
  pub unpack_zip : String → Disk → Disk × Answer Node
  pub glob : Text → Node → Answer (List Node)
  pub remove_all : Removal
  pub faults : Faults

pub record World : Type 0 where
  pub disk : Disk
  pub local : String → Node
  pub temps : ℕ

-- A source root: a local directory, or the tree that an extraction left in a temporary one.
pub data Root : Type 0 where
  at_path : String → Root
  unpacked : Node → Root

pub data ApplyError : Type 0 where
  bad_manifest : String → ApplyError
  bad_source : String → ApplyError
  bad_ignore : String → ApplyError
  bad_pattern : String → ApplyError
  no_match : Text → ApplyError
  bad_copy : Failure → ApplyError
  bad_template : TemplateError → ApplyError

abbrev pub remove_temp : World → World
remove_temp w = record w { temps = w.temps - 1 }

abbrev pub dot : Text
dot = 0x2e ∷ []

abbrev pub or_dot : Text → Text
or_dot [] = dot
or_dot (c ∷ s) = c ∷ s

-- The rules of a manifest, or "extract straight into csgo/".
unfoldable pub rules_of : List LayoutRule → List LayoutRule
rules_of [] = record { from = dot; to = dot } ∷ []
rules_of (r ∷ rs) = r ∷ rs

module _ (o : Tools) where
  -- GithubReleaseByTag and GithubLatestRelease.
  unfoldable pub github_release : String → Option String → Answer Release
  github_release repo tag = elim (o.fetch_release repo tag) [
    | failed e ↦ failed e
    | got rel ↦ ite (String_discrete rel.tag_name "") (failed "no tag_name") (got rel)
  ]

  unfoldable pub first_asset : (String → Bool) → List ReleaseAsset → Answer ReleaseAsset
  first_asset test [] = failed "no asset matching"
  first_asset test (a ∷ rest) =
      let later = first_asset test rest in if test a.name then got a else later

  unfoldable pub wanted_tag : String → Option String
  wanted_tag v = ite (String_discrete v "") none (ite (String_discrete v "latest") none (some v))

  unfoldable pub release_asset : Source → Answer ReleaseAsset
  unfolding github_release first_asset wanted_tag
  release_asset s = elim (github_release s.repo (wanted_tag s.version)) [
    | failed e ↦ failed e
    | got rel ↦ elim (o.compile s.asset) [
      | failed e ↦ failed e
      | got test ↦ first_asset test rel.assets
    ]
  ]

  abbrev pub unpack : String → String → Disk → Disk × Answer Node
  unpack url name d =
      if o.has_suffix name ".tar.gz"
      then o.unpack_tar url d
      else if o.has_suffix name ".tgz"
      then o.unpack_tar url d
      else o.unpack_zip url d

  abbrev pub extracted : World → Disk × Answer Node → World × Answer Root
  extracted w (d, failed e) = (remove_temp (record w { disk = d }), failed e)
  extracted w (d, got t) = (record w { disk = d }, got (unpacked t))

  -- downloadExtract from the temporary directory on.
  unfoldable pub fill_temp : String → String → World → World × Answer Root
  fill_temp url name w = elim (o.download url) [
    | some e ↦ (remove_temp w, failed e)
    | none ↦ elim o.make_root [
      | some e ↦ (remove_temp w, failed e)
      | none ↦ extracted w (unpack url name w.disk)
    ]
  ]

  unfoldable pub download_extract : String → String → World → World × Answer Root
  unfolding fill_temp
  download_extract url name w = elim o.make_temp [
    | some e ↦ (w, failed e)
    | none ↦ fill_temp url name (record w { temps = w.temps + 1 })
  ]

  unfoldable pub fetch_github : Source → World → World × Answer Root
  unfolding release_asset download_extract
  fetch_github s w = elim (release_asset s) [
    | failed e ↦ (w, failed e)
    | got a ↦ download_extract a.url a.name w
  ]

  unfoldable pub fetch_source : Source → World → World × Answer Root
  unfolding fetch_github download_extract
  fetch_source s w =
      ite (String_discrete s.type "local")
        (ite (String_discrete s.path "") (w, failed "local source needs a path")
          (if o.is_abs s.path
            then (w, got (at_path s.path))
            else (w, failed "local source path must be absolute")))
        (ite (String_discrete s.type "github_release") (fetch_github s w) (
          ite (String_discrete s.type "url")
            (ite (String_discrete s.url "") (w, failed "url source needs a url")
              (download_extract s.url s.url w))
            (w, failed "unknown source type")))

  -- The inner loop of layout.
  unfoldable pub copy_all : List Node → FilePath → Disk → Ran
  unfolding copy_tree
  copy_all [] dest d = (d, none)
  copy_all (t ∷ ts) dest d = copy_tree o.faults t dest d >=> copy_all ts dest

  abbrev pub copied : Ran → (Disk → Disk × Option ApplyError) → Disk × Option ApplyError
  copied (d, some e) next = (d, some (bad_copy e))
  copied (d, none) next = next d

  -- layout, over the rules.
  unfoldable pub layout : List LayoutRule → Node → FilePath → Disk → Disk × Option ApplyError
  unfolding copy_all join
  layout [] root overlay d = (d, none)
  layout (r ∷ rs) root overlay d =
      let next = layout rs root overlay in
      elim (o.glob (or_dot r.from) root) [
        | failed e ↦ (d, some (bad_pattern e))
        | got [] ↦ (d, some (no_match (or_dot r.from)))
        | got (t ∷ ts) ↦ copied (copy_all (t ∷ ts) (join overlay (or_dot r.to)) d) next
      ]

  abbrev pub rendered : Disk × Option TemplateError → Disk × Option ApplyError
  rendered (d, none) = (d, none)
  rendered (d, some e) = (d, some (bad_template e))

  abbrev pub and_then :
      Disk × Option ApplyError → (Disk → Disk × Option ApplyError) → Disk × Option ApplyError
  and_then (d, some e) f = (d, some e)
  and_then (d, none) f = f d

  -- layout and templates.
  unfoldable pub lay : Manifest → List EnvVar → FilePath → Node → Disk → Disk × Option ApplyError
  unfolding layout templates rules_of
  lay m env overlay root d =
      and_then (layout (rules_of m.layout_rules) root overlay d)
        λ d'. rendered (templates o.faults env overlay m.template_rules d')

  -- The stages behind the source, on the tree that the ignore patterns leave.
  unfoldable pub stages :
      Manifest → List EnvVar → FilePath → Node × Option String → Disk → Disk × Option ApplyError
  unfolding lay
  stages m env overlay (root, some e) d = (d, some (bad_ignore e))
  stages m env overlay (root, none) d = lay m env overlay root d

  abbrev pub set_local : World → String → Node → World
  set_local w p t = record w { local = λ q. ite (String_discrete p q) t (w.local q) }

  -- applyTo behind fetchSource, and its deferred cleanup.
  unfoldable pub apply_root :
      Manifest → List EnvVar → FilePath → Root → World → World × Option ApplyError
  unfolding stages apply_ignore
  apply_root m env overlay (at_path p) w =
      let pruned = apply_ignore o.remove_all (w.local p) m.ignore in
      let ran = stages m env overlay pruned w.disk in
      (record (set_local w p pruned.0) { disk = ran.0 }, ran.1)
  apply_root m env overlay (unpacked t) w =
      let ran = stages m env overlay (apply_ignore o.remove_all t m.ignore) w.disk in
      (remove_temp (record w { disk = ran.0 }), ran.1)

  abbrev pub fetched :
      World × Answer Root → (Root → World → World × Option ApplyError) → World × Option ApplyError
  fetched (w, failed e) next = (w, some (bad_source e))
  fetched (w, got root) next = next root w

  -- applyTo
  unfoldable pub apply_to : Manifest → List EnvVar → FilePath → World → World × Option ApplyError
  unfolding fetch_source apply_root
  apply_to m env overlay w = fetched (fetch_source m.source w) (apply_root m env overlay)

  -- Apply
  unfoldable pub apply : String → List EnvVar → FilePath → World → World × Option ApplyError
  unfolding apply_to
  apply toml env overlay w = elim (o.parse toml) [
    | failed e ↦ (w, some (bad_manifest e))
    | got m ↦ apply_to m env overlay w
  ]
