-- ===== src/Plugin/Apply/Cleanup.antt =====
-- The directories that applyTo leaves behind: temporary ones, and those of local sources.
use csfleet.Prelude.{
  ◌+◌, true, List, [], Option, none, String, String_discrete, ◌≡◌, ◌≢◌, refl, ◌∙◌, ap, inl, inr,
  split_ite, split_if, Option-cases, if◌then◌else◌, arith,
}
use csfleet.Fleet.Services.{Answer, got, failed, Answer-cases}
use csfleet.Install.Paths.{FilePath}
use csfleet.Install.Disk.{Disk}
use csfleet.Install.Trees.{Node}
use csfleet.Plugin.Ignore.{any_match, compile_all, apply_ignore}
use csfleet.Plugin.Ignore.Pruned.{kind_at, hidden, apply_ignore-Pruned}
use csfleet.Plugin.Templates.{EnvVar}
use csfleet.Plugin.Apply.{
  Source, Manifest, Tools, World, Root, at_path, unpacked, ApplyError, unpack, extracted,
  release_asset, fill_temp, download_extract, fetch_github, fetch_source, apply_root, fetched,
  apply_to,
}

-- A source root is a local directory, or comes with one more temporary directory. The directories of
-- local sources are as they were.
abbrev pub Held : World → World × Answer Root → Type 0
Held w (w', failed e) = (w'.temps ≡ w.temps) × (w'.local ≡ w.local)
Held w (w', got (at_path p)) = (w'.temps ≡ w.temps) × (w'.local ≡ w.local)
Held w (w', got (unpacked t)) = (w'.temps ≡ w.temps + 1) × (w'.local ≡ w.local)

module _ (o : Tools) where
  extracted-Held :
      (w : World) (a : Disk × Answer Node)
      → Held w (extracted o (record w { temps = w.temps + 1 }) a)
  extracted-Held w (d, failed e) = (omega arith, refl)
  extracted-Held w (d, got t) = (refl, refl)

  fill_temp-Held :
      (url name : String) (w : World)
      → Held w (fill_temp o url name (record w { temps = w.temps + 1 }))
  unfolding fill_temp
  fill_temp-Held url name w = elim (Option-cases (o.download url)) [
    | inr (e, f) ↦ rw (f, fill_temp) (omega arith, refl)
    | inl f ↦ elim (Option-cases o.make_root) [
      | inr (e, g) ↦ rw (f, g, fill_temp) (omega arith, refl)
      | inl g ↦ rw (f, g, fill_temp) (extracted-Held w (unpack o url name w.disk))
    ]
  ]

  download_extract-Held : (url name : String) (w : World) → Held w (download_extract o url name w)
  unfolding download_extract
  download_extract-Held url name w = elim (Option-cases o.make_temp) [
    | inr (e, f) ↦ rw (f, download_extract) (refl, refl)
    | inl f ↦ rw (f, download_extract) (fill_temp-Held url name w)
  ]

  fetch_github-Held : (s : Source) (w : World) → Held w (fetch_github o s w)
  unfolding fetch_github
  fetch_github-Held s w = elim (Answer-cases (release_asset o s)) [
    | inr (e, f) ↦ rw (f, fetch_github) (refl, refl)
    | inl (a, f) ↦ rw (f, fetch_github) (download_extract-Held a.url a.name w)
  ]

  pub fetch_source-Held : (s : Source) (w : World) → Held w (fetch_source o s w)
  unfolding fetch_source
  fetch_source-Held s w =
      split_ite (Held w) (String_discrete s.type "local") _ _
        (λ _.
          split_ite (Held w) (String_discrete s.path "") _ _ (λ _. (refl, refl))
            (λ _. split_if (Held w) (o.is_abs s.path) _ _ (λ _. (refl, refl)) (λ _. (refl, refl))))
        (λ _.
          split_ite (Held w) (String_discrete s.type "github_release") _ _
            (λ _. fetch_github-Held s w)
            (λ _.
              split_ite (Held w) (String_discrete s.type "url") _ _
                (λ _.
                  split_ite (Held w) (String_discrete s.url "") _ _ (λ _. (refl, refl))
                    (λ _. download_extract-Held s.url s.url w))
                (λ _. (refl, refl))))

  module _ (m : Manifest) (env : List EnvVar) (overlay : FilePath) where
    fetched-temps :
        (w : World) (r : World × Answer Root)
        → Held w r
        → (fetched o r (apply_root o m env overlay)).0.temps ≡ w.temps
    unfolding apply_root
    fetched-temps w (w', failed e) h = h.0
    fetched-temps w (w', got (at_path p)) h = h.0
    fetched-temps w (w', got (unpacked t)) h = omega (arith, h.0)

    -- Applying a plugin leaves as many temporary directories as there were, whether it succeeds or
    -- fails at any stage.
    pub apply_to-temps : (w : World) → (apply_to o m env overlay w).0.temps ≡ w.temps
    unfolding apply_to
    apply_to-temps w = fetched-temps w (fetch_source o m.source w) (fetch_source-Held m.source w)

    local_root :
        (w : World)
        → m.source.type ≡ "local"
        → m.source.path ≢ ""
        → o.is_abs m.source.path ≡ true
        → fetch_source o m.source w ≡ (w, got (at_path m.source.path))
    unfolding fetch_source
    local_root w t p a =
        let Local : World × Answer Root → Type 0 = λ r. r ≡ (w, got (at_path m.source.path)) in
        split_ite Local (String_discrete m.source.type "local") _ _
          (λ _.
            split_ite Local (String_discrete m.source.path "") _ _ (λ e. absurd (p e))
              (λ _. rw a refl))
          (λ n. absurd (n t))

    local_after :
        (w : World) (p : String)
        → (apply_root o m env overlay (at_path p) w).0.local p
          ≡ (apply_ignore o.remove_all (w.local p) m.ignore).0
    unfolding apply_root
    local_after w p =
        split_ite (λ t. t ≡ (apply_ignore o.remove_all (w.local p) m.ignore).0)
          (String_discrete p p) _ _ (λ _. refl) (λ n. absurd (n refl))

    local_applied :
        (w : World)
        → m.source.type ≡ "local"
        → m.source.path ≢ ""
        → o.is_abs m.source.path ≡ true
        → apply_to o m env overlay w ≡ apply_root o m env overlay (at_path m.source.path) w
    unfolding apply_to
    local_applied w t p a =
        ap (λ (r : World × Answer Root). fetched o r (apply_root o m env overlay))
          (local_root w t p a)

    -- With a local source, the ignore patterns remove files from the source directory itself: after a
    -- walk without an error, a path of that directory is gone if a pattern matches it or a directory
    -- above it.
    pub apply_to-prunes_local :
        (w : World)
        → m.source.type ≡ "local"
        → m.source.path ≢ ""
        → o.is_abs m.source.path ≡ true
        → (apply_ignore o.remove_all (w.local m.source.path) m.ignore).1 ≡ none
        → (p : FilePath)
        → kind_at ((apply_to o m env overlay w).0.local m.source.path) p ≡ (
            if hidden (any_match (compile_all m.ignore)) [] p
            then none
            else kind_at (w.local m.source.path) p)
    apply_to-prunes_local w t p a h q =
        let now =
          ap (λ (r : World × Option ApplyError). r.0.local m.source.path) (local_applied w t p a) in
        ap (λ n. kind_at n q) (now ∙ local_after w m.source.path)
        ∙ apply_ignore-Pruned o.remove_all (w.local m.source.path) m.ignore h q
