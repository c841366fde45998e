-- ===== src/Plugin/Apply/Confined.antt =====
-- Where the layout and the templates of a plugin write.
use csfleet.Prelude.{
  List, [], ◌∷◌, ◌++◌, Option, none, some, String, ◌≡◌, ◌≢◌, inl, inr, All, split_if,
}
use csfleet.Fleet.Services.{got, failed, Answer-cases}
use csfleet.Install.Paths.{FilePath, dot_dot, components, join, join-append}
use csfleet.Install.Disk.{Disk, Ran, atomic_write}
use csfleet.Install.Trees.{Node, copy_tree}
use csfleet.Install.Inside.{
  Exists, Inside, Inside-refl, Inside-trans, Inside-Exists, then-Inside, atomic_write-Inside,
}
use csfleet.Install.Unpacking.{copy_tree-Inside}
use csfleet.Plugin.Templates.{
  Text, EnvVar, TemplateRule, TemplatesRan, is_empty, written, render, templates,
}
use csfleet.Plugin.Apply.{
  LayoutRule, Manifest, Tools, ApplyError, or_dot, rules_of, copy_all, copied, rendered, and_then,
  layout, lay,
}

-- A path of a manifest without `..`.
abbrev pub Downward : Text → Type 0
Downward p = All (λ n. n ≢ dot_dot) (components p)

-- The destinations of a manifest.
abbrev pub IsConfined : Manifest → Type 0
IsConfined m =
    All (λ r. Downward (or_dot r.to)) (rules_of m.layout_rules)
    × All (λ t. Downward t.dest) m.template_rules

module _ (o : Tools) (overlay : FilePath) where
  copy_all-Inside :
      (ts : List Node) (r : FilePath) (d : Disk)
      → Exists overlay d
      → Inside overlay d (copy_all o ts (overlay ++ r) d).0
  unfolding copy_all
  copy_all-Inside [] r d x = Inside-refl overlay d
  copy_all-Inside (t ∷ ts) r d x =
      then-Inside overlay o.faults (copy_tree o.faults t (overlay ++ r) d)
        (copy_all o ts (overlay ++ r)) d (copy_tree-Inside overlay o.faults t r d x)
        (λ e i. copy_all-Inside ts r e (Inside-Exists overlay i x))

  copied-Inside :
      (a : Ran) (f : Disk → Disk × Option ApplyError) (d : Disk)
      → Inside overlay d a.0
      → ((e : Disk) → Inside overlay d e → Inside overlay e (f e).0)
      → Inside overlay d (copied o a f).0
  copied-Inside (e, some x) f d i next = i
  copied-Inside (e, none) f d i next = Inside-trans overlay i (next e i)

  written-Inside :
      (a : Ran) (f : Disk → TemplatesRan) (d : Disk)
      → Inside overlay d a.0
      → ((e : Disk) → Inside overlay d e → Inside overlay e (f e).0)
      → Inside overlay d (written a f).0
  written-Inside (e, some x) f d i next = i
  written-Inside (e, none) f d i next = Inside-trans overlay i (next e i)

  -- A rule whose destination is in the overlay, before the rules after it.
  module _ (rule : LayoutRule) (rs : List LayoutRule) (root : Node)
      (rest : (d : Disk) → Exists overlay d → Inside overlay d (layout o rs root overlay d).0)
      (down : Downward (or_dot rule.to)) (d : Disk) (x : Exists overlay d) where
    rule_found :
        (ns : List Node)
        → o.glob (or_dot rule.from) root ≡ got ns
        → Inside overlay d (layout o (rule ∷ rs) root overlay d).0
    unfolding layout
    rule_found [] e = rw (e, layout) (Inside-refl overlay d)
    rule_found (t ∷ ts) e =
        let (r, f) = join-append overlay (or_dot rule.to) down in
        rw (e, layout)
          (copied-Inside (copy_all o (t ∷ ts) (join overlay (or_dot rule.to)) d)
            (layout o rs root overlay) d (rw f (copy_all-Inside (t ∷ ts) r d x))
            (λ e i. rest e (Inside-Exists overlay i x)))

    rule_failed :
        (m : String)
        → o.glob (or_dot rule.from) root ≡ failed m
        → Inside overlay d (layout o (rule ∷ rs) root overlay d).0
    unfolding layout
    rule_failed m e = rw (e, layout) (Inside-refl overlay d)

  layout-Inside :
      (rs : List LayoutRule) (root : Node)
      → All (λ r. Downward (or_dot r.to)) rs
      → (d : Disk) → Exists overlay d
      → Inside overlay d (layout o rs root overlay d).0
  layout-Inside [] root a d x = layout_nil root d
    where
      layout_nil : (t : Node) (e : Disk) → Inside overlay e (layout o [] t overlay e).0
      layout_nil t e = unfold layout in Inside-refl overlay e
  layout-Inside (r ∷ rs) root a d x = elim (Answer-cases (o.glob (or_dot r.from) root)) [
    | inr (m, e) ↦ rule_failed r rs root (layout-Inside rs root a.1) a.0 d x m e
    | inl (ns, e) ↦ rule_found r rs root (layout-Inside rs root a.1) a.0 d x ns e
  ]

  template-Inside :
      (dest content : Text) (d : Disk)
      → Downward dest
      → Exists overlay d
      → Inside overlay d (atomic_write o.faults (join overlay dest) content d).0
  template-Inside dest content d down x =
      let (r, f) = join-append overlay dest down in
      rw f (atomic_write-Inside overlay o.faults r content d x)

  templates-Inside :
      (env : List EnvVar) (ts : List TemplateRule)
      → All (λ t. Downward t.dest) ts
      → (d : Disk) → Exists overlay d
      → Inside overlay d (templates o.faults env overlay ts d).0
  unfolding templates
  templates-Inside env [] a d x = Inside-refl overlay d
  templates-Inside env (t ∷ ts) a d x =
      let Stays : TemplatesRan → Type 0 = λ q. Inside overlay d q.0 in
      split_if Stays (is_empty t.dest) _ _ (λ _. Inside-refl overlay d)
        (λ _.
          split_if Stays (is_empty t.body) _ _ (λ _. Inside-refl overlay d)
            (λ _.
              written-Inside (atomic_write o.faults (join overlay t.dest) (render env t.body) d)
                (templates o.faults env overlay ts) d
                (template-Inside t.dest (render env t.body) d a.0 x)
                (λ e i. templates-Inside env ts a.1 e (Inside-Exists overlay i x))))

  rendered-Inside :
      (d : Disk) (q : TemplatesRan) → Inside overlay d q.0 → Inside overlay d (rendered o q).0
  rendered-Inside d (e, none) i = i
  rendered-Inside d (e, some x) i = i

  and_then-Inside :
      (a : Disk × Option ApplyError) (f : Disk → Disk × Option ApplyError) (d : Disk)
      → Inside overlay d a.0
      → ((e : Disk) → Inside overlay d e → Inside overlay e (f e).0)
      → Inside overlay d (and_then o a f).0
  and_then-Inside (e, some x) f d i next = i
  and_then-Inside (e, none) f d i next = Inside-trans overlay i (next e i)

  module _ (m : Manifest) (env : List EnvVar) (c : IsConfined m) where
    -- Laying a source tree out and rendering the templates write in the overlay only, on success and on
    -- every error, if the manifest has no `..` in a destination: outside of the overlay every file and
    -- directory is as it was, and no directory is lost. (The overlay exists. There are no symbolic links
    -- in it. Fetching the source and pruning it come before.)
    pub lay-Inside :
        (root : Node) (d : Disk)
        → Exists overlay d
        → Inside overlay d (lay o m env overlay root d).0
    unfolding lay
    lay-Inside root d x =
        and_then-Inside (layout o (rules_of m.layout_rules) root overlay d)
          (λ d'. rendered o (templates o.faults env overlay m.template_rules d')) d
          (layout-Inside (rules_of m.layout_rules) root c.0 d x)
          (λ e i.
            rendered-Inside e (templates o.faults env overlay m.template_rules e)
              (templates-Inside env m.template_rules c.1 e (Inside-Exists overlay i x)))
