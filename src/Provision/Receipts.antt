-- ===== src/Provision/Receipts.antt =====
-- Whether the receipt that Run saves tells what stands in base/.
use csfleet.Prelude.{
  ℕ, zero, suc, ◌+◌, Bool, true, ◌&&◌, Option, none, some, String, String_discrete, ◌≡◌, ◌≢◌, ◌⊎◌,
  inl, inr, split_if, refl, sym, ◌∙◌, ap, Option-cases, arith,
}
use csfleet.Fleet.Services.{Answer, got, failed, Answer-cases}
use csfleet.Provision.{
  ModBundle, Receipt, Addons, absent, laid, Base, Step, done, failed_before, failed_midway, Host,
  same_text, same_bundle, load_receipt, exists, ensure_base_ownership, ensure_image, steam_update,
  update_loop, up_to_date, ensure_game, build_bundle, built, reconcile_mods, finish, after_mods,
  after_game, run, max_steam_attempts,
}

-- The recorded mods are the ones in addons/, or addons/ is gone.
abbrev pub IsTrue : Receipt → Base → Type 0
IsTrue r b = (b.addons ≡ absent) ⊎ (b.addons ≡ laid r.mods)

-- A complete build under this name, and addons/ as before.
abbrev HasGame : Base → Base × Answer String → Type 0
HasGame b (b', failed e) = Unit
HasGame b (b', got id) = (b'.game ≡ some id) × (b'.addons ≡ b.addons)

abbrev HasMods : Base → Base × Answer ModBundle → Type 0
HasMods b (b', failed e) = Unit
HasMods b (b', got mods) = (b'.addons ≡ laid mods) × (b'.game ≡ b.game)

same_text-eq : (s t : String) → same_text s t ≡ true → s ≡ t
same_text-eq s t h = elim (String_discrete s t) [ yes e ↦ e | no n ↦ absurd (no_match s t n h) ]
  where
    no_match : (s t : String) → s ≢ t → same_text s t ≡ true → ⊥
    no_match s t n h = ground arith

same_bundle-eq : (a b : ModBundle) → same_bundle a b ≡ true → a ≡ b
same_bundle-eq a b h = ground (arith, same_text-eq a.metamod b.metamod, same_text-eq a.css b.css)

and_left : (a b : Bool) → a && b ≡ true → a ≡ true
and_left a b h = ground arith

and_right : (a b : Bool) → a && b ≡ true → b ≡ true
and_right a b h = ground arith

pub unless_failed {ℓ} :
    {X : Type 0} (P : X → Type ℓ) (o : Option String) (f : String → X) (x : X)
    → ((e : String) → P (f e))
    → P x
    → P (elim o [ some e ↦ f e | none ↦ x ])
unless_failed P none f x bad good = good
unless_failed P (some e) f x bad good = bad e

unless_broken {ℓ} :
    {X : Type 0} (P : X → Type ℓ) (s : Step) (f g : String → X) (x : X)
    → ((e : String) → P (f e))
    → ((e : String) → P (g e))
    → P x
    → P (elim s [ failed_before e ↦ f e | failed_midway e ↦ g e | done ↦ x ])
unless_broken P done f g x before midway good = good
unless_broken P (failed_before e) f g x before midway good = before e
unless_broken P (failed_midway e) f g x before midway good = midway e

module _ (o : Host) where
  pub steam_addons : (n : ℕ) (b : Base) → (steam_update o n b).0.addons ≡ b.addons
  unfolding steam_update
  steam_addons n b = ground arith

  update_loop-HasGame :
      (left n : ℕ) (b b0 : Base) → b.addons ≡ b0.addons → HasGame b0 (update_loop o left n b)
  unfolding update_loop
  update_loop-HasGame zero n b b0 s = tt
  update_loop-HasGame (suc left) n b b0 s =
      let b' = (steam_update o n b).0 in
      elim (Option-cases (steam_update o n b).1) [
        | inr (m, e) ↦ rw (e, update_loop) tt
        | inl e ↦ elim (Option-cases b'.game) [
          | inr (id, g) ↦ rw (e, update_loop) (rw g (g, steam_addons n b ∙ s))
          | inl g ↦
              rw (e, update_loop)
                (rw g (update_loop-HasGame left (n + 1) b' b0 (steam_addons n b ∙ s)))
        ]
      ]

  up_to_date-game : (r : Receipt) (b : Base) → up_to_date o r b ≡ true → b.game ≡ some r.build
  unfolding up_to_date
  up_to_date-game r b h = elim (Answer-cases o.latest_build) [
    | inr (e, f) ↦ absurd (no_answer e f)
    | inl (latest, f) ↦ elim (Option-cases b.game) [
      | inl g ↦ absurd (no_game latest f g)
      | inr (id, g) ↦
          let both : same_text r.build latest && same_text id latest ≡ true = rw (f, g) at h in
          g
          ∙ ap some (
              same_text-eq id latest (ground arith)
              ∙ sym (same_text-eq r.build latest (ground arith)))
    ]
  ]
    where
      no_answer : (e : String) → o.latest_build ≡ failed e → ⊥
      no_answer e f = ground arith

      no_game : (latest : String) → o.latest_build ≡ got latest → b.game ≡ none → ⊥
      no_game latest f g = ground arith

  ensure_game-HasGame : (r : Receipt) (b : Base) → HasGame b (ensure_game o r b)
  unfolding ensure_game
  ensure_game-HasGame r b =
      split_if (HasGame b) (up_to_date o r b) _ _ (λ h. (up_to_date-game r b h, refl))
        (λ _. update_loop-HasGame max_steam_attempts 1 b b refl)

  build_bundle-HasMods :
      (want : ModBundle) (b : Base) → HasMods b (built o want (build_bundle o want b))
  unfolding build_bundle
  build_bundle-HasMods want b =
      let good = λ (r : Base × Option String). HasMods b (built o want r) in
      unless_broken good o.remove_addons _ _ _ (λ e. tt) (λ e. tt)
        (unless_failed good o.make_work _ _ (λ e. tt)
          (unless_broken good o.lay_metamod _ _ _ (λ e. tt) (λ e. tt)
            (unless_broken good o.lay_css _ _ _ (λ e. tt) (λ e. tt)
              (unless_failed good o.core_json _ _ (λ e. tt) (refl, refl)))))

  there-laid :
      (r : Receipt) (b : Base) → exists b.addons ≡ true → IsTrue r b → b.addons ≡ laid r.mods
  unfolding exists
  there-laid r b h (inl e) = absurd (none_there b.addons e h)
    where
      none_there : (a : Addons) → a ≡ absent → exists a ≡ true → ⊥
      none_there a e h = ground arith
  there-laid r b h (inr e) = e

  reconcile_mods-HasMods :
      (r : Receipt) (b : Base)
      → ((want : ModBundle) → o.resolve_mods ≡ got want → want ≡ r.mods → IsTrue r b)
      → HasMods b (reconcile_mods o r b)
  unfolding reconcile_mods
  reconcile_mods-HasMods r b truth = elim (Answer-cases o.resolve_mods) [
    | inr (e, f) ↦ rw (f, reconcile_mods) tt
    | inl (want, f) ↦
        rw (f, reconcile_mods)
          (split_if (HasMods b) (exists b.addons && same_bundle want r.mods) _ _
            (λ h. (
              there-laid r b (and_left (exists b.addons) (same_bundle want r.mods) h) (
                  truth want f (
                    same_bundle-eq want r.mods
                      (and_right (exists b.addons) (same_bundle want r.mods) h))),
              refl,
            ))
            (λ _. build_bundle-HasMods want b))
  ]

  -- A receipt was saved, which tells what stands in base/.
  abbrev pub Provisions : Base → Type 0
  Provisions b =
      (r : Receipt) × (b.receipt ≡ some r) × (b.game ≡ some r.build) × (b.addons ≡ laid r.mods)

  abbrev pub Ended : Base × Option String → Type 0
  Ended (b, some e) = Unit
  Ended (b, none) = Provisions b

  finish-Ended :
      (r : Receipt) (b : Base)
      → b.game ≡ some r.build
      → b.addons ≡ laid r.mods
      → Ended (finish o r b)
  unfolding finish
  finish-Ended r b g a =
      unless_failed Ended o.bake_hook _ _ (λ e. tt)
        (unless_failed Ended o.save _ _ (λ e. tt) (r, refl, g, a))

  after_mods-Ended :
      (id : String) (b0 : Base) (r : Base × Answer ModBundle)
      → b0.game ≡ some id
      → HasMods b0 r
      → Ended (after_mods o id r)
  after_mods-Ended id b0 (b, failed e) g h = tt
  after_mods-Ended id b0 (b, got mods) g h =
      finish-Ended (record { build = id; mods = mods }) b (h.1 ∙ g) h.0

  module _ (b0 : Base) (truthful : (r : Receipt) → b0.receipt ≡ some r → IsTrue r b0)
      (named : (want : ModBundle) → o.resolve_mods ≡ got want → want.css ≢ "") where
    loaded :
        (o' : Option Receipt)
        → b0.receipt ≡ o'
        → (want : ModBundle) → o.resolve_mods ≡ got want
        → want ≡ (load_receipt o').mods
        → IsTrue (load_receipt o') b0
    unfolding load_receipt
    loaded none e want f z = absurd (named want f (ap (λ (m : ModBundle). m.css) z))
    loaded (some r) e want f z = truthful r e

    kept : (r : Receipt) (b : Base) → b.addons ≡ b0.addons → IsTrue r b0 → IsTrue r b
    kept r b s (inl e) = inl (s ∙ e)
    kept r b s (inr e) = inr (s ∙ e)

    after_game-Ended :
        (r : Base × Answer String) → HasGame b0 r → Ended (after_game o (load_receipt b0.receipt) r)
    after_game-Ended (b, failed e) h = tt
    after_game-Ended (b, got id) h =
        let r = record (load_receipt b0.receipt) { build = id } in
        after_mods-Ended id b (reconcile_mods o r b) h.0 (
          reconcile_mods-HasMods r b (λ want f z. kept r b (h.1) (loaded b0.receipt refl want f z)))

    -- A run that ends without an error has saved a receipt that tells what stands in base/: the build
    -- that SteamCMD's manifest reports as complete, and the mods that are laid in addons/. (The receipt
    -- before, if there was one, named the mods in addons/ or addons/ was gone, and a release has a tag.)
    pub run-Ended : Ended (run o b0)
    unfolding run
    run-Ended =
        unless_failed Ended o.make_base _ _ (λ e. tt)
          (unless_failed Ended (ensure_base_ownership o) _ _ (λ e. tt)
            (unless_failed Ended (ensure_image o) _ _ (λ e. tt)
              (after_game-Ended (ensure_game o (load_receipt b0.receipt) b0)
                (ensure_game-HasGame (load_receipt b0.receipt) b0))))
