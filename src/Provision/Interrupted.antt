-- ===== src/Provision/Interrupted.antt =====
-- What Run makes of addons/ that an earlier run has left half laid.
use csfleet.Prelude.{
  ℕ, zero, suc, ◌+◌, true, ◌&&◌, Option, some, String, String_discrete, ◌≡◌, inl, inr, split_if,
  refl, sym, ◌∙◌, ap, Option-cases, arith,
}
use csfleet.Fleet.Services.{Answer, got, failed}
use csfleet.Provision.{
  ModBundle, Receipt, partial, Base, Host, same_text, same_bundle, load_receipt, exists,
  ensure_base_ownership, ensure_image, steam_update, update_loop, up_to_date, ensure_game,
  reconcile_mods, finish, after_game, run, max_steam_attempts,
}
use csfleet.Provision.Receipts.{unless_failed, steam_addons}

same_text_refl : (s : String) → same_text s s ≡ true
same_text_refl s = elim (String_discrete s s) [ yes e ↦ ground arith | no n ↦ absurd (n refl) ]

same_bundle_refl : (m : ModBundle) → same_bundle m m ≡ true
same_bundle_refl m = ground (arith, same_text_refl m.metamod, same_text_refl m.css)

module _ (o : Host) where
  update_loop-addons : (left n : ℕ) (b : Base) → (update_loop o left n b).0.addons ≡ b.addons
  unfolding update_loop
  update_loop-addons zero n b = refl
  update_loop-addons (suc left) n b =
      let b' = (steam_update o n b).0 in
      elim (Option-cases (steam_update o n b).1) [
        | inr (m, e) ↦ rw (e, update_loop) (steam_addons o n b)
        | inl e ↦ elim (Option-cases b'.game) [
          | inr (id, g) ↦ rw (e, update_loop) (rw g (steam_addons o n b))
          | inl g ↦
              rw (e, update_loop) (rw g (update_loop-addons left (n + 1) b' ∙ steam_addons o n b))
        ]
      ]

  ensure_game-addons : (r : Receipt) (b : Base) → (ensure_game o r b).0.addons ≡ b.addons
  unfolding ensure_game
  ensure_game-addons r b =
      split_if (λ (p : Base × Answer String). p.0.addons ≡ b.addons) (up_to_date o r b) _ _
        (λ _. refl) (λ _. update_loop-addons max_steam_attempts 1 b)

  finish-addons : (r : Receipt) (b : Base) → (finish o r b).0.addons ≡ b.addons
  unfolding finish
  finish-addons r b =
      let kept = λ (p : Base × Option String). p.0.addons ≡ b.addons in
      unless_failed kept o.bake_hook _ _ (λ e. refl)
        (unless_failed kept o.save _ _ (λ e. refl) refl)

  reconcile_mods-partial :
      (r : Receipt) (b : Base)
      → b.addons ≡ partial
      → o.resolve_mods ≡ got r.mods
      → reconcile_mods o r b ≡ (b, got r.mods)
  unfolding reconcile_mods exists
  reconcile_mods-partial r b a f =
      let same : exists b.addons && same_bundle r.mods r.mods ≡ true =
        rw (a, same_bundle_refl r.mods) refl in
      rw (f, reconcile_mods) (rw same refl)

  abbrev StaysPartial : Base × Option String → Type 0
  StaysPartial (b, e) = b.addons ≡ partial

  after_game-StaysPartial :
      (r : Receipt) (p : Base × Answer String)
      → p.0.addons ≡ partial
      → o.resolve_mods ≡ got r.mods
      → StaysPartial (after_game o r p)
  after_game-StaysPartial r (b, failed e) a f = a
  after_game-StaysPartial r (b, got id) a f =
      let r' = record r { build = id } in
      rw (reconcile_mods-partial r' b a f)
        (finish-addons (record { build = id; mods = r.mods }) b ∙ a)

  -- When addons/ is half laid and the receipt names the latest mods, a run leaves it half laid, whatever
  -- else it does: it takes the mods for up to date.
  pub run_stays_partial :
      (b : Base) (r : Receipt)
      → b.receipt ≡ some r
      → b.addons ≡ partial
      → o.resolve_mods ≡ got r.mods
      → (run o b).0.addons ≡ partial
  unfolding run load_receipt
  run_stays_partial b r e a f =
      let r' = load_receipt b.receipt in
      let f' : o.resolve_mods ≡ got r'.mods =
        f ∙ ap (λ (x : Option Receipt). got (load_receipt x).mods) (sym e) in
      unless_failed StaysPartial o.make_base _ _ (λ _. a)
        (unless_failed StaysPartial (ensure_base_ownership o) _ _ (λ _. a)
          (unless_failed StaysPartial (ensure_image o) _ _ (λ _. a)
            (after_game-StaysPartial r' (ensure_game o r' b) (ensure_game-addons r' b ∙ a) f')))
