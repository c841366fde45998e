-- ===== src/Provision/Tests.antt =====
-- Runs of the provisioning at concrete answers of the host.
use csfleet.Prelude.{
  ℕ, ◌∷◌, [], Option, none, some, String, ◌≡◌, ◌≢◌, inl, refl, ◌∙◌, ap, String_discrete, ◌==◌,
  if◌then◌else◌,
}
use mathlib.Core.Bool.{false≢true}
use text.Mathlib.TextEquality.{eq_iff}
use csfleet.Fleet.Services.{Answer, got, failed}
use csfleet.Provision.{
  ModBundle, Receipt, Addons, absent, partial, laid, Base, Step, done, failed_midway, Host, line,
  run, pull_loop,
}
use csfleet.Provision.Receipts.{Ended, run-Ended}
use csfleet.Provision.Interrupted.{run_stays_partial}

abbrev latest_mods : ModBundle
latest_mods = record { metamod = "mmsource-2.0"; css = "v1.0.300" }

abbrev old_receipt : Receipt
old_receipt = record { build = "100"; mods = latest_mods }

-- The second attempt completes the game.
abbrev steam_answers : ℕ → Option String × Option String
steam_answers n = if n == 1 then (none, none) else (none, some "101")

-- Everything works, with this outcome of the unpacking of CounterStrikeSharp.
abbrev host : Step → Host
host css = record {
  make_base = none;
  euid = 0;
  owner = got (1000, 1000);
  chown = none;
  pull = got (line "" ∷ []);
  latest_build = got "101";
  drop_manifest = none;
  steam = steam_answers;
  resolve_mods = got latest_mods;
  remove_addons = done;
  make_work = none;
  lay_metamod = done;
  lay_css = css;
  core_json = none;
  bake_hook = none;
  save = none;
}

-- The game and its mods as a run has left them.
abbrev installed : Addons → Base
installed a = record { game = some "100"; addons = a; receipt = some old_receipt; updates = 0 }

second_attempt : (run (host done) (installed (laid latest_mods))).0.updates ≡ 2
unfolding run String_discrete
second_attempt = refl

-- addons/ is gone, and the download of CounterStrikeSharp breaks off.
left_partial : (run (host (failed_midway "unexpected EOF")) (installed absent)).0.addons ≡ partial
unfolding run String_discrete
left_partial = refl

-- The run after that ends without an error.
not_repaired : (run (host done) (installed partial)).1 ≡ none
unfolding run String_discrete
not_repaired = refl

pull_fails : pull_loop (line "" ∷ line "denied" ∷ []) ≡ some "denied"
unfolding pull_loop String_discrete
pull_fails = refl

abbrev tag_of : Answer ModBundle → String
tag_of (got m) = m.css
tag_of (failed e) = ""

tagged : (want : ModBundle) → got latest_mods ≡ got want → want.css ≢ ""
tagged want f z = false≢true ((eq_iff "v1.0.300" "").1 (ap tag_of f ∙ z))

run-Ended_example : Ended (host done) (run (host done) (installed absent))
run-Ended_example = run-Ended (host done) (installed absent) (λ r e. inl refl) tagged

run_stays_partial_example : (run (host done) (installed partial)).0.addons ≡ partial
run_stays_partial_example =
    run_stays_partial (host done) (installed partial) old_receipt refl refl refl
