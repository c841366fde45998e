-- ===== src/Provision.antt =====
-- orchestration/provision: Run, which brings the shared base/ up to date, with game.go, mods.go,
-- receipt.go and image.go. What is in base/ is the build that the appmanifest reports as complete, the
-- state of addons/, and the receipt. What docker, SteamCMD, the network and the file system answer is the
-- parameter `Host`.
pub mod Receipts
pub mod Interrupted
pub mod Tests
use csfleet.Prelude.{
  ℕ, zero, suc, ◌+◌, Bool, true, false, ◌&&◌, List, [], ◌∷◌, Option, none, some, String, ite,
  String_discrete, ◌==◌, if◌then◌else◌,
}
use csfleet.Fleet.Services.{Answer, got, failed}

-- modBundle
pub record ModBundle : Type 0 where
  pub metamod : String
  pub css : String

-- receipt, with gameReceipt in place.
pub record Receipt : Type 0 where
  pub build : String
  pub mods : ModBundle

pub data Addons : Type 0 where
  absent : Addons
  partial : Addons
  laid : ModBundle → Addons

pub record Base : Type 0 where
  pub game : Option String
  pub addons : Addons
  pub receipt : Option Receipt
  pub updates : ℕ

-- A step that can fail before it has written anything, or after.
pub data Step : Type 0 where
  done : Step
  failed_before : String → Step
  failed_midway : String → Step

-- A line of docker's pull output: undecodable, or with the text of an error, which is mostly empty.
pub data PullLine : Type 0 where
  unreadable : String → PullLine
  line : (error : String) → PullLine

-- `steam` gives the error of the container of an attempt, and the complete build after it.
pub record Host : Type 0 where
  pub make_base : Option String
  pub euid : ℕ
  pub owner : Answer (ℕ × ℕ)
  pub chown : Option String
  pub pull : Answer (List PullLine)
  pub latest_build : Answer String
  pub drop_manifest : Option String
  pub steam : ℕ → Option String × Option String
  pub resolve_mods : Answer ModBundle
  pub remove_addons : Step
  pub make_work : Option String
  pub lay_metamod : Step
  pub lay_css : Step
  pub core_json : Option String
  pub bake_hook : Option String
  pub save : Option String

abbrev pub steam_uid : ℕ
steam_uid = 1000

abbrev pub max_steam_attempts : ℕ
max_steam_attempts = 4

abbrev pub same_text : String → String → Bool
same_text s t = ite (String_discrete s t) true false

abbrev pub same_bundle : ModBundle → ModBundle → Bool
same_bundle a b = same_text a.metamod b.metamod && same_text a.css b.css

-- The zero value, for a file that is missing or cannot be parsed.
abbrev pub no_receipt : Receipt
no_receipt = record { build = ""; mods = record { metamod = ""; css = "" } }

unfoldable pub load_receipt : Option Receipt → Receipt
load_receipt none = no_receipt
load_receipt (some r) = r

unfoldable pub pull_loop : List PullLine → Option String
pull_loop [] = none
pull_loop (unreadable e ∷ ls) = some e
pull_loop (line e ∷ ls) = let rest = pull_loop ls in ite (String_discrete e "") rest (some e)

unfoldable pub exists : Addons → Bool
exists absent = false
exists partial = true
exists (laid b) = true

module _ (o : Host) where
  unfoldable pub ensure_base_ownership : Option String
  ensure_base_ownership =
      if o.euid == steam_uid then owned o.owner else if o.euid == 0 then owned o.owner else none
    where
      owned : Answer (ℕ × ℕ) → Option String
      owned (failed e) = some e
      owned (got (u, g)) = if u == steam_uid && g == steam_uid then none else o.chown

  unfoldable pub ensure_image : Option String
  unfolding pull_loop
  ensure_image = elim o.pull [ failed e ↦ some e | got ls ↦ pull_loop ls ]

  -- steamUpdate: the folder is made and the appmanifest dropped first. SteamCMD leaves addons/ as it is.
  unfoldable pub steam_update : ℕ → Base → Base × Option String
  steam_update attempt b = elim o.drop_manifest [
    | some e ↦ (b, some e)
    | none ↦ let (e, id) = o.steam attempt in (record b { game = id; updates = b.updates + 1 }, e)
  ]

  -- The loop of ensureGame, with the attempts that are left.
  unfoldable pub update_loop : ℕ → ℕ → Base → Base × Answer String
  unfolding steam_update
  update_loop zero attempt b = (b, failed "game still reports incomplete")
  update_loop (suc left) attempt b =
      let (b', e) = steam_update attempt b in
      elim e [
        | some m ↦ (b', failed m)
        | none ↦ elim b'.game [ some id ↦ (b', got id) | none ↦ update_loop left (attempt + 1) b' ]
      ]

  abbrev pub is_current : Option String → String → String → Bool
  is_current none recorded latest = false
  is_current (some id) recorded latest = same_text recorded latest && same_text id latest

  unfoldable pub up_to_date : Receipt → Base → Bool
  up_to_date r b = elim o.latest_build [
    | failed e ↦ false
    | got latest ↦ is_current b.game r.build latest
  ]

  -- ensureGame, with the build that the receipt is to name.
  unfoldable pub ensure_game : Receipt → Base → Base × Answer String
  unfolding up_to_date update_loop
  ensure_game r b = if up_to_date r b then (b, got r.build) else update_loop max_steam_attempts 1 b

  abbrev pub with_addons : Base → Addons → Base
  with_addons b a = record b { addons = a }

  -- buildBundle
  unfoldable pub build_bundle : ModBundle → Base → Base × Option String
  build_bundle want b = elim o.remove_addons [
    | failed_before e ↦ (b, some e)
    | failed_midway e ↦ (with_addons b partial, some e)
    | done ↦ elim o.make_work [
      | some e ↦ (with_addons b absent, some e)
      | none ↦ elim o.lay_metamod [
        | failed_before e ↦ (with_addons b absent, some e)
        | failed_midway e ↦ (with_addons b partial, some e)
        | done ↦ elim o.lay_css [
          | failed_before e ↦ (with_addons b partial, some e)
          | failed_midway e ↦ (with_addons b partial, some e)
          | done ↦ elim o.core_json [
            | some e ↦ (with_addons b partial, some e)
            | none ↦ (with_addons b (laid want), none)
          ]
        ]
      ]
    ]
  ]

  abbrev pub built : ModBundle → Base × Option String → Base × Answer ModBundle
  built want (b, some e) = (b, failed e)
  built want (b, none) = (b, got want)

  -- reconcileMods
  unfoldable pub reconcile_mods : Receipt → Base → Base × Answer ModBundle
  unfolding build_bundle exists
  reconcile_mods r b = elim o.resolve_mods [
    | failed e ↦ (b, failed e)
    | got want ↦
        if exists b.addons && same_bundle want r.mods
        then (b, got r.mods)
        else built want (build_bundle want b)
  ]

  -- Run from the hook on.
  unfoldable pub finish : Receipt → Base → Base × Option String
  finish r b = elim o.bake_hook [
    | some e ↦ (b, some e)
    | none ↦ elim o.save [ some e ↦ (b, some e) | none ↦ (record b { receipt = some r }, none) ]
  ]

  abbrev pub after_mods : String → Base × Answer ModBundle → Base × Option String
  after_mods id (b, failed e) = (b, some e)
  after_mods id (b, got mods) = finish (record { build = id; mods = mods }) b

  abbrev pub after_game : Receipt → Base × Answer String → Base × Option String
  after_game r (b, failed e) = (b, some e)
  after_game r (b, got id) = after_mods id (reconcile_mods (record r { build = id }) b)

  -- Run
  unfoldable pub run : Base → Base × Option String
  unfolding ensure_base_ownership ensure_image ensure_game reconcile_mods finish load_receipt
  run b = elim o.make_base [
    | some e ↦ (b, some e)
    | none ↦ elim ensure_base_ownership [
      | some e ↦ (b, some e)
      | none ↦ elim ensure_image [
        | some e ↦ (b, some e)
        | none ↦ let r = load_receipt b.receipt in after_game r (ensure_game r b)
      ]
    ]
  ]
