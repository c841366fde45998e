-- ===== src/Database/Tests.antt =====
-- The store's theorems at one server of a cluster, under a collation that tells all names apart.
use csfleet.Prelude.{
  ℕ, ◌≡◌, ◌≢◌, refl, Bool, true, false, none, some, List, [], ◌∷◌, arith, String, String_discrete,
  ltb, ◌*◌, ite,
}
use csfleet.Database.Rows.{Hours, ServerRow, ClusterRow, DesiredState, ok, err, no_rows}
use csfleet.Database.Sets.{
  clear_override, delete_items, items_at, has_name, assign_item, assign_items, clear_items,
  mark_override, set_tx, global, cluster, server, Entry, Sets, Collation, exec_all, transact,
  set_scoped, clear_scoped, effective_set, has_marker,
}
use csfleet.Database.Sets.Inheritance.{
  healthy, walk, parents, effective_set-walk, set_scoped-server, set_scoped-cluster,
  clear_scoped-server,
}
use csfleet.Database.Sets.Success.{all_known, distinct, set_scoped-atomic}
use csfleet.Database.Env.{
  EnvVarRow, last_row, or_else, value_of, rows_in, global_rows, load_env, effective_env,
  load_env-precedence,
}
use csfleet.Database.Tables.{
  delete, delete_cluster_row, delete_server_row, clashes, select, placed, Store, get_server,
  get_cluster, has_member, insert_server,
}
use csfleet.Database.Crud.{clear_env, delete_server, delete_cluster}
use csfleet.Database.Crud.Leftovers.{Bare, delete_server-Bare, delete_cluster-Bare}
use csfleet.Database.Crud.Links.{all_linked, IsLinked}
use csfleet.Database.Crud.Writes.{server_inserted, exec-IsLinked, resolve_server-IsLinked}
use csfleet.Database.Resolve.{resolve_server}
use csfleet.Database.Scopes.{
  set_server_plugins, set_scoped_plugins, effective_plugins, effective_configs,
  set_server_plugins_lem,
}
use csfleet.Database.Tables.{select, delete}
use csfleet.Database.Catalog.{
  is_assigned, is_assigned, HasBody, upsert_entry, get_entry, upsert-get, delete_entry, AllListed,
  delete_entry-AllListed,
}
use csfleet.Database.Users.{
  UserRow, user_exists, missing, user_hash, create_user, delete_user, create_user-delete_user,
}

-- Hours as natural numbers, where -1 is 0.
abbrev pub whole_hours : Hours
whole_hours = record {
  Value = ℕ;
  no_limit = 0;
  positive = λ v. ltb 0 v;
  duration = λ v. v * 3600000000000;
  column = λ v. v;
  no_limit_lem = refl;
}

pub binary_refl : (a : String) → ite (String_discrete a a) true false ≡ true
binary_refl a = ground arith

pub binary_euclid :
    (a b x : String)
    → ite (String_discrete a x) true false ≡ true
    → ite (String_discrete b x) true false ≡ true
    → ite (String_discrete a b) true false ≡ true
binary_euclid a b x e k = ground arith

abbrev pub binary : Collation
binary = record {
  same = λ a b. ite (String_discrete a b) true false;
  order_by = λ xs. xs;
  same_refl = binary_refl;
  same_euclid = binary_euclid;
}

abbrev pub no_fault : ℕ → Bool
no_fault n = false

abbrev catalog : List Entry
catalog =
    record { name = "metamod"; filename = ""; content = "" }
    ∷ record { name = "retakes"; filename = ""; content = "" }
    ∷ []

abbrev bare_sets : Sets
bare_sets = record { catalog = catalog; overrides = []; assignments = [] }

effective_set-walk_example :
    effective_set binary healthy "dust" "eu" bare_sets
    ≡ ok (walk binary bare_sets ((server, "dust") ∷ parents "eu"))
effective_set-walk_example = effective_set-walk binary "dust" "eu" bare_sets

abbrev dust_set : Sets
dust_set = (set_scoped binary no_fault server "dust" ("retakes" ∷ []) bare_sets).1

abbrev eu_set : Sets
eu_set = (set_scoped binary no_fault cluster "eu" ("metamod" ∷ []) bare_sets).1

set_scoped-atomic_run :
    (((i : ℕ) → no_fault i ≡ false)
      → all_known binary ("metamod" ∷ "retakes" ∷ []) ("retakes" ∷ []) ≡ true
      → distinct binary ("retakes" ∷ []) ≡ true
      → (set_scoped binary no_fault server "dust" ("retakes" ∷ []) bare_sets).0 ≡ true)
    × ((set_scoped binary no_fault server "dust" ("retakes" ∷ []) bare_sets).0 ≡ false
        → (set_scoped binary no_fault server "dust" ("retakes" ∷ []) bare_sets).1 ≡ bare_sets)
set_scoped-atomic_run = set_scoped-atomic binary no_fault server "dust" ("retakes" ∷ []) bare_sets

dust_set_lem :
    set_scoped binary no_fault server "dust" ("retakes" ∷ []) bare_sets ≡ (true, dust_set)
unfolding set_scoped transact exec_all set_tx mark_override clear_items assign_items assign_item
    has_name has_marker String_discrete items_at delete_items
dust_set_lem = refl

set_scoped-server_run :
    ((cl : String) → effective_set binary healthy "dust" cl dust_set ≡ ok ("retakes" ∷ []))
    × ((other cl : String)
        → binary.same other "dust" ≡ false
        → effective_set binary healthy other cl dust_set
          ≡ effective_set binary healthy other cl bare_sets)
set_scoped-server_run =
    set_scoped-server binary no_fault "dust" ("retakes" ∷ []) bare_sets dust_set dust_set_lem

eu_set_lem : set_scoped binary no_fault cluster "eu" ("metamod" ∷ []) bare_sets ≡ (true, eu_set)
unfolding set_scoped transact exec_all set_tx mark_override clear_items assign_items assign_item
    has_name has_marker String_discrete items_at delete_items
eu_set_lem = refl

member_inherits :
    (has_marker binary server "dust" bare_sets.overrides ≡ false
      → effective_set binary healthy "dust" "eu" eu_set ≡ ok ("metamod" ∷ []))
    × (has_marker binary server "dust" bare_sets.overrides ≡ true
        → effective_set binary healthy "dust" "eu" eu_set
          ≡ effective_set binary healthy "dust" "eu" bare_sets)
    × (effective_set binary healthy "dust" "" eu_set
        ≡ effective_set binary healthy "dust" "" bare_sets)
member_inherits =
    set_scoped-cluster binary no_fault "eu" ("metamod" ∷ []) bare_sets eu_set eu_set_lem refl "dust"

abbrev cleared_set : Sets
cleared_set = (clear_scoped binary no_fault server "dust" dust_set).1

cleared_set_lem : clear_scoped binary no_fault server "dust" dust_set ≡ (true, cleared_set)
unfolding clear_scoped transact exec_all clear_override clear_items
cleared_set_lem = refl

cleared_inherits :
    effective_set binary healthy "dust" "eu" cleared_set ≡ ok (walk binary dust_set (parents "eu"))
cleared_inherits =
    clear_scoped-server binary no_fault "dust" "eu" dust_set cleared_set cleared_set_lem

abbrev pub env_rows : List EnvVarRow
env_rows =
    record { key = "gslt"; value = "a"; scope = global; scope_name = "" }
    ∷ record { key = "gslt"; value = "b"; scope = server; scope_name = "dust" }
    ∷ []

load_env-precedence_run :
    (effective_env binary "dust" "eu" env_rows "gslt"
      ≡ or_else (last_row "gslt" (rows_in binary server "dust" env_rows)) (
          or_else
            (last_row "gslt" (rows_in binary cluster "eu" env_rows))
            (last_row "gslt" (global_rows env_rows))))
    × (load_env binary "dust" "eu" env_rows "gslt"
        ≡ value_of (effective_env binary "dust" "eu" env_rows "gslt"))
load_env-precedence_run = load_env-precedence binary "dust" "eu" env_rows "gslt"

abbrev pub dust : ServerRow whole_hours
dust = record {
  name = "dust";
  ip = "10.0.0.2";
  port = none;
  cluster = some "eu";
  accepting_conns = none;
  restart_after_hrs = none;
  stop_after_hrs = none;
  desired_state = DesiredState.running;
}

abbrev pub eu : ClusterRow whole_hours
eu = record {
  name = "eu";
  port = 27015;
  accepting_conns = true;
  restart_after_hrs = none;
  stop_after_hrs = none;
  lb_policy = "round_robin";
}

abbrev pub only_eu : Store whole_hours
only_eu = record {
  servers = [];
  clusters = eu ∷ [];
  plugins = dust_set;
  configs = bare_sets;
  env = env_rows;
}

abbrev pub both : Store whole_hours
both = record only_eu { servers = dust ∷ [] }

inserted : insert_server binary dust only_eu ≡ some both
unfolding insert_server placed select String_discrete clashes
inserted = refl

exec-IsLinked_example : IsLinked binary both
unfolding all_linked
exec-IsLinked_example = exec-IsLinked binary (server_inserted dust) only_eu both inserted refl

dust_resolves :
    resolve_server whole_hours (get_server binary both) (get_cluster binary both) "dust"
    ≢ err no_rows
unfolding all_linked select String_discrete get_server
dust_resolves = resolve_server-IsLinked binary both "dust" dust no_rows refl refl

abbrev without_dust : Store whole_hours
without_dust = (delete_server binary no_fault "dust" both).1

without_dust_lem : delete_server binary no_fault "dust" both ≡ (true, without_dust)
unfolding delete_server transact exec_all delete_server_row clear_env clear_items clear_override
without_dust_lem = refl

delete_server-Bare_run :
    (get_server binary without_dust "dust" ≡ err no_rows) × Bare binary server "dust" without_dust
delete_server-Bare_run =
    delete_server-Bare binary no_fault "dust" both without_dust without_dust_lem

abbrev without_eu : Store whole_hours
without_eu = (delete_cluster binary no_fault "eu" only_eu).1

without_eu_lem : delete_cluster binary no_fault "eu" only_eu ≡ (true, without_eu)
unfolding delete_cluster transact exec_all delete_cluster_row has_member clear_env clear_items
    clear_override
without_eu_lem = refl

eu_deleted :
    (has_member binary "eu" only_eu.servers ≡ false)
    × (get_cluster binary without_eu "eu" ≡ err no_rows)
    × (without_eu.servers ≡ [])
    × Bare binary cluster "eu" without_eu
eu_deleted = delete_cluster-Bare binary no_fault "eu" only_eu without_eu without_eu_lem

abbrev newer : Entry
newer = record { name = "retakes"; filename = ""; content = "v2" }

newer_is_read :
    HasBody newer (get_entry binary (upsert_entry binary newer dust_set) "retakes")
    × (binary.same "retakes" "metamod" ≡ false
        → binary.same "metamod" "retakes" ≡ false
        → get_entry binary (upsert_entry binary newer dust_set) "metamod"
          ≡ get_entry binary dust_set "metamod")
newer_is_read = upsert-get binary newer "metamod" dust_set

abbrev assigned : Sets
assigned = record bare_sets {
  assignments = record { item = "retakes"; scope = server; scope_name = "dust" } ∷ [];
}

abbrev fewer : Sets
fewer = record assigned { catalog = record { name = "retakes"; filename = ""; content = "" } ∷ [] }

metamod_deleted : delete_entry binary "metamod" assigned ≡ some fewer
unfolding delete_entry is_assigned delete String_discrete
metamod_deleted = refl

retakes_found :
    select (λ (e : Entry). e.name) binary.same "retakes" catalog
    ≡ some (record { name = "retakes"; filename = ""; content = "" })
unfolding select String_discrete
retakes_found = refl

assigned-AllListed : AllListed binary assigned.assignments assigned.catalog
assigned-AllListed = (λ e. ground (arith, retakes_found), tt)

metamod_was_free : AllListed binary fewer.assignments fewer.catalog
metamod_was_free =
    delete_entry-AllListed binary "metamod" assigned fewer metamod_deleted assigned-AllListed

abbrev admin : List UserRow
admin = record { username = "admin"; pass_hash = "x" } ∷ []

admin_is_taken :
    ((create_user binary "admin" "y" admin).1 ≡ user_exists
      → (user_hash binary admin "admin" ≢ err no_rows)
        × ((create_user binary "admin" "y" admin).0 ≡ admin))
    × ((create_user binary "admin" "y" admin).1 ≢ user_exists
        → (user_hash binary admin "admin" ≡ err no_rows)
          × (user_hash binary (create_user binary "admin" "y" admin).0 "admin" ≡ ok "y"))
    × (user_hash binary (delete_user binary "admin" admin).0 "admin" ≡ err no_rows)
    × ((delete_user binary "admin" admin).1 ≡ missing
        → (user_hash binary admin "admin" ≡ err no_rows))
admin_is_taken = create_user-delete_user binary "admin" "y" admin

abbrev retakes_only : Store whole_hours
retakes_only = (set_server_plugins binary no_fault "dust" ("retakes" ∷ []) both).1

retakes_only_lem :
    set_server_plugins binary no_fault "dust" ("retakes" ∷ []) both ≡ (true, retakes_only)
unfolding set_server_plugins set_scoped_plugins set_scoped transact exec_all set_tx mark_override
    clear_items assign_items assign_item has_name has_marker String_discrete items_at delete_items
retakes_only_lem = refl

retakes_only_is_effective :
    (effective_plugins binary healthy "dust" "eu" retakes_only ≡ ok ("retakes" ∷ []))
    × ((other cl' : String)
        → effective_configs binary healthy other cl' retakes_only
          ≡ effective_configs binary healthy other cl' both)
    × (retakes_only.env ≡ both.env)
    × (retakes_only.servers ≡ both.servers)
retakes_only_is_effective =
    set_server_plugins_lem binary no_fault "dust" "eu" ("retakes" ∷ []) both retakes_only
      retakes_only_lem
