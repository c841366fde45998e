-- ===== src/Api/Variables.antt =====
-- The requests on the variables touch the global ones only.
use csfleet.Prelude.{
  ℕ, ◌≡◌, refl, ◌∙◌, inl, inr, Bool, List, [], ◌∷◌, ◌++◌, Option, none, some, String, arith,
  Bool-cases, split_if,
}
use text.Mathlib.Text.{◌==◌ as str_eq}
use csfleet.Database.Rows.{Hours}
use csfleet.Database.Sets.{Scope, global, cluster, server, Collation, exec_all, transact}
use csfleet.Database.Env.{EnvVarRow, rows_in, set_value, delete_env as delete_rows}
use csfleet.Database.Tables.{Store}
use csfleet.Database.Crud.{set_env_tx}
use csfleet.Database.Scopes.{set_env_var, delete_env_var}
use csfleet.Api.Http.{World}
use csfleet.Api.Catalog.{SetEnvRequest, env_scope, set_env, delete_env}

module _ (c : Collation) where
  -- A scope that is not the global one.
  abbrev pub IsOwn : Scope → Type 0
  IsOwn global = ⊥
  IsOwn cluster = Unit
  IsOwn server = Unit

  rows_in-append :
      (sc : Scope) (n k v m : String) (rows : List EnvVarRow)
      → IsOwn sc
      → rows_in c sc n
          (rows ++ (record { key = k; value = v; scope = global; scope_name = m } ∷ []))
        ≡ rows_in c sc n rows
  unfolding rows_in
  rows_in-append global n k v m rows o = absurd o
  rows_in-append cluster n k v m [] o = refl
  rows_in-append cluster n k v m (r ∷ rows) o =
      ground (arith, rows_in-append cluster n k v m rows o)
  rows_in-append server n k v m [] o = refl
  rows_in-append server n k v m (r ∷ rows) o = ground (arith, rows_in-append server n k v m rows o)

  rows_in-set_value :
      (sc : Scope) (n k v m : String) (rows : List EnvVarRow)
      → IsOwn sc
      → rows_in c sc n (set_value c k v global m rows) ≡ rows_in c sc n rows
  unfolding rows_in set_value
  rows_in-set_value sc n k v m [] o = refl
  rows_in-set_value sc n k v m (r ∷ rows) o = ground (arith, rows_in-set_value sc n k v m rows o)

  rows_in-delete_rows :
      (sc : Scope) (n k m : String) (rows : List EnvVarRow)
      → IsOwn sc
      → rows_in c sc n (delete_rows c k global m rows) ≡ rows_in c sc n rows
  unfolding rows_in delete_rows
  rows_in-delete_rows sc n k m [] o = refl
  rows_in-delete_rows sc n k m (r ∷ rows) o = ground (arith, rows_in-delete_rows sc n k m rows o)

-- The two requests that write variables, with the failures of their statements.
pub data EnvRequest : Type 0 where
  env_set : (ℕ → Bool) → Option SetEnvRequest → EnvRequest
  env_deleted : Bool → String → String → String → EnvRequest

module _ {h : Hours} (c : Collation) where
  abbrev pub env_step : EnvRequest → World h → World h
  env_step (env_set fault body) w = (set_env c fault body w).0
  env_step (env_deleted fails key scope n) w = (delete_env c fails key scope n w).0

  abbrev pub env_run : List EnvRequest → World h → World h
  env_run [] w = w
  env_run (r ∷ rs) w = env_run rs (env_step r w)

  module _ (sc : Scope) (n : String) (o : IsOwn c sc) where
    abbrev Same : {A : Type 0} → World h → World h × A → Type 0
    Same w p = rows_in c sc n p.0.store.env ≡ rows_in c sc n w.store.env

    set_env_var-own :
        (fault : ℕ → Bool) (k v m : String) (t : Store h)
        → rows_in c sc n (set_env_var c fault k v global m t).1.env ≡ rows_in c sc n t.env
    unfolding set_env_var transact exec_all set_env_tx
    set_env_var-own fault k v m t =
        ground (arith, rows_in-append c sc n k v m t.env o, rows_in-set_value c sc n k v m t.env o)

    env_step-own :
        (r : EnvRequest) (w : World h)
        → rows_in c sc n (env_step r w).store.env ≡ rows_in c sc n w.store.env
    unfolding set_env delete_env delete_env_var
    env_step-own (env_set fault none) w = refl
    env_step-own (env_set fault (some req)) w =
        split_if (Same w) (str_eq req.key "") _ _ (λ e. refl)
          (λ e.
            split_if (Same w) (str_eq (env_scope req.scope) "global") _ _
              (λ q. set_env_var-own fault req.key req.value req.scope_name w.store) (λ q. refl))
    env_step-own (env_deleted fails key scope m) w =
        split_if (Same w) (str_eq key "") _ _ (λ e. refl)
          (λ e.
            split_if (Same w) (str_eq (env_scope scope) "global") _ _
              (λ q. elim (Bool-cases fails) [
                | inl f ↦ rw f refl
                | inr f ↦ rw f (rows_in-delete_rows c sc n key m w.store.env o)
              ])
              (λ q. refl))

    -- The variables of a server or of a cluster stay as they were created: no sequence of requests on
    -- the variables changes a row of these scopes, whatever scope the requests name.
    pub env_run-own :
        (rs : List EnvRequest) (w : World h)
        → rows_in c sc n (env_run rs w).store.env ≡ rows_in c sc n w.store.env
    env_run-own [] w = refl
    env_run-own (r ∷ rs) w = env_run-own rs (env_step r w) ∙ env_step-own r w
