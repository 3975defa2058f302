-- ===== src/Credentials/Tests.antt =====
-- A logout at a concrete store.
use nap_cli.Prelude.{◌≡◌, refl, true, false, [], ◌∷◌}
use nap_cli.Prelude.Dict.{lookup}
use nap_cli.Prelude.Json.{str}
use nap_cli.Prelude.Result.{ok}
use nap_cli.Credentials.Store.{
  Surroundings, Store, Content, missing, holds, tombstone, selected, read, logout, logout_at,
  atomic_json,
}
use nap_cli.Credentials.Logout.{IsLoggedOut, logout-IsLoggedOut}

abbrev usual : Surroundings
usual = record { auth_file = false; legacy_given = false }

abbrev user_login : Content
user_login = ("token", str "user-token") ∷ []

abbrev project_login : Content
project_login = ("token", str "project-token") ∷ ("base_url", str "here") ∷ []

abbrev logged_in : Store
logged_in = record {
  user_slot = holds user_login;
  project_slot = holds project_login;
  legacy_slot = missing;
  explicit_slot = missing;
  selection_slot = holds (("project_id", str "p1") ∷ []);
}

abbrev logged_off : Store
logged_off = record logged_in { project_slot = holds (tombstone project_login) }

logs_out : logout usual true logged_in ≡ ok logged_off
unfolding logout selected logout_at atomic_json lookup
logs_out = refl

logout-IsLoggedOut_example : IsLoggedOut (read usual logged_off)
logout-IsLoggedOut_example = logout-IsLoggedOut usual logged_in logged_off logs_out
