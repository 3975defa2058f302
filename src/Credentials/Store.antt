-- ===== src/Credentials/Store.antt =====
-- `CredentialStore` of resources/scripts/napseer_credentials.py, outside a transaction. Its five
-- paths are five different files, and each call has the locks that it takes.
use nap_cli.Prelude.{
  String, Bool, true, false, not, ◌||◌, Option, none, some, [], ◌∷◌, if◌then◌else◌, string_eq, ◌=?◌,
}
use nap_cli.Prelude.Dict.{Dict, lookup, insert}
use nap_cli.Prelude.Json.{Json, null, bool, str, truthy}
use nap_cli.Prelude.Result.{Result, ok, raise, ◌>>=◌}

pub data CredentialError : Type 0 where
  unsafe_state symbolic_link not_logged_in : CredentialError

abbrev pub Content : Type 0
Content = Dict String Json

-- What stands at a path: nothing, a symbolic link, a file that cannot be read as a dictionary, or
-- one that can.
pub data Slot : Type 0 where
  missing link unreadable : Slot
  holds : Content → Slot

pub data Place : Type 0 where
  user_file project_file legacy_file explicit_file selection_file : Place

pub data Source : Type 0 where
  explicit user project legacy_project : Source

pub record Store : Type 0 where
  pub user_slot : Slot
  pub project_slot : Slot
  pub legacy_slot : Slot
  pub explicit_slot : Slot
  pub selection_slot : Slot

-- Whether NAPSEER_AUTH_FILE is set, and whether the store was made with another legacy path.
pub record Surroundings : Type 0 where
  pub auth_file : Bool
  pub legacy_given : Bool

abbrev pub slot_at : Place → Store → Slot
slot_at user_file s = s.user_slot
slot_at project_file s = s.project_slot
slot_at legacy_file s = s.legacy_slot
slot_at explicit_file s = s.explicit_slot
slot_at selection_file s = s.selection_slot

abbrev pub put : Place → Content → Store → Store
put user_file d s = record s { user_slot = holds d }
put project_file d s = record s { project_slot = holds d }
put legacy_file d s = record s { legacy_slot = holds d }
put explicit_file d s = record s { explicit_slot = holds d }
put selection_file d s = record s { selection_slot = holds d }

-- `read_json`
abbrev pub read_json : Slot → Result CredentialError Content
read_json missing = ok []
read_json link = raise unsafe_state
read_json unreadable = raise unsafe_state
read_json (holds d) = ok d

-- `atomic_json`
abbrev pub replaced : Slot → Place → Content → Store → Result CredentialError Store
replaced link place d s = raise symbolic_link
replaced slot place d s = ok (put place d s)

unfoldable pub atomic_json : Place → Content → Store → Result CredentialError Store
atomic_json place d s = replaced (slot_at place s) place d s

-- `path.exists() or path.is_symlink()`
abbrev pub is_there : Slot → Bool
is_there missing = false
is_there slot = true

-- `selection.get("credential_profile") == "user"`
abbrev pub profile_is_user : Option Json → Bool
profile_is_user (some (str profile)) = profile =? "user"
profile_is_user other = false

-- The tests of `selected` after the selection is read.
abbrev pub by_profile : Bool → Bool → Bool → Place × Source
by_profile is_user has_project has_legacy =
    if is_user
    then (user_file, user)
    else if has_project
    then (project_file, project)
    else if has_legacy
    then (legacy_file, legacy_project)
    else (user_file, user)

abbrev pub selected_by : Bool → Bool → Store → Result CredentialError (Place × Source)
selected_by true legacy_given s = ok (explicit_file, explicit)
selected_by false true s = ok (legacy_file, explicit)
selected_by false false s = do
  selection ← read_json s.selection_slot
  ok (
      by_profile (profile_is_user (lookup "credential_profile" selection)) (is_there s.project_slot)
        (is_there s.legacy_slot))

unfoldable pub selected : Surroundings → Store → Result CredentialError (Place × Source)
selected e s = selected_by e.auth_file e.legacy_given s

-- `SELECTION_KEYS`
abbrev pub is_selection_key : String → Bool
is_selection_key k =
    (k =? "project_id")
    || ((k =? "project_slug")
        || ((k =? "project_name")
            || ((k =? "project_encryption_state")
                || ((k =? "project_signing_key_fingerprint") || (k =? "credential_profile")))))

-- `{k: v for k, v in items if k in SELECTION_KEYS}`
abbrev pub only_selection : Content → Content
only_selection [] = []
only_selection ((k, v) ∷ d) =
    let rest = only_selection d in if is_selection_key k then (k, v) ∷ rest else rest

-- `{**first, **second}`
abbrev pub merged : Content → Content → Content
merged first [] = first
merged first ((k, v) ∷ second) = merged (insert k v first) second

unfoldable pub read : Surroundings → Store → Result CredentialError Content
read e s = do
  chosen ← selected e s
  credentials ← read_json (slot_at chosen.0 s)
  selection ← read_json s.selection_slot
  ok (merged (only_selection selection) credentials)

abbrev pub value_of : Option Json → Json
value_of none = null
value_of (some v) = v

-- `not current.get("token") or current.get("logged_out")`
abbrev pub is_unusable : Content → Bool
is_unusable current =
    not (truthy (value_of (lookup "token" current)))
    || truthy (value_of (lookup "logged_out" current))

unfoldable pub use_user : Store → Result CredentialError Store
use_user s = do
  current ← read_json s.user_slot
  if is_unusable current then raise not_logged_in else do
    selection ← read_json s.selection_slot
    atomic_json selection_file (insert "credential_profile" (str "user") selection) s

unfoldable pub login : Content → Bool → Store → Result CredentialError Store
login credentials true s = do
  t ← atomic_json project_file credentials s
  selection ← read_json t.selection_slot
  atomic_json selection_file (insert "credential_profile" (str "project") selection) t
login credentials false s = atomic_json user_file credentials s

abbrev pub tombstone : Content → Content
tombstone previous =
    ("base_url", value_of (lookup "base_url" previous)) ∷ ("logged_out", bool true) ∷ []

-- `logout` of a chosen file.
unfoldable pub logout_at : Place → Store → Result CredentialError Store
logout_at place s = do
  previous ← read_json (slot_at place s)
  atomic_json place (tombstone previous) s

unfoldable pub logout : Surroundings → Bool → Store → Result CredentialError Store
logout e true s = do chosen ← selected e s; logout_at chosen.0 s
logout e false s = logout_at user_file s
