-- ===== src/Credentials/Logout.antt =====
-- Who has logged out of a project has no token there.
use nap_cli.Prelude.{
  String, ◌≡◌, refl, sym, ap, ◌∙◌, inl, inr, Bool, true, false, none, some, [], ◌∷◌, string_eq,
  ◌=?◌, Bool-cases,
}
use mathlib.Core.Bool.{false≢true}
use mathlib.Core.Path.{subst}
use nap_cli.Prelude.Dict.{
  lookup, insert, lookup-nil, lookup-cons, lookup-insert, lookup-insert_self,
}
use nap_cli.Prelude.Json.{bool}
use nap_cli.Prelude.Result.{Result, ok, raise, ◌>>=◌, bind-ok}
use nap_cli.Credentials.Store.{
  CredentialError, symbolic_link, Content, Slot, missing, link, unreadable, holds, Place, user_file,
  project_file, legacy_file, explicit_file, selection_file, Source, Store, Surroundings, slot_at,
  put, read_json, replaced, atomic_json, is_there, profile_is_user, by_profile, selected_by,
  selected, is_selection_key, only_selection, merged, read, value_of, tombstone, logout_at, logout,
}

-- What is read has no token of any kind, and is marked as logged out.
abbrev pub IsLoggedOut : Result CredentialError Content → Type 0
IsLoggedOut (raise error) = Unit
IsLoggedOut (ok d) =
    (lookup "token" d ≡ none)
    × (lookup "access_token" d ≡ none)
    × (lookup "refresh_token" d ≡ none)
    × (lookup "logged_out" d ≡ some (bool true))

replaced-ok :
    (slot : Slot) (place : Place) (d : Content) (s t : Store)
    → replaced slot place d s ≡ ok t
    → put place d s ≡ t
replaced-ok link place d s t e = absurd (refused e)
  where
    refused : ◌≡◌ {A = Result CredentialError Store} (raise symbolic_link) (ok t) → ⊥
    refused e = cc
replaced-ok missing place d s t e = cc (e)
replaced-ok unreadable place d s t e = cc (e)
replaced-ok (holds c) place d s t e = cc (e)

slot_at-put : (place : Place) (d : Content) (s : Store) → slot_at place (put place d s) ≡ holds d
slot_at-put user_file d s = refl
slot_at-put project_file d s = refl
slot_at-put legacy_file d s = refl
slot_at-put explicit_file d s = refl
slot_at-put selection_file d s = refl

-- A write to the file that is chosen keeps the choice.
by_profile-put :
    (s : Store) (d : Content) (u p l : Bool)
    → is_there s.project_slot ≡ p
    → is_there s.legacy_slot ≡ l
    → ((put (by_profile u p l).0 d s).selection_slot ≡ s.selection_slot)
      × (by_profile u
            (is_there (put (by_profile u p l).0 d s).project_slot)
            (is_there (put (by_profile u p l).0 d s).legacy_slot)
          ≡ by_profile u p l)
by_profile-put s d true p l a b = (refl, refl)
by_profile-put s d false true l a b = (refl, refl)
by_profile-put s d false false true a b = (refl, rw a refl)
by_profile-put s d false false false a b = (refl, rw a (rw b refl))

place_inj :
    (c e : Place × Source) → ◌≡◌ {A = Result CredentialError (Place × Source)} (ok c) (ok e) → c ≡ e
place_inj c e h = cc

selected_by-put :
    (a l : Bool) (s : Store) (chosen : Place × Source) (d : Content)
    → selected_by a l s ≡ ok chosen
    → selected_by a l (put chosen.0 d s) ≡ ok chosen
selected_by-put true l s chosen d h = h
selected_by-put false true s chosen d h = h
selected_by-put false false s chosen d h =
    let choice = λ (selection : Content).
      by_profile (profile_is_user (lookup "credential_profile" selection)) (is_there s.project_slot)
        (is_there s.legacy_slot) in
    let (selection, reads, gives) =
      bind-ok (read_json s.selection_slot) (λ selection. ok (choice selection)) chosen h in
    subst (λ (c : Place × Source). selected_by false false (put c.0 d s) ≡ ok c)
      (place_inj (choice selection) chosen gives) (go selection reads)
  where
    go :
        (selection : Content)
        → read_json s.selection_slot ≡ ok selection
        → selected_by false false (
            put
              (by_profile
                (profile_is_user (lookup "credential_profile" selection))
                (is_there s.project_slot)
                (is_there s.legacy_slot)).0
              d
              s)
          ≡ ok (
              by_profile
                (profile_is_user (lookup "credential_profile" selection))
                (is_there s.project_slot)
                (is_there s.legacy_slot))
    go selection reads =
        let (kept, same) =
          by_profile-put s d (profile_is_user (lookup "credential_profile" selection))
            (is_there s.project_slot) (is_there s.legacy_slot) refl refl in
        rw kept (rw reads (ap ok same))

only_selection-none :
    (k : String) (d : Content) → is_selection_key k ≡ false → lookup k (only_selection d) ≡ none
only_selection-none k [] h = lookup-nil k
only_selection-none k ((j, v) ∷ d) h = elim (Bool-cases (is_selection_key j)) [
  | inr e ↦ rw e (only_selection-none k d h)
  | inl e ↦ rw e (
      lookup-cons k j v (only_selection d) ∙ elim (Bool-cases (k =? j)) [
        | inl same ↦
            absurd (false≢true (sym h ∙ ap is_selection_key ((string_eq.beq_iff k j).0 same) ∙ e))
        | inr other ↦ rw other (only_selection-none k d h)
      ])
]

-- A key that neither the selection nor the tombstone has.
merged-none :
    (k : String) (previous selection : Content)
    → is_selection_key k ≡ false
    → (k =? "logged_out") ≡ false
    → (k =? "base_url") ≡ false
    → lookup k (merged (only_selection selection) (tombstone previous)) ≡ none
merged-none k previous selection a b c =
    lookup-insert k "logged_out" (bool true)
      (insert "base_url" (value_of (lookup "base_url" previous)) (only_selection selection))
    ∙ rw b (
        lookup-insert k "base_url" (value_of (lookup "base_url" previous))
          (only_selection selection)
        ∙ rw c (only_selection-none k selection a))

merged-marked :
    (previous selection : Content)
    → lookup "logged_out" (merged (only_selection selection) (tombstone previous))
      ≡ some (bool true)
merged-marked previous selection =
    lookup-insert_self "logged_out" (bool true)
      (insert "base_url" (value_of (lookup "base_url" previous)) (only_selection selection))

read-tombstone :
    (previous : Content) (slot : Slot)
    → IsLoggedOut (
        read_json slot >>= λ selection. ok (merged (only_selection selection) (tombstone previous)))
read-tombstone previous link = tt
read-tombstone previous unreadable = tt
read-tombstone previous missing = (
  merged-none "token" previous [] refl refl refl,
  merged-none "access_token" previous [] refl refl refl,
  merged-none "refresh_token" previous [] refl refl refl,
  merged-marked previous [],
)
read-tombstone previous (holds selection) = (
  merged-none "token" previous selection refl refl refl,
  merged-none "access_token" previous selection refl refl refl,
  merged-none "refresh_token" previous selection refl refl refl,
  merged-marked previous selection,
)

-- After a logout of the project that returns, a read in the same surroundings finds no token, access
-- token or refresh token, of the project or of the user, and the mark of a logout, where it does not
-- raise.
pub logout-IsLoggedOut :
    (e : Surroundings) (s t : Store) → logout e true s ≡ ok t → IsLoggedOut (read e t)
unfolding logout logout_at atomic_json selected read
logout-IsLoggedOut e s t h =
    let (chosen, selects, ends) = bind-ok (selected e s) (λ chosen. logout_at chosen.0 s) t h in
    let (previous, _, writes) =
      bind-ok (read_json (slot_at chosen.0 s))
        (λ previous. atomic_json chosen.0 (tombstone previous) s) t ends in
    let put_there = replaced-ok (slot_at chosen.0 s) chosen.0 (tombstone previous) s t writes in
    subst (λ (u : Store). IsLoggedOut (read e u)) put_there
      (rw (selected_by-put e.auth_file e.legacy_given s chosen (tombstone previous) selects) (
        rw (slot_at-put chosen.0 (tombstone previous) s)
          (read-tombstone previous (put chosen.0 (tombstone previous) s).selection_slot)))
