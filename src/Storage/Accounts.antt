-- ===== src/Storage/Accounts.antt =====
-- What store.go promises about accounts: registration, passwords and later saves.
use text.Mathlib.TextEquality.{eq_iff}
use a_simple_game_server.Prelude.{
  String, Bool, false, ◌||◌, none, some, ◌≡◌, ◌≢◌, refl, sym, ap, ◌∙◌, inl, inr, arith, ◌==◌,
  string_eq, Bool-cases, if◌then◌else◌,
}
use a_simple_game_server.Prelude.Maps.{lookup, lookup-insert_self, lookup-insert_ne}
use a_simple_game_server.Protocol.{UserProfile}
use a_simple_game_server.Storage.{
  Store, StoreError, write_failed, empty_credentials, wrong_password, user_exists, new_profile,
  save_users, register, admitted, refused, authenticate, kept_hash, save_profile,
}

new_profile-hash : (u h : String) → (new_profile u h).password_hash ≡ h
unfolding new_profile
new_profile-hash u h = refl

save_profile-lookup :
    (writes : Bool) (s : Store) (profile old : UserProfile)
    → profile.password_hash ≡ ""
    → lookup profile.username s.users ≡ some old
    → lookup profile.username (save_profile writes s profile).0.users
      ≡ some (record profile { password_hash = old.password_hash })
unfolding save_profile save_users kept_hash
save_profile-lookup writes s profile old blank known =
    let kept : kept_hash s profile ≡ record profile { password_hash = old.password_hash } =
      ground (arith, eq_iff profile.password_hash "") in
    let put = lookup-insert_self profile.username (kept_hash s profile) s.users in
    elim (Bool-cases writes) [
      | inl w ↦ rw w (put ∙ ap some kept)
      | inr w ↦ rw w (put ∙ ap some kept)
    ]

module _ (hash : String → String) where
  nonempty : (a b : String) → a ≢ "" → b ≢ "" → (a == "" || b == "") ≡ false
  nonempty a b na nb = ground (arith, eq_iff a "", eq_iff b "")

  -- After a registration with a new name, non-empty name and password, whether or not the file could be
  -- written: of the non-empty passwords exactly those with the same hash log in, to the fresh profile; every other account
  -- is as before; a second registration of the name is refused and changes nothing; and an error is
  -- returned exactly if the file could not be written.
  pub register_lem :
      (writes : Bool) (s : Store) (u pw attempt other : String)
      → u ≢ ""
      → pw ≢ ""
      → lookup u s.users ≡ none
      → attempt ≢ ""
      → other ≢ u
      → (let s' = (register hash writes s u pw).0 in
          (authenticate hash s' u attempt ≡ (
            if hash pw == hash attempt
            then admitted (new_profile u (hash pw))
            else refused wrong_password))
          × (lookup other s'.users ≡ lookup other s.users)
          × (register hash writes s' u attempt ≡ (s', some (user_exists u)))
          × ((register hash writes s u pw).1 ≡ (if writes then none else some write_failed)))
  unfolding register authenticate save_users
  register_lem writes s u pw attempt other nu npw new na ne =
      let filled = nonempty u pw nu npw in
      let tried = nonempty u attempt nu na in
      let fresh = new_profile u (hash pw) in
      let there = lookup-insert_self u fresh s.users in
      let apart = lookup-insert_ne u other fresh s.users (λ e. ne (sym e)) in
      let named : fresh.password_hash ≡ hash pw = new_profile-hash u (hash pw) in
      elim (Bool-cases writes) [
        | inl w ↦ (
          simp (filled, new, w, tried, there, named),
          simp (filled, new, w) apart,
          simp (filled, new, w, tried, there),
          simp (filled, new, w),
        )
        | inr w ↦ (
          simp (filled, new, w, tried, there, named),
          simp (filled, new, w) apart,
          simp (filled, new, w, tried, there),
          simp (filled, new, w),
        )
      ]

  authenticate_lem :
      (s : Store) (u attempt : String) (p : UserProfile)
      → lookup u s.users ≡ some p
      → authenticate hash s u attempt ≡ (
          if u == "" || attempt == ""
          then refused empty_credentials
          else if p.password_hash == hash attempt
          then admitted p
          else refused wrong_password)
  unfolding authenticate
  authenticate_lem s u attempt p at = rw (at, authenticate)

  -- A save of a profile without a hash, as the game makes them, keeps the password: who could log in
  -- before still can, to the saved profile with the old hash, and who could not is refused as before.
  pub save_profile-password :
      (writes : Bool) (s : Store) (profile old : UserProfile) (attempt : String)
      → profile.password_hash ≡ ""
      → lookup profile.username s.users ≡ some old
      → (let s' = (save_profile writes s profile).0 in
          (authenticate hash s profile.username attempt ≡ admitted old
            → authenticate hash s' profile.username attempt
              ≡ admitted (record profile { password_hash = old.password_hash }))
          × ((e : StoreError)
              → authenticate hash s profile.username attempt ≡ refused e
              → authenticate hash s' profile.username attempt ≡ refused e))
  save_profile-password writes s profile old attempt blank known =
      let before = authenticate_lem s profile.username attempt old known in
      let kept : UserProfile = record profile { password_hash = old.password_hash } in
      let after =
        authenticate_lem (save_profile writes s profile).0 profile.username attempt kept
          (save_profile-lookup writes s profile old blank known) in
      elim (Bool-cases (profile.username == "" || attempt == "")) [
        | inl empty ↦
            let b : authenticate hash s profile.username attempt ≡ refused empty_credentials =
              before ∙ rw empty in
            let a : authenticate hash (save_profile writes s profile).0 profile.username attempt
                ≡ refused empty_credentials =
              after ∙ rw empty in
            ((λ h. cc), λ e h. cc)
        | inr full ↦ elim (Bool-cases (old.password_hash == hash attempt)) [
          | inl right ↦
              let b : authenticate hash s profile.username attempt ≡ admitted old =
                before ∙ simp (full, right) in
              let a : authenticate hash (save_profile writes s profile).0 profile.username attempt
                  ≡ admitted kept =
                after ∙ simp (full, right) in
              ((λ h. a), λ e h. cc)
          | inr wrong ↦
              let b : authenticate hash s profile.username attempt ≡ refused wrong_password =
                before ∙ simp (full, wrong) in
              let a : authenticate hash (save_profile writes s profile).0 profile.username attempt
                  ≡ refused wrong_password =
                after ∙ simp (full, wrong) in
              ((λ h. cc), λ e h. cc)
        ]
      ]
