-- ===== src/Storage/Tests.antt =====
-- The theorems about store.go at concrete inputs.
use text.Mathlib.TextEquality.{eq_iff}
use a_simple_game_server.Prelude.{
  pos, String, true, [], ◌∷◌, none, some, ◌≡◌, refl, arith, ◌==◌, string_eq, if◌then◌else◌,
}
use a_simple_game_server.Prelude.Maps.{lookup}
use a_simple_game_server.Protocol.{UserProfile}
use a_simple_game_server.Storage.{
  Store, StoreError, write_failed, wrong_password, user_exists, new_profile, register, admitted,
  refused, authenticate, save_profile,
}
use a_simple_game_server.Storage.Accounts.{register_lem, save_profile-password}

-- The identity in place of a hash.
abbrev plain : String → String
plain pw = pw

abbrev ann_saved : UserProfile
ann_saved = record {
  username = "ann";
  password_hash = "sesame";
  last_map = "cave";
  last_node = "node-b";
  x = pos 3;
  y = pos 4;
  hp = 80;
  max_hp = 120;
  attack = 35;
  potions = 1;
  treasures = 2;
  kills = 0;
  deaths = 0;
  victories = 0;
  alive = true;
}

abbrev one_user : Store
one_user = record {
  users = ("ann", ann_saved) ∷ [];
  sessions = [];
  users_file = [];
  hot_file = [];
  checkpoints = [];
}

abbrev ann_played : UserProfile
ann_played = record ann_saved { password_hash = ""; hp = 100 }

register_lem_example :
    (let s' = (register plain true one_user "ben" "secret").0 in
      (authenticate plain s' "ben" "guess" ≡ (
        if plain "secret" == plain "guess"
        then admitted (new_profile "ben" "secret")
        else refused wrong_password))
      × (lookup "ann" s'.users ≡ lookup "ann" one_user.users)
      × (register plain true s' "ben" "guess" ≡ (s', some (user_exists "ben")))
      × ((register plain true one_user "ben" "secret").1
          ≡ (if true then none else some write_failed)))
unfolding lookup
register_lem_example =
    register_lem plain true one_user "ben" "secret" "guess" "ann"
      (λ e. ground (arith, eq_iff "ben" "")) (λ e. ground (arith, eq_iff "secret" "")) refl
      (λ e. ground (arith, eq_iff "guess" "")) (λ e. ground (arith, eq_iff "ann" "ben"))

save_profile-password_example :
    (let s' = (save_profile true one_user ann_played).0 in
      (authenticate plain one_user "ann" "sesame" ≡ admitted ann_saved
        → authenticate plain s' "ann" "sesame"
          ≡ admitted (record ann_played { password_hash = "sesame" }))
      × ((e : StoreError)
          → authenticate plain one_user "ann" "sesame" ≡ refused e
          → authenticate plain s' "ann" "sesame" ≡ refused e))
unfolding lookup
save_profile-password_example =
    save_profile-password plain true one_user ann_played ann_saved "sesame" refl refl
