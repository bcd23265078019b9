-- ===== src/Warzone/Leaving.antt =====
-- warzone_go, conn.go: when a thread ends, its connection gives up its slot and its entry.
use a_simple_game_server.Prelude.{
  ℕ, zero, suc, true, List, [], ◌∷◌, Option, none, some, ◌≡◌, ◌≢◌, refl, arith, ◌==◌, nat_eq,
  get_elem?, choose_some,
}
use a_simple_game_server.Warzone.Bytes.{Bytes}
use a_simple_game_server.Warzone.State.{Slot, Server, Env, modify, is_conn}
use a_simple_game_server.Warzone.Round.{conn_to_game_slot}
use a_simple_game_server.Warzone.Arena.{remove_from_game}
use a_simple_game_server.Warzone.Packets.{closed, After, Reply, empty_entry, cleanup, leave}
use a_simple_game_server.Warzone.System.{Phases, put_phase}
use a_simple_game_server.Warzone.Frames.{seats, remove_from_game-Has}
use a_simple_game_server.Warzone.Changes.{
  find_index-get_elem?, find_index-none, get_elem?-modify_other,
}
use a_simple_game_server.Warzone.Seats.{IsSeated, same-IsSeated, lost-IsSeated}

abbrev pub InOrder : Server → Phases → Type 0
InOrder srv ph = IsSeated (seats srv.slots) srv.conns ph

-- The slot behind a seat.
seats-get_elem? :
    (ss : List Slot) (n : ℕ) (o : Option ℕ)
    → get_elem? (seats ss) n ≡ some o
    → (s : Slot) × get_elem? ss n ≡ some s × s.conn ≡ o
seats-get_elem? [] n o at = absurd cc
seats-get_elem? (s ∷ ss) zero o at = (s, refl, cc)
seats-get_elem? (s ∷ ss) (suc n) o at = seats-get_elem? ss n o at

get_elem?-seats :
    (ss : List Slot) (n : ℕ) (s : Slot)
    → get_elem? ss n ≡ some s
    → get_elem? (seats ss) n ≡ some s.conn
get_elem?-seats [] n s at = absurd cc
get_elem?-seats (t ∷ ss) zero s at = cc
get_elem?-seats (t ∷ ss) (suc n) s at = get_elem?-seats ss n s at

eqb_same : (c : ℕ) → (c == c) ≡ true
eqb_same c = ground arith

module _ (srv : Server) (cid : ℕ) where
  is_conn-some : (o : Option ℕ) → is_conn cid o ≡ true → o ≡ some cid
  is_conn-some none h = absurd cc
  is_conn-some (some c) h = let same : c ≡ cid = ground arith in rw (same) refl

  -- A slot of the connection is found if there is one, and it is one.
  slot_of-none :
      (n : ℕ) → conn_to_game_slot srv cid ≡ none → get_elem? (seats srv.slots) n ≢ some (some cid)
  unfolding conn_to_game_slot
  slot_of-none n gone at =
      let (s, here, mine) = seats-get_elem? srv.slots n (some cid) at in
      let no = find_index-none (λ s. is_conn cid s.conn) srv.slots n s gone here in
      let yes : is_conn cid s.conn ≡ true = rw (mine) (eqb_same cid) in absurd cc

  slot_of-some :
      (g : ℕ) → conn_to_game_slot srv cid ≡ some g → get_elem? (seats srv.slots) g ≡ some (some cid)
  unfolding conn_to_game_slot
  slot_of-some g at =
      let (s, here, mine) = find_index-get_elem? (λ s. is_conn cid s.conn) srv.slots g at in
      let seat = get_elem?-seats srv.slots g s here in let same = is_conn-some s.conn mine in cc

module _ (env : Env) (ph : Phases) (cid : ℕ) where
  abbrev pub Good : After → Type 0
  Good a = InOrder a.server (put_phase cid a.phase ph)

  abbrev Left : Server × List (ℕ × Reply) → Type 0
  Left r =
      IsSeated (seats r.0.slots) (modify cid (λ c. empty_entry) r.0.conns) (put_phase cid closed ph)

  removed-Left :
      (srv : Server) (g : ℕ)
      → InOrder srv ph
      → conn_to_game_slot srv cid ≡ some g
      → Left (remove_from_game env srv cid, [])
  removed-Left srv g ok at =
      let (left, kept) = remove_from_game-Has env srv cid g at in
      lost-IsSeated (seats srv.slots) srv.conns ph ok cid _ _ closed
        (λ c ne. rw (kept) (get_elem?-modify_other cid c _ srv.conns ne)) tt g
        (slot_of-some srv cid g at) left

  pub leave-Good : (srv : Server) (s : Bytes) → InOrder srv ph → Good (leave env srv cid s)
  unfolding cleanup conn_to_game_slot
  leave-Good srv s ok =
      choose_some Left (conn_to_game_slot srv cid)
        (λ gone.
          same-IsSeated (seats srv.slots) srv.conns ph ok cid _ _ closed
            (λ c ne. get_elem?-modify_other cid c _ srv.conns ne) tt refl
            (λ n at. absurd (slot_of-none srv cid n gone at)))
        (λ g at. removed-Left _ g ok at)
