-- ===== src/Warzone/Threads.antt =====
-- warzone_go, conn.go: every step of a connection's thread keeps the seats in order.
use a_simple_game_server.Prelude.{
  ℕ, ◌+◌, leb, not, Bool, [], ◌∷◌, some, ◌≡◌, ◌≢◌, refl, inl, inr, ◌||◌, ◌==◌, nat_eq, get_elem?,
  choose, choose_some,
}
use a_simple_game_server.Warzone.Bytes.{Bytes}
use a_simple_game_server.Warzone.Database.{Message}
use a_simple_game_server.Warzone.State.{ConnEntry, Server, Env, modify, is_some, find_index}
use a_simple_game_server.Warzone.Arena.{apply_action}
use a_simple_game_server.Warzone.Packets.{
  Phase, auth, lobby, playing, closed, After, pkt_register, pkt_login, pkt_join, pkt_action,
  pkt_ready, pkt_stats_request, pkt_heartbeat, pkt_heartbeat_ack, pkt_disconnect, recv_header,
  recv_payload, touch_hb,
}
use a_simple_game_server.Warzone.Conn.{
  answered, authenticate, auth_step, seated, join, lobby_step, handle_ready, handle_action,
  game_step, conn_step,
}
use a_simple_game_server.Warzone.System.{Phases, put_phase}
use a_simple_game_server.Warzone.Frames.{
  seats, Has, seats-modify, handle_ready-Has, apply_action-Has,
}
use a_simple_game_server.Warzone.Changes.{modify-id, get_elem?-modify_other, get_elem?-modify_same}
use a_simple_game_server.Warzone.Seats.{Fits, Fits-entry, IsSeated, same-IsSeated, gained-IsSeated}
use a_simple_game_server.Warzone.Leaving.{InOrder, Good, leave-Good}

module _ (env : Env) (ph : Phases) (cid : ℕ) where
  abbrev G : After → Type 0
  G = Good env ph cid

  -- The entry of the thread, after a change that makes it fit the new phase.
  changed-Fits :
      (srv : Server) (q p : Phase) (f : ConnEntry → ConnEntry)
      → InOrder srv ph
      → ph cid ≡ q
      → q ≢ closed
      → ((e : ConnEntry) → Fits (some e) q → Fits (some (f e)) p)
      → Fits (get_elem? (modify cid f srv.conns) cid) p
  changed-Fits srv q p f ok now lives fits = elim (Fits-entry (get_elem? srv.conns cid) q was) [
    | inl bad ↦ absurd (lives bad)
    | inr (e, at, _) ↦ rw (get_elem?-modify_same cid f srv.conns e at) (fits e (rw (← at) was))
  ]
    where
      was : Fits (get_elem? srv.conns cid) q
      was = rw (← now) (ok.entries cid)

  -- The thread goes on from the phase `q` with the same slots, and an entry that fits.
  go_on :
      (srv : Server) (q p : Phase) (f : ConnEntry → ConnEntry)
      → InOrder srv ph
      → ph cid ≡ q
      → q ≢ closed
      → ((e : ConnEntry) → Fits (some e) q → Fits (some (f e)) p)
      → (q ≡ playing → p ≡ playing)
      → IsSeated (seats srv.slots) (modify cid f srv.conns) (put_phase cid p ph)
  go_on srv q p f ok now lives fits plays =
      same-IsSeated (seats srv.slots) srv.conns ph ok cid _ _ p
        (λ c ne. get_elem?-modify_other cid c f srv.conns ne)
        (changed-Fits srv q p f ok now lives fits) refl
        (λ n at. plays (let was = ok.plays n cid at in cc))

  -- Nothing changes but the phase.
  stay_on :
      (srv : Server) (q p : Phase)
      → InOrder srv ph
      → ph cid ≡ q
      → q ≢ closed
      → ((e : ConnEntry) → Fits (some e) q → Fits (some e) p)
      → (q ≡ playing → p ≡ playing)
      → InOrder srv (put_phase cid p ph)
  stay_on srv q p ok now lives fits plays =
      rw (← modify-id cid srv.conns) (go_on srv q p (λ e. e) ok now lives fits plays)

  touch_hb-Good :
      (srv : Server) (q : Phase)
      → InOrder srv ph
      → ph cid ≡ q
      → q ≢ closed
      → InOrder (touch_hb env srv cid) (put_phase cid q ph)
  unfolding touch_hb
  touch_hb-Good srv q ok now lives =
      go_on srv q q (λ e. record e { last_hb = env.clock }) ok now lives (touched q) (λ e. e)
    where
      touched :
          (q : Phase) (e : ConnEntry)
          → Fits (some e) q
          → Fits (some (record e { last_hb = env.clock })) q
      touched (auth n) e h = h
      touched lobby e h = h
      touched playing e h = h
      touched closed e h = h

  -- The same slots and entries.
  unmoved :
      (srv srv' : Server) (q : Phase)
      → InOrder srv ph
      → ph cid ≡ q
      → q ≢ closed
      → Has (seats srv.slots) srv.conns srv'
      → InOrder srv' (put_phase cid q ph)
  unmoved srv srv' q ok now lives (slots, conns) =
      rw (slots, conns) (stay_on srv q q ok now lives (λ e h. h) (λ e. e))

  answered-Good :
      (srv : Server) (attempt : ℕ) (username s : Bytes) (answer : Bool × Message)
      → InOrder srv ph
      → ph cid ≡ auth attempt
      → G (answered env srv cid attempt username s answer)
  unfolding answered
  answered-Good srv attempt username s answer ok now =
      choose G (not env.sends) (λ _. leave-Good env ph cid srv s ok)
        (λ _.
          choose G answer.0
            (λ _.
              go_on srv (auth attempt) lobby _ ok now (λ e. absurd cc) (λ e fits. (fits, refl))
                (λ e. absurd cc))
            (λ _.
              choose G (leb 10 (attempt + 1)) (λ _. leave-Good env ph cid srv s ok)
                (λ _.
                  stay_on srv (auth attempt) (auth (attempt + 1)) ok now (λ e. absurd cc)
                    (λ e fits. fits) (λ e. absurd cc))))

  authenticate-Good :
      (srv : Server) (attempt kind len : ℕ) (s : Bytes)
      → InOrder srv ph
      → ph cid ≡ auth attempt
      → G (authenticate env srv cid attempt kind len s)
  unfolding authenticate
  authenticate-Good srv attempt kind len s ok now =
      choose_some G (recv_payload 96 len s) (λ _. leave-Good env ph cid srv s ok)
        (λ (payload, rest) _.
          choose G (kind == pkt_register) (λ _. answered-Good _ attempt _ rest _ ok now)
            (λ _. answered-Good srv attempt _ rest _ ok now))

  auth_step-Good :
      (srv : Server) (attempt : ℕ) (s : Bytes)
      → InOrder srv ph
      → ph cid ≡ auth attempt
      → G (auth_step env srv cid attempt s)
  unfolding auth_step
  auth_step-Good srv attempt s ok now =
      let q = auth attempt in
      let lives : q ≢ closed = λ e. absurd cc in
      let same = stay_on srv q q ok now lives (λ e h. h) (λ e. e) in
      choose_some G (recv_header s) (λ _. leave-Good env ph cid srv s ok)
        (λ (kind, len, rest) _.
          choose G (kind == pkt_disconnect) (λ _. leave-Good env ph cid srv rest ok)
            (λ _.
              choose G (kind == pkt_heartbeat) (λ _. touch_hb-Good srv q ok now lives)
                (λ _.
                  choose G (kind == pkt_heartbeat_ack) (λ _. touch_hb-Good srv q ok now lives)
                    (λ _.
                      choose G (kind == pkt_register || kind == pkt_login)
                        (λ _. authenticate-Good srv attempt kind len rest ok now) (λ _. same)))))

  join-Good : (srv : Server) (s : Bytes) → InOrder srv ph → ph cid ≡ lobby → G (join env srv cid s)
  unfolding join seated
  join-Good srv s ok now =
      choose_some G (find_index (λ g. not (is_some g.conn)) srv.slots)
        (λ _. stay_on srv lobby lobby ok now (λ e. absurd cc) (λ e h. h) (λ e. e))
        (λ gs _.
          gained-IsSeated (seats srv.slots) srv.conns ph ok cid _ _ playing
            (λ c ne. get_elem?-modify_other cid c _ srv.conns ne)
            (changed-Fits srv lobby playing _ ok now (λ e. absurd cc) (λ e h. h)) gs
            (λ e. absurd cc) refl (seats-modify gs _ (λ _. some cid) srv.slots (λ s. refl)))

  lobby_step-Good :
      (srv : Server) (s : Bytes) → InOrder srv ph → ph cid ≡ lobby → G (lobby_step env srv cid s)
  unfolding lobby_step
  lobby_step-Good srv s ok now =
      let lives : lobby ≢ closed = λ e. absurd cc in
      let same = stay_on srv lobby lobby ok now lives (λ e h. h) (λ e. e) in
      choose_some G (recv_header s) (λ _. leave-Good env ph cid srv s ok)
        (λ (kind, len, rest) _.
          choose G (kind == pkt_disconnect) (λ _. leave-Good env ph cid srv rest ok)
            (λ _.
              choose G (kind == pkt_heartbeat) (λ _. touch_hb-Good srv lobby ok now lives)
                (λ _.
                  choose G (kind == pkt_heartbeat_ack) (λ _. touch_hb-Good srv lobby ok now lives)
                    (λ _.
                      choose G (kind == pkt_join) (λ _. join-Good srv rest ok now)
                        (λ _. choose G (kind == pkt_stats_request) (λ _. same) (λ _. same))))))

  handle_action-Good :
      (srv : Server) (len : ℕ) (s : Bytes)
      → InOrder srv ph
      → ph cid ≡ playing
      → G (handle_action env srv cid len s)
  unfolding handle_action
  handle_action-Good srv len s ok now =
      choose_some G (recv_payload 1 len s) (λ _. leave-Good env ph cid srv s ok)
        (λ (payload, rest) _.
          let action : ℕ = elim payload [ [] ↦ 0 | a ∷ _ ↦ a ] in
          unmoved srv (apply_action env srv cid action) playing ok now (λ e. absurd cc)
            (apply_action-Has (seats srv.slots) srv.conns env srv cid action (refl, refl)))

  game_step-Good :
      (srv : Server) (s : Bytes) → InOrder srv ph → ph cid ≡ playing → G (game_step env srv cid s)
  unfolding game_step
  game_step-Good srv s ok now =
      let lives : playing ≢ closed = λ e. absurd cc in
      let same = stay_on srv playing playing ok now lives (λ e h. h) (λ e. e) in
      choose_some G (recv_header s) (λ _. leave-Good env ph cid srv s ok)
        (λ (kind, len, rest) _.
          choose G (kind == pkt_ready)
            (λ _.
              unmoved srv (handle_ready srv cid).0 playing ok now lives
                (handle_ready-Has (seats srv.slots) srv.conns srv cid (refl, refl)))
            (λ _.
              choose G (kind == pkt_action) (λ _. handle_action-Good srv len rest ok now)
                (λ _.
                  choose G (kind == pkt_stats_request) (λ _. same)
                    (λ _.
                      choose G (kind == pkt_heartbeat) (λ _. touch_hb-Good srv playing ok now lives)
                        (λ _.
                          choose G (kind == pkt_heartbeat_ack)
                            (λ _. touch_hb-Good srv playing ok now lives)
                            (λ _.
                              choose G (kind == pkt_disconnect)
                                (λ _. leave-Good env ph cid srv rest ok) (λ _. same)))))))

  pub step-Good :
      (srv : Server) (p : Phase) (s : Bytes)
      → InOrder srv ph
      → ph cid ≡ p
      → G (conn_step env srv cid p s)
  unfolding conn_step
  step-Good srv (auth n) s ok now = auth_step-Good srv n s ok now
  step-Good srv lobby s ok now = lobby_step-Good srv s ok now
  step-Good srv playing s ok now = game_step-Good srv s ok now
  step-Good srv closed s ok now =
      same-IsSeated (seats srv.slots) srv.conns ph ok cid _ _ closed (λ c _. refl) tt refl
        (λ n at. let was = ok.plays n cid at in cc)
