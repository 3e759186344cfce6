-- ===== src/Game/PlayerRegistry/Histories.antt =====
-- Histories of the registry's calls.
use iouring_runtime.Prelude.{
  contains, true, false, find-same, if_elim, ℕ, ◌≡◌, refl, sym, ap, ◌∙◌, subst, inl, inr, ◌||◌,
  Bool, List, [], ◌∷◌, Option, none, some, arith, ◌==◌, ◌↔◌, Option-cases, if_elim, find, erase,
}
use iouring_runtime.Game.PlayerRegistry.{
  PlayerRecord, PlayerRegistry, empty, register, unregister_by_session, unregister_by_player,
  bind_room_locked, clear_room_locked, session_of, bind_room_by_session, bind_room_by_player,
  clear_room_by_session, clear_room_by_player, find_by_session, find_by_player,
}
use iouring_runtime.Game.PlayerRegistry.Agreement.{
  Agrees, empty-Agrees, added, removed, changed, absent, none-ne-some, some-injective,
}

pub data Op : Type 0 where
  registers : ℕ → ℕ → Op
  unregisters_session unregisters_player : ℕ → Op
  binds_session binds_player : ℕ → ℕ → Option ℕ → Op
  clears_session clears_player : ℕ → Op

unfoldable pub step : PlayerRegistry → Op → PlayerRegistry
step r (registers s k) = (register r s k).1
step r (unregisters_session s) = (unregister_by_session r s).1
step r (unregisters_player k) = (unregister_by_player r k).1
step r (binds_session s i room) = (bind_room_by_session r s i room).1
step r (binds_player k i room) = (bind_room_by_player r k i room).1
step r (clears_session s) = (clear_room_by_session r s).1
step r (clears_player k) = (clear_room_by_player r k).1

unfoldable pub run : PlayerRegistry → List Op → PlayerRegistry
run r [] = r
run r (o ∷ ops) = run (step r o) ops

register-Agrees : (r : PlayerRegistry) (s k : ℕ) → Agrees r → Agrees (register r s k).1
unfolding register
register-Agrees r s k v =
    if_elim (λ (x : Bool × PlayerRegistry). Agrees x.1) (s == 0 || k == 0) _ _ (λ _. v)
      (λ named.
        if_elim (λ (x : Bool × PlayerRegistry). Agrees x.1)
          (contains s r.by_session || contains k r.by_player) _ _ (λ _. v)
          (λ new.
            added r s k _ v (refl, refl, ground arith, ground arith)
              (absent s r.by_session (ground arith)) (absent k r.by_player (ground arith))))

unregister_by_session-Agrees :
    (r : PlayerRegistry) (s : ℕ) → Agrees r → Agrees (unregister_by_session r s).1
unfolding unregister_by_session
unregister_by_session-Agrees r s v = elim (Option-cases (find s r.by_session)) [
  | inl n ↦ rw (n, unregister_by_session) v
  | inr (p, f) ↦ rw (f, unregister_by_session) (removed r s p v f)
]

unregister_by_player-Agrees :
    (r : PlayerRegistry) (k : ℕ) → Agrees r → Agrees (unregister_by_player r k).1
unfolding unregister_by_player
unregister_by_player-Agrees r k v = elim (Option-cases (find k r.by_player)) [
  | inl n ↦ rw (n, unregister_by_player) v
  | inr (s, e) ↦
      let (p, f, q) = v.backward k s e in
      rw (e, f, unregister_by_player)
        (subst
          (λ j.
            Agrees (record { by_session = erase s r.by_session; by_player = erase j r.by_player }))
          q (removed r s p v f))
]

bind_room_locked-Agrees :
    (r : PlayerRegistry) (s i : ℕ) (room : Option ℕ)
    → Agrees r
    → Agrees (bind_room_locked r s i room).1
bind_room_locked-Agrees r s i none v = v
bind_room_locked-Agrees r s i (some room) v =
    if_elim (λ (x : Bool × PlayerRegistry). Agrees x.1) (i == 0) _ _ (λ _. v)
      (λ _. changed r s _ v (λ p. (refl, refl)))

clear_room_locked-Agrees :
    (r : PlayerRegistry) (s : ℕ) → Agrees r → Agrees (clear_room_locked r s).1
clear_room_locked-Agrees r s v = changed r s _ v (λ p. (refl, refl))

bind_room_by_session-Agrees :
    (r : PlayerRegistry) (s i : ℕ) (room : Option ℕ)
    → Agrees r
    → Agrees (bind_room_by_session r s i room).1
unfolding bind_room_by_session
bind_room_by_session-Agrees r s i room v = elim (Option-cases (find s r.by_session)) [
  | inl n ↦ rw (n, bind_room_by_session) v
  | inr (p, f) ↦ rw (f, bind_room_by_session) (bind_room_locked-Agrees r s i room v)
]

bind_room_by_player-Agrees :
    (r : PlayerRegistry) (k i : ℕ) (room : Option ℕ)
    → Agrees r
    → Agrees (bind_room_by_player r k i room).1
unfolding bind_room_by_player
bind_room_by_player-Agrees r k i room v = elim (Option-cases (session_of r k)) [
  | inl n ↦ rw (n, bind_room_by_player) v
  | inr (s, f) ↦ rw (f, bind_room_by_player) (bind_room_locked-Agrees r s i room v)
]

clear_room_by_session-Agrees :
    (r : PlayerRegistry) (s : ℕ) → Agrees r → Agrees (clear_room_by_session r s).1
unfolding clear_room_by_session
clear_room_by_session-Agrees r s v = elim (Option-cases (find s r.by_session)) [
  | inl n ↦ rw (n, clear_room_by_session) v
  | inr (p, f) ↦ rw (f, clear_room_by_session) (clear_room_locked-Agrees r s v)
]

clear_room_by_player-Agrees :
    (r : PlayerRegistry) (k : ℕ) → Agrees r → Agrees (clear_room_by_player r k).1
unfolding clear_room_by_player
clear_room_by_player-Agrees r k v = elim (Option-cases (session_of r k)) [
  | inl n ↦ rw (n, clear_room_by_player) v
  | inr (s, f) ↦ rw (f, clear_room_by_player) (clear_room_locked-Agrees r s v)
]

step-Agrees : (o : Op) (r : PlayerRegistry) → Agrees r → Agrees (step r o)
unfolding step
step-Agrees (registers s k) r v = register-Agrees r s k v
step-Agrees (unregisters_session s) r v = unregister_by_session-Agrees r s v
step-Agrees (unregisters_player k) r v = unregister_by_player-Agrees r k v
step-Agrees (binds_session s i room) r v = bind_room_by_session-Agrees r s i room v
step-Agrees (binds_player k i room) r v = bind_room_by_player-Agrees r k i room v
step-Agrees (clears_session s) r v = clear_room_by_session-Agrees r s v
step-Agrees (clears_player k) r v = clear_room_by_player-Agrees r k v

-- Every history of a registry whose maps agree leaves one whose maps agree: a record stands under its
-- session, with a session and a player that are not 0, and its player leads to that session; and a
-- player that leads to a session is the one of a record under that session.
pub run-Agrees : (ops : List Op) (r : PlayerRegistry) → Agrees r → Agrees (run r ops)
unfolding run
run-Agrees [] r v = v
run-Agrees (o ∷ ops) r v = run-Agrees ops (step r o) (step-Agrees o r v)

-- After any history of a new registry, a player is found with a record exactly when the record is the
-- player's and is what is found for the record's session.
pub find_by_player_lem :
    (ops : List Op) (k : ℕ) (p : PlayerRecord)
    → (find_by_player (run empty ops) k ≡ some p)
      ↔ ((find_by_session (run empty ops) p.session_id ≡ some p) × (p.player_id ≡ k))
unfolding find_by_player
find_by_player_lem ops k p = (λ e. to e, λ h. from h.0 h.1)
  where
    r : PlayerRegistry
    r = run empty ops

    v : Agrees r
    v = run-Agrees ops empty empty-Agrees

    found : (k : ℕ) (s : ℕ) → find k r.by_player ≡ some s → find_by_player r k ≡ find s r.by_session
    found k s e = rw (e, find_by_player) refl

    to : find_by_player r k ≡ some p → (find_by_session r p.session_id ≡ some p) × (p.player_id ≡ k)
    to e = elim (Option-cases (find k r.by_player)) [
      | inl n ↦ absurd (none-ne-some (sym (missing n) ∙ e))
      | inr (s, f) ↦
          let (p', g, q) = v.backward k s f in
          let one : p' ≡ p = some-injective (sym g ∙ sym (found k s f) ∙ e) in
          (
            ap (λ j. find j r.by_session) ((v.forward s p (g ∙ ap some one)).0) ∙ g ∙ ap some one,
            ap (λ y. y.player_id) (sym one) ∙ q,
          )
    ]
      where
        missing : find k r.by_player ≡ none → find_by_player r k ≡ none
        missing n = rw (n, find_by_player) refl

    from : find_by_session r p.session_id ≡ some p → p.player_id ≡ k → find_by_player r k ≡ some p
    from e q =
        found k p.session_id (ap (λ j. find j r.by_player) (sym q) ∙ (v.forward p.session_id p e).1)
        ∙ e

abbrev pub newcomer : ℕ → ℕ → PlayerRecord
newcomer s k = record { session_id = s; player_id = k; room_id = 0; room = none }

register_accepted :
    (r : PlayerRegistry) (s k : ℕ)
    → (register r s k).0 ≡ true
    → (register r s k).1
      ≡ record { by_session = (s, newcomer s k) ∷ r.by_session; by_player = (k, s) ∷ r.by_player }
unfolding register
register_accepted r s k =
    if_elim If_accepted (s == 0 || k == 0) _ _ (λ _ e. absurd (false-ne-true e))
      (λ _.
        if_elim If_accepted (contains s r.by_session || contains k r.by_player) _ _
          (λ _ e. absurd (false-ne-true e)) (λ _ e. refl))
  where
    false-ne-true : false ≡ true → ⊥
    false-ne-true e = cc

    If_accepted : Bool × PlayerRegistry → Type 0
    If_accepted x =
        x.0 ≡ true
        → x.1 ≡ record {
          by_session = (s, newcomer s k) ∷ r.by_session;
          by_player = (k, s) ∷ r.by_player;
        }

-- What is found for a player's session is found, and taken out, for the player.
both_found :
    (r : PlayerRegistry) (s k : ℕ) (p : PlayerRecord)
    → find k r.by_player ≡ some s
    → find s r.by_session ≡ some p
    → (find_by_player r k ≡ some p) × ((unregister_by_player r k).0 ≡ some p)
unfolding find_by_player unregister_by_player
both_found r s k p e f = (rw (e, find_by_player) f, rw (e, f, unregister_by_player) refl)

-- After any history of a new registry, a registration that is accepted is found by its player and by
-- its session, with no room, and taking the player out again gives that record.
pub register-unregister :
    (ops : List Op) (s k : ℕ)
    → (register (run empty ops) s k).0 ≡ true
    → let r = (register (run empty ops) s k).1 in
      (find_by_session r s ≡ some (newcomer s k))
      × (find_by_player r k ≡ some (newcomer s k))
      × ((unregister_by_player r k).0 ≡ some (newcomer s k))
register-unregister ops s k accepted =
    let e = register_accepted (run empty ops) s k accepted in
    let by_session =
      ap (λ q. find s q.by_session) e ∙ find-same s (newcomer s k) (run empty ops).by_session in
    let by_player = ap (λ q. find k q.by_player) e ∙ find-same k s (run empty ops).by_player in
    let (found, removed) =
      both_found (register (run empty ops) s k).1 s k (newcomer s k) by_player by_session in
    (by_session, found, removed)
