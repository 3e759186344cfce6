-- ===== src/Game/PlayerRegistry/Agreement.antt =====
-- The two maps of the registry agree.
use iouring_runtime.Prelude.{
  contains, ℕ, ◌<◌, ◌≡◌, sym, ap, ◌∙◌, subst, inl, inr, false, ◌∷◌, none, some, arith, Option-cases,
  ℕ_discrete, Map, find, erase, modify, find-same, find-other, find-erase, find-erase_other,
  find-modify, find-modify_other, find-modify-none,
}
use iouring_runtime.Game.PlayerRegistry.{PlayerRecord, PlayerRegistry, empty}

-- A record stands under its session, and its player leads to that session; a player that leads to a
-- session is the one of the session's record.
pub record Agrees (r : PlayerRegistry) : Type 0 where
  pub forward :
      (s : ℕ) (p : PlayerRecord)
      → find s r.by_session ≡ some p
      → (p.session_id ≡ s) × (find p.player_id r.by_player ≡ some s) × (0 < s) × (0 < p.player_id)
  pub backward :
      (k s : ℕ)
      → find k r.by_player ≡ some s
      → (p : PlayerRecord) × (find s r.by_session ≡ some p) × (p.player_id ≡ k)

pub some-injective : {A : Type 0} {a b : A} → some a ≡ some b → a ≡ b
some-injective e = cc

pub none-ne-some : {A : Type 0} {a : A} → none ≡ some a → ⊥
none-ne-some e = cc

pub empty-Agrees : Agrees empty
empty-Agrees = record {
  forward = λ s p e. absurd (none-ne-some e);
  backward = λ k s e. absurd (none-ne-some e);
}

pub absent : {V : Type 0} (k : ℕ) (m : Map V) → contains k m ≡ false → find k m ≡ none
absent k m e = elim (Option-cases (find k m)) [ inl n ↦ n | inr (v, f) ↦ ground (arith, f) ]

pub added :
    (r : PlayerRegistry) (s k : ℕ) (p : PlayerRecord)
    → Agrees r
    → (p.session_id ≡ s) × (p.player_id ≡ k) × (0 < s) × (0 < k)
    → find s r.by_session ≡ none
    → find k r.by_player ≡ none
    → Agrees (record { by_session = (s, p) ∷ r.by_session; by_player = (k, s) ∷ r.by_player })
added r s k p v (ps, pk, s_pos, k_pos) new_s new_k = record {
  forward = λ s' p' e. elim (ℕ_discrete s' s) [
    | yes same ↦
        let one : p ≡ p' = some-injective (
          sym (find-same s p r.by_session)
          ∙ subst (λ j. find j ((s, p) ∷ r.by_session) ≡ some p') same e) in
        (
          ap (λ q. q.session_id) (sym one) ∙ ps ∙ sym same,
          ap (λ q. find q.player_id ((k, s) ∷ r.by_player)) (sym one)
              ∙ ap (λ j. find j ((k, s) ∷ r.by_player)) pk
              ∙ find-same k s r.by_player
              ∙ ap some (sym same),
          omega arith,
          omega (arith, ap (λ q. q.player_id) one),
        )
    | no other ↦
        let old = v.forward s' p' (sym (find-other s' s p r.by_session other) ∙ e) in
        (
          old.0,
          find-other p'.player_id k s r.by_player
                (λ x. none-ne-some (sym (ap (λ j. find j r.by_player) x ∙ new_k) ∙ old.1))
              ∙ old.1,
          old.2,
          old.3,
        )
  ];
  backward = λ k' s' e. elim (ℕ_discrete k' k) [
    | yes same ↦
        let one : s ≡ s' = some-injective (
          sym (find-same k s r.by_player)
          ∙ subst (λ j. find j ((k, s) ∷ r.by_player) ≡ some s') same e) in
        (
          p,
          ap (λ j. find j ((s, p) ∷ r.by_session)) (sym one) ∙ find-same s p r.by_session,
          pk ∙ sym same,
        )
    | no other ↦
        let (p', f, q) = v.backward k' s' (sym (find-other k' k s r.by_player other) ∙ e) in
        (
          p',
          find-other s' s p r.by_session
                (λ x. none-ne-some (sym (ap (λ j. find j r.by_session) x ∙ new_s) ∙ f))
              ∙ f,
          q,
        )
  ];
}

pub removed :
    (r : PlayerRegistry) (s : ℕ) (p : PlayerRecord)
    → Agrees r
    → find s r.by_session ≡ some p
    → Agrees
        (record { by_session = erase s r.by_session; by_player = erase p.player_id r.by_player })
removed r s p v f = record {
  forward = λ s' p' e. elim (ℕ_discrete s' s) [
    | yes same ↦ absurd (
        none-ne-some
          (sym (ap (λ j. find j (erase s r.by_session)) same ∙ find-erase s r.by_session) ∙ e))
    | no other ↦
        let old = v.forward s' p' (sym (find-erase_other s' s r.by_session other) ∙ e) in
        (
          old.0,
          find-erase_other p'.player_id p.player_id r.by_player (λ x.
                other (
                  some-injective
                    (sym old.1 ∙ ap (λ j. find j r.by_player) x ∙ (v.forward s p f).1)))
              ∙ old.1,
          old.2,
          old.3,
        )
  ];
  backward = λ k s' e. elim (ℕ_discrete k p.player_id) [
    | yes same ↦ absurd (
        none-ne-some (
          sym (
            ap (λ j. find j (erase p.player_id r.by_player)) same
            ∙ find-erase p.player_id r.by_player)
          ∙ e))
    | no other ↦
        let (p', f', q) =
          v.backward k s' (sym (find-erase_other k p.player_id r.by_player other) ∙ e) in
        (
          p',
          find-erase_other s' s r.by_session (λ x. other (
                sym q
                ∙ ap (λ y. y.player_id)
                    (some-injective (sym f' ∙ ap (λ j. find j r.by_session) x ∙ f))))
              ∙ f',
          q,
        )
  ];
}

-- A change of a record that keeps its session and its player.
pub changed :
    (r : PlayerRegistry) (s : ℕ) (g : PlayerRecord → PlayerRecord)
    → Agrees r
    → ((p : PlayerRecord) → ((g p).session_id ≡ p.session_id) × ((g p).player_id ≡ p.player_id))
    → Agrees (record r { by_session = modify s g r.by_session })
changed r s g v keeps = record {
  forward = λ s' p' e. elim (ℕ_discrete s' s) [
    | yes same ↦ elim (Option-cases (find s r.by_session)) [
      | inl n ↦ absurd (missing s' p' same n e)
      | inr (p, f) ↦
          let one : g p ≡ p' = some-injective (
            sym (find-modify s g r.by_session p f)
            ∙ subst (λ j. find j (modify s g r.by_session) ≡ some p') same e) in
          let old = v.forward s p f in
          (
            ap (λ q. q.session_id) (sym one) ∙ (keeps p).0 ∙ old.0 ∙ sym same,
            ap (λ q. find q.player_id r.by_player) (sym one)
                ∙ ap (λ j. find j r.by_player) (keeps p).1
                ∙ old.1
                ∙ ap some (sym same),
            omega (arith, old.2),
            omega (arith, old.3, ap (λ q. q.player_id) one, (keeps p).1),
          )
    ]
    | no other ↦ v.forward s' p' (sym (find-modify_other s' s g r.by_session other) ∙ e)
  ];
  backward = λ k s' e.
      let (p, f, q) = v.backward k s' e in
      elim (ℕ_discrete s' s) [
        | yes same ↦ (
          g p,
          ap (λ j. find j (modify s g r.by_session)) same
              ∙ find-modify s g r.by_session p (ap (λ j. find j r.by_session) (sym same) ∙ f),
          (keeps p).1 ∙ q,
        )
        | no other ↦ (p, find-modify_other s' s g r.by_session other ∙ f, q)
      ];
}
  where
    missing :
        (s' : ℕ) (p' : PlayerRecord)
        → s' ≡ s
        → find s r.by_session ≡ none
        → find s' (modify s g r.by_session) ≡ some p'
        → ⊥
    missing s' p' same n e = none-ne-some (
        sym (find-modify-none s g r.by_session n)
        ∙ subst (λ j. find j (modify s g r.by_session) ≡ some p') same e)
