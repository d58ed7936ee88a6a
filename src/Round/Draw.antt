-- ===== src/Round/Draw.antt =====
-- `DrawCard` of backend/model/deck.go in a round that satisfies the invariant.
use mathlib.Core.List.{Perm, perm_middle, perm_append_singleton, append_assoc}
use mathlib.Core.List.Perm
use blackjack.Prelude.{
  ℕ, suc, ◌+◌, ◌<◌, ◌≡◌, sym, ap, ◌∙◌, subst, List, [], ◌∷◌, ◌++◌, some, arith, length,
  length-append, take, get_elem?, get_elem?_lem, All-append, All-get_elem?,
}
use blackjack.Prelude.Int.{pos, inc64}
use blackjack.Prelude.Result.{ok}
use blackjack.Model.Session.{StoredCard, GameSession, draw_card}
use blackjack.Adapter.Convert.{IsStandard}
use blackjack.Round.Invariant.{Cards}

-- What a draw at index `n` does.
pub record Draws (s : GameSession) (n : ℕ) : Type 0 where
  pub card : StoredCard
  pub draws : draw_card s ≡ ok (card, record s { draw_index = pos (suc n) })
  pub standard : IsStandard card
  pub taken : take (suc n) s.deck ≡ take n s.deck ++ card ∷ []

draws_found :
    (s : GameSession) (n : ℕ) (card : StoredCard)
    → s.draw_index ≡ pos n
    → n < length s.deck
    → n < 52
    → get_elem? s.deck n ≡ some card
    → draw_card s ≡ ok (card, record s { draw_index = pos (suc n) })
unfolding draw_card inc64
draws_found s n card index room small found = ground arith

module _ {ℓ} {A : Type ℓ} where
  -- The card that follows the first ones is put on the table, in either hand.
  pub perm_to_player :
      (c : A) (ps ds xs ys : List A)
      → Perm (ps ++ ds) xs
      → ys ≡ xs ++ c ∷ []
      → Perm ((ps ++ c ∷ []) ++ ds) ys
  perm_to_player c ps ds xs ys h e = subst (Perm _) (sym e) (
      rw (append_assoc ps (c ∷ []) ds) (
        Perm.trans (perm_middle ps ds) (
          Perm.trans (Perm.symm (perm_append_singleton c (ps ++ ds)))
            (Perm.append_right (c ∷ []) h))))

  pub perm_to_dealer :
      (c : A) (ps ds xs ys : List A)
      → Perm (ps ++ ds) xs
      → ys ≡ xs ++ c ∷ []
      → Perm (ps ++ (ds ++ c ∷ [])) ys
  perm_to_dealer c ps ds xs ys h e =
      subst (Perm _) (sym e) (rw (← append_assoc) (Perm.append_right (c ∷ []) h))

-- With fewer than 52 cards on the table the next draw succeeds.
pub Cards-Draws :
    (s : GameSession) (ps ds : List StoredCard)
    → Cards s.deck s.draw_index ps ds
    → length ps + length ds < 52
    → Draws s (length ps + length ds)
Cards-Draws s ps ds v room =
    let (card, found, split) = get_elem?_lem (length ps + length ds) s.deck (omega arith) in
    record {
      card = card;
      draws = draws_found s _ card v.drawn (omega arith) room found;
      standard = All-get_elem? IsStandard _ s.deck card v.deck_standard found;
      taken = split;
    }

module _ {ℓ} {A : Type ℓ} where
  pub length-snoc : (xs : List A) (x : A) → length (xs ++ x ∷ []) ≡ suc (length xs)
  length-snoc xs x = omega (arith, length-append xs (x ∷ []))

  player_count :
      (ps ds : List A) (c : A) → length (ps ++ c ∷ []) + length ds ≡ suc (length ps + length ds)
  player_count ps ds c = omega (arith, length-snoc ps c)

  dealer_count :
      (ps ds : List A) (c : A) → length ps + length (ds ++ c ∷ []) ≡ suc (length ps + length ds)
  dealer_count ps ds c = omega (arith, length-snoc ds c)

module _ {s : GameSession} {ps ds : List StoredCard} (v : Cards s.deck s.draw_index ps ds)
    (d : Draws s (length ps + length ds)) where
  pub Cards-player : Cards s.deck (pos (suc (length ps + length ds))) (ps ++ d.card ∷ []) ds
  Cards-player = record {
    full = v.full;
    deck_size = v.deck_size;
    deck_standard = v.deck_standard;
    player_standard = All-append IsStandard _ _ v.player_standard (d.standard, tt);
    dealer_standard = v.dealer_standard;
    drawn = ap pos (sym (player_count ps ds d.card));
    dealt =
        perm_to_player d.card ps ds _ _ v.dealt
          (ap (λ n. take n s.deck) (player_count ps ds d.card) ∙ d.taken);
  }

  pub Cards-dealer : Cards s.deck (pos (suc (length ps + length ds))) ps (ds ++ d.card ∷ [])
  Cards-dealer = record {
    full = v.full;
    deck_size = v.deck_size;
    deck_standard = v.deck_standard;
    player_standard = v.player_standard;
    dealer_standard = All-append IsStandard _ _ v.dealer_standard (d.standard, tt);
    drawn = ap pos (sym (dealer_count ps ds d.card));
    dealt =
        perm_to_dealer d.card ps ds _ _ v.dealt
          (ap (λ n. take n s.deck) (dealer_count ps ds d.card) ∙ d.taken);
  }
