-- ===== src/Usecase/Ballot.antt =====
-- The votes of a rematch in backend/usecase/game_usecase.go: what the ballot of a vote means.
use blackjack.Prelude.{
  ◌≡◌, ◌≢◌, refl, ap, String, Bool, true, false, not, List, [], ◌∷◌, Option, none, some,
  if◌then◌else◌, All, inl, inr, ◌⊎◌,
}
use blackjack.Model.Session.{Votes, lookup_vote, agrees, rematch_unanimous, all_agree}
use blackjack.Usecase.Rematch.{
  has_explicit_rematch_denial, denies, Ballot, unanimous, denied, undecided, ballot_of,
}

-- The voters who said no.
abbrev pub SaidNo : Votes → List String → Type 0
SaidNo votes [] = ⊥
SaidNo votes (uid ∷ uids) = (lookup_vote uid votes ≡ some false) ⊎ SaidNo votes uids

-- What a ballot says of the voters: all agree, one said no, or neither.
abbrev pub BallotMeans : List String → Votes → Ballot → Type 0
BallotMeans eligible votes unanimous =
    (eligible ≢ []) × All (λ uid. lookup_vote uid votes ≡ some true) eligible
BallotMeans eligible votes denied = SaidNo votes eligible
BallotMeans eligible votes undecided =
    (¬ SaidNo votes eligible)
    × (¬ ((eligible ≢ []) × All (λ uid. lookup_vote uid votes ≡ some true) eligible))

vote_value : (o : Option Bool) → elim o [ some v ↦ v | none ↦ false ] ≡ true → o ≡ some true
vote_value (some v) h = ap some h
vote_value none h = cc

agrees_lem :
    (uid : String) (votes : Votes) → agrees votes uid ≡ true → lookup_vote uid votes ≡ some true
unfolding agrees
agrees_lem uid votes h = vote_value (lookup_vote uid votes) h

all_agree_lem :
    (uids : List String) (votes : Votes)
    → all_agree uids votes ≡ true
    → All (λ uid. lookup_vote uid votes ≡ some true) uids
unfolding all_agree
all_agree_lem [] votes h = tt
all_agree_lem (uid ∷ uids) votes h =
    let (agreed, rest) = both (agrees votes uid) (all_agree uids votes) h in
    (agrees_lem uid votes agreed, all_agree_lem uids votes rest)
  where
    both : (a b : Bool) → (if not a then false else b) ≡ true → (a ≡ true) × (b ≡ true)
    both true b h = (refl, h)
    both false b h = cc

all_agree_complete :
    (uids : List String) (votes : Votes)
    → All (λ uid. lookup_vote uid votes ≡ some true) uids
    → all_agree uids votes ≡ true
unfolding all_agree agrees
all_agree_complete [] votes h = refl
all_agree_complete (uid ∷ uids) votes (agreed, rest) =
    rw (all_agree, agrees, agreed, all_agree_complete uids votes rest) refl

denial_lem :
    (uids : List String) (votes : Votes)
    → has_explicit_rematch_denial uids votes ≡ true
    → SaidNo votes uids
unfolding has_explicit_rematch_denial denies
denial_lem [] votes h = cc
denial_lem (uid ∷ uids) votes h =
    split (lookup_vote uid votes) refl (has_explicit_rematch_denial uids votes) h
      (denial_lem uids votes)
  where
    split :
        (o : Option Bool)
        → lookup_vote uid votes ≡ o
        → (rest : Bool) → (if denies o then true else rest) ≡ true
        → (rest ≡ true → SaidNo votes uids)
        → SaidNo votes (uid ∷ uids)
    split (some false) e rest h k = inl e
    split (some true) e rest h k = inr (k h)
    split none e rest h k = inr (k h)

denial_complete :
    (uids : List String) (votes : Votes)
    → SaidNo votes uids
    → has_explicit_rematch_denial uids votes ≡ true
unfolding has_explicit_rematch_denial denies
denial_complete [] votes h = absurd h
denial_complete (uid ∷ uids) votes (inl refused) =
    rw (has_explicit_rematch_denial, refused, denies) refl
denial_complete (uid ∷ uids) votes (inr rest) =
    rw (has_explicit_rematch_denial, denial_complete uids votes rest)
      (always (denies (lookup_vote uid votes)))
  where
    always : (b : Bool) → (if b then true else true) ≡ true
    always true = refl
    always false = refl

ballot_tests :
    (eligible : List String) (votes : Votes) (yes refused : Bool)
    → rematch_unanimous eligible votes ≡ yes
    → has_explicit_rematch_denial eligible votes ≡ refused
    → BallotMeans eligible votes (if yes then unanimous else if refused then denied else undecided)
unfolding rematch_unanimous
ballot_tests [] votes true refused hy hn = cc
ballot_tests (uid ∷ uids) votes true refused hy hn =
    (λ e. cc e, all_agree_lem (uid ∷ uids) votes hy)
ballot_tests eligible votes false true hy hn = denial_lem eligible votes hn
ballot_tests [] votes false false hy hn = (λ said. absurd said, λ all. all.0 refl)
ballot_tests (uid ∷ uids) votes false false hy hn = (
  λ said. cc (denial_complete (uid ∷ uids) votes said, hn),
  λ all. cc (all_agree_complete (uid ∷ uids) votes all.1, hy),
)

-- The ballot of a vote is unanimous only if there is a voter and every voter said yes, denied only if a
-- voter said no, and undecided only if neither is so.
pub ballot_of-means :
    (eligible : List String) (votes : Votes) → BallotMeans eligible votes (ballot_of eligible votes)
unfolding ballot_of
ballot_of-means eligible votes =
    ballot_tests eligible votes (rematch_unanimous eligible votes)
      (has_explicit_rematch_denial eligible votes) refl refl
