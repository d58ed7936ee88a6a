-- ===== src/Usecase/Deadline.antt =====
-- `rematchAgreeMapAtDeadline` of backend/usecase/game_usecase.go against the votes as they were cast.
use blackjack.Prelude.{
  String, str_eq, eq_iff, eq_refl, ◌≡◌, refl, sym, ap, ◌∙◌, Bool, false, Bool-cases, Option-cases,
  true≢false, inl, inr, List, [], ◌∷◌, some, In,
}
use blackjack.Model.Session.{Votes, lookup_vote, agrees, all_agree, rematch_unanimous}
use blackjack.Model.Log.{RematchVote}
use blackjack.Usecase.Rematch.{votes_by_user, agree_map_from, rematch_agree_map_at_deadline}

agree_map_from-cons :
    (uid : String) (uids : List String) (cast : Votes)
    → agree_map_from (uid ∷ uids) cast ≡ (uid, agrees cast uid) ∷ agree_map_from uids cast
unfolding agree_map_from agrees
agree_map_from-cons uid uids cast = elim (Option-cases (lookup_vote uid cast)) [
  | inl e ↦ rw (agree_map_from, agrees, e) refl
  | inr (v, e) ↦ rw (agree_map_from, agrees, e) refl
]

-- A voter is found with the vote he cast, and with `false` if he cast none.
lookup_vote-agree_map_from :
    (uid : String) (uids : List String) (cast : Votes)
    → In uid uids
    → lookup_vote uid (agree_map_from uids cast) ≡ some (agrees cast uid)
unfolding lookup_vote
lookup_vote-agree_map_from uid [] cast m = absurd m
lookup_vote-agree_map_from uid (x ∷ uids) cast m =
    rw (agree_map_from-cons x uids cast) (elim (Bool-cases (str_eq x uid)) [
      | inl e ↦ rw (e, (eq_iff x uid).0 e) refl
      | inr e ↦ rw (e) (later m e (lookup_vote-agree_map_from uid uids cast))
    ])
  where
    later :
        In uid (x ∷ uids)
        → str_eq x uid ≡ false
        → (In uid uids → lookup_vote uid (agree_map_from uids cast) ≡ some (agrees cast uid))
        → lookup_vote uid (agree_map_from uids cast) ≡ some (agrees cast uid)
    later (inl same) e rest =
        absurd (true≢false (sym (eq_refl uid) ∙ ap (λ t. str_eq t uid) same ∙ e))
    later (inr n) e rest = rest n

all_agree_same :
    (uids : List String) (m n : Votes)
    → ((uid : String) → In uid uids → agrees m uid ≡ agrees n uid)
    → all_agree uids m ≡ all_agree uids n
unfolding all_agree
all_agree_same [] m n h = refl
all_agree_same (uid ∷ uids) m n h =
    rw (h uid (inl refl), all_agree_same uids m n (λ x k. h x (inr k))) refl

-- At the deadline the voters are unanimous exactly if they are so by the votes that were cast: a voter
-- without a vote is one who does not agree.
pub rematch_agree_map_at_deadline-unanimous :
    (eligible : List String) (votes : List RematchVote)
    → rematch_unanimous eligible (rematch_agree_map_at_deadline eligible votes)
      ≡ rematch_unanimous eligible (votes_by_user votes [])
unfolding rematch_unanimous rematch_agree_map_at_deadline
rematch_agree_map_at_deadline-unanimous [] votes = refl
rematch_agree_map_at_deadline-unanimous (uid ∷ uids) votes =
    let cast = votes_by_user votes [] in
    all_agree_same (uid ∷ uids) (agree_map_from (uid ∷ uids) cast) cast (λ x m.
      agrees_found x (agree_map_from (uid ∷ uids) cast) (agrees cast x)
        (lookup_vote-agree_map_from x (uid ∷ uids) cast m))
  where
    agrees_found : (x : String) (m : Votes) (v : Bool) → lookup_vote x m ≡ some v → agrees m x ≡ v
    agrees_found x m v h = unfold agrees in rw (agrees, h) refl
