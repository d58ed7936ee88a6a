-- ===== src/Repository/Table.antt =====
-- A table of session rows as backend/repository/game_repository.go relies on it: its rows as a list.
use blackjack.Prelude.{
  In, ℕ, suc, String, str_eq, eq_iff, ◌≡◌, refl, sym, ap, ◌∙◌, Bool, true, true≢false, Bool-cases,
  Option, none, some, inl, inr, List, [], ◌∷◌, map, if◌then◌else◌, arith,
}
use blackjack.Prelude.Int.{ℤ}
use blackjack.Repository.Rows.{GameSessionRecord}
use blackjack.Repository.Gorm.{Table, done, unordered}

abbrev pub count_if {ℓ} : {A : Type ℓ} → (A → Bool) → List A → ℕ
count_if p [] = 0
count_if p (a ∷ rows) = let n = count_if p rows in if p a then suc n else n

-- The columns of a session's row whose values PostgreSQL keeps as they are: uuid, integer and varchar
-- columns. A timestamptz is kept to the microsecond and a jsonb in a normal form.
pub record Kept : Type 0 where
  pub id : String
  pub room_id : String
  pub round_no : ℤ
  pub status : String
  pub version : ℤ
  pub draw_index : ℤ
  pub turn_seat : ℤ

abbrev pub kept : GameSessionRecord → Kept
kept r = record {
  id = r.id;
  room_id = r.room_id;
  round_no = r.round_no;
  status = r.status;
  version = r.version;
  draw_index = r.draw_index;
  turn_seat = r.turn_seat;
}

-- What the conditional update relies on, in terms of the kept columns of the rows that the table holds: a
-- statement that succeeds, with a condition and new values that these columns determine, changed the rows
-- that its condition holds for and counted them, a row that is found is one of them, and the id is the
-- primary key.
pub record IsTable {Db : Type 0} (t : Table Db GameSessionRecord) : Type 0 where
  pub rows : Db → List Kept
  pub updated :
      (p : GameSessionRecord → Bool) (f : GameSessionRecord → GameSessionRecord) (q : Kept → Bool)
      (h : Kept → Kept) (n : ℕ) (db : Db)
      → ((r : GameSessionRecord) → p r ≡ q (kept r))
      → ((r : GameSessionRecord) → kept (f r) ≡ h (kept r))
      → (t.updates p f db).0 ≡ done n
      → (n ≡ count_if q (rows db))
        × (rows (t.updates p f db).1 ≡ map (λ r. if q r then h r else r) (rows db))
  pub found :
      (p : GameSessionRecord → Bool) (row : GameSessionRecord) (db : Db)
      → t.first p unordered db ≡ done row
      → In (kept row) (rows db) × (p row ≡ true)
  pub primary_key : (a b : Kept) (db : Db) → In a (rows db) → In b (rows db) → a.id ≡ b.id → a ≡ b

pub count_if-some :
    {A : Type 0} (p : A → Bool) (rows : List A)
    → count_if p rows ≡ 1
    → (a : A) × In a rows × (p a ≡ true)
count_if-some p [] h = ground arith
count_if-some p (a ∷ rows) h = elim (Bool-cases (p a)) [
  | inl e ↦ (a, inl refl, e)
  | inr e ↦ let (b, m, q) = count_if-some p rows (rw (e) at h) in (b, inr m, q)
]

pub In-map :
    {A B : Type 0} (f : A → B) (b : B) (rows : List A)
    → In b (map f rows)
    → (a : A) × In a rows × (b ≡ f a)
In-map f b [] m = absurd m
In-map f b (a ∷ rows) (inl e) = (a, inl refl, e)
In-map f b (a ∷ rows) (inr m) = let (c, n, e) = In-map f b rows m in (c, inr n, e)

-- The version in the first row with an id.
abbrev pub find_version : String → List Kept → Option ℤ
find_version id [] = none
find_version id (k ∷ rows) =
    let rest = find_version id rows in if str_eq k.id id then some k.version else rest

pub find_version-In :
    (k : Kept) (rows : List Kept)
    → In k rows
    → (k' : Kept) × In k' rows × (k'.id ≡ k.id) × (find_version k.id rows ≡ some k'.version)
find_version-In k [] m = absurd m
find_version-In k (x ∷ rows) m = elim (Bool-cases (str_eq x.id k.id)) [
  | inl e ↦ (x, inl refl, (eq_iff x.id k.id).0 e, rw e refl)
  | inr e ↦ elim m [
    | inl same ↦
        absurd (true≢false (sym ((eq_iff x.id k.id).1 (ap (λ (y : Kept). y.id) (sym same))) ∙ e))
    | inr n ↦ let (k', n', i, f) = find_version-In k rows n in (k', inr n', i, rw e f)
  ]
]

pub map-In : {A B : Type 0} (f : A → B) (a : A) (rows : List A) → In a rows → In (f a) (map f rows)
map-In f a [] m = absurd m
map-In f a (b ∷ rows) (inl e) = inl (ap f e)
map-In f a (b ∷ rows) (inr m) = inr (map-In f a rows m)

module _ {Db : Type 0} {t : Table Db GameSessionRecord} (laws : IsTable t) where
  -- A row of the table is the one that its id finds.
  pub find_version-row :
      (k : Kept) (db : Db) → In k (laws.rows db) → find_version k.id (laws.rows db) ≡ some k.version
  find_version-row k db m =
      let (k', m', i, f) = find_version-In k (laws.rows db) m in
      f ∙ ap (λ (x : Kept). some x.version) (laws.primary_key k' k db m' m i)
