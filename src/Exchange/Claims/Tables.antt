-- ===== src/Exchange/Claims/Tables.antt =====
-- The two tables of privileges and their inversions are inverse to one another.
use dauth.Base.{
  ℕ, ◌≤◌, Bool-cases, ◌≡◌, refl, ◌↔◌, inl, inr, ℤ, pos, negsuc, int_eq, String, [], ◌∷◌, none, some,
  Bool, str_eq, eq_iff, arith,
}
use dauth.Exchange.Claims.{
  IdTable, privilege_id_to_name, manufacturer_privilege_id_to_name, name_of, id_of,
}

int_eq_iff : (a b : ℤ) → (int_eq a b ≡ Bool.true) ↔ (a ≡ b)
int_eq_iff (pos a) (pos b) = ground arith
int_eq_iff (pos a) (negsuc b) = ground arith
int_eq_iff (negsuc a) (pos b) = ground arith
int_eq_iff (negsuc a) (negsuc b) = ground arith

-- No identifier and no name stands twice.
abbrev pub IsTable : IdTable → Type 0
IsTable [] = Unit
IsTable ((i, n) ∷ t) = (name_of t i ≡ none) × (id_of t n ≡ none) × IsTable t

pub name_of-id_of :
    (t : IdTable) → IsTable t → (i : ℤ) (n : String) → (name_of t i ≡ some n) ↔ (id_of t n ≡ some i)
unfolding name_of id_of
name_of-id_of [] h i n = ground arith
name_of-id_of ((j, m) ∷ t) (no_i, no_n, h) i n =
    ground (arith, int_eq_iff j i, eq_iff m n, name_of-id_of t h i n, no_i, no_n)

privilege_id_to_name-IsTable : IsTable privilege_id_to_name
unfolding privilege_id_to_name name_of id_of
privilege_id_to_name-IsTable = (
  refl,
  refl,
  (
    refl,
    refl,
    (refl, refl, (refl, refl, (refl, refl, (refl, refl, (refl, refl, (refl, refl, tt)))))),
  ),
)

manufacturer_privilege_id_to_name-IsTable : IsTable manufacturer_privilege_id_to_name
unfolding manufacturer_privilege_id_to_name name_of id_of
manufacturer_privilege_id_to_name-IsTable =
    (refl, refl, (refl, refl, (refl, refl, (refl, refl, (refl, refl, (refl, refl, tt))))))

-- Both tables are inverted exactly: an identifier has a name if and only if the name has that
-- identifier.
pub privilege_tables :
    (i : ℤ) (n : String)
    → ((name_of privilege_id_to_name i ≡ some n) ↔ (id_of privilege_id_to_name n ≡ some i))
      × ((name_of manufacturer_privilege_id_to_name i ≡ some n)
          ↔ (id_of manufacturer_privilege_id_to_name n ≡ some i))
privilege_tables i n = (
  name_of-id_of _ privilege_id_to_name-IsTable i n,
  name_of-id_of _ manufacturer_privilege_id_to_name-IsTable i n,
)

-- Every identifier of a table lies between 0 and `top`.
abbrev pub Within : ℕ → IdTable → Type 0
Within top [] = Unit
Within top ((pos i, n) ∷ t) = (i ≤ top) × Within top t
Within top ((negsuc i, n) ∷ t) = ⊥

pub id_of-Within :
    (top : ℕ) (t : IdTable)
    → Within top t
    → (n : String) (z : ℤ) → id_of t n ≡ some z
    → (i : ℕ) × (z ≡ pos i) × (i ≤ top)
unfolding id_of
id_of-Within top [] h n z e = absurd (ground arith)
id_of-Within top ((negsuc i, m) ∷ t) h n z e = absurd h
id_of-Within top ((pos i, m) ∷ t) h n z e = elim (Bool-cases (str_eq m n)) [
  | inl same ↦ (i, ground arith, h.0)
  | inr other ↦ id_of-Within top t h.1 n z (ground arith)
]

pub privilege_id_to_name-Within :
    Within 8 privilege_id_to_name × Within 8 manufacturer_privilege_id_to_name
unfolding privilege_id_to_name manufacturer_privilege_id_to_name
privilege_id_to_name-Within = omega arith
