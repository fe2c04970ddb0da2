-- ===== src/Exchange/Autheval/Sources/Laws.antt =====
-- Which identifiers a source has for a type of cloud events.
use dauth.Base.{
  ◌≡◌, ◌⊎◌, ◌↔◌, inl, inr, refl, subst, String, List, [], ◌∷◌, none, false, Bool-cases, str_eq,
  eq_iff, if◌then◌else◌, lookup, insert, lookup-insert, IsMap, In, arith,
}
use dauth.Exchange.Models.{global_identifier}
use dauth.Exchange.Autheval.Sources.{
  StringSets, BySource, SacdAgreements, at_type, add_all, add_event_grants, set_of,
  add_global_grants, get_valid_agreements,
}

-- What the sets promise: a new one is empty, and Add adds its argument alone.
pub record SetLaws {T : Type 0} (sets : StringSets T) : Type 0 where
  pub new_empty : sets.slice sets.new ≡ []
  pub add_iff :
      (y x : String) (t : T) → In x (sets.slice (sets.add y t)) ↔ ((y ≡ x) ⊎ In x (sets.slice t))

module _ {T : Type 0} (sets : StringSets T) (laws : SetLaws sets) where
  -- The identifier is in the set of the source.
  abbrev pub Has : BySource T → String → String → Type 0
  Has m source id = In id (sets.slice (set_of sets m source))

  add_all_iff :
      (t : T) (ids : List String) (x : String)
      → In x (sets.slice (add_all sets t ids)) ↔ (In x ids ⊎ In x (sets.slice t))
  unfolding add_all
  add_all_iff t [] x = ((λ h. inr h), λ h. elim h [ inl e ↦ absurd e | inr i ↦ i ])
  add_all_iff t (y ∷ ids) x =
      let later = add_all_iff (sets.add y t) ids x in
      let here = laws.add_iff y x t in
      (
        λ h. elim (later.0 h) [
          | inl i ↦ inl (inr i)
          | inr i ↦ elim (here.0 i) [ inl e ↦ inl (inl e) | inr j ↦ inr j ]
        ],
        λ h. elim h [
          | inl (inl e) ↦ later.1 (inr (here.1 (inl e)))
          | inl (inr i) ↦ later.1 (inl i)
          | inr i ↦ later.1 (inr (here.1 (inr i)))
        ],
      )

  -- The set of a source after an assignment, and in a map with a first entry.
  set_of-insert :
      (k s : String) (t : T) (m : BySource T)
      → set_of sets (insert k t m) s ≡ (if str_eq k s then t else set_of sets m s)
  unfolding set_of
  set_of-insert k s t m = ground (arith, lookup-insert k s t m)

  set_of-cons :
      (k s : String) (t : T) (m : BySource T)
      → set_of sets ((k, t) ∷ m) s ≡ (if str_eq k s then t else set_of sets m s)
  unfolding set_of lookup
  set_of-cons k s t m = ground arith

  -- A source without a set has nothing.
  no_set : (m : BySource T) (s id : String) → lookup s m ≡ none → ¬ Has m s id
  unfolding set_of
  no_set m s id e h =
      let empty : sets.slice (set_of sets m s) ≡ [] = rw (set_of, e) laws.new_empty in
      absurd (subst (λ l. In id l) empty h)

  -- The set of a source that was given the identifiers of another set.
  filled_iff :
      (acc : BySource T) (k : String) (base t : T) (id : String)
      → Has (insert k (add_all sets base (sets.slice t)) acc) k id
        ↔ (In id (sets.slice t) ⊎ In id (sets.slice base))
  filled_iff acc k base t id =
      let same : set_of sets (insert k (add_all sets base (sets.slice t)) acc) k
          ≡ add_all sets base (sets.slice t) =
        ground
          (arith, set_of-insert k k (add_all sets base (sets.slice t)) acc, (eq_iff k k).1 refl) in
      rw same (add_all_iff base (sets.slice t) id)

  -- The first entry of a map, at its own source.
  first_iff :
      (k id : String) (t : T) (rest : BySource T) → Has ((k, t) ∷ rest) k id ↔ In id (sets.slice t)
  first_iff k id t rest =
      let same : set_of sets ((k, t) ∷ rest) k ≡ t =
        ground (arith, set_of-cons k k t rest, (eq_iff k k).1 refl) in
      rw same (λ h. h, λ h. h)

  -- At another source, a first entry and an assignment change nothing.
  elsewhere :
      (k s : String) (t v : T) (rest acc : BySource T)
      → str_eq k s ≡ false
      → (set_of sets ((k, t) ∷ rest) s ≡ set_of sets rest s)
        × (set_of sets (insert k v acc) s ≡ set_of sets acc s)
  elsewhere k s t v rest acc e =
      (ground (arith, set_of-cons k s t rest), ground (arith, set_of-insert k s v acc))

  -- A round of the global loop at its own source, whatever the later rounds do.
  global_here :
      (R : Type 0) (acc rest : BySource T) (k id : String) (t : T)
      → lookup k rest ≡ none
      → R ↔ (
          Has rest k id ⊎ Has (insert k (add_all sets (set_of sets acc k) (sets.slice t)) acc) k id)
      → R ↔ (Has ((k, t) ∷ rest) k id ⊎ Has acc k id)
  global_here R acc rest k id t fresh later =
      let filled = filled_iff acc k (set_of sets acc k) t id in
      let first = first_iff k id t rest in
      (
        λ h. elim (later.0 h) [
          | inl i ↦ absurd (no_set rest k id fresh i)
          | inr i ↦ elim (filled.0 i) [ inl j ↦ inl (first.1 j) | inr j ↦ inr j ]
        ],
        λ h. elim h [
          | inl i ↦ later.1 (inr (filled.1 (inl (first.0 i))))
          | inr i ↦ later.1 (inr (filled.1 (inr i)))
        ],
      )

  add_global_grants_iff :
      (acc m : BySource T) (s id : String)
      → IsMap m
      → Has (add_global_grants sets acc m) s id ↔ (Has m s id ⊎ Has acc s id)
  unfolding add_global_grants lookup
  add_global_grants_iff acc [] s id distinct =
      (λ h. inr h, λ h. elim h [ inl none' ↦ absurd (no_set [] s id refl none') | inr i ↦ i ])
  add_global_grants_iff acc ((k, t) ∷ rest) s id (fresh, distinct) =
      let v = add_all sets (set_of sets acc k) (sets.slice t) in
      elim (Bool-cases (str_eq k s)) [
        | inl e ↦
            subst
              (λ s.
                Has (add_global_grants sets (insert k v acc) rest) s id
                ↔ (Has ((k, t) ∷ rest) s id ⊎ Has acc s id))
              ((eq_iff k s).0 e)
              (global_here _ acc rest k id t fresh
                (add_global_grants_iff (insert k v acc) rest k id distinct))
        | inr e ↦
            let (skipped, kept) = elsewhere k s t v rest acc e in
            rw (skipped, ← kept) (add_global_grants_iff (insert k v acc) rest s id distinct)
      ]

  event_here :
      (R : Type 0) (acc rest : BySource T) (k id : String) (t : T)
      → lookup k rest ≡ none
      → R ↔ (
          Has rest k id
          ⊎ ((lookup k rest ≡ none)
              × Has (insert k (add_all sets sets.new (sets.slice t)) acc) k id))
      → R ↔ (Has ((k, t) ∷ rest) k id ⊎ ((lookup k ((k, t) ∷ rest) ≡ none) × Has acc k id))
  unfolding lookup
  event_here R acc rest k id t fresh later =
      let filled = filled_iff acc k sets.new t id in
      let first = first_iff k id t rest in
      (
        λ h. elim (later.0 h) [
          | inl i ↦ absurd (no_set rest k id fresh i)
          | inr (n, i) ↦ elim (filled.0 i) [
            | inl j ↦ inl (first.1 j)
            | inr j ↦ absurd (subst (λ l. In id l) laws.new_empty j)
          ]
        ],
        λ h. elim h [
          | inl i ↦ later.1 (inr (fresh, filled.1 (inl (first.0 i))))
          | inr (n, i) ↦ absurd (ground (arith, (eq_iff k k).1 refl))
        ],
      )

  add_event_grants_iff :
      (acc m : BySource T) (s id : String)
      → IsMap m
      → Has (add_event_grants sets acc m) s id ↔ (Has m s id ⊎ ((lookup s m ≡ none) × Has acc s id))
  unfolding add_event_grants lookup
  add_event_grants_iff acc [] s id distinct = (
    λ h. inr (refl, h),
    λ h. elim h [ inl none' ↦ absurd (no_set [] s id refl none') | inr (n, i) ↦ i ],
  )
  add_event_grants_iff acc ((k, t) ∷ rest) s id (fresh, distinct) =
      let v = add_all sets sets.new (sets.slice t) in
      elim (Bool-cases (str_eq k s)) [
        | inl e ↦
            subst
              (λ s.
                Has (add_event_grants sets (insert k v acc) rest) s id
                ↔ (Has ((k, t) ∷ rest) s id ⊎ ((lookup s ((k, t) ∷ rest) ≡ none) × Has acc s id)))
              ((eq_iff k s).0 e)
              (event_here _ acc rest k id t fresh
                (add_event_grants_iff (insert k v acc) rest k id distinct))
        | inr e ↦
            let (skipped, kept) = elsewhere k s t v rest acc e in
            rw (skipped, e, ← kept) (add_event_grants_iff (insert k v acc) rest s id distinct)
      ]

  -- Where the maps of the type and of the wildcard have each source once, and the sets hold what is added
  -- to them, a source has an identifier in the result exactly when it has it among the grants of the
  -- type of events or among the global grants.
  pub get_valid_agreements_iff :
      (agreements : SacdAgreements T) (ce_type s id : String)
      → IsMap (at_type agreements ce_type)
      → IsMap (at_type agreements global_identifier)
      → Has (get_valid_agreements sets agreements ce_type) s id
        ↔ (Has (at_type agreements ce_type) s id ⊎ Has (at_type agreements global_identifier) s id)
  unfolding get_valid_agreements lookup
  get_valid_agreements_iff agreements ce_type s id events globals =
      let own = add_event_grants_iff [] (at_type agreements ce_type) s id events in
      let all =
        add_global_grants_iff (add_event_grants sets [] (at_type agreements ce_type))
          (at_type agreements global_identifier) s id globals in
      (
        λ h. elim (all.0 h) [
          | inl g ↦ inr g
          | inr i ↦ elim (own.0 i) [ inl j ↦ inl j | inr (n, j) ↦ absurd (no_set [] s id refl j) ]
        ],
        λ h. elim h [ inl i ↦ all.1 (inr (own.1 (inl i))) | inr g ↦ all.1 (inl g) ],
      )
