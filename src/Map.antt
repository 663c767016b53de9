-- ===== src/Map.antt =====
-- `std::unordered_map` and `std::map` with string keys. The representation stays in this file:
-- clients have `map_laws`. The order in which the source iterates is not specified, and no theorem
-- of the clients depends on it.
use server_mcp_bridge.Base.{
  ◌≡◌, refl, sym, ap, ◌∙◌, Bool-cases, inl, inr, Bool, true, false, All, Option, none, some, List,
  [], ◌∷◌, ◌++◌, arith, Text, text_eq, is_among, text_eq_refl, text_eq_iff, if◌then◌else◌,
}

pub record Map {ℓ} (V : Type ℓ) : Type ℓ where
  entries : List (Text × V)

module _ {ℓ} {V : Type ℓ} where
  value_at : Text → List (Text × V) → Option V
  value_at k [] = none
  value_at k ((j, v) ∷ l) = if text_eq j k then some v else value_at k l

  remove : Text → List (Text × V) → List (Text × V)
  remove k [] = []
  remove k ((j, v) ∷ l) = let rest = remove k l in if text_eq j k then rest else (j, v) ∷ rest

  -- `for (it = m.begin(); …) it = drop(it->second) ? m.erase(it) : next(it)`.
  kept : (V → Bool) → List (Text × V) → List (Text × V)
  kept p [] = []
  kept p ((j, v) ∷ l) = let rest = remove j (kept p l) in if p v then (j, v) ∷ rest else rest

  abbrev pub keep_if : (V → Bool) → Option V → Option V
  keep_if p none = none
  keep_if p (some v) = if p v then some v else none

  unfoldable pub empty : Map V
  empty = record { entries = [] }

  -- The pairs in the order in which a loop over the map meets them.
  unfoldable pub to_list : Map V → List (Text × V)
  unfolding kept remove text_eq
  to_list m = kept (λ v. true) m.entries

  -- `m.find(k)`; `none` is `m.end()`.
  unfoldable pub find : Map V → Text → Option V
  unfolding value_at text_eq
  find m k = value_at k m.entries

  -- `m.erase(k)`.
  unfoldable pub erase : Map V → Text → Map V
  unfolding remove text_eq
  erase m k = record { entries = remove k m.entries }

  -- `m[k] = v`.
  unfoldable pub set : Map V → Text → V → Map V
  unfolding remove text_eq
  set m k v = record { entries = (k, v) ∷ remove k m.entries }

  -- Erase every entry whose value fails the test.
  unfoldable pub retain : (V → Bool) → Map V → Map V
  unfolding kept remove text_eq
  retain p m = record { entries = kept p m.entries }

  -- `m[k] = v` for each pair in order.
  unfoldable pub put_all : List (Text × V) → Map V → Map V
  unfolding set
  put_all [] m = m
  put_all ((k, v) ∷ pairs) m = put_all pairs (set m k v)

  value_at-remove :
      (gone key : Text) (pairs : List (Text × V))
      → value_at key (remove gone pairs) ≡ (if text_eq gone key then none else value_at key pairs)
  unfolding value_at remove
  value_at-remove gone key [] = ground arith
  value_at-remove gone key ((name, v) ∷ pairs) = ground (
    arith,
    text_eq_iff gone key,
    text_eq_iff name key,
    text_eq_iff name gone,
    value_at-remove gone key pairs,
  )

  value_at-kept :
      (p : V → Bool) (j : Text) (l : List (Text × V))
      → value_at j (kept p l) ≡ keep_if p (value_at j l)
  unfolding value_at kept
  value_at-kept p j [] = refl
  value_at-kept p j ((i, v) ∷ l) =
      ground (arith, value_at-kept p j l, value_at-remove i j (kept p l))

  pub find-erase :
      (m : Map V) (k j : Text) → find (erase m k) j ≡ (if text_eq k j then none else find m j)
  unfolding find erase
  find-erase m k j = value_at-remove k j m.entries

  pub find-set :
      (m : Map V) (k j : Text) (v : V)
      → find (set m k v) j ≡ (if text_eq k j then some v else find m j)
  unfolding find set value_at
  find-set m k j v = ground (arith, value_at-remove k j m.entries)

  pub find-retain :
      (p : V → Bool) (m : Map V) (j : Text) → find (retain p m) j ≡ keep_if p (find m j)
  unfolding find retain
  find-retain p m j = value_at-kept p j m.entries

  pub find-set_self : (m : Map V) (k : Text) (v : V) → find (set m k v) k ≡ some v
  find-set_self m k v = rw (find-set, text_eq_refl k)

  -- Undoing an insertion, a change and an erasure.
  pub find-erase_added :
      (m : Map V) (k j : Text) (v : V) → find m k ≡ none → find (erase (set m k v) k) j ≡ find m j
  find-erase_added m k j v h = rw (find-erase, find-set) (ground (arith, h, text_eq_iff k j))

  pub find-set_back :
      (m : Map V) (k j : Text) (v w : V)
      → find m k ≡ some v
      → find (set (set m k w) k v) j ≡ find m j
  find-set_back m k j v w h = rw (find-set, find-set) (ground (arith, h, text_eq_iff k j))

  pub find-set_erased :
      (m : Map V) (k j : Text) (v : V) → find m k ≡ some v → find (set (erase m k) k v) j ≡ find m j
  find-set_erased m k j v h = rw (find-set, find-erase) (ground (arith, h, text_eq_iff k j))

-- No key stands twice.
IsDistinct {ℓ} : {V : Type ℓ} → List (Text × V) → Type ℓ
IsDistinct [] = Unit
IsDistinct ((k, v) ∷ pairs) = (value_at k pairs ≡ none) × IsDistinct pairs

module _ {ℓ} {V : Type ℓ} where
  remove-IsDistinct :
      (gone : Text) (pairs : List (Text × V)) → IsDistinct pairs → IsDistinct (remove gone pairs)
  unfolding IsDistinct remove
  remove-IsDistinct gone [] d = d
  remove-IsDistinct gone ((k, v) ∷ pairs) d = elim (Bool-cases (text_eq k gone)) [
    | inl e ↦ rw e (remove-IsDistinct gone pairs d.1)
    | inr e ↦
        rw e (ground (arith, value_at-remove gone k pairs, d.0), remove-IsDistinct gone pairs d.1)
  ]

  kept-IsDistinct : (p : V → Bool) (pairs : List (Text × V)) → IsDistinct (kept p pairs)
  unfolding IsDistinct kept
  kept-IsDistinct p [] = tt
  kept-IsDistinct p ((k, v) ∷ pairs) =
      let rest = remove-IsDistinct k (kept p pairs) (kept-IsDistinct p pairs) in
      let gone : value_at k (remove k (kept p pairs)) ≡ none =
        rw (value_at-remove k k (kept p pairs), text_eq_refl k) refl in
      elim (Bool-cases (p v)) [ inl e ↦ rw e (gone, rest) | inr e ↦ rw e rest ]

  abbrev or_else : Option V → Option V → Option V
  or_else none other = other
  or_else (some v) other = some v

  kept_all : (r : Option V) → or_else (keep_if (λ v. true) r) none ≡ r
  kept_all none = refl
  kept_all (some v) = refl

  set_first :
      (k key : Text) (v : V) (pairs : List (Text × V)) (other : Option V)
      → value_at k pairs ≡ none
      → or_else (value_at key pairs) (if text_eq k key then some v else other)
        ≡ or_else (if text_eq k key then some v else value_at key pairs) other
  set_first k key v pairs other h = ground (arith, h, text_eq_iff k key)

  value_at-put_all :
      (pairs : List (Text × V)) (m : Map V) (key : Text)
      → IsDistinct pairs
      → find (put_all pairs m) key ≡ or_else (value_at key pairs) (find m key)
  unfolding IsDistinct put_all value_at
  value_at-put_all [] m key d = refl
  value_at-put_all ((k, v) ∷ pairs) m key d =
      value_at-put_all pairs (set m k v) key d.1
      ∙ rw (find-set m k key v) (set_first k key v pairs (find m key) d.0)

  -- A pair that is found satisfies what every found value does.
  value_at-All {κ} :
      (P : Text → V → Type κ) (pairs : List (Text × V))
      → IsDistinct pairs
      → ((k : Text) (v : V) → value_at k pairs ≡ some v → P k v)
      → All (λ q. P q.0 q.1) pairs
  unfolding IsDistinct value_at
  value_at-All P [] d h = tt
  value_at-All P ((k, v) ∷ pairs) d h = (
    h k v (rw (text_eq_refl k) refl),
    value_at-All P pairs d.1 (λ j w found. h j w (ground (arith, found, d.0, text_eq_iff k j))),
  )

  -- Putting the pairs of a map into an empty one gives a map in which everything is found as before.
  pub find-put_all : (m : Map V) (key : Text) → find (put_all (to_list m) empty) key ≡ find m key
  unfolding to_list find empty
  find-put_all m key =
      value_at-put_all (kept (λ v. true) m.entries) empty key
        (kept-IsDistinct (λ v. true) m.entries)
      ∙ rw (value_at-kept (λ v. true) key m.entries) (kept_all (value_at key m.entries))

  value_at-split :
      (k : Text) (v : V) (pairs : List (Text × V))
      → value_at k pairs ≡ some v
      → (before : List (Text × V)) × (after : List (Text × V)) × (j : Text) × (pairs
          ≡ before ++ (j, v) ∷ after)
  unfolding value_at
  value_at-split k v [] h = absurd cc
  value_at-split k v ((j, u) ∷ pairs) h = elim (Bool-cases (text_eq j k)) [
    | inl e ↦
        let same : u ≡ v = ground (arith, h, e) in ([], pairs, j, ap (λ t. (j, t) ∷ pairs) same)
    | inr e ↦
        let (before, after, i, split) = value_at-split k v pairs (ground (arith, h, e)) in
        ((j, u) ∷ before, after, i, ap (λ l. (j, u) ∷ l) split)
  ]

  -- What is found is met by a loop over the map.
  pub to_list-split :
      (m : Map V) (k : Text) (v : V)
      → find m k ≡ some v
      → (before : List (Text × V)) × (after : List (Text × V)) × (j : Text) × (to_list m
          ≡ before ++ (j, v) ∷ after)
  unfolding to_list find
  to_list-split m k v h =
      value_at-split k v (kept (λ u. true) m.entries)
        (ground (arith, h, value_at-kept (λ u. true) k m.entries))

  pub to_list-All {κ} :
      (P : Text → V → Type κ) (m : Map V)
      → ((k : Text) (v : V) → find m k ≡ some v → P k v)
      → All (λ q. P q.0 q.1) (to_list m)
  unfolding to_list find
  to_list-All P m h =
      value_at-All P (kept (λ v. true) m.entries) (kept-IsDistinct (λ v. true) m.entries)
        (λ k v found. h k v (ground (arith, found, value_at-kept (λ v. true) k m.entries)))

-- The keys of the pairs that pass a test.
module _ {ℓ} {V : Type ℓ} (p : Text → V → Bool) where
  unfoldable pub keys_where : List (Text × V) → List Text
  keys_where [] = []
  keys_where ((k, v) ∷ pairs) = let rest = keys_where pairs in if p k v then k ∷ rest else rest

  abbrev pub passes : Text → Option V → Bool
  passes k none = false
  passes k (some v) = p k v

  key_lem :
      (k j : Text) (v : V) (rest : List Text) (found : Option V)
      → (found ≡ none → text_eq k j ≡ true → is_among j rest ≡ false)
      → (text_eq k j ≡ true → found ≡ none)
      → is_among j rest ≡ passes j found
      → is_among j (if p k v then k ∷ rest else rest)
        ≡ passes j (if text_eq k j then some v else found)
  unfolding is_among
  key_lem k j v rest found h d e = elim (Bool-cases (text_eq k j)) [
    | inl f ↦
        let same : k ≡ j = (text_eq_iff k j).0 f in
        let gone : is_among j rest ≡ false = h (d f) f in
        rw f (elim (Bool-cases (p k v)) [
          | inl g ↦ rw (g, is_among, f) (sym (rw same at g))
          | inr g ↦ rw g (gone ∙ sym (rw same at g))
        ])
    | inr f ↦ rw f (elim (Bool-cases (p k v)) [ inl g ↦ rw (g, is_among, f) e | inr g ↦ rw g e ])
  ]

  keys_where-value_at :
      (pairs : List (Text × V)) (j : Text)
      → IsDistinct pairs
      → is_among j (keys_where pairs) ≡ passes j (value_at j pairs)
  unfolding keys_where is_among value_at IsDistinct
  keys_where-value_at [] j d = refl
  keys_where-value_at ((k, v) ∷ pairs) j d =
      let rest = keys_where-value_at pairs j d.1 in
      let absent : text_eq k j ≡ true → value_at j pairs ≡ none =
        λ f. rw ((text_eq_iff k j).0 f) at d.0 in
      key_lem k j v (keys_where pairs) (value_at j pairs) (λ n f. rest ∙ ap (passes j) n) absent
        rest

  -- A key is among those of a map that pass a test exactly if its value passes.
  pub keys_where-to_list :
      (m : Map V) (j : Text) → is_among j (keys_where (to_list m)) ≡ passes j (find m j)
  unfolding to_list find
  keys_where-to_list m j =
      keys_where-value_at (kept (λ v. true) m.entries) j (kept-IsDistinct (λ v. true) m.entries)
      ∙ ap (passes j) (value_at-kept (λ v. true) j m.entries ∙ kept_any (value_at j m.entries))
    where
      kept_any : (r : Option V) → keep_if (λ v. true) r ≡ r
      kept_any none = refl
      kept_any (some v) = refl

pub find-empty {ℓ} : {V : Type ℓ} (k : Text) → find (empty {V = V}) k ≡ none
unfolding find empty value_at
find-empty k = refl

pub ruleset map_laws = (find-empty, find-erase, find-set, find-retain)
