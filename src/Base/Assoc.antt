-- ===== src/Base/Assoc.antt =====
-- Go maps as association lists, a key at most once. Go iterates over a map in an unspecified
-- order; the model iterates over the list.
use mathlib.Core.Path.{◌≡◌, refl, sym, ap, ◌∙◌}
use mathlib.Core.List.{List, [], ◌∷◌}
use mathlib.Core.Option.{Option, none, some}
use native.Mathlib.Omega.{arith}
use mathlib.Core.Bool.{Bool, true, false}
use mathlib.Core.Logic.{inl, inr}
use neth.Base.Tests.{if◌then◌else◌, Bool-cases}
use neth.Base.Keys.{Key, ◌=?◌, =?_refl}

abbrev pub Assoc {ℓ κ} : Type ℓ → Type κ → Type (ℓ ⊔ κ)
Assoc K V = List (K × V)

module _ {ℓ κ} {K : Type ℓ} {V : Type κ} ⦃e : Key K⦄ where
  -- m[k], with the presence flag.
  unfoldable pub lookup : K → Assoc K V → Option V
  lookup k [] = none
  lookup k ((j, v) ∷ m) = if j =? k then some v else lookup k m

  -- m[k] = v
  unfoldable pub insert : K → V → Assoc K V → Assoc K V
  insert k v [] = (k, v) ∷ []
  insert k v ((j, w) ∷ m) = if j =? k then (k, v) ∷ m else (j, w) ∷ insert k v m

  -- delete(m, k)
  unfoldable pub delete : K → Assoc K V → Assoc K V
  delete k [] = []
  delete k ((j, v) ∷ m) = let rest = delete k m in if j =? k then rest else (j, v) ∷ rest

  pub lookup-insert :
      (k j : K) (v : V) (m : Assoc K V)
      → lookup j (insert k v m) ≡ (if k =? j then some v else lookup j m)
  unfolding lookup insert
  lookup-insert k j v [] = refl
  lookup-insert k j v ((i, w) ∷ m) =
      ground (arith, e.same_iff k j, e.same_iff i k, e.same_iff i j, lookup-insert k j v m)

  pub lookup-delete :
      (k j : K) (m : Assoc K V) → lookup j (delete k m) ≡ (if k =? j then none else lookup j m)
  unfolding lookup delete
  lookup-delete k j [] = ground arith
  lookup-delete k j ((i, w) ∷ m) =
      ground (arith, e.same_iff k j, e.same_iff i k, e.same_iff i j, lookup-delete k j m)

  pub lookup-insert_self : (k : K) (v : V) (m : Assoc K V) → lookup k (insert k v m) ≡ some v
  lookup-insert_self k v m = ground (arith, lookup-insert k k v m, =?_refl k)

  -- Deletes the entries that fail a test: `for k, v := range m { if … { delete(m, k) } }`.
  unfoldable pub retain : (K → V → Bool) → Assoc K V → Assoc K V
  retain keep [] = []
  retain keep ((k, v) ∷ m) =
      let rest = retain keep m in elim (keep k v) [ true ↦ (k, v) ∷ rest | false ↦ rest ]

  -- No key stands twice.
  abbrev pub Distinct : Assoc K V → Type κ
  Distinct [] = Unit
  Distinct ((k, v) ∷ m) = (lookup k m ≡ none) × Distinct m

  pub Distinct-insert : (k : K) (v : V) (m : Assoc K V) → Distinct m → Distinct (insert k v m)
  unfolding insert lookup
  Distinct-insert k v [] d = (refl, tt)
  Distinct-insert k v ((j, w) ∷ m) d = elim (Bool-cases (j =? k)) [
    | inl hit ↦
        let here : j ≡ k = (e.same_iff j k).0 hit in
        rw hit (ap (λ x. lookup x m) (sym here) ∙ d.0, d.1)
    | inr miss ↦ rw miss (
      ground (arith, d.0, e.same_iff k j, e.same_iff j k, lookup-insert k j v m),
      Distinct-insert k v m d.1,
    )
  ]

  pub Distinct-delete : (k : K) (m : Assoc K V) → Distinct m → Distinct (delete k m)
  unfolding delete lookup
  Distinct-delete k [] d = tt
  Distinct-delete k ((j, w) ∷ m) d = elim (Bool-cases (j =? k)) [
    | inl hit ↦ rw (delete, hit) (Distinct-delete k m d.1)
    | inr miss ↦
        rw (delete, miss) (lookup-delete k j m ∙ ground (arith, d.0), Distinct-delete k m d.1)
  ]

  pub lookup-retain :
      (keep : K → V → Bool) (j : K) (m : Assoc K V)
      → Distinct m
      → lookup j (retain keep m)
        ≡ elim (lookup j m) [ none ↦ none | some v ↦ (if keep j v then some v else none) ]
  unfolding lookup retain
  lookup-retain keep j [] d = refl
  lookup-retain keep j ((i, w) ∷ m) d =
      ground (arith, e.same_iff i j, lookup-retain keep j m d.1, d.0)

  pub Distinct-retain :
      (keep : K → V → Bool) (m : Assoc K V) → Distinct m → Distinct (retain keep m)
  unfolding retain
  Distinct-retain keep [] d = tt
  Distinct-retain keep ((i, w) ∷ m) d = elim (Bool-cases (keep i w)) [
    | inl stays ↦
        rw (stays, retain)
          (lookup-retain keep i m d.1 ∙ ground (arith, d.0), Distinct-retain keep m d.1)
    | inr goes ↦ rw (goes, retain) (Distinct-retain keep m d.1)
  ]
