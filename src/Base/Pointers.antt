-- ===== src/Base/Pointers.antt =====
-- Shared objects that change in place: a store of them, and maps of references into the store under
-- a key that the object has.
use Prim.Native.Nat.{ℕ, suc, ◌<◌}
use mathlib.Core.Path.{◌≡◌, refl}
use mathlib.Core.Logic.{inl, inr}
use mathlib.Core.Option.{Option, none, some}
use native.Mathlib.Omega.{arith}
use neth.Base.Tests.{Bool-cases, if◌then◌else◌, ==_iff}
use neth.Base.Keys.{Key, nat_key, ◌=?◌}
use neth.Base.Assoc.{
  Assoc, lookup, insert, delete, lookup-insert, lookup-insert_self, lookup-delete,
}

-- What a pointer points to, with the pointer.
abbrev pub deref : {V : Type 0} → Assoc ℕ V → Option ℕ → Option (ℕ × V)
deref store none = none
deref store (some r) = elim (lookup r store) [ none ↦ none | some h ↦ some (r, h) ]

module _ {V : Type 0} {K : Type 0} ⦃k : Key K⦄ (key_of : V → K) where
  -- Every reference in the map points to an object with that key, and is older than `next`.
  abbrev pub Points : Assoc ℕ (V) → ℕ → Assoc K ℕ → Type 0
  Points store next refs =
      (j : K) (r : ℕ)
      → lookup j refs ≡ some r
      → (h : V) × (lookup r store ≡ some h) × (key_of h ≡ j) × (r < next)

  pub Points-add :
      (h : V) (store : Assoc ℕ (V)) (next : ℕ) (refs : Assoc K ℕ)
      → Points store next refs
      → Points (insert next h store) (suc next) (insert (key_of h) next refs)
  Points-add h store next refs p j r e = elim (Bool-cases (key_of h =? j)) [
    | inl hit ↦
        let newest : r ≡ next = ground (arith, lookup-insert (key_of h) j next refs) in
        (h, ground (arith, lookup-insert next r h store), (k.same_iff _ _).0 hit, omega arith)
    | inr miss ↦
        let (old, found, keyed, lt) =
          p j r (ground (arith, lookup-insert (key_of h) j next refs)) in
        (old, ground (arith, lookup-insert next r h store), keyed, omega arith)
  ]

  pub Points-delete :
      (store : Assoc ℕ (V)) (next : ℕ) (refs : Assoc K ℕ) (gone : K)
      → Points store next refs
      → Points store next (delete gone refs)
  Points-delete store next refs gone p j r e = p j r (ground (arith, lookup-delete gone j refs))

  -- A write through a pointer that keeps the key.
  pub Points-write :
      (r : ℕ) (old h : V) (store : Assoc ℕ (V)) (next : ℕ) (refs : Assoc K ℕ)
      → lookup r store ≡ some old
      → key_of h ≡ key_of old
      → Points store next refs
      → Points (insert r h store) next refs
  Points-write r old h store next refs found same p j q e =
      let (was, stands, keyed, lt) = p j q e in
      elim (Bool-cases (r =? q)) [
        | inl hit ↦
            let here : r ≡ q = (==_iff r q).0 hit in
            (h, ground (arith, lookup-insert r q h store), cc, lt)
        | inr miss ↦ (was, ground (arith, lookup-insert r q h store), keyed, lt)
      ]

  deref_old :
      (h : V) (store : Assoc ℕ (V)) (next : ℕ) (ref : Option ℕ) {P : ℕ → V → Type 0}
      → ((r : ℕ) → ref ≡ some r → (old : V) × (lookup r store ≡ some old) × P r old × (r < next))
      → deref (insert next h store) ref ≡ deref store ref
  deref_old h store next none p = refl
  deref_old h store next (some r) p =
      let (old, found, _, lt) = p r refl in ground (arith, lookup-insert next r h store)

  -- A lookup after an insertion finds the new object under its key, and is as before under others.
  pub deref-add :
      (h : V) (store : Assoc ℕ (V)) (next : ℕ) (refs : Assoc K ℕ) (j : K)
      → Points store next refs
      → deref (insert next h store) (lookup j (insert (key_of h) next refs))
        ≡ (if key_of h =? j then some (next, h) else deref store (lookup j refs))
  deref-add h store next refs j p = elim (Bool-cases (key_of h =? j)) [
    | inl hit ↦
        rw (lookup-insert (key_of h) j next refs, hit)
          (ground (arith, lookup-insert_self next h store))
    | inr miss ↦
        rw (lookup-insert (key_of h) j next refs, miss)
          (deref_old h store next (lookup j refs) (p j))
  ]
