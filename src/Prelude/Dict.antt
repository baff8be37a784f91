-- ===== src/Prelude/Dict.antt =====
-- `std::map` and `std::unordered_map` as association lists with distinct keys.
use Prim.Native.Nat.{ℕ}
use mathlib.Core.Path.{◌≡◌, refl}
use mathlib.Core.Logic.{◌↔◌, inl, inr}
use mathlib.Core.Bool.{Bool, true}
use mathlib.Core.Option.{Option, none, some}
use mathlib.Core.List.{List, [], ◌∷◌, ◌++◌}
use native.Mathlib.Omega.{arith}
use ttw.Prelude.Tests.{◌==◌, ==_iff, if◌then◌else◌, Bool-cases}
use ttw.Prelude.Text.{Bytes, eq_bytes, eq_bytes_iff}

-- Equality of keys.
pub record Key {ℓ} (K : Type ℓ) : Type ℓ where
  pub same : K → K → Bool
  pub same_iff : (a b : K) → (same a b ≡ true) ↔ (a ≡ b)

instance abbrev pub nat_key : Key ℕ
nat_key = record { same = λ a b. a == b; same_iff = ==_iff }

instance abbrev pub bytes_key : Key Bytes
bytes_key = record { same = eq_bytes; same_iff = eq_bytes_iff }

module _ {ℓ κ} {K : Type ℓ} {V : Type κ} ⦃e : Key K⦄ where
  unfoldable pub find : K → List (K × V) → Option V
  find k [] = none
  find k ((j, v) ∷ m) = if e.same j k then some v else find k m

  -- `m[k] = v`
  unfoldable pub assign : K → V → List (K × V) → List (K × V)
  assign k v [] = (k, v) ∷ []
  assign k v ((j, w) ∷ m) = if e.same j k then (j, v) ∷ m else (j, w) ∷ assign k v m

  -- `m.erase(k)`
  unfoldable pub remove : K → List (K × V) → List (K × V)
  remove k [] = []
  remove k ((j, w) ∷ m) = if e.same j k then m else (j, w) ∷ remove k m

  abbrev pub Distinct : List (K × V) → Type κ
  Distinct [] = Unit
  Distinct ((k, v) ∷ m) = (find k m ≡ none) × Distinct m

  pub find-assign :
      (j k : K) (v : V) (m : List (K × V))
      → find j (assign k v m) ≡ (if e.same k j then some v else find j m)
  unfolding find assign
  find-assign j k v [] = refl
  find-assign j k v ((i, w) ∷ m) =
      ground (arith, e.same_iff k j, e.same_iff i k, e.same_iff i j, find-assign j k v m)

  pub find-assign_self : (k : K) (v : V) (m : List (K × V)) → find k (assign k v m) ≡ some v
  find-assign_self k v m = ground (arith, find-assign k k v m, e.same_iff k k)

  pub find-remove :
      (j k : K) (m : List (K × V))
      → Distinct m
      → find j (remove k m) ≡ (if e.same k j then none else find j m)
  unfolding find remove
  find-remove j k [] d = ground arith
  find-remove j k ((i, w) ∷ m) d =
      ground (arith, e.same_iff k j, e.same_iff i k, e.same_iff i j, find-remove j k m d.1)

  pub assign-Distinct : (k : K) (v : V) (m : List (K × V)) → Distinct m → Distinct (assign k v m)
  unfolding find assign
  assign-Distinct k v [] d = (refl, tt)
  assign-Distinct k v ((i, w) ∷ m) d = elim (Bool-cases (e.same i k)) [
    | inl h ↦ rw h d
    | inr h ↦ rw h (
      ground (arith, find-assign i k v m, e.same_iff k i, e.same_iff i k),
      assign-Distinct k v m d.1,
    )
  ]

  pub remove-Distinct : (k : K) (m : List (K × V)) → Distinct m → Distinct (remove k m)
  unfolding find remove
  remove-Distinct k [] d = tt
  remove-Distinct k ((i, w) ∷ m) d = elim (Bool-cases (e.same i k)) [
    | inl h ↦ rw h d.1
    | inr h ↦ rw h (ground (arith, find-remove i k m d.1), remove-Distinct k m d.1)
  ]

  pub find-append :
      (j : K) (a b : List (K × V))
      → find j (a ++ b) ≡ elim (find j a) [ none ↦ find j b | some v ↦ some v ]
  unfolding find
  find-append j [] b = refl
  find-append j ((k, v) ∷ a) b = ground (arith, find-append j a b)

  pub snoc-Distinct :
      (k : K) (v : V) (m : List (K × V))
      → find k m ≡ none
      → Distinct m
      → Distinct (m ++ ((k, v) ∷ []))
  unfolding find
  snoc-Distinct k v [] n d = (refl, tt)
  snoc-Distinct k v ((i, w) ∷ m) n d = (
    ground (arith, find-append i m ((k, v) ∷ []), d.0, n, e.same_iff k i, e.same_iff i k),
    snoc-Distinct k v m (ground (arith, n)) d.1,
  )
