-- ===== src/Base/Dictionary.antt =====
-- Go maps with string keys, as association lists. The source never depends on the order in which
-- a map is visited; a put replaces the entry of its key.
use mathlib.Core.Path.{◌≡◌, refl}
use mathlib.Core.List.{List, [], ◌∷◌}
use mathlib.Core.Option.{Option, none, some}
use native.Mathlib.Omega.{arith}
use mcp_content_guard.Base.Tests.{if◌then◌else◌}
use mcp_content_guard.Base.Bytes.{Bytes, bytes_eq, bytes_eq_iff, bytes_eq_refl}

abbrev pub Dictionary {ℓ} : Type ℓ → Type ℓ
Dictionary V = List (Bytes × V)

module _ {ℓ} {V : Type ℓ} where
  -- m[k], with its second result
  unfoldable pub lookup : Bytes → Dictionary V → Option V
  lookup k [] = none
  lookup k ((j, v) ∷ m) = if bytes_eq j k then some v else lookup k m

  -- delete(m, k)
  unfoldable pub delete : Bytes → Dictionary V → Dictionary V
  delete k [] = []
  delete k ((j, v) ∷ m) = let rest = delete k m in if bytes_eq j k then rest else (j, v) ∷ rest

  -- m[k] = v
  unfoldable pub put : Bytes → V → Dictionary V → Dictionary V
  put k v [] = (k, v) ∷ []
  put k v ((j, w) ∷ m) = let rest = put k v m in if bytes_eq j k then (k, v) ∷ m else (j, w) ∷ rest

  pub lookup-delete :
      (k j : Bytes) (m : Dictionary V)
      → lookup j (delete k m) ≡ (if bytes_eq k j then none else lookup j m)
  unfolding lookup delete
  lookup-delete k j [] = ground arith
  lookup-delete k j ((i, v) ∷ m) =
      ground (arith, lookup-delete k j m, bytes_eq_iff i k, bytes_eq_iff i j, bytes_eq_iff k j)

  pub lookup-put :
      (k j : Bytes) (v : V) (m : Dictionary V)
      → lookup j (put k v m) ≡ (if bytes_eq k j then some v else lookup j m)
  unfolding lookup put
  lookup-put k j v [] = refl
  lookup-put k j v ((i, w) ∷ m) =
      ground (arith, lookup-put k j v m, bytes_eq_iff i k, bytes_eq_iff i j, bytes_eq_iff k j)

  pub lookup-put_self : (k : Bytes) (v : V) (m : Dictionary V) → lookup k (put k v m) ≡ some v
  lookup-put_self k v m = simp (lookup-put, bytes_eq_refl)

pub ruleset dictionary_laws = (lookup-delete, lookup-put)
