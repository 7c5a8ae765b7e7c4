-- ===== src/Dict/Laws.antt =====
-- What `get` returns after each operation on a map.
use mathlib.Core.Option
use balu_todo.Prelude.{String, ◌≡◌, refl, none, some, [], ◌∷◌, arith, ◌==◌, eq_iff, if◌then◌else◌}
use balu_todo.Dict.{Dict, get, set, delete, each}

module _ {ℓ} {V : Type ℓ} where
  pub get-set :
      (j k : String) (v : V) (m : Dict V) → get j (set k v m) ≡ (if k == j then some v else get j m)
  unfolding get set
  get-set j k v [] = refl
  get-set j k v ((i, w) ∷ m) = ground (arith, eq_iff k j, eq_iff i k, eq_iff i j, get-set j k v m)

  pub get-delete :
      (j k : String) (m : Dict V) → get j (delete k m) ≡ (if k == j then none else get j m)
  unfolding get delete
  get-delete j k [] = ground arith
  get-delete j k ((i, w) ∷ m) = ground (arith, eq_iff k j, eq_iff i k, eq_iff i j, get-delete j k m)

  pub get-each : (f : V → V) (j : String) (m : Dict V) → get j (each f m) ≡ Option.map f (get j m)
  unfolding get each
  get-each f j [] = refl
  get-each f j ((i, w) ∷ m) = ground (arith, get-each f j m)
