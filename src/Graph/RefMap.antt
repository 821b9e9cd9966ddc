-- ===== src/Graph/RefMap.antt =====
-- A Go map keyed by a resource, as an association list.
use accel.Base.{◌≡◌, refl, Option, none, some, List, [], ◌∷◌, if◌then◌else◌, arith}
use accel.Graph.{Ref, ref_eq}
use accel.Graph.Keys.{ref_eq_iff}

abbrev pub RefMap : Type 0 → Type 0
RefMap V = List (Ref × V)

module _ {V : Type 0} where
  unfoldable pub find_state : RefMap V → Ref → Option V
  find_state [] k = none
  find_state ((j, s) ∷ st) k = if ref_eq j k then some s else find_state st k

  unfoldable pub put_state : RefMap V → Ref → V → RefMap V
  put_state [] k v = (k, v) ∷ []
  put_state ((j, s) ∷ st) k v = if ref_eq j k then (k, v) ∷ st else (j, s) ∷ put_state st k v

  pub find-put :
      (st : RefMap V) (k : Ref) (v : V) (j : Ref)
      → find_state (put_state st k v) j ≡ (if ref_eq k j then some v else find_state st j)
  unfolding find_state put_state
  find-put [] k v j = refl
  find-put ((i, s) ∷ st) k v j =
      ground (arith, ref_eq_iff i k, ref_eq_iff k j, ref_eq_iff i j, find-put st k v j)
