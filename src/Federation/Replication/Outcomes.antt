-- ===== src/Federation/Replication/Outcomes.antt =====
-- An outcome whose store keeps the cursors.
use zvonilka.Base.{ok, err, ◌≡◌, List, refl, Option, none, some}
use zvonilka.Federation.Replication.{Outcome}
use zvonilka.Federation.Replication.Watermarks.{Moves}
use zvonilka.Federation.Bridge.{and_then, as_outcome}
use zvonilka.Federation.Parts.{with_first, with_found}
use zvonilka.Federation.Store.{MemoryStore, Saved}

module _ (s : MemoryStore) where
  pub and_then-Moves :
      {A B : Type 0} (o : Outcome A) (next : A → MemoryStore → Outcome B)
      → Moves s o.1
      → ((a : A) (t : MemoryStore) → Moves s t → Moves s (next a t).1)
      → Moves s (and_then o next).1
  and_then-Moves (ok a, t) next m p = p a t m
  and_then-Moves (err e, t) next m p = m

  pub as_outcome-Moves :
      {A : Type 0} (t : MemoryStore) (r : Saved A)
      → Moves s t
      → ((a : A) (u : MemoryStore) → r ≡ ok (a, u) → Moves s u)
      → Moves s (as_outcome t r).1
  as_outcome-Moves t (ok (a, u)) m p = p a u refl
  as_outcome-Moves t (err e) m p = m

  pub with_first-Moves :
      {A : Type 0} (a : A) (o : Outcome (List A)) → Moves s o.1 → Moves s (with_first a o).1
  with_first-Moves a (ok rest, t) m = m
  with_first-Moves a (err e, t) m = m

  pub with_found-Moves :
      {A : Type 0} (found : Option A) (o : Outcome (List A))
      → Moves s o.1
      → Moves s (with_found found o).1
  with_found-Moves none o m = m
  with_found-Moves (some a) o m = with_first-Moves a o m
