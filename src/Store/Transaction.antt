-- ===== src/Store/Transaction.antt =====
-- internal/recoverymap/transaction.go: the files that an attempt to start has made.
use disc_rescue.Prelude.{
  Bool, true, false, List, [], ◌∷◌, ◌++◌, ◌||◌, if◌then◌else◌, String, str_eq,
}
use disc_rescue.Store.Disk.{Removal, file_kept}

pub record StartupTransaction : Type 0 where
  pub paths : List String
  pub committed : Bool

abbrev pub new_transaction : StartupTransaction
new_transaction = record { paths = []; committed = false }

unfoldable pub track_created : StartupTransaction → String → StartupTransaction
track_created t path =
    if str_eq path "" || t.committed then t else record t { paths = t.paths ++ path ∷ [] }

unfoldable pub commit : StartupTransaction → StartupTransaction
commit t = record t { committed = true }

abbrev pub failed_removal : Removal → String → List String
failed_removal file_kept path = path ∷ []
failed_removal _ path = []

-- The loop of `Rollback`, from the last path to the first: the paths whose removal failed.
unfoldable pub remove_backwards : (String → Removal) → List String → List String
remove_backwards remove [] = []
remove_backwards remove (p ∷ ps) = remove_backwards remove ps ++ failed_removal (remove p) p

unfoldable pub rollback : (String → Removal) → StartupTransaction → List String
rollback remove t = if t.committed then [] else remove_backwards remove t.paths
