-- ===== src/Database/Commit.antt =====
-- `_commit`: the check of the base revisions and the publication of the working collections.
use newtondb.Collection.{WorkingCollection, publish}
use newtondb.Errors.{Result, ok, ◌>>=◌}
use newtondb.Events.{Change}
use newtondb.NativeMap
use newtondb.NativeMap.{Entries}
use newtondb.Prelude.{
  ℕ, Bool, true, false, none, List, [], ◌∷◌, nat_beq, nat_eq, list_eq, if◌then◌else◌,
}
use newtondb.Text.{Text}
use newtondb.Transaction.{Collections, stored}

pub record CommitReceipt : Type 0 where
  pub affected : ℕ
  pub generated_keys : List (Text × Text)
  pub revision : ℕ

-- The names whose collection has another revision than the transaction read; an unknown name throws.
unfoldable pub find_conflicts : Collections → Entries Text ℕ → Result (List Text)
unfolding stored
find_conflicts collections [] = ok []
find_conflicts collections ((name, base) ∷ rest) = do
  current ← stored collections name
  names ← find_conflicts collections rest
  ok (if nat_beq current.revision base then names else name ∷ names)

unfoldable pub publish_all : ℕ → Entries Text WorkingCollection → Collections → Collections
publish_all revision [] collections = collections
publish_all revision ((name, working) ∷ rest) collections =
    publish_all revision rest (NativeMap.set name (publish revision working) collections)

-- `eventDocuments` omits the documents of a change unless they are asked for.
unfoldable pub event_change : Bool → Change → Change
event_change true change = change
event_change false change = record change { after = none; before = none }
