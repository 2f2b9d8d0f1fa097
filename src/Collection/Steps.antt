-- ===== src/Collection/Steps.antt =====
-- The single writes of a collection, when the overlay maps let them through.
use newtondb.Collection.{Contents, write_record, append_key, drop_record, drop_position, splice_out}
use newtondb.Errors.{ok}
use newtondb.Json.{Document}
use newtondb.OverlayMap
use newtondb.OverlayMap.{MapLike}
use newtondb.Prelude.{
  ℕ, ◌+◌, ◌≡◌, true, List, [], ◌∷◌, ◌++◌, ◌==◌, nat_eq, list_eq, contains, if◌then◌else◌, arith,
}
use newtondb.Text.{Text}

pub contains-append :
    (order : List Text) (k j : Text)
    → contains (order ++ k ∷ []) j ≡ (if k == j then true else contains order j)
unfolding contains
contains-append [] k j = ground arith
contains-append (i ∷ order) k j = ground (arith, contains-append order k j)

pub write_record_eq :
    (key : Text) (document : Document) (c : Contents) (m : MapLike Text Document)
    → OverlayMap.set key document c.records ≡ ok m
    → write_record key document c ≡ (ok tt, record c { records = m })
unfolding write_record
write_record_eq key document c m h = rw (h, write_record)

pub append_key_eq :
    (key : Text) (c : Contents) (m : MapLike Text ℕ)
    → OverlayMap.set key c.next_position c.positions ≡ ok m
    → append_key key c ≡ (
      ok tt,
      record c { order = c.order ++ key ∷ []; positions = m; next_position = c.next_position + 1 },
    )
unfolding append_key
append_key_eq key c m h = rw (h, append_key)

pub drop_record_eq :
    (key : Text) (c : Contents) (m : MapLike Text Document)
    → OverlayMap.delete key c.records ≡ ok m
    → drop_record key c ≡ (ok tt, record c { records = m })
unfolding drop_record
drop_record_eq key c m h = rw (h, drop_record)

pub drop_position_eq :
    (key : Text) (c : Contents) (m : MapLike Text ℕ)
    → OverlayMap.delete key c.positions ≡ ok m
    → drop_position key c ≡ (ok tt, record c { positions = m; order = splice_out key c.order })
unfolding drop_position
drop_position_eq key c m h = rw (h, drop_position)
