-- ===== src/Transaction/Operations.antt =====
-- `_insert`, `_update` and `_delete` and the invariant of a transaction.
use newtondb.Collection.{Contents, WorkingCollection, put_document, remove_document}
use newtondb.Collection.Valid.{IsValid, IsOpen, IsKeyed}
use newtondb.Collection.Write.{Holds, order_after, put_document-Ends, remove_document_ends}
use newtondb.Errors.{PrimaryKey, Result, ok, err, >>=-eq-ok, ok-injective}
use newtondb.Exec.{Ends, Keeps, Keeps-lift, Keeps-bind, Keeps-state, lift}
use newtondb.Index.Agrees.{with_record}
use newtondb.Input.{Input}
use newtondb.Json.{Document, own}
use newtondb.Key.{encode_key, document_key, key_of_value}
use newtondb.Key.Injective.{encode_key_iff}
use newtondb.OverlayMap
use newtondb.Prelude.{ℕ, ◌≡◌, refl, Bool, Option, none, some, nat_eq, list_eq, ap}
use newtondb.Runtime.{Runtime}
use newtondb.Text.{Text}
use newtondb.Transaction.{
  Collections, Transaction, record_operation, writable, in_working, push_change, push_generated,
  refuse_duplicate, require_record, insert, update, delete,
}
use newtondb.Transaction.Sound.{
  Any, AllStored, IsSound, IsUsable, record_operation-Keeps, push_change-Keeps,
  push_generated-Keeps, pure-Keeps, in_working-Keeps, writable-Keeps,
}
use newtondb.Validation.{prepare_insert, prepare_insert-key, prepare_update, prepare_update-key}

module _ (rt : Runtime) where
  -- `documentKey` has encoded the key that it returns.
  document_key-encoded :
      (d : Document) (pk : Text) (k : PrimaryKey)
      → document_key rt d pk ≡ ok k
      → (s : Text) × (encode_key rt k ≡ ok s)
  unfolding document_key
  document_key-encoded d pk k h =
      let (v, e1, h1) = >>=-eq-ok (key_of_value rt (own d pk)) _ h in
      let (s, e2, h2) = >>=-eq-ok (encode_key rt v) _ h1 in (s, rw (← ok-injective h2) e2)

  require_record-eq :
      (name : Text) (pk : PrimaryKey) (o : Option Document) (d : Document)
      → require_record name pk o ≡ ok d
      → o ≡ some d
  unfolding require_record
  require_record-eq name pk none d h = cc
  require_record-eq name pk (some b) d h = ap some (ok-injective h)

  -- The writes of a document under its key leave a usable collection usable at both ends.
  put-IsUsable :
      (name key : Text) (w : WorkingCollection) (before : Option Document) (d : Document)
      → IsUsable rt w
      → OverlayMap.get w.contents.records key ≡ before
      → IsKeyed rt w.contents.schema.primary_key (some d) key
      → IsUsable rt (record w { contents = (put_document rt name key before d w.contents).1 })
  put-IsUsable name key w before d (v, o) old keyed =
      ends _ _ (put_document-Ends rt name key d w.contents v o before old keyed)
    where
      ends :
          (r : Result (Unit {0})) (c : Contents)
          → Ends
              (λ _ c'.
                Holds rt
                  (with_record key (some d) (OverlayMap.get w.contents.records))
                  (order_after rt name key d w.contents v o before)
                  c')
              (λ e c'. Holds rt (OverlayMap.get w.contents.records) w.contents.order c')
              r
              c
          → IsValid rt c × IsOpen c
      ends (ok u) c h = (h.valid, h.is_open)
      ends (err e) c h = (h.valid, h.is_open)

  module _ (collections : Collections) (valid : AllStored rt collections) (now : ℕ) where
    insert-Keeps :
        (name : Text) (input : Input) (upsert : Bool) (fresh : Text)
        → Keeps (IsSound rt) (Any rt) (insert rt collections now name input upsert fresh)
    unfolding insert
    insert-Keeps name input upsert fresh =
        Keeps-bind (Any rt) _ (record_operation now) _ (record_operation-Keeps rt now) λ _ _.
          Keeps-bind (IsUsable rt) _ (writable collections now name) _
            (writable-Keeps rt collections valid now name)
            λ w u.
              Keeps-bind _ _ (lift (prepare_insert rt name w.contents.schema input fresh)) _
                (Keeps-lift _)
                λ p prepared.
                  let before = OverlayMap.get w.contents.records p.encoded in
                  let (own_key, encoded) =
                    prepare_insert-key rt name w.contents.schema input fresh p prepared in
                  Keeps-bind _ _ (lift (refuse_duplicate name p.primary_key before upsert)) _
                    (Keeps-lift _)
                    λ _ _.
                      Keeps-bind (Any rt) _
                        (in_working name w (put_document rt name p.encoded before p.document)) _
                        (in_working-Keeps rt name w
                          (put_document rt name p.encoded before p.document)
                          (put-IsUsable name p.encoded w before p.document u refl
                            (rw own_key encoded)))
                        λ _ _.
                          Keeps-bind (Any rt) _ (push_change _) _ (push_change-Keeps rt _) λ _ _.
                            Keeps-bind (Any rt) _ (push_generated name p.generated_key) _
                              (push_generated-Keeps rt name p.generated_key)
                              λ _ _. pure-Keeps rt (Any rt) p.primary_key tt

    update-Keeps :
        (name : Text) (primary_key : PrimaryKey) (patch : Input)
        → Keeps (IsSound rt) (Any rt) (update rt collections now name primary_key patch)
    unfolding update
    update-Keeps name primary_key patch =
        Keeps-bind (Any rt) _ (record_operation now) _ (record_operation-Keeps rt now) λ _ _.
          Keeps-bind (IsUsable rt) _ (writable collections now name) _
            (writable-Keeps rt collections valid now name)
            λ w u.
              Keeps-bind _ _ (lift (encode_key rt primary_key)) _ (Keeps-lift _) λ encoded encodes.
                Keeps-bind _ _
                  (lift
                    (require_record name primary_key (OverlayMap.get w.contents.records encoded)))
                  _ (Keeps-lift _)
                  λ before found.
                    Keeps-bind _ _
                      (lift (prepare_update rt name w.contents.schema before patch primary_key)) _
                      (Keeps-lift _)
                      λ after prepared.
                        let (k, own_key, same) =
                          prepare_update-key rt name w.contents.schema before patch primary_key
                            after prepared in
                        let (s, encoded_key) =
                          document_key-encoded after w.contents.schema.primary_key k own_key in
                        let keyed : IsKeyed rt w.contents.schema.primary_key (some after) encoded =
                          rw (own_key, encoded_key)
                            (ap ok
                              ((encode_key_iff rt k primary_key encoded_key encodes).1 same)) in
                        Keeps-bind (Any rt) _
                          (in_working name w (put_document rt name encoded (some before) after)) _
                          (in_working-Keeps rt name w
                            (put_document rt name encoded (some before) after)
                            (put-IsUsable name encoded w (some before) after u
                              (require_record-eq name primary_key _ before found) keyed))
                          λ _ _. push_change-Keeps rt _

    delete-Keeps :
        (name : Text) (primary_key : PrimaryKey)
        → Keeps (IsSound rt) (Any rt) (delete rt collections now name primary_key)
    unfolding delete
    delete-Keeps name primary_key =
        Keeps-bind (Any rt) _ (record_operation now) _ (record_operation-Keeps rt now) λ _ _.
          Keeps-bind (IsUsable rt) _ (writable collections now name) _
            (writable-Keeps rt collections valid now name)
            λ w u.
              Keeps-bind _ _ (lift (encode_key rt primary_key)) _ (Keeps-lift _) λ encoded encodes.
                Keeps-bind _ _
                  (lift
                    (require_record name primary_key (OverlayMap.get w.contents.records encoded)))
                  _ (Keeps-lift _)
                  λ before found.
                    let (c', done, h) =
                      remove_document_ends rt name encoded before w.contents u.0 u.1
                        (require_record-eq name primary_key _ before found) in
                    Keeps-bind (Any rt) _ (in_working name w (remove_document rt encoded before)) _
                      (in_working-Keeps rt name w (remove_document rt encoded before)
                        (rw done (h.valid, h.is_open)))
                      λ _ _. push_change-Keeps rt _

    -- Over valid stored collections, an insertion or upsert keeps every working collection
    -- of a sound transaction valid and open, whether it returns or throws.
    pub insert-IsSound :
        (name : Text) (input : Input) (upsert : Bool) (fresh : Text) (t : Transaction)
        → IsSound rt t
        → IsSound rt (insert rt collections now name input upsert fresh t).1
    insert-IsSound name input upsert fresh t = Keeps-state (insert-Keeps name input upsert fresh) t

    -- Over valid stored collections, an update keeps every working collection of a sound
    -- transaction valid and open, whether it returns or throws.
    pub update-IsSound :
        (name : Text) (primary_key : PrimaryKey) (patch : Input) (t : Transaction)
        → IsSound rt t
        → IsSound rt (update rt collections now name primary_key patch t).1
    update-IsSound name primary_key patch t = Keeps-state (update-Keeps name primary_key patch) t

    -- Over valid stored collections, a deletion keeps every working collection of a sound
    -- transaction valid and open, whether it returns or throws.
    pub delete-IsSound :
        (name : Text) (primary_key : PrimaryKey) (t : Transaction)
        → IsSound rt t
        → IsSound rt (delete rt collections now name primary_key t).1
    delete-IsSound name primary_key t = Keeps-state (delete-Keeps name primary_key) t
