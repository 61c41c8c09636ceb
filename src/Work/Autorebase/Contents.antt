-- ===== src/Work/Autorebase/Contents.antt =====
-- The contents of a commit are read back from the store.
use omoplata.Prelude.{◌≡◌, ap, ◌∙◌, ◌<◌, String, Option, All, length, ok, ◌>>=◌}
use omoplata.Algebra.Doc.{Doc, from_str, to_string}
use omoplata.Git.Bytes.{Bytes, IsByte}
use omoplata.Git.Text.{usize_mod}
use omoplata.Store.Ids.{ObjectId, id_to_string}
use omoplata.Store.Ids.RoundTrip.{IsId, parse_id-id_to_string, id_to_string-ascii}
use omoplata.Store.Object.{Object, id_of}
use omoplata.Store.Repository.{Repository, write_object, read_object}
use omoplata.Store.Repository.Integrity.{
  IsStore, IsSha256, NoCollision, id_of-IsId, written_id, write_object-IsStore,
  read_object-write_object,
}
use omoplata.Store.Text.{as_bytes}
use omoplata.Store.Text.RoundTrip.{from_utf8-as_bytes, from_utf8-ascii}
use omoplata.Work.Autorebase.{or_empty, decoded_doc, text_of, load_doc, store_doc}

text_of-id_to_string :
    (id : ObjectId) → All IsByte id.digest → as_bytes (text_of (id_to_string id)) ≡ id_to_string id
text_of-id_to_string id small =
    let (s, read, written) = from_utf8-ascii (id_to_string id) (id_to_string-ascii id small) in
    ap (λ (o : Option String). as_bytes (or_empty o)) read ∙ written

module _ (hash : Bytes → Bytes) where
  -- The blob of a document.
  abbrev pub blob_of : Doc → Object
  blob_of doc = Object.blob (as_bytes (to_string doc))

  load_doc-id :
      (repo : Repository) (id : ObjectId) (text : String)
      → IsId id
      → read_object hash repo id ≡ ok (Object.blob (as_bytes text))
      → load_doc hash repo (text_of (id_to_string id)) ≡ ok (from_str text)
  unfolding load_doc
  load_doc-id repo id text is_id read =
      rw (text_of-id_to_string id is_id.0, parse_id-id_to_string id is_id, ◌>>=◌, read, ◌>>=◌)
        (ap (decoded_doc (text_of (id_to_string id))) (from_utf8-as_bytes text))

  -- With a hash of 32 bytes, in a store whose files are objects at their ids' paths, a document whose
  -- text is shorter than 2^64 bytes and whose blob's hash no other bytes have is loaded again as the
  -- lines of its text, and the store stays one.
  pub load_doc-store_doc :
      (repo : Repository) (doc : Doc)
      → IsSha256 hash
      → length (as_bytes (to_string doc)) < usize_mod
      → IsStore hash repo
      → NoCollision hash (blob_of doc)
      → (load_doc hash (store_doc hash repo doc).0 (store_doc hash repo doc).1
          ≡ ok (from_str (to_string doc)))
        × IsStore hash (store_doc hash repo doc).0
  unfolding store_doc
  load_doc-store_doc repo doc sized small holds alone =
      let (read, others) =
        read_object-write_object hash repo (blob_of doc) sized small holds alone in
      let id = id_of hash (blob_of doc) in
      (
        load_doc-id (write_object hash repo (blob_of doc)).0
            (write_object hash repo (blob_of doc)).1 (to_string doc)
            (rw (written_id hash repo (blob_of doc)) (id_of-IsId hash sized (blob_of doc))) read,
        write_object-IsStore hash repo (blob_of doc) sized small holds,
      )
