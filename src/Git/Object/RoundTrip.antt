-- ===== src/Git/Object/RoundTrip.antt =====
-- An object that was decoded is encoded to the same bytes, and one that was encoded is read back.
use omoplata.Prelude.{
  ◌≡◌, refl, ap, sym, eq_self, eq→eq, inl, inr, ◌∙◌, ◌<◌, none, [], ◌∷◌, ◌++◌, All, length, ◌==◌,
  nat_eq, list_eq, Result, ok, err, ◌>>=◌, ok_or, bind-ok, ok-inj, Bool-cases, arith,
}
use omoplata.Git.Bytes.{Bytes}
use omoplata.Git.Error.{GitError}
use omoplata.Git.Headers.{
  GitCommit, GitTag, split_headers, parse_headers, commit_headers, tag_headers, tree_text, tag_text,
  parse_commit, parse_tag,
}
use omoplata.Git.Text.{usize_mod, usize_to_string}
use omoplata.Git.Text.Find.{Lacks, find_byte-append}
use omoplata.Git.Text.Decimal.{
  parse_usize-usize_to_string, usize_to_string-Lacks, is_utf8-usize_to_string,
}
use omoplata.Git.Trees.{decode_tree}
use omoplata.Git.Trees.RoundTrip.{IsEntry, encode_tree-decode_tree, decode_tree-encode_tree}
use omoplata.Git.Object.{
  GitObject, blob, tree, commit, tag, canonical, body_of, type_str, blob_text, commit_text,
  encode_object, decode_body, decode_object,
}

-- The body of what was parsed is the body that was read.
pub parse_commit-body : (body : Bytes) (c : GitCommit) → parse_commit body ≡ ok c → c.body ≡ body
unfolding parse_commit
parse_commit-body body c h =
    let (headers, e1, h1) = bind-ok (parse_headers (split_headers body).0) _ h in
    let (kept, e2, h2) =
      bind-ok
        (commit_headers (record { tree = none; parents = []; author = []; committer = [] }) headers)
        _ h1 in
    let (root, e3, h3) =
      bind-ok (ok_or kept.tree (GitError.decode "commit missing tree header")) _ h2 in
    sym (ap (λ (r : Result GitError GitCommit). elim r [ ok c' ↦ c'.body | err e ↦ body ]) h3)

pub parse_tag-body : (body : Bytes) (t : GitTag) → parse_tag body ≡ ok t → t.body ≡ body
unfolding parse_tag
parse_tag-body body t h =
    let (headers, e1, h1) = bind-ok (parse_headers (split_headers body).0) _ h in
    let (kept, e2, h2) =
      bind-ok (tag_headers (record { object = none; kind = []; tag = []; tagger = [] }) headers) _
        h1 in
    let (object, e3, h3) =
      bind-ok (ok_or kept.object (GitError.decode "tag missing object header")) _ h2 in
    sym (ap (λ (r : Result GitError GitTag). elim r [ ok t' ↦ t'.body | err e ↦ body ]) h3)

-- The header and the body are told apart again.
decode_object-canonical :
    (ty body : Bytes)
    → Lacks b' ' ty
    → length body < usize_mod
    → decode_object (canonical ty body) ≡ decode_body ty body
unfolding decode_object
decode_object-canonical ty body blank small =
    let size = length body in
    rw (
      find_byte-append b' ' ty (usize_to_string size ++ 0 ∷ body) blank,
      ◌>>=◌,
      find_byte-append 0 (usize_to_string size) body
          (usize_to_string-Lacks size 0 small (omega arith)),
      ◌>>=◌,
      is_utf8-usize_to_string size small,
      ◌>>=◌,
      parse_usize-usize_to_string size small,
      ◌>>=◌,
      eq_self size,
    )

same_parts :
    (ty body : Bytes) (o o' : GitObject)
    → type_str o ≡ ty
    → body_of o ≡ body
    → ◌≡◌ {A = Result GitError GitObject} (ok o) (ok o')
    → (type_str o' ≡ ty) × (body_of o' ≡ body)
same_parts ty body o o' e f h =
    let same = ok-inj h in (ap type_str (sym same) ∙ e, ap body_of (sym same) ∙ f)

-- What was decoded has the type and the body that it was decoded from.
decode_body-parts :
    (ty body : Bytes) (o : GitObject)
    → decode_body ty body ≡ ok o
    → (type_str o ≡ ty) × (body_of o ≡ body)
unfolding decode_body
decode_body-parts ty body o h = elim (Bool-cases (ty == blob_text)) [
  | inl b ↦ same_parts ty body (blob body) o (sym (eq→eq ty blob_text b)) refl (rw b at h)
  | inr b ↦ elim (Bool-cases (ty == tree_text)) [
    | inl t ↦
        let (entries, e1, h1) = bind-ok (decode_tree body) (λ es. ok (tree es)) (rw (b, t) at h) in
        same_parts ty body (tree entries) o (sym (eq→eq ty tree_text t))
          (encode_tree-decode_tree body entries e1) h1
    | inr t ↦ elim (Bool-cases (ty == commit_text)) [
      | inl c ↦
          let (c', e1, h1) = bind-ok (parse_commit body) (λ k. ok (commit k)) (rw (b, t, c) at h) in
          same_parts ty body (commit c') o (sym (eq→eq ty commit_text c))
            (parse_commit-body body c' e1) h1
      | inr c ↦ elim (Bool-cases (ty == tag_text)) [
        | inl g ↦
            let (g', e1, h1) = bind-ok (parse_tag body) (λ k. ok (tag k)) (rw (b, t, c, g) at h) in
            same_parts ty body (tag g') o (sym (eq→eq ty tag_text g)) (parse_tag-body body g' e1) h1
        | inr g ↦ let unknown = rw (b, t, c, g) at h in absurd (cc (unknown))
      ]
    ]
  ]
]

-- Decoding the canonical bytes of a type without a blank and a body shorter than 2^64 gives, where it
-- succeeds, an object that is encoded to the same bytes.
pub encode_object-decode_object :
    (ty body : Bytes) (o : GitObject)
    → Lacks b' ' ty
    → length body < usize_mod
    → decode_object (canonical ty body) ≡ ok o
    → encode_object o ≡ canonical ty body
unfolding encode_object
encode_object-decode_object ty body o blank small h =
    let (same_type, same_body) =
      decode_body-parts ty body o (sym (decode_object-canonical ty body blank small) ∙ h) in
    rw (same_type, same_body)

-- What an object has that was parsed: the entries of a tree are well-formed, and the fields of a
-- commit or a tag are those of its body.
abbrev pub IsParsed : GitObject → Type 0
IsParsed (blob b) = Unit
IsParsed (tree entries) = All IsEntry entries
IsParsed (commit c) = parse_commit c.body ≡ ok c
IsParsed (tag t) = parse_tag t.body ≡ ok t

decode_body-IsParsed : (o : GitObject) → IsParsed o → decode_body (type_str o) (body_of o) ≡ ok o
unfolding decode_body
decode_body-IsParsed (blob b) p = refl
decode_body-IsParsed (tree entries) p = rw (decode_tree-encode_tree entries p, ◌>>=◌)
decode_body-IsParsed (commit c) p = rw (p, ◌>>=◌)
decode_body-IsParsed (tag t) p = rw (p, ◌>>=◌)

type_str-Lacks : (o : GitObject) → Lacks b' ' (type_str o)
type_str-Lacks (blob b) = (refl, (refl, (refl, (refl, tt))))
type_str-Lacks (tree entries) = (refl, (refl, (refl, (refl, tt))))
type_str-Lacks (commit c) = (refl, (refl, (refl, (refl, (refl, (refl, tt))))))
type_str-Lacks (tag t) = (refl, (refl, (refl, tt)))

-- An object of the four types that is well-formed, with a body shorter than 2^64, is read back from
-- its encoding.
pub decode_object-encode_object :
    (o : GitObject)
    → IsParsed o
    → length (body_of o) < usize_mod
    → decode_object (encode_object o) ≡ ok o
unfolding encode_object
decode_object-encode_object o parsed small =
    decode_object-canonical (type_str o) (body_of o) (type_str-Lacks o) small
    ∙ decode_body-IsParsed o parsed
