-- ===== src/NatsBus/Subjects/Roundtrip.antt =====
-- AbandonedSubject beside ParseAbandonedSubject: pkg/natsbus/subjects.go.
use crosscodex.Prelude.{
  ◌≡◌, ◌≢◌, refl, sym, ap, ◌∙◌, Bool, false, ◌&&◌, inl, inr, List, [], ◌∷◌, ◌++◌, All, arith,
  Bool-cases,
}
use crosscodex.Prelude.Str.{Str, codes, eqs, eqs→eq}
use crosscodex.Prelude.Join.{join, split, has_byte, join-split}
use crosscodex.Prelude.Result.{Result, ok, err, >>-eq-ok}
use crosscodex.NatsBus.Subjects.{
  SubjectError, AbandonedCollection, subject_prefix, wrap_abandoned, validate_job_id,
  abandoned_subject, parse_parts, parse_abandoned_subject,
}
use crosscodex.NatsBus.Subjects.Parts.{
  tenant_no_dot, token_no_dot, token_named, job_id_no_dot, build_subject-eq-ok, split-subject,
}

abbrev pub parts_of : AbandonedCollection → List Str
parts_of c =
    codes "control"
    ∷ c.tenant_id
    ∷ c.task_type
    ∷ c.job_id
    ∷ c.collection_id
    ∷ codes "abandoned"
    ∷ []

wrap_abandoned-eq-ok :
    (d : AbandonedCollection) (r : Result SubjectError Str) {c : AbandonedCollection}
    → wrap_abandoned d r ≡ ok c
    → (s : Str) × (c ≡ d) × (r ≡ ok s)
wrap_abandoned-eq-ok d (ok s) h = (s, cc, refl)
wrap_abandoned-eq-ok d (err e) h = cc

module _ (is_canonical_uuid : Str → Bool) where
  -- What a subject that was built says of its collection.
  pub record IsBuilt (c : AbandonedCollection) (s : Str) : Type 0 where
    pub no_dots : All (λ q. has_byte b'.' q ≡ false) (parts_of c)
    pub spelled : s ≡ subject_prefix ++ b'.' ∷ join b'.' (parts_of c)

  pub abandoned_subject-IsBuilt :
      (c : AbandonedCollection) {s : Str}
      → abandoned_subject is_canonical_uuid c ≡ ok s
      → IsBuilt c s
  unfolding abandoned_subject has_byte
  abandoned_subject-IsBuilt c h =
      let (task, h1) = >>-eq-ok _ _ h in
      let (known, h2) = >>-eq-ok _ _ h1 in
      let (coll, h3) = >>-eq-ok _ _ h2 in
      let (canonical, h4) = >>-eq-ok _ _ h3 in
      let (tenant, job, spelled) =
        build_subject-eq-ok c.tenant_id (validate_job_id c.job_id) (parts_of c) h4 in
      record {
        no_dots = (
          refl,
          (
            tenant_no_dot c.tenant_id tenant,
            (
              token_no_dot c.task_type _ task,
              (job_id_no_dot c.job_id job, (token_no_dot c.collection_id _ coll, (refl, tt))),
            ),
          ),
        );
        spelled = spelled;
      }

  -- A collection with a subject has an ID.
  pub collection_named :
      (c : AbandonedCollection) {s : Str}
      → abandoned_subject is_canonical_uuid c ≡ ok s
      → c.collection_id ≢ []
  unfolding abandoned_subject
  collection_named c h =
      let (_, h1) = >>-eq-ok _ _ h in
      let (_, h2) = >>-eq-ok _ _ h1 in
      let (coll, _) = >>-eq-ok _ _ h2 in token_named c.collection_id _ coll

  parse_parts-built :
      (c : AbandonedCollection) (subject : Str) {s : Str}
      → abandoned_subject is_canonical_uuid c ≡ ok s
      → parse_parts is_canonical_uuid subject (subject_prefix ∷ parts_of c) ≡ ok c
  unfolding parse_parts eqs
  parse_parts-built c subject h = rw h refl

  -- A subject that AbandonedSubject builds parses back to the collection that it was built from.
  pub parse-abandoned_subject :
      (c : AbandonedCollection) {s : Str}
      → abandoned_subject is_canonical_uuid c ≡ ok s
      → parse_abandoned_subject is_canonical_uuid s ≡ ok c
  unfolding parse_abandoned_subject
  parse-abandoned_subject c {s} h =
      let b = abandoned_subject-IsBuilt c h in
      ap (parse_parts is_canonical_uuid s)
        (ap (split b'.') b.spelled ∙ split-subject (codes "control") _ b.no_dots)
      ∙ parse_parts-built c s h

  parse_parts-eq-ok :
      (subject : Str) (ps : List Str) (c : AbandonedCollection)
      → parse_parts is_canonical_uuid subject ps ≡ ok c
      → (s : Str) × (ps ≡ subject_prefix ∷ parts_of c)
        × (abandoned_subject is_canonical_uuid c ≡ ok s)
  unfolding parse_parts
  parse_parts-eq-ok subject (p ∷ k ∷ t ∷ y ∷ j ∷ i ∷ e ∷ []) c h =
      let d : AbandonedCollection = record {
        tenant_id = t;
        task_type = y;
        job_id = j;
        collection_id = i;
      } in
      let test = eqs p subject_prefix && eqs k (codes "control") && eqs e (codes "abandoned") in
      elim (Bool-cases test) [
        | inl pass ↦
            let (s, same, built) = wrap_abandoned-eq-ok d _ (rw pass at h) in
            (
              s,
              ground (
                arith,
                eqs→eq p subject_prefix,
                eqs→eq k (codes "control"),
                eqs→eq e (codes "abandoned"),
              ),
              cc,
            )
        | inr fail ↦ cc (rw fail at h)
      ]
  parse_parts-eq-ok subject _ c h = cc

  -- A subject that parses is the one that AbandonedSubject builds for the parsed collection: what
  -- ParseAbandonedSubject accepts is exactly what AbandonedSubject can build.
  pub abandoned_subject-parse :
      (s : Str) (c : AbandonedCollection)
      → parse_abandoned_subject is_canonical_uuid s ≡ ok c
      → abandoned_subject is_canonical_uuid c ≡ ok s
  unfolding parse_abandoned_subject join
  abandoned_subject-parse s c h =
      let (s', parts, built) = parse_parts-eq-ok s (split b'.' s) c h in
      let spelled = (abandoned_subject-IsBuilt c built).spelled in
      built ∙ ap ok (spelled ∙ sym (sym (join-split b'.' s) ∙ ap (join b'.') parts))
