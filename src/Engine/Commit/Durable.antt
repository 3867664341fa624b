-- ===== src/Engine/Commit/Durable.antt =====
-- What Commit (engine/commit.go) leaves on disk.
use awf.Prelude.{
  ◌≡◌, refl, sym, ◌∙◌, Bytes, Bool, List, [], ◌∷◌, Option, none, some, ok, bytes_eq, Option-cases,
  Bool-cases, inl, inr,
}
use mathlib.Core.Path.{subst}
use awf.Prelude.Map.{Map, lookup, insert, lookup-insert}
use awf.Engine.Commit.{
  pure, put_blob, put_some, put_marshalled, put_files, put_session, with_stdout, with_files,
  with_transcript, with_session, put_artifacts, pick, some_bytes, is_blank, Product, Refs,
}
use awf.Engine.Events.{Object, Transcript}
use awf.State.Blobs.{PutFault, get}
use awf.State.Blobs.Address.{HashLaws}
use awf.Engine.Commit.Steps.{
  Sound, Injective, Ext, After, Post, After-then, Post-put_blob, Post-pure, Post-map, Post-eq,
}

module _ (sum256 : Bytes → Bytes) (laws : HashLaws sum256) (P : Bytes → Type 0)
    (injective : Injective sum256 P) (fault : Map Bytes → Bytes → PutFault)
    (marshal_object : Object → Option Bytes) (marshal_transcript : Transcript → Option Bytes) where
  -- The reference of an artifact, read back.
  abbrev pub Reads : Option Bytes → Map Bytes → Bytes → Type 0
  Reads none s ref = ref ≡ []
  Reads (some c) s ref = get sum256 s ref ≡ ok c

  abbrev pub ReadsMarshalled :
      {A : Type 0} → (A → Option Bytes) → Option A → Map Bytes → Bytes → Type 0
  ReadsMarshalled marshal none s ref = ref ≡ []
  ReadsMarshalled marshal (some a) s ref =
      (c : Bytes) × (marshal a ≡ some c) × (get sum256 s ref ≡ ok c)

  abbrev pub IfSome : Option Bytes → Type 0
  IfSome none = Unit
  IfSome (some c) = P c

  Post-put_some :
      (o : Option Bytes)
      → IfSome o
      → Post sum256 laws P injective
          (Reads o)
          (put_some sum256 fault marshal_object marshal_transcript o)
  unfolding put_some put_blob
  Post-put_some none p = Post-pure sum256 laws P injective (Reads none) [] (λ s. refl)
  Post-put_some (some c) p = Post-put_blob sum256 laws P injective fault c p

  Post-put_marshalled :
      {A : Type 0} (marshal : A → Option Bytes) (o : Option A)
      → ((a : A) (c : Bytes) → o ≡ some a → marshal a ≡ some c → P c)
      → Post sum256 laws P injective
          (ReadsMarshalled marshal o)
          (put_marshalled sum256 fault marshal_object marshal_transcript marshal o)
  unfolding put_marshalled put_blob
  Post-put_marshalled marshal none p =
      Post-pure sum256 laws P injective (ReadsMarshalled marshal none) [] (λ s. refl)
  Post-put_marshalled marshal (some a) p = elim (Option-cases (marshal a)) [
    | inl failed ↦ rw (failed, put_marshalled) (λ s sound. tt)
    | inr (c, bytes) ↦
        Post-eq sum256 laws P injective (ReadsMarshalled marshal (some a)) _ _
          (λ s. rw (bytes, put_marshalled))
          (Post-map sum256 laws P injective _ (ReadsMarshalled marshal (some a)) _
            (λ s ref held. (c, bytes, held))
            (Post-put_blob sum256 laws P injective fault c (p a c refl bytes)))
  ]

  -- Every reference of a map can be read.
  abbrev pub ReadsAll : Map Bytes → Map Bytes → Type 0
  ReadsAll s refs =
      (path ref : Bytes) → lookup path refs ≡ some ref → (c : Bytes) × (get sum256 s ref ≡ ok c)

  ReadsAll-Ext : (s s' refs : Map Bytes) → Ext sum256 s s' → ReadsAll s refs → ReadsAll s' refs
  ReadsAll-Ext s s' refs ext all path ref found =
      let (c, held) = all path ref found in (c, ext ref c held)

  Reads-Ext :
      (s s' : Map Bytes) (o : Option Bytes) (ref : Bytes)
      → Ext sum256 s s'
      → Reads o s ref
      → Reads o s' ref
  Reads-Ext s s' none ref ext h = h
  Reads-Ext s s' (some c) ref ext h = ext ref c h

  ReadsMarshalled-Ext :
      {A : Type 0} (marshal : A → Option Bytes) (s s' : Map Bytes) (o : Option A) (ref : Bytes)
      → Ext sum256 s s'
      → ReadsMarshalled marshal o s ref
      → ReadsMarshalled marshal o s' ref
  ReadsMarshalled-Ext marshal s s' none ref ext h = h
  ReadsMarshalled-Ext marshal s s' (some a) ref ext (c, bytes, held) = (c, bytes, ext ref c held)

  ReadsAll-insert :
      (s refs : Map Bytes) (path ref c : Bytes)
      → get sum256 s ref ≡ ok c
      → ReadsAll s refs
      → ReadsAll s (insert path ref refs)
  ReadsAll-insert s refs path ref c held all q r found = elim (Bool-cases (bytes_eq path q)) [
    | inl hit ↦
        let here : some ref ≡ some r = sym (lookup-insert path q ref refs ∙ rw hit) ∙ found in
        let same : ref ≡ r = cc here in (c, subst (λ x. get sum256 s x ≡ ok c) same held)
    | inr miss ↦ all q r (sym (lookup-insert path q ref refs ∙ rw miss) ∙ found)
  ]

  abbrev pub AllFiles : List (Bytes × Bytes) → Type 0
  AllFiles [] = Unit
  AllFiles ((path, c) ∷ files) = P c × AllFiles files

  Post-put_files :
      (files : List (Bytes × Bytes)) (acc s : Map Bytes)
      → AllFiles files
      → Sound sum256 P s
      → ReadsAll s acc
      → After sum256 laws P injective s ReadsAll
          (put_files sum256 fault marshal_object marshal_transcript acc files s)
  unfolding put_files put_blob
  Post-put_files [] acc s p sound all = (sound, λ ref c found. found, all)
  Post-put_files ((path, c) ∷ files) acc s p sound all =
      After-then sum256 laws P injective (λ s' ref. get sum256 s' ref ≡ ok c) ReadsAll
        (put_blob sum256 fault marshal_object marshal_transcript c)
        (λ ref.
          put_files sum256 fault marshal_object marshal_transcript (insert path ref acc) files)
        s (Post-put_blob sum256 laws P injective fault c p.0 s sound)
        (λ s1 ref sound1 ext held.
          Post-put_files files (insert path ref acc) s1 p.1 sound1
            (ReadsAll-insert s1 acc path ref c held (ReadsAll-Ext s s1 acc ext all)))

  no_refs : (s : Map Bytes) → ReadsAll s []
  unfolding lookup
  no_refs s path ref found = absurd (cc found)

  -- All artifacts of a product, under the references.
  abbrev pub Written : Product → Bool → Map Bytes → Refs → Type 0
  Written p participates s refs =
      ReadsMarshalled marshal_object p.outputs s refs.outputs
      × Reads (some_bytes p.stdout) s refs.stdout
      × ReadsAll s refs.files
      × ReadsMarshalled marshal_transcript (pick participates p.transcript) s refs.transcript

  -- The bytes that Commit stores are among those on which the hash does not collide.
  pub record Covered (p : Product) (participates : Bool) : Type 0 where
    pub outputs : (a : Object) (c : Bytes) → p.outputs ≡ some a → marshal_object a ≡ some c → P c
    pub stdout : IfSome (some_bytes p.stdout)
    pub files : AllFiles p.files
    pub transcript :
        (a : Transcript) (c : Bytes)
        → pick participates p.transcript ≡ some a
        → marshal_transcript a ≡ some c
        → P c
    pub session : IfSome (some_bytes p.session_transcript)

  Post-put_session :
      (p : Product)
      → IfSome (some_bytes p.session_transcript)
      → Post sum256 laws P injective
          (λ s ref. Unit {0})
          (put_session sum256 fault marshal_object marshal_transcript p)
  unfolding put_session
  Post-put_session p covered = elim (Bool-cases (is_blank p.session_ref)) [
    | inl new ↦ rw new (
        Post-map sum256 laws P injective (Reads (some_bytes p.session_transcript))
          (λ s ref. Unit {0}) _ (λ s ref q. tt)
          (Post-put_some (some_bytes p.session_transcript) covered))
    | inr known ↦
        rw known (Post-pure sum256 laws P injective (λ s ref. Unit {0}) p.session_ref (λ s. tt))
  ]

  pub put_artifacts-Written :
      (p : Product) (participates : Bool)
      → Covered p participates
      → Post sum256 laws P injective
          (Written p participates)
          (put_artifacts sum256 fault marshal_object marshal_transcript p participates)
  unfolding put_artifacts with_stdout with_files with_transcript with_session
  put_artifacts-Written p participates v s sound =
      After-then sum256 laws P injective (ReadsMarshalled marshal_object p.outputs)
        (Written p participates)
        (put_marshalled sum256 fault marshal_object marshal_transcript marshal_object p.outputs)
        (with_stdout sum256 fault marshal_object marshal_transcript p participates) s
        (Post-put_marshalled marshal_object p.outputs v.outputs s sound)
        λ s1 o sound1 e1 q1.
          After-then sum256 laws P injective (Reads (some_bytes p.stdout)) (Written p participates)
            (put_some sum256 fault marshal_object marshal_transcript (some_bytes p.stdout))
            (with_files sum256 fault marshal_object marshal_transcript p participates o) s1
            (Post-put_some (some_bytes p.stdout) v.stdout s1 sound1)
            λ s2 out sound2 e2 q2.
              After-then sum256 laws P injective ReadsAll (Written p participates)
                (put_files sum256 fault marshal_object marshal_transcript [] p.files)
                (with_transcript sum256 fault marshal_object marshal_transcript p participates o
                  out)
                s2 (Post-put_files p.files [] s2 v.files sound2 (no_refs s2))
                λ s3 files sound3 e3 q3.
                  After-then sum256 laws P injective
                    (ReadsMarshalled marshal_transcript (pick participates p.transcript))
                    (Written p participates)
                    (put_marshalled sum256 fault marshal_object marshal_transcript
                      marshal_transcript (pick participates p.transcript))
                    (with_session sum256 fault marshal_object marshal_transcript p o out files) s3
                    (Post-put_marshalled marshal_transcript (pick participates p.transcript)
                      v.transcript s3 sound3)
                    λ s4 tr sound4 e4 q4.
                      After-then sum256 laws P injective (λ s' ref. Unit {0})
                        (Written p participates)
                        (put_session sum256 fault marshal_object marshal_transcript p)
                        (λ se. pure (record {
                          outputs = o;
                          stdout = out;
                          files = files;
                          transcript = tr;
                          session = se;
                        }))
                        s4 (Post-put_session p v.session s4 sound4)
                        λ s5 session sound5 e5 q5.
                          let refs : Refs = record {
                            outputs = o;
                            stdout = out;
                            files = files;
                            transcript = tr;
                            session = session;
                          } in
                          let last : After sum256 laws P injective s5 (Written p participates)
                              (pure refs s5) =
                            (
                              sound5,
                              (λ ref c found. found),
                              (
                                ReadsMarshalled-Ext marshal_object s4 s5 p.outputs o e5 (
                                    ReadsMarshalled-Ext marshal_object s3 s4 p.outputs o e4 (
                                      ReadsMarshalled-Ext marshal_object s2 s3 p.outputs o e3 (
                                        ReadsMarshalled-Ext marshal_object s1 s2 p.outputs o e2
                                          q1))),
                                Reads-Ext s4 s5 (some_bytes p.stdout) out e5 (
                                    Reads-Ext s3 s4 (some_bytes p.stdout) out e4
                                      (Reads-Ext s2 s3 (some_bytes p.stdout) out e3 q2)),
                                ReadsAll-Ext s4 s5 files e5 (ReadsAll-Ext s3 s4 files e4 q3),
                                ReadsMarshalled-Ext marshal_transcript s4 s5
                                    (pick participates p.transcript) tr e5 q4,
                              ),
                            ) in
                          last
