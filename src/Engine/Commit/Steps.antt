-- ===== src/Engine/Commit/Steps.antt =====
-- Steps over the store of blobs (engine/commit.go, state/blobs.go) that keep what is stored.
use awf.Prelude.{
  ◌≡◌, refl, sym, ap, ◌∙◌, Bytes, some, Result, ok, err, bytes_eq, bytes_eq_iff, Bool-cases, inl,
  inr,
}
use mathlib.Core.Path.{subst}
use awf.Prelude.Map.{Map, lookup, insert, lookup-insert}
use awf.Engine.Commit.{CommitError, Puts, pure, go_on, and_then, lift_put}
use awf.State.Blobs.{BlobError, PutFault, put, get, hash_hex}
use awf.State.Blobs.Address.{HashLaws, NoCollision, put-cases, get-put, get-put_keeps}

-- Every stored blob stands under its hash and belongs to `P`, on which the hash does not collide.
module _ (sum256 : Bytes → Bytes) (P : Bytes → Type 0) where
  abbrev pub Sound : Map Bytes → Type 0
  Sound store = (h x : Bytes) → lookup h store ≡ some x → (hash_hex sum256 x ≡ h) × P x

  abbrev pub Injective : Type 0
  Injective = (c c' : Bytes) → P c → P c' → hash_hex sum256 c ≡ hash_hex sum256 c' → c ≡ c'

  Sound-insert :
      (store : Map Bytes) (c : Bytes)
      → P c
      → Sound store
      → Sound (insert (hash_hex sum256 c) c store)
  Sound-insert store c p sound h x found = elim (Bool-cases (bytes_eq (hash_hex sum256 c) h)) [
    | inl hit ↦
        let here : some c ≡ some x =
          sym (lookup-insert (hash_hex sum256 c) h c store ∙ rw hit) ∙ found in
        let same : c ≡ x = cc here in rw (← same) ((bytes_eq_iff (hash_hex sum256 c) h).0 hit, p)
    | inr miss ↦ sound h x (sym (lookup-insert (hash_hex sum256 c) h c store ∙ rw miss) ∙ found)
  ]

  Sound-put :
      (store : Map Bytes) (c : Bytes) (f : PutFault)
      → P c
      → Sound store
      → Sound (put sum256 store c f).0
  Sound-put store c f p sound = elim (put-cases sum256 store c f) [
    | inl same ↦ subst Sound (sym same) sound
    | inr more ↦ subst Sound (sym more) (Sound-insert store c p sound)
  ]

  NoCollision-Sound :
      (store : Map Bytes) (c : Bytes) → Injective → P c → Sound store → NoCollision sum256 store c
  NoCollision-Sound store c injective p sound earlier found =
      let (hash, q) = sound (hash_hex sum256 c) earlier found in injective earlier c q p hash

-- Whatever could be read can still be read.
abbrev pub Ext : (Bytes → Bytes) → Map Bytes → Map Bytes → Type 0
Ext sum256 s s' =
    (ref content : Bytes) → get sum256 s ref ≡ ok content → get sum256 s' ref ≡ ok content

module _ (sum256 : Bytes → Bytes) (laws : HashLaws sum256) (P : Bytes → Type 0)
    (injective : Injective sum256 P) where
  -- A step that succeeds keeps the store sound and readable, and its result has `Q`.
  abbrev pub After :
      {A : Type 0}
      → Map Bytes
      → (Map Bytes → A → Type 0)
      → Map Bytes × Result CommitError A
      → Type 0
  After s Q (s', ok a) = Sound sum256 P s' × Ext sum256 s s' × Q s' a
  After s Q (s', err e) = Unit

  abbrev pub Post : {A : Type 0} → (Map Bytes → A → Type 0) → Puts A → Type 0
  Post Q m = (s : Map Bytes) → Sound sum256 P s → After s Q (m s)

  pub After-then :
      {A B : Type 0} (Q : Map Bytes → A → Type 0) (R : Map Bytes → B → Type 0) (m : Puts A)
      (f : A → Puts B) (s : Map Bytes)
      → After s Q (m s)
      → ((s1 : Map Bytes) (a : A)
          → Sound sum256 P s1
          → Ext sum256 s s1
          → Q s1 a
          → After s1 R (f a s1))
      → After s R (and_then m f s)
  After-then {A} {B} Q R m f s h k = first (m s) h
    where
      later :
          (s1 : Map Bytes) (r : Map Bytes × Result CommitError B)
          → Ext sum256 s s1
          → After s1 R r
          → After s R r
      later s1 (s2, err e) ext done = tt
      later s1 (s2, ok b) ext (sound, ext', q) =
          (sound, λ ref c found. ext' ref c (ext ref c found), q)

      first : (r : Map Bytes × Result CommitError A) → After s Q r → After s R (go_on f r)
      first (s1, err e) done = tt
      first (s1, ok a) (sound1, ext, q) = later s1 (f a s1) ext (k s1 a sound1 ext q)

  pub Post-put_blob :
      (fault : Map Bytes → Bytes → PutFault) (c : Bytes)
      → P c
      → Post (λ s ref. get sum256 s ref ≡ ok c) (λ s. lift_put (put sum256 s c (fault s c)))
  Post-put_blob fault c p s sound = written (put sum256 s c (fault s c)) refl
    where
      written :
          (r : Map Bytes × Result BlobError Bytes)
          → put sum256 s c (fault s c) ≡ r
          → After s (λ s' ref. get sum256 s' ref ≡ ok c) (lift_put r)
      written (s', err e) h = tt
      written (s', ok ref) h =
          let store : (put sum256 s c (fault s c)).0 ≡ s' = ap (λ r. r.0) h in
          let done : (put sum256 s c (fault s c)).1 ≡ ok ref = ap (λ r. r.1) h in
          let fresh = NoCollision-Sound sum256 P s c injective p sound in
          (
            subst (Sound sum256 P) store (Sound-put sum256 P s c (fault s c) p sound),
            subst (Ext sum256 s) store
                (λ ref' content held. get-put_keeps sum256 laws s c ref' content (fault s c) held),
            subst (λ x. get sum256 x ref ≡ ok c) store
                (get-put sum256 laws s c ref (fault s c) fresh done),
          )

  pub Post-map :
      {A : Type 0} (Q R : Map Bytes → A → Type 0) (m : Puts A)
      → ((s : Map Bytes) (a : A) → Q s a → R s a)
      → Post Q m
      → Post R m
  Post-map {A} Q R m f h s sound = weaker (m s) (h s sound)
    where
      weaker : (r : Map Bytes × Result CommitError A) → After s Q r → After s R r
      weaker (s', err e) done = tt
      weaker (s', ok a) (sound', ext, q) = (sound', ext, f s' a q)

  pub Post-eq :
      {A : Type 0} (Q : Map Bytes → A → Type 0) (m m' : Puts A)
      → ((s : Map Bytes) → m s ≡ m' s)
      → Post Q m'
      → Post Q m
  Post-eq Q m m' same h s sound = subst (After s Q) (sym (same s)) (h s sound)

  pub Post-pure :
      {A : Type 0} (Q : Map Bytes → A → Type 0) (a : A)
      → ((s : Map Bytes) → Q s a)
      → Post Q (pure a)
  Post-pure Q a h s sound = (sound, λ ref c found. found, h s)
