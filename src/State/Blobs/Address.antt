-- ===== src/State/Blobs/Address.antt =====
-- Put and Get (state/blobs.go) by the address of a content.
use awf.Prelude.{
  ◌⊎◌, ◌≡◌, refl, sym, ◌∙◌, ap, Bytes, [], ◌∷◌, ◌++◌, length, drop, true, Option, none, some, arith,
  bytes_eq_iff, bytes_eq_refl, ok, Option-cases, inl, inr, >>=-eq-ok,
}
use awf.Prelude.Map.{insert, Map, lookup, lookup-insert}
use awf.State.Blobs.{
  no_fault, before_rename, after_rename, PutFault, put, get, ref_for, hash_hex, checked,
  blob_ref_prefix, parse_ref, has_prefix,
}
use awf.State.Blobs.Hex.{AreBytes, parse_ref-encode_to_string}

-- A SHA-256 sum is 32 bytes.
pub record HashLaws (sum256 : Bytes → Bytes) : Type 0 where
  pub length-sum256 : (c : Bytes) → length (sum256 c) ≡ 32
  pub sum256-bytes : (c : Bytes) → AreBytes (sum256 c)

has_prefix→append : (s p : Bytes) → has_prefix s p ≡ true → s ≡ p ++ drop (length p) s
unfolding has_prefix
has_prefix→append s [] h = refl
has_prefix→append [] (p ∷ ps) h = cc h
has_prefix→append (c ∷ cs) (p ∷ ps) h = ground (arith, has_prefix→append cs ps)

parse_ref→append : (ref hash : Bytes) → parse_ref ref ≡ ok hash → ref ≡ blob_ref_prefix ++ hash
unfolding parse_ref
parse_ref→append ref hash h = ground (arith, has_prefix→append ref blob_ref_prefix)

module _ (sum256 : Bytes → Bytes) where
  -- No other content with the same sum is in the store.
  abbrev pub NoCollision : Map Bytes → Bytes → Type 0
  NoCollision store content =
      (earlier : Bytes) → lookup (hash_hex sum256 content) store ≡ some earlier → earlier ≡ content

  -- What Get returns has the address that was asked for: content that does not match its reference
  -- is never passed on.
  pub get_addressed :
      (store : Map Bytes) (ref content : Bytes)
      → get sum256 store ref ≡ ok content
      → ref ≡ ref_for sum256 content
  unfolding get ref_for
  get_addressed store ref content h =
      let parsed = >>=-eq-ok (parse_ref ref) (λ hash. checked sum256 hash (lookup hash store)) h in
      let hash = parsed.0 in
      let address = parse_ref→append ref hash parsed.1 in
      let same : hash_hex sum256 content ≡ hash =
        ground (arith, parsed.2, bytes_eq_iff (hash_hex sum256 content) hash) in
      address ∙ ap (λ r. blob_ref_prefix ++ r) (sym same)

  put_stored :
      (store : Map Bytes) (c ref : Bytes) (fault : PutFault)
      → NoCollision store c
      → (put sum256 store c fault).1 ≡ ok ref
      → (ref ≡ ref_for sum256 c)
        × (lookup (hash_hex sum256 c) (put sum256 store c fault).0 ≡ some c)
  unfolding put
  put_stored store c ref fault fresh done =
      let key = hash_hex sum256 c in
      elim (Option-cases (lookup key store)) [
        | inl free ↦ ground (arith, free, lookup-insert key key c store, bytes_eq_refl key)
        | inr (earlier, held) ↦ ground (arith, held, fresh earlier held)
      ]

  put_keeps :
      (store : Map Bytes) (c h x : Bytes) (fault : PutFault)
      → lookup h store ≡ some x
      → lookup h (put sum256 store c fault).0 ≡ some x
  unfolding put
  put_keeps store c h x fault there =
      let key = hash_hex sum256 c in
      elim (Option-cases (lookup key store)) [
        | inl free ↦ ground (arith, free, there, lookup-insert key h c store, bytes_eq_iff key h)
        | inr (earlier, held) ↦ ground (arith, held, there)
      ]

  -- A Put leaves the store, or adds the content under its hash.
  pub put-cases :
      (store : Map Bytes) (c : Bytes) (fault : PutFault)
      → ((put sum256 store c fault).0 ≡ store)
        ⊎ ((put sum256 store c fault).0 ≡ insert (hash_hex sum256 c) c store)
  unfolding put
  put-cases store c no_fault = elim (Option-cases (lookup (hash_hex sum256 c) store)) [
    | inl free ↦ inr (rw (free, put))
    | inr (earlier, held) ↦ inl (rw (held, put))
  ]
  put-cases store c before_rename = elim (Option-cases (lookup (hash_hex sum256 c) store)) [
    | inl free ↦ inl (rw (free, put))
    | inr (earlier, held) ↦ inl (rw (held, put))
  ]
  put-cases store c after_rename = elim (Option-cases (lookup (hash_hex sum256 c) store)) [
    | inl free ↦ inr (rw (free, put))
    | inr (earlier, held) ↦ inl (rw (held, put))
  ]

  checked-eq-ok :
      (hash : Bytes) (o : Option Bytes) (content : Bytes)
      → checked sum256 hash o ≡ ok content
      → (o ≡ some content) × (hash_hex sum256 content ≡ hash)
  unfolding checked
  checked-eq-ok hash none content h = cc h
  checked-eq-ok hash (some x) content h = ground (arith, bytes_eq_iff (hash_hex sum256 x) hash)

module _ (sum256 : Bytes → Bytes) (laws : HashLaws sum256) where
  parse_ref-ref_for : (c : Bytes) → parse_ref (ref_for sum256 c) ≡ ok (hash_hex sum256 c)
  unfolding ref_for
  parse_ref-ref_for c =
      parse_ref-encode_to_string (sum256 c) (laws.length-sum256 c) (laws.sum256-bytes c)

  get_stored :
      (store : Map Bytes) (c : Bytes)
      → lookup (hash_hex sum256 c) store ≡ some c
      → get sum256 store (ref_for sum256 c) ≡ ok c
  unfolding get
  get_stored store c h =
      rw (parse_ref-ref_for c, h) (ground (arith, bytes_eq_refl (hash_hex sum256 c)))

  -- With a hash of 32 bytes, and no other content of the same hash in the store, a Put that
  -- returns a reference has made the content available under it.
  pub get-put :
      (store : Map Bytes) (c ref : Bytes) (fault : PutFault)
      → NoCollision sum256 store c
      → (put sum256 store c fault).1 ≡ ok ref
      → get sum256 (put sum256 store c fault).0 ref ≡ ok c
  get-put store c ref fault fresh done =
      let stored = put_stored sum256 store c ref fault fresh done in
      rw stored.0 (get_stored (put sum256 store c fault).0 c stored.1)

  -- With a hash of 32 bytes, a Put, whether it fails or not, leaves each blob that could be read
  -- readable with the same content.
  pub get-put_keeps :
      (store : Map Bytes) (c ref content : Bytes) (fault : PutFault)
      → get sum256 store ref ≡ ok content
      → get sum256 (put sum256 store c fault).0 ref ≡ ok content
  unfolding get
  get-put_keeps store c ref content fault held =
      let parsed =
        >>=-eq-ok (parse_ref ref) (λ hash. checked sum256 hash (lookup hash store)) held in
      let there = checked-eq-ok sum256 parsed.0 (lookup parsed.0 store) content parsed.2 in
      let kept = put_keeps sum256 store c parsed.0 content fault there.0 in
      rw (parsed.1, kept) (rw there.0 at parsed.2)
