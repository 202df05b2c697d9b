-- ===== src/Preprocess/Names.antt =====
-- partition/preprocess/criteoTB_script/merge_result.cpp: the new numbers of the keys, against the list
-- of the keys that they stand for.
use max_embed.Prelude.{
  ℕ, ◌+◌, ◌^◌, ◌≤◌, ◌<◌, ◌≡◌, refl, sym, ap, subst, ◌∙◌, List, [], ◌∷◌, ◌++◌, none, some, arith,
  ◌==◌, All, All-map, All-append, map, length, length-append, get_or, get_or-append_left,
  get_or-append_last, count, count-append, length_of_count-le, Bool-cases, Option-cases, ==→eq, inl,
  inr,
}
use mathlib.Core.List.{append-nil, append_assoc, map-append}
use max_embed.Words.{u32}
use max_embed.Preprocess.Merge.{Reindexer, find_key, reindex_key, reindex}

-- The keys that new numbers stand for.
abbrev pub decode : List ℕ → List ℕ → List ℕ
decode names = map (λ i. get_or names i 0)

-- `names` holds each key of the map once, at its new number.
pub record IsNaming (names : List ℕ) (r : Reindexer) : Type 0 where
  pub size : r.node_cnt ≡ length names
  pub known : (k v : ℕ) → find_key k r.key ≡ some v → (v < length names) × (get_or names v 0 ≡ k)
  pub unknown : (k : ℕ) → find_key k r.key ≡ none → count k names ≡ 0
  pub once : (k : ℕ) → count k names ≤ 1

pub decode-append :
    (names more ids : List ℕ)
    → All (λ i. i < length names) ids
    → decode (names ++ more) ids ≡ decode names ids
decode-append names more [] h = refl
decode-append names more (i ∷ ids) h =
    rw (get_or-append_left names more i 0 h.0, decode-append names more ids h.1)

pub bound-append :
    (names more ids : List ℕ)
    → All (λ i. i < length names) ids
    → All (λ i. i < length (names ++ more)) ids
bound-append names more ids h = All-map ids (λ i l. omega (arith, l, length-append names more)) h

-- What numbering some keys adds to the names.
pub record IsNumbered (names more keys ids : List ℕ) (r : Reindexer) : Type 0 where
  pub naming : IsNaming (names ++ more) r
  pub bound : All (λ i. i < length (names ++ more)) ids
  pub decoded : decode (names ++ more) ids ≡ keys
  pub seen : (k : ℕ) → count k more ≤ count k keys

some-injective : {a b : ℕ} → some a ≡ some b → a ≡ b
some-injective e = cc

-- Keys that are all known add no name.
nothing_new :
    (names keys ids : List ℕ) (r : Reindexer)
    → IsNaming names r
    → All (λ i. i < length names) ids
    → decode names ids ≡ keys
    → IsNumbered names [] keys ids r
nothing_new names keys ids r n b d =
    let e = sym (append-nil names) in
    record {
      naming = subst (λ ns. IsNaming ns r) e n;
      bound = subst (λ ns. All (λ i. i < length ns) ids) e b;
      decoded = subst (λ ns. decode ns ids ≡ keys) e d;
      seen = λ k. omega arith;
    }

-- Some keys and then others.
pub both :
    (names m1 m2 ks1 ks2 ids1 ids2 : List ℕ) (r1 r2 : Reindexer)
    → IsNumbered names m1 ks1 ids1 r1
    → IsNumbered (names ++ m1) m2 ks2 ids2 r2
    → IsNumbered names (m1 ++ m2) (ks1 ++ ks2) (ids1 ++ ids2) r2
both names m1 m2 ks1 ks2 ids1 ids2 r1 r2 a b =
    let e = append_assoc names m1 m2 in
    record {
      naming = subst (λ ns. IsNaming ns r2) e b.naming;
      bound =
          subst (λ ns. All (λ i. i < length ns) (ids1 ++ ids2)) e
            (All-append _ ids1 ids2 (bound-append (names ++ m1) m2 ids1 a.bound) b.bound);
      decoded =
          subst (λ ns. decode ns (ids1 ++ ids2) ≡ ks1 ++ ks2) e
            (map-append _ ids1 ids2
              ∙ rw (decode-append (names ++ m1) m2 ids1 a.bound, a.decoded, b.decoded) refl);
      seen = λ k. omega (arith, a.seen k, b.seen k, count-append k m1 m2, count-append k ks1 ks2);
    }

add_name :
    (names : List ℕ) (r : Reindexer) (k : ℕ)
    → IsNaming names r
    → length names < 2 ^ 32
    → find_key k r.key ≡ none
    → IsNaming
        (names ++ k ∷ [])
        (record { key = (k, u32 r.node_cnt) ∷ r.key; node_cnt = r.node_cnt + 1 })
unfolding find_key
add_name names r k n small new = record {
  size = omega (arith, n.size, length-append names (k ∷ []));
  known = known;
  unknown = λ j e. ground (arith, n.unknown j, count-append j names (k ∷ []));
  once = λ j. ground (arith, n.once j, n.unknown k new, count-append j names (k ∷ []), ==→eq k j);
}
  where
    id : u32 r.node_cnt ≡ length names
    id = omega (arith, n.size)

    known :
        (j v : ℕ)
        → find_key j ((k, u32 r.node_cnt) ∷ r.key) ≡ some v
        → (v < length (names ++ k ∷ [])) × (get_or (names ++ k ∷ []) v 0 ≡ j)
    known j v e = elim (Bool-cases (k == j)) [
      | inl same ↦
          let at : u32 r.node_cnt ≡ v = some-injective (rw (same, find_key) at e) in
          (
            omega (arith, at, id, length-append names (k ∷ [])),
            get_or-append_last names k v 0 (omega (arith, at, id)) ∙ ==→eq k j same,
          )
      | inr other ↦
          let (l, at) = n.known j v (rw (other, find_key) at e) in
          (
            omega (arith, l, length-append names (k ∷ [])),
            get_or-append_left names (k ∷ []) v 0 l ∙ at,
          )
    ]

reindex_key-names :
    (names : List ℕ) (r : Reindexer) (k : ℕ)
    → IsNaming names r
    → length names < 2 ^ 32
    → (more : List ℕ) × IsNumbered names more
        (k ∷ [])
        ((reindex_key k r).0 ∷ [])
        (reindex_key k r).1
unfolding reindex_key
reindex_key-names names r k n small = elim (Option-cases (find_key k r.key)) [
  | inl new ↦
      rw (new, reindex_key)
        (
          k ∷ [],
          record {
            naming = add_name names r k n small new;
            bound = (omega (arith, n.size, length-append names (k ∷ [])), tt);
            decoded =
                ap (λ i. i ∷ [])
                  (get_or-append_last names k (u32 r.node_cnt) 0 (omega (arith, n.size)));
            seen = λ j. omega arith;
          },
        )
  | inr (v, old) ↦
      rw (old, reindex_key)
        (
          [],
          nothing_new names (k ∷ []) (v ∷ []) r n ((n.known k v old).0, tt)
              (ap (λ j. j ∷ []) (n.known k v old).1),
        )
]

pub reindex-names :
    (names : List ℕ) (keys : List ℕ) (r : Reindexer)
    → IsNaming names r
    → length names + length keys < 2 ^ 32
    → (more : List ℕ) × IsNumbered names more keys (reindex keys r).0 (reindex keys r).1
unfolding reindex
reindex-names names [] r n small = ([], nothing_new names [] [] r n tt refl)
reindex-names names (k ∷ keys) r n small =
    let (m1, a) = reindex_key-names names r k n (omega arith) in
    let one = length_of_count-le m1 (k ∷ []) a.seen in
    let (m2, b) =
      reindex-names (names ++ m1) keys (reindex_key k r).1 a.naming
        (omega (arith, one, length-append names m1)) in
    (m1 ++ m2, both names m1 m2 (k ∷ []) keys _ _ _ _ a b)
