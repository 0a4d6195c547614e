-- ===== src/Db/Sharded.antt =====
-- The sub-DBs of an account DB (core/context.go: getAccountDBIndex, getQueryDB, getCalcDB): a list
-- of stores, each with the addresses of its index, as one store. An index is below the number of
-- the sub-DBs; where it were not, the code would panic, and here the list is filled up.
use rewardcalculator.Base.{
  ℕ, nat_eq, zero, suc, ◌+◌, ◌-◌, ◌≡◌, refl, sym, ap, ◌∙◌, arith, Bool, true, false, Option, none,
  some, List, [], ◌∷◌, ◌++◌, leb, ◌==◌, ◌&&◌, ◌=?◌, if◌then◌else◌, lookup, DistinctKeys,
  lookup-append, Bool-cases, inl, inr,
}
use rewardcalculator.Db.Engine.{Engine}

-- Two lists with no key in common: a test holds of the keys of the first only.
disjoint_append :
    {V : Type 0}
    → (own : ℕ → Bool) (l m : List (ℕ × V)) → DistinctKeys l
    → DistinctKeys m
    → ((k : ℕ) → own k ≡ false → lookup k l ≡ none)
    → ((k : ℕ) → own k ≡ true → lookup k m ≡ none)
    → DistinctKeys (l ++ m)
disjoint_append own [] m d d' h h' = d'
disjoint_append own ((k, v) ∷ l) m d d' h h' =
    let yours : own k ≡ true = ground (arith, h k) in
    let later : (j : ℕ) → own j ≡ false → lookup j l ≡ none =
      λ j other. ground (arith, h j other) in
    (lookup-append l m k ∙ rw (d.0, h' k yours) refl, disjoint_append own l m d.1 d' later h')

module _ {V : Type 0} (S : Engine ℕ V) (empty : S.Table)
    (empty_get : (j : ℕ) → S.get empty j ≡ none) (address_index : ℕ → ℕ) where
  unfoldable pub shard : List S.Table → ℕ → S.Table
  shard [] i = empty
  shard (t ∷ ts) zero = t
  shard (t ∷ ts) (suc i) = shard ts i

  unfoldable pub put : List S.Table → ℕ → S.Table → List S.Table
  put [] zero t = t ∷ []
  put [] (suc i) t = empty ∷ put [] i t
  put (x ∷ xs) zero t = t ∷ xs
  put (x ∷ xs) (suc i) t = x ∷ put xs i t

  shard-put :
      (ts : List S.Table) (i : ℕ) (t : S.Table) (j : ℕ)
      → shard (put ts i t) j ≡ (if i == j then t else shard ts j)
  unfolding shard put
  shard-put [] zero t zero = refl
  shard-put [] zero t (suc j) = ground arith
  shard-put [] (suc i) t zero = ground arith
  shard-put [] (suc i) t (suc j) =
      shard-put [] i t j ∙ (let same : (suc i == suc j) ≡ (i == j) = ground arith in rw same refl)
  shard-put (x ∷ xs) zero t zero = refl
  shard-put (x ∷ xs) zero t (suc j) = ground arith
  shard-put (x ∷ xs) (suc i) t zero = ground arith
  shard-put (x ∷ xs) (suc i) t (suc j) =
      shard-put xs i t j ∙ (let same : (suc i == suc j) ≡ (i == j) = ground arith in rw same refl)

  unfoldable pub get : List S.Table → ℕ → Option V
  unfolding shard
  get ts address = S.get (shard ts (address_index address)) address

  unfoldable pub set : List S.Table → ℕ → V → List S.Table
  unfolding shard put
  set ts address v =
      put ts (address_index address) (S.set (shard ts (address_index address)) address v)

  unfoldable pub delete : List S.Table → ℕ → List S.Table
  unfolding shard put
  delete ts address =
      put ts (address_index address) (S.delete (shard ts (address_index address)) address)

  -- The iterators of the sub-DBs from number `i` on, one after the other.
  unfoldable pub iterate_from : ℕ → List S.Table → (ℕ → Bool) → List (ℕ × V)
  iterate_from i [] p = []
  iterate_from i (t ∷ ts) p =
      S.iterate t (λ a. p a && address_index a == i) ++ iterate_from (i + 1) ts p

  get-put :
      (ts : List S.Table) (i : ℕ) (t : S.Table) (j : ℕ)
      → get (put ts i t) j ≡ (if i == address_index j then S.get t j else get ts j)
  unfolding get
  get-put ts i t j =
      ap (λ s. S.get s j) (shard-put ts i t (address_index j))
      ∙ (elim (Bool-cases (i == address_index j)) [
        | inl own ↦ rw own refl
        | inr other ↦ rw other refl
      ])

  apart : (k j : ℕ) → (address_index k == address_index j) ≡ false → (k == j) ≡ false
  apart k j far = elim (Bool-cases (k == j)) [
    | inl same ↦
        let eq : address_index k ≡ address_index j = ap address_index (ground (arith, same)) in
        absurd (ground (arith, far, eq))
    | inr other ↦ other
  ]

  -- A write to the shard of `k` changes what `k` finds and nothing else.
  written :
      (ts : List S.Table) (k j : ℕ) (o : Option V) {found : Option V}
      → found ≡ (if k =? j then o else S.get (shard ts (address_index k)) j)
      → (if address_index k == address_index j then found else get ts j)
        ≡ (if k =? j then o else get ts j)
  unfolding get
  written ts k j o h = elim (Bool-cases (address_index k == address_index j)) [
    | inl near ↦
        let same : address_index k ≡ address_index j = ground (arith, near) in
        rw (near, h, same) refl
    | inr far ↦ let other : (k == j) ≡ false = apart k j far in rw (far, other) refl
  ]

  pub get-set :
      (ts : List S.Table) (k : ℕ) (v : V) (j : ℕ)
      → get (set ts k v) j ≡ (if k =? j then some v else get ts j)
  unfolding set get
  get-set ts k v j =
      get-put ts (address_index k) (S.set (shard ts (address_index k)) k v) j
      ∙ written ts k j (some v) (S.get-set (shard ts (address_index k)) k v j)

  pub get-delete :
      (ts : List S.Table) (k : ℕ) (j : ℕ)
      → get (delete ts k) j ≡ (if k =? j then none else get ts j)
  unfolding delete get
  get-delete ts k j =
      get-put ts (address_index k) (S.delete (shard ts (address_index k)) k) j
      ∙ written ts k j none (S.get-delete (shard ts (address_index k)) k j)

  inside : ℕ → (ℕ → Bool) → ℕ → Bool
  inside i p k = p k && leb i (address_index k)

  first : Option V → Option V → Option V
  first none o = o
  first (some v) o = some v

  lookup-both : (l m : List (ℕ × V)) (k : ℕ) → lookup k (l ++ m) ≡ first (lookup k l) (lookup k m)
  unfolding first
  lookup-both [] m k = refl
  lookup-both ((j, v) ∷ l) m k = elim (Bool-cases (j == k)) [
    | inl own ↦ rw own refl
    | inr other ↦ rw other (lookup-both l m k)
  ]

  nothing : (b : Bool) (k : ℕ) → none ≡ (if b then S.get empty k else none)
  nothing true k = sym (empty_get k)
  nothing false k = refl

  first_none : (o : Option V) → first o none ≡ o
  unfolding first
  first_none none = refl
  first_none (some v) = refl

  -- The shard of `k` is the first one, or among the others.
  one_or_rest :
      (t : S.Table) (ts : List S.Table) (i : ℕ) (p : ℕ → Bool) (k : ℕ)
      → first
          (if p k && address_index k == i then S.get t k else none)
          (if inside (i + 1) p k then S.get (shard ts (address_index k - (i + 1))) k else none)
        ≡ (if inside i p k then S.get (shard (t ∷ ts) (address_index k - i)) k else none)
  unfolding inside first shard
  one_or_rest t ts i p k = elim (Bool-cases (p k)) [
    | inr unwanted ↦ rw unwanted refl
    | inl wanted ↦ elim (Bool-cases (address_index k == i)) [
      | inl here ↦
          let later : leb (i + 1) (address_index k) ≡ false = ground (arith, here) in
          let from : leb i (address_index k) ≡ true = ground (arith, here) in
          let at : address_index k - i ≡ 0 = ground (arith, here) in
          rw (wanted, here, later, from, at) (first_none (S.get t k))
      | inr there ↦
          let same : leb (i + 1) (address_index k) ≡ leb i (address_index k) =
            ground (arith, there) in
          rw (wanted, there, same)
            (elim (Bool-cases (leb i (address_index k))) [
              | inl from ↦
                  let next : address_index k - i ≡ suc (address_index k - (i + 1)) =
                    ground (arith, there, from) in
                  rw (from, next) refl
              | inr before ↦ rw before refl
            ])
    ]
  ]

  both : {a a' b b' : Option V} → a ≡ a' → b ≡ b' → first a b ≡ first a' b'
  both h h' = λ i. first (h i) (h' i)

  lookup-iterate_from :
      (ts : List S.Table) (i : ℕ) (p : ℕ → Bool) (k : ℕ)
      → lookup k (iterate_from i ts p)
        ≡ (if inside i p k then S.get (shard ts (address_index k - i)) k else none)
  unfolding iterate_from shard
  lookup-iterate_from [] i p k = nothing (inside i p k) k
  lookup-iterate_from (t ∷ ts) i p k =
      lookup-both (S.iterate t (λ a. p a && address_index a == i)) (iterate_from (i + 1) ts p) k
      ∙ both (S.lookup-iterate t (λ a. p a && address_index a == i) k)
          (lookup-iterate_from ts (i + 1) p k)
      ∙ one_or_rest t ts i p k

  off : (a b : Bool) (o : Option V) → b ≡ false → (if a && b then o else none) ≡ none
  off true b o h = rw h refl
  off false b o h = refl

  on :
      (a b : Bool) (o o' : Option V)
      → b ≡ true
      → o ≡ o'
      → (if a && b then o else none) ≡ (if a then o' else none)
  on true b o o' h e = rw h e
  on false b o o' h e = refl

  pub iterate_from-DistinctKeys :
      (ts : List S.Table) (i : ℕ) (p : ℕ → Bool) → DistinctKeys (iterate_from i ts p)
  unfolding iterate_from inside
  iterate_from-DistinctKeys [] i p = tt
  iterate_from-DistinctKeys (t ∷ ts) i p =
      disjoint_append (λ a. address_index a == i) (S.iterate t (λ a. p a && address_index a == i))
        (iterate_from (i + 1) ts p) (S.iterate-DistinctKeys t (λ a. p a && address_index a == i))
        (iterate_from-DistinctKeys ts (i + 1) p)
        (λ k other.
          S.lookup-iterate t (λ a. p a && address_index a == i) k
          ∙ off (p k) (address_index k == i) (S.get t k) other)
        (λ k own.
          lookup-iterate_from ts (i + 1) p k
          ∙ off (p k) (leb (i + 1) (address_index k))
              (S.get (shard ts (address_index k - (i + 1))) k) (ground (arith, own)))

  pub lookup-iterate :
      (ts : List S.Table) (p : ℕ → Bool) (k : ℕ)
      → lookup k (iterate_from 0 ts p) ≡ (if p k then get ts k else none)
  unfolding get inside
  lookup-iterate ts p k =
      let all : leb 0 (address_index k) ≡ true = ground arith in
      let at : address_index k - 0 ≡ address_index k = omega arith in
      lookup-iterate_from ts 0 p k
      ∙ on (p k) (leb 0 (address_index k)) (S.get (shard ts (address_index k - 0)) k) (get ts k) all
          (rw at refl)

  abbrev pub engine : Engine ℕ V
  engine = record {
    Table = List S.Table;
    get = get;
    set = set;
    delete = delete;
    iterate = λ ts p. iterate_from 0 ts p;
    get-set = λ ts k v j. get-set ts k v j;
    get-delete = λ ts k j. get-delete ts k j;
    lookup-iterate = λ ts p k. lookup-iterate ts p k;
    iterate-DistinctKeys = λ ts p. iterate_from-DistinctKeys ts 0 p;
  }
